-- ===== src/Rtcp/Tests.antt =====
-- Runs of src/nano_rtcp.c on small inputs.
use nanortc.Prelude.{
  List, [], arith, done, error, fault, invalid_param, length, refl, true, ℕ, ◌-◌, ◌<◌, ◌>>=◌, ◌^◌,
  ◌∷◌, ◌≡◌, ◌≢◌,
}
use nanortc.Rtcp.{
  Info, Rtcp, blank, fraction_lost, generate_nack, generate_pli, generate_rr, generate_sr,
  header_size, init, parse_packet, psfb_type, rr_type, rtpfb_type, sr_type,
}
use nanortc.Rtcp.RoundTrip.{
  IsWords, parse-generate_nack, parse-generate_rr, parse-generate_sr, share,
}
use nanortc.Rtcp.Safety.{Read, parse_packet_safe}

-- A receiver that lost 5 of 20 packets.
abbrev lossy : Rtcp
lossy = record (init 7) { packets_received = 15; packets_lost = 5; max_seq = 900; jitter = 12 }

lossy-IsWords : IsWords lossy
unfolding init
lossy-IsWords = record {
  ssrc_word = omega arith;
  sent_word = omega arith;
  octets_word = omega arith;
}

parse-generate_sr_example :
    (generate_sr lossy 1 2 3 28 >>= parse_packet)
    ≡ done (record (blank sr_type lossy.ssrc) {
      ntp_sec = 1;
      ntp_frac = 2;
      rtp_ts = 3;
      sr_packets = lossy.packets_sent;
      sr_octets = lossy.octets_sent;
    })
parse-generate_sr_example =
    parse-generate_sr lossy 1 2 3 28 lossy-IsWords (omega arith) (omega arith) (omega arith)
      (omega arith)

parse-generate_rr_example :
    (generate_rr lossy 99 64 >>= parse_packet)
    ≡ done (record (blank rr_type lossy.ssrc) {
      rb_valid = true;
      rb_source_ssrc = 99;
      rb_fraction_lost = share lossy;
    })
unfolding init
parse-generate_rr_example =
    parse-generate_rr lossy 99 64 lossy-IsWords (omega arith) (omega arith) (omega arith)
      (omega arith)

lossy-share : share lossy ≡ 64
unfolding init
lossy-share = refl

parse-generate_nack_example :
    ((generate_nack 1 2 500 3 16 >>= parse_packet)
      ≡ done (record (blank rtpfb_type 1) { nack_media_ssrc = 2; nack_pid = 500; nack_blp = 3 }))
    × ((generate_pli 1 2 16 >>= parse_packet)
        ≡ done (record (blank psfb_type 1) { psfb_media_ssrc = 2 }))
parse-generate_nack_example =
    parse-generate_nack 1 2 500 3 16 (omega arith) (omega arith) (omega arith) (omega arith)
      (omega arith)

-- A receiver report that claims a block and ends after its header.
abbrev no_block : List ℕ
no_block = 0x81 ∷ 201 ∷ 0 ∷ 1 ∷ 0 ∷ 0 ∷ 0 ∷ 7 ∷ []

parse_packet_safe_example :
    (parse_packet no_block ≢ fault)
    × (parse_packet no_block ≡ error invalid_param → length no_block < header_size)
    × ((info : Info) → parse_packet no_block ≡ done info → Read no_block info)
parse_packet_safe_example = parse_packet_safe no_block

-- A sum of packets that wraps around to 0 is divided by.
wraps_around :
    generate_rr (record (init 7) { packets_received = 1; packets_lost = 2 ^ 32 - 1 }) 99 64 ≡ fault
unfolding generate_rr fraction_lost init
wraps_around = refl
