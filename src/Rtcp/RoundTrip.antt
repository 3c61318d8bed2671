-- ===== src/Rtcp/RoundTrip.antt =====
-- rtcp_parse gives back what the generators of src/nano_rtcp.c write.
use nanortc.Prelude.{
  ==_ne, Bool-cases, arith, done, fail_if, if◌then◌else◌, inl, inr, join16, join32, le→ltb, ltb,
  read, read_u16be, read_u32be, true, ℕ, ◌%◌, ◌&&◌, ◌*◌, ◌+◌, ◌/◌, ◌<◌, ◌>>=◌, ◌^◌, ◌≡◌, ◌≤◌,
}
use native.Mathlib.Nat.{div-lt_iff_lt-mul}
use nanortc.Rtcp.{
  Rtcp, blank, fraction_lost, generate_nack, generate_pli, generate_rr, generate_sr, lost_bytes,
  nack_size, parse_body, parse_packet, parse_psfb, parse_rtpfb, parse_sr, pli_size, psfb_type,
  report_block, rr_size, rr_type, rtpfb_type, sr_size, sr_type, write_header,
}

-- The words that a report carries are in the range of their type.
pub record IsWords (rtcp : Rtcp) : Type 0 where
  pub ssrc_word : rtcp.ssrc < 2 ^ 32
  pub sent_word : rtcp.packets_sent < 2 ^ 32
  pub octets_word : rtcp.octets_sent < 2 ^ 32

-- A NACK and a PLI with fields in the ranges of their types, written to a buffer with room, are
-- read back with the media source, the first lost number and the bit mask.
pub parse-generate_nack :
    (ssrc media_ssrc seq blp buf_len : ℕ)
    → ssrc < 2 ^ 32
    → media_ssrc < 2 ^ 32
    → seq < 2 ^ 16
    → blp < 2 ^ 16
    → nack_size ≤ buf_len
    → ((generate_nack ssrc media_ssrc seq blp buf_len >>= parse_packet)
        ≡ done (record (blank rtpfb_type ssrc) {
          nack_media_ssrc = media_ssrc;
          nack_pid = seq;
          nack_blp = blp;
        }))
      × ((generate_pli ssrc media_ssrc buf_len >>= parse_packet)
          ≡ done (record (blank psfb_type ssrc) { psfb_media_ssrc = media_ssrc }))
unfolding generate_nack generate_pli write_header parse_packet parse_body parse_rtpfb parse_psfb
    read read_u16be read_u32be fail_if
parse-generate_nack ssrc media_ssrc seq blp buf_len a b c d e = (
  rw (le→ltb buf_len nack_size e, join32 ssrc a, join32 media_ssrc b, join16 seq c, join16 blp d),
  rw (le→ltb buf_len pli_size (omega arith), join32 ssrc a, join32 media_ssrc b),
)

-- A sender report of a state and clock words in the ranges of their types, written to a buffer
-- with room, is read back with its time stamps and counters and with no report block.
pub parse-generate_sr :
    (rtcp : Rtcp) (ntp_sec ntp_frac rtp_ts buf_len : ℕ)
    → IsWords rtcp
    → ntp_sec < 2 ^ 32
    → ntp_frac < 2 ^ 32
    → rtp_ts < 2 ^ 32
    → sr_size ≤ buf_len
    → (generate_sr rtcp ntp_sec ntp_frac rtp_ts buf_len >>= parse_packet)
      ≡ done (record (blank sr_type rtcp.ssrc) {
        ntp_sec = ntp_sec;
        ntp_frac = ntp_frac;
        rtp_ts = rtp_ts;
        sr_packets = rtcp.packets_sent;
        sr_octets = rtcp.octets_sent;
      })
unfolding generate_sr write_header parse_packet parse_body parse_sr report_block read read_u16be
    read_u32be fail_if
parse-generate_sr rtcp ntp_sec ntp_frac rtp_ts buf_len v a b c e = rw (
  le→ltb buf_len sr_size e,
  join32 rtcp.ssrc v.ssrc_word,
  join32 ntp_sec a,
  join32 ntp_frac b,
  join32 rtp_ts c,
  join32 rtcp.packets_sent v.sent_word,
  join32 rtcp.octets_sent v.octets_word,
)

-- The share of lost packets of a state, of 256, without machine words.
abbrev pub share : Rtcp → ℕ
share rtcp =
    if ltb 0 rtcp.packets_received && ltb 0 rtcp.packets_lost
    then rtcp.packets_lost * 256 / (rtcp.packets_received + rtcp.packets_lost)
    else 0

fraction_lost-share :
    (rtcp : Rtcp)
    → rtcp.packets_received + rtcp.packets_lost < 2 ^ 32
    → rtcp.packets_lost < 2 ^ 24
    → fraction_lost rtcp ≡ done (share rtcp)
unfolding fraction_lost
fraction_lost-share rtcp h l =
    elim (Bool-cases (ltb 0 rtcp.packets_received && ltb 0 rtcp.packets_lost)) [
      | inr none_lost ↦ ground arith
      | inl both ↦
          (let expected = rtcp.packets_received + rtcp.packets_lost in
            let received : 0 < rtcp.packets_received = ground arith in
            let sum : expected % 2 ^ 32 ≡ expected = omega arith in
            let product : rtcp.packets_lost * 256 % 2 ^ 32 ≡ rtcp.packets_lost * 256 =
              omega arith in
            let below : rtcp.packets_lost * 256 / expected < 256 =
              (div-lt_iff_lt-mul {k = expected} (omega (arith, received))).1
                (omega (arith, received)) in
            let byte : rtcp.packets_lost * 256 / expected % 2 ^ 8
                ≡ rtcp.packets_lost * 256 / expected =
              omega (arith, below) in
            rw (both, sum, product, ==_ne expected 0 (omega (arith, received)), byte))
    ]

-- A receiver report of a state whose counters do not overflow (below 2 ^ 24 packets lost), written
-- to a buffer with room, is read back with its one report block: the stream it is about and the
-- share of lost packets, in 256ths rounded down, or 0 when nothing was received or lost.
pub parse-generate_rr :
    (rtcp : Rtcp) (remote_ssrc buf_len : ℕ)
    → IsWords rtcp
    → remote_ssrc < 2 ^ 32
    → rtcp.packets_received + rtcp.packets_lost < 2 ^ 32
    → rtcp.packets_lost < 2 ^ 24
    → rr_size ≤ buf_len
    → (generate_rr rtcp remote_ssrc buf_len >>= parse_packet)
      ≡ done (record (blank rr_type rtcp.ssrc) {
        rb_valid = true;
        rb_source_ssrc = remote_ssrc;
        rb_fraction_lost = share rtcp;
      })
unfolding generate_rr write_header lost_bytes parse_packet parse_body report_block read read_u16be
    read_u32be fail_if
parse-generate_rr rtcp remote_ssrc buf_len v a h l e = rw (
  le→ltb buf_len rr_size e,
  fraction_lost-share rtcp h l,
  join32 rtcp.ssrc v.ssrc_word,
  join32 remote_ssrc a,
)
