-- ===== src/Rtcp.antt =====
-- src/nano_rtcp.c: RTCP reports and feedback, written and read.
-- A byte's fields are taken by `/` and `%`, and `|` of disjoint fields is written as the sum.
pub mod RoundTrip
pub mod Safety
mod Tests
use nanortc.Prelude.{
  Bool, List, Outcome, [], buffer_too_small, done, error, fail_if, false, fault, if◌then◌else◌,
  invalid_param, leb, length, ltb, not, parse, read, read_u16be, read_u32be, true, u32, u8,
  write_u16be, write_u32be, ℕ, ◌%◌, ◌&&◌, ◌*◌, ◌++◌, ◌+◌, ◌/◌, ◌==◌, ◌>>=◌, ◌>>◌, ◌^◌, ◌∷◌,
}

-- RTCP_SR, RTCP_RR, RTCP_RTPFB, RTCP_PSFB
abbrev pub sr_type : ℕ
sr_type = 200

abbrev pub rr_type : ℕ
rr_type = 201

abbrev pub rtpfb_type : ℕ
rtpfb_type = 205

abbrev pub psfb_type : ℕ
psfb_type = 206

-- RTCP_HEADER_SIZE, RTCP_SR_SIZE, RTCP_SR_WITH_RB_SIZE, RTCP_RR_SIZE, RTCP_NACK_SIZE,
-- RTCP_PLI_SIZE, RTCP_VERSION
abbrev pub header_size : ℕ
header_size = 8

abbrev pub sr_size : ℕ
sr_size = 28

abbrev pub sr_with_rb_size : ℕ
sr_with_rb_size = 52

abbrev pub rr_size : ℕ
rr_size = 32

abbrev pub nack_size : ℕ
nack_size = 16

abbrev pub pli_size : ℕ
pli_size = 12

abbrev pub version : ℕ
version = 2

-- nano_rtcp_t
pub record Rtcp : Type 0 where
  pub ssrc : ℕ
  pub packets_sent : ℕ
  pub octets_sent : ℕ
  pub packets_received : ℕ
  pub packets_lost : ℕ
  pub remote_ssrc : ℕ
  pub last_sr_ntp : ℕ
  pub last_sr_recv_ms : ℕ
  pub last_sr_recv_valid : Bool
  pub max_seq : ℕ
  pub jitter : ℕ

-- nano_rtcp_info_t
pub record Info : Type 0 where
  pub kind : ℕ
  pub ssrc : ℕ
  pub ntp_sec : ℕ
  pub ntp_frac : ℕ
  pub rtp_ts : ℕ
  pub sr_packets : ℕ
  pub sr_octets : ℕ
  pub nack_media_ssrc : ℕ
  pub nack_pid : ℕ
  pub nack_blp : ℕ
  pub psfb_media_ssrc : ℕ
  pub rb_valid : Bool
  pub rb_source_ssrc : ℕ
  pub rb_fraction_lost : ℕ

-- rtcp_init
unfoldable pub init : ℕ → Rtcp
init ssrc = record {
  ssrc = ssrc;
  packets_sent = 0;
  octets_sent = 0;
  packets_received = 0;
  packets_lost = 0;
  remote_ssrc = 0;
  last_sr_ntp = 0;
  last_sr_recv_ms = 0;
  last_sr_recv_valid = false;
  max_seq = 0;
  jitter = 0;
}

-- write_header: the 8 bytes that it writes.
unfoldable pub write_header : ℕ → ℕ → ℕ → ℕ → List ℕ
write_header rc_fmt pt length_words ssrc =
    (version * 2 ^ 6 + rc_fmt % 32) ∷ pt ∷ (write_u16be length_words ++ write_u32be ssrc)

-- rtcp_generate_sr: the bytes that it writes.
unfoldable pub generate_sr : Rtcp → ℕ → ℕ → ℕ → ℕ → Outcome (List ℕ)
generate_sr rtcp ntp_sec ntp_frac rtp_ts buf_len =
    if ltb buf_len sr_size
    then error buffer_too_small
    else done (
        write_header 0 sr_type 6 rtcp.ssrc
        ++ (write_u32be ntp_sec
            ++ (write_u32be ntp_frac
                ++ (write_u32be rtp_ts
                    ++ (write_u32be rtcp.packets_sent ++ write_u32be rtcp.octets_sent)))))

-- `fraction_lost`; a division by an `expected` that wraps around to 0 is a fault.
unfoldable pub fraction_lost : Rtcp → Outcome ℕ
fraction_lost rtcp =
    if ltb 0 rtcp.packets_received && ltb 0 rtcp.packets_lost
    then (let expected = u32 (rtcp.packets_received + rtcp.packets_lost) in
        if expected == 0 then fault else done (u8 (u32 (rtcp.packets_lost * 256) / expected)))
    else done 0

-- `clost` as three bytes.
unfoldable pub lost_bytes : ℕ → List ℕ
lost_bytes lost =
    let clost = lost % 2 ^ 24 in u8 (clost / 2 ^ 16) ∷ u8 (clost / 2 ^ 8) ∷ u8 clost ∷ []

-- rtcp_generate_rr: the bytes that it writes.
unfoldable pub generate_rr : Rtcp → ℕ → ℕ → Outcome (List ℕ)
generate_rr rtcp remote_ssrc buf_len =
    if ltb buf_len rr_size
    then error buffer_too_small
    else (fraction_lost rtcp >>= λ fraction. done (
        write_header 1 rr_type 7 rtcp.ssrc
        ++ (write_u32be remote_ssrc
            ++ (fraction ∷ lost_bytes rtcp.packets_lost
                ++ (write_u32be rtcp.max_seq
                    ++ (write_u32be rtcp.jitter
                        ++ (write_u32be rtcp.last_sr_ntp ++ write_u32be 0)))))))

-- rtcp_generate_nack: the bytes that it writes.
unfoldable pub generate_nack : ℕ → ℕ → ℕ → ℕ → ℕ → Outcome (List ℕ)
generate_nack ssrc media_ssrc seq blp buf_len =
    if ltb buf_len nack_size
    then error buffer_too_small
    else done (
        write_header 1 rtpfb_type 3 ssrc
        ++ (write_u32be media_ssrc ++ (write_u16be seq ++ write_u16be blp)))

-- rtcp_generate_pli: the bytes that it writes.
unfoldable pub generate_pli : ℕ → ℕ → ℕ → Outcome (List ℕ)
generate_pli sender_ssrc media_ssrc buf_len =
    if ltb buf_len pli_size
    then error buffer_too_small
    else done (write_header 1 psfb_type 2 sender_ssrc ++ write_u32be media_ssrc)

-- `memset(info, 0, …)` and the two fields of the header.
abbrev pub blank : ℕ → ℕ → Info
blank kind ssrc = record {
  kind = kind;
  ssrc = ssrc;
  ntp_sec = 0;
  ntp_frac = 0;
  rtp_ts = 0;
  sr_packets = 0;
  sr_octets = 0;
  nack_media_ssrc = 0;
  nack_pid = 0;
  nack_blp = 0;
  psfb_media_ssrc = 0;
  rb_valid = false;
  rb_source_ssrc = 0;
  rb_fraction_lost = 0;
}

-- The report block at `i`, if the count and the size (`least` bytes) allow one.
unfoldable pub report_block : List ℕ → Info → ℕ → ℕ → ℕ → ℕ → Outcome Info
report_block bytes info rc_count pkt_size least i =
    if leb 1 rc_count && leb least pkt_size
    then (do
      source ← read_u32be bytes i
      fraction ← read bytes (i + 4)
      done (record info { rb_source_ssrc = source; rb_fraction_lost = fraction; rb_valid = true }))
    else done info

-- `case RTCP_SR`
unfoldable pub parse_sr : List ℕ → Info → ℕ → ℕ → Outcome Info
parse_sr bytes info rc_count pkt_size = do
  fail_if (ltb pkt_size sr_size) parse
  sec ← read_u32be bytes 8
  frac ← read_u32be bytes 12
  ts ← read_u32be bytes 16
  packets ← read_u32be bytes 20
  octets ← read_u32be bytes 24
  report_block bytes
      (record info {
        ntp_sec = sec;
        ntp_frac = frac;
        rtp_ts = ts;
        sr_packets = packets;
        sr_octets = octets;
      })
      rc_count pkt_size sr_with_rb_size 28

-- `case RTCP_RTPFB`
unfoldable pub parse_rtpfb : List ℕ → Info → ℕ → ℕ → Outcome Info
parse_rtpfb bytes info fmt pkt_size =
    fail_if (ltb pkt_size nack_size) parse
    >> (if fmt == 1
        then (do
          media ← read_u32be bytes 8
          pid ← read_u16be bytes 12
          blp ← read_u16be bytes 14
          done (record info { nack_media_ssrc = media; nack_pid = pid; nack_blp = blp }))
        else done info)

-- `case RTCP_PSFB`
unfoldable pub parse_psfb : List ℕ → Info → ℕ → Outcome Info
parse_psfb bytes info pkt_size =
    if leb 12 pkt_size
    then (read_u32be bytes 8 >>= λ media. done (record info { psfb_media_ssrc = media }))
    else done info

-- The `switch` of rtcp_parse; `low` is `data[0] & 0x1F`.
unfoldable pub parse_body : List ℕ → Info → ℕ → ℕ → Outcome Info
parse_body bytes info low pkt_size =
    if info.kind == sr_type
    then parse_sr bytes info low pkt_size
    else if info.kind == rr_type
    then report_block bytes info low pkt_size rr_size 8
    else if info.kind == rtpfb_type
    then parse_rtpfb bytes info low pkt_size
    else if info.kind == psfb_type
    then parse_psfb bytes info pkt_size
    else done info

-- rtcp_parse
unfoldable pub parse_packet : List ℕ → Outcome Info
parse_packet bytes = do
  fail_if (ltb (length bytes) header_size) invalid_param
  b0 ← read bytes 0
  fail_if (not (b0 / 2 ^ 6 % 4 == version)) parse
  kind ← read bytes 1
  length_words ← read_u16be bytes 2
  fail_if (ltb (length bytes) ((length_words + 1) * 4)) parse
  ssrc ← read_u32be bytes 4
  parse_body bytes (blank kind ssrc) (b0 % 32) ((length_words + 1) * 4)
