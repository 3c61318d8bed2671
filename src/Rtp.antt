-- ===== src/Rtp.antt =====
-- src/nano_rtp.c: RTP packets.
pub mod Unpack
pub mod RoundTrip
mod Tests
use nanortc.Prelude.{
  Bool, List, Outcome, [], buffer_too_small, done, error, fail_if, false, if◌then◌else◌,
  invalid_param, leb, length, ltb, not, parse, read, read_u16be, read_u32be, true, u16, u8,
  write_u16be, write_u32be, ℕ, ◌%◌, ◌&&◌, ◌*◌, ◌++◌, ◌+◌, ◌-◌, ◌/◌, ◌==◌, ◌>>=◌, ◌>>◌, ◌^◌, ◌||◌,
  ◌∷◌,
}

-- RTP_HEADER_SIZE, RTP_TWCC_EXT_OVERHEAD, RTP_EXT_PROFILE_ONE_BYTE
abbrev pub header_size : ℕ
header_size = 12

abbrev pub twcc_ext_overhead : ℕ
twcc_ext_overhead = 8

abbrev pub ext_profile_one_byte : ℕ
ext_profile_one_byte = 0xBEDE

-- nano_rtp_t; `marker` is tested as a flag only.
pub record Rtp : Type 0 where
  pub seq : ℕ
  pub ssrc : ℕ
  pub payload_type : ℕ
  pub marker : Bool
  pub twcc_ext_id : ℕ
  pub twcc_seq : ℕ

-- rtp_init
unfoldable pub init : ℕ → ℕ → Rtp
init ssrc pt = record {
  seq = 0;
  ssrc = ssrc;
  payload_type = pt;
  marker = true;
  twcc_ext_id = 0;
  twcc_seq = 0;
}

abbrev pub has_twcc : Rtp → Bool
has_twcc rtp = not (rtp.twcc_ext_id == 0) && leb rtp.twcc_ext_id 14

-- The extension's eight bytes.
unfoldable pub extension : Rtp → List ℕ
extension rtp =
    write_u16be ext_profile_one_byte
    ++ (write_u16be 1
        ++ (u8 (rtp.twcc_ext_id % 16 * 2 ^ 4 + 1) ∷ (write_u16be rtp.twcc_seq ++ (0 ∷ []))))

-- The twelve bytes of the fixed header.
unfoldable pub fixed_header : Rtp → ℕ → List ℕ
fixed_header rtp timestamp =
    (2 * 2 ^ 6 + (if has_twcc rtp then 0x10 else 0))
    ∷ ((if rtp.marker then 0x80 else 0) + rtp.payload_type % 2 ^ 7)
    ∷ (write_u16be rtp.seq ++ (write_u32be timestamp ++ write_u32be rtp.ssrc))

-- rtp_pack: the result is the new state with the bytes written to `buf`, which has room for
-- `buf_len`. The payload is given as its bytes, wherever they are staged.
unfoldable pub pack : Rtp → ℕ → List ℕ → ℕ → Outcome (Rtp × List ℕ)
unfolding extension fixed_header
pack rtp timestamp payload buf_len =
    let total = header_size + (if has_twcc rtp then twcc_ext_overhead else 0) + length payload in
    let ext = if has_twcc rtp then extension rtp else [] in
    let rtp' = record rtp {
      seq = u16 (rtp.seq + 1);
      marker = false;
      twcc_seq = if has_twcc rtp then u16 (rtp.twcc_seq + 1) else rtp.twcc_seq;
    } in
    if ltb buf_len total
    then error buffer_too_small
    else done (rtp', fixed_header rtp timestamp ++ (ext ++ payload))

-- What rtp_unpack stores through its out-parameters; the payload is an offset with a length.
pub record Header : Type 0 where
  pub pt : ℕ
  pub seq : ℕ
  pub ts : ℕ
  pub ssrc : ℕ
  pub payload_at : ℕ
  pub payload_len : ℕ

-- The X bit: the header's length with the extension, after `len - header_len` bytes remain.
unfoldable pub skip_extension : List ℕ → ℕ → ℕ → Outcome ℕ
skip_extension d b0 header_len =
    if b0 / 2 ^ 4 % 2 == 0
    then done header_len
    else (let remaining = length d - header_len in
        do
          fail_if (ltb remaining 4) parse
          ext_len ← read_u16be d (header_len + 2)
          fail_if (ltb ((remaining - 4) / 4) ext_len) parse
          done (header_len + (4 + ext_len * 4)))

-- The P bit: the length of the payload without its padding.
unfoldable pub strip_padding : List ℕ → ℕ → ℕ → Outcome ℕ
strip_padding d b0 body_len = if b0 / 2 ^ 5 % 2 == 0 then done body_len else (do
  fail_if (body_len == 0) parse
  padding_len ← read d (length d - 1)
  fail_if (padding_len == 0 || ltb body_len padding_len) parse
  done (body_len - padding_len))

-- rtp_unpack
unfoldable pub unpack : List ℕ → Outcome Header
unpack d = do
  fail_if (ltb (length d) header_size) invalid_param
  b0 ← read d 0
  fail_if (not (b0 / 2 ^ 6 % 4 == 2)) parse
  let csrc_end = header_size + b0 % 16 * 4
  fail_if (ltb (length d) csrc_end) parse
  header_len ← skip_extension d b0 csrc_end
  body_len ← strip_padding d b0 (length d - header_len)
  b1 ← read d 1
  seq ← read_u16be d 2
  ts ← read_u32be d 4
  ssrc ← read_u32be d 8
  done (record {
    pt = b1 % 2 ^ 7;
    seq = seq;
    ts = ts;
    ssrc = ssrc;
    payload_at = header_len;
    payload_len = body_len;
  })
