-- ===== src/Rtp/RoundTrip.antt =====
-- rtp_unpack gives back what rtp_pack put in (src/nano_rtp.c).
use nanortc.Prelude.{
  Bool-cases, List, [], arith, buffer_too_small, done, drop, drop-append, error, fail_if, false,
  if◌then◌else◌, inl, inr, length, length-append, le→ltb, lt→ltb, read, read_u16be, read_u32be,
  refl, sym, true, u16, ℕ, ◌%◌, ◌++◌, ◌+◌, ◌<◌, ◌^◌, ◌≡◌, ◌≤◌,
}
use mathlib.Core.List.{append_assoc}
use nanortc.Rtp.{
  Header, Rtp, extension, fixed_header, has_twcc, header_size, pack, skip_extension, strip_padding,
  twcc_ext_overhead, unpack,
}

-- The fields are in the ranges of their C types.
pub record IsRtp (rtp : Rtp) : Type 0 where
  pub seq_word : rtp.seq < 2 ^ 16
  pub ssrc_word : rtp.ssrc < 2 ^ 32

-- The header that a receiver should see.
abbrev pub sent : Rtp → ℕ → List ℕ → Header
sent rtp timestamp payload = record {
  pt = rtp.payload_type % 2 ^ 7;
  seq = rtp.seq;
  ts = timestamp;
  ssrc = rtp.ssrc;
  payload_at = header_size + (if has_twcc rtp then twcc_ext_overhead else 0);
  payload_len = length payload;
}

abbrev pub total_size : Rtp → List ℕ → ℕ
total_size rtp payload =
    header_size + (if has_twcc rtp then twcc_ext_overhead else 0) + length payload

-- The packet that rtp_pack writes, and the state that it leaves.
packed : Rtp → ℕ → List ℕ → List ℕ
packed rtp timestamp payload =
    fixed_header rtp timestamp ++ ((if has_twcc rtp then extension rtp else []) ++ payload)

abbrev pub after : Rtp → Rtp
after rtp = record rtp {
  seq = u16 (rtp.seq + 1);
  marker = false;
  twcc_seq = if has_twcc rtp then u16 (rtp.twcc_seq + 1) else rtp.twcc_seq;
}

pack-packed :
    (rtp : Rtp) (timestamp : ℕ) (payload : List ℕ) (buf_len : ℕ)
    → total_size rtp payload ≤ buf_len
    → pack rtp timestamp payload buf_len ≡ done (after rtp, packed rtp timestamp payload)
unfolding pack packed
pack-packed rtp timestamp payload buf_len h = rw (le→ltb buf_len (total_size rtp payload) h)

module _ (rtp : Rtp) (timestamp : ℕ) (payload : List ℕ) (v : IsRtp rtp)
    (t : timestamp < 2 ^ 32) where
  unpack-plain :
      has_twcc rtp ≡ false
      → unpack (packed rtp timestamp payload) ≡ done (sent rtp timestamp payload)
  unfolding unpack packed fixed_header skip_extension strip_padding read read_u16be read_u32be
      fail_if
  unpack-plain off =
      rw (off, le→ltb (length (fixed_header rtp timestamp ++ payload)) header_size (omega arith))
        (ground arith)

  unpack-extended :
      has_twcc rtp ≡ true
      → unpack (packed rtp timestamp payload) ≡ done (sent rtp timestamp payload)
  unfolding unpack packed fixed_header extension skip_extension strip_padding read read_u16be
      read_u32be fail_if
  unpack-extended on =
      rw
        (
          on,
          le→ltb (length (fixed_header rtp timestamp ++ (extension rtp ++ payload))) header_size
              (omega arith),
        )
        (ground arith)

pack-small :
    (rtp : Rtp) (timestamp : ℕ) (payload : List ℕ) (buf_len : ℕ)
    → buf_len < total_size rtp payload
    → pack rtp timestamp payload buf_len ≡ error buffer_too_small
unfolding pack
pack-small rtp timestamp payload buf_len h = rw (lt→ltb buf_len (total_size rtp payload) h)

-- What stands before the payload.
prefix : Rtp → ℕ → List ℕ
prefix rtp timestamp = fixed_header rtp timestamp ++ (if has_twcc rtp then extension rtp else [])

length-prefix :
    (rtp : Rtp) (timestamp : ℕ)
    → length (prefix rtp timestamp) ≡ header_size + (if has_twcc rtp then twcc_ext_overhead else 0)
unfolding prefix fixed_header extension
length-prefix rtp timestamp = elim (Bool-cases (has_twcc rtp)) [ inl on ↦ rw on | inr off ↦ rw off ]

packed-prefix :
    (rtp : Rtp) (timestamp : ℕ) (payload : List ℕ)
    → packed rtp timestamp payload ≡ prefix rtp timestamp ++ payload
unfolding packed prefix
packed-prefix rtp timestamp payload =
    sym (
      append_assoc (fixed_header rtp timestamp) (if has_twcc rtp then extension rtp else [])
        payload)

-- rtp_pack needs room for the header, the extension if it is on, and the payload, and refuses with
-- NANORTC_ERR_BUFFER_TOO_SMALL otherwise. A packet that it writes fills exactly that room, and
-- rtp_unpack reads from it the payload type's low seven bits, the sequence number, the timestamp,
-- the SSRC, and the payload at its place. The sequence number goes on by one, modulo 2^16.
pub unpack-pack :
    (rtp : Rtp) (timestamp : ℕ) (payload : List ℕ) (buf_len : ℕ)
    → IsRtp rtp
    → timestamp < 2 ^ 32
    → (buf_len < total_size rtp payload
        → pack rtp timestamp payload buf_len ≡ error buffer_too_small)
      × (total_size rtp payload ≤ buf_len
          → (pkt : List ℕ) × (pack rtp timestamp payload buf_len ≡ done (after rtp, pkt))
            × (length pkt ≡ total_size rtp payload)
            × (unpack pkt ≡ done (sent rtp timestamp payload))
            × (drop (sent rtp timestamp payload).payload_at pkt ≡ payload))
unpack-pack rtp timestamp payload buf_len v t = (
  pack-small rtp timestamp payload buf_len,
  λ h. (
    packed rtp timestamp payload,
    pack-packed rtp timestamp payload buf_len h,
    rw (packed-prefix, length-append, length-prefix) refl,
    elim (Bool-cases (has_twcc rtp)) [
      | inl on ↦ unpack-extended rtp timestamp payload v t on
      | inr off ↦ unpack-plain rtp timestamp payload v t off
    ],
    rw (packed-prefix, ← length-prefix rtp timestamp) (drop-append (prefix rtp timestamp) payload),
  ),
)
