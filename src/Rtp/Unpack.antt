-- ===== src/Rtp/Unpack.antt =====
-- rtp_unpack of src/nano_rtp.c against the layout of RFC 3550.
use nanortc.Prelude.{
  Bool-cases, Error, List, arith, done, error, fail_if, fault, inl, inr, invalid_param, length,
  lt→ltb, parse, refl, ℕ, ◌%◌, ◌*◌, ◌+◌, ◌-◌, ◌/◌, ◌<◌, ◌==◌, ◌^◌, ◌≡◌, ◌≢◌, ◌≤◌,
}
use nanortc.Prelude.Ensures.{
  Ensures, Ensures-bind, Ensures-done, Ensures-error, Ensures-ne_fault, fail_if-Ensures,
  read-Ensures, read_u16be-Ensures, read_u32be-Ensures, returns,
}
use native.Mathlib.Decide.{dec_lt}
use nanortc.Rtp.{Header, header_size, skip_extension, strip_padding, unpack}

abbrev IsParse : Error → Type 0
IsParse e = e ≡ parse

skip_extension-Ensures :
    (d : List ℕ) (b0 n : ℕ)
    → n ≤ length d
    → Ensures IsParse (λ m. (n ≤ m) × (m ≤ length d)) (skip_extension d b0 n)
unfolding skip_extension
skip_extension-Ensures d b0 n h = elim (Bool-cases (b0 / 2 ^ 4 % 2 == 0)) [
  | inl clear ↦ rw clear (returns (omega arith))
  | inr x_bit ↦ rw x_bit (
      Ensures-bind (fail_if-Ensures _ parse (λ _. refl)) λ _ four.
        Ensures-bind (read_u16be-Ensures d (n + 2) (ground arith)) λ words at.
          Ensures-bind (fail_if-Ensures _ parse (λ _. refl)) λ _ fits. returns (ground arith))
]

strip_padding-Ensures :
    (d : List ℕ) (b0 n : ℕ) → n ≤ length d → Ensures IsParse (λ m. m ≤ n) (strip_padding d b0 n)
unfolding strip_padding
strip_padding-Ensures d b0 n h = elim (Bool-cases (b0 / 2 ^ 5 % 2 == 0)) [
  | inl clear ↦ rw clear (returns (omega arith))
  | inr p_bit ↦ rw p_bit (
      Ensures-bind (fail_if-Ensures _ parse (λ _. refl)) λ _ some_bytes.
        Ensures-bind (read-Ensures d (length d - 1) (ground arith)) λ padding at.
          Ensures-bind (fail_if-Ensures _ parse (λ _. refl)) λ _ fits. returns (omega arith))
]

abbrev InPacket : List ℕ → Header → Type 0
InPacket d h = (header_size ≤ h.payload_at) × (h.payload_at + h.payload_len ≤ length d)

unpack-Ensures : (d : List ℕ) → header_size ≤ length d → Ensures IsParse (InPacket d) (unpack d)
unfolding unpack
unpack-Ensures d h =
    Ensures-bind (fail_if-Ensures _ invalid_param (λ short. absurd (ground arith))) λ _ long.
      Ensures-bind (read-Ensures d 0 (omega arith)) λ b0 at0.
        Ensures-bind (fail_if-Ensures _ parse (λ _. refl)) λ _ version.
          Ensures-bind (fail_if-Ensures _ parse (λ _. refl)) λ _ csrcs.
            Ensures-bind (skip_extension-Ensures d b0 (header_size + b0 % 16 * 4) (ground arith))
              λ m at_m.
                Ensures-bind (strip_padding-Ensures d b0 (length d - m) (omega arith)) λ n at_n.
                  Ensures-bind (read-Ensures d 1 (omega arith)) λ b1 at1.
                    Ensures-bind (read_u16be-Ensures d 2 (omega arith)) λ seq at2.
                      Ensures-bind (read_u32be-Ensures d 4 (omega arith)) λ ts at4.
                        Ensures-bind (read_u32be-Ensures d 8 (omega arith))
                          λ ssrc at8. returns (omega arith)

unpack-short : (d : List ℕ) → length d < header_size → unpack d ≡ error invalid_param
unfolding unpack fail_if
unpack-short d h = rw (lt→ltb _ _ h) refl

-- rtp_unpack reads nothing outside the buffer, whatever the bytes are. Less than twelve bytes are
-- an invalid parameter; with twelve or more any refusal is NANORTC_ERR_PARSE, and the payload of a
-- packet that is accepted lies inside the buffer, behind the fixed header.
pub unpack_safe :
    (d : List ℕ)
    → (unpack d ≢ fault)
      × (length d < header_size → unpack d ≡ error invalid_param)
      × (header_size ≤ length d → (e : Error) → unpack d ≡ error e → e ≡ parse)
      × ((h : Header)
          → unpack d ≡ done h
          → (header_size ≤ h.payload_at) × (h.payload_at + h.payload_len ≤ length d))
unpack_safe d = elim (dec_lt (length d) header_size) [
  | yes short ↦ (
    λ e. cc (unpack-short d short),
    unpack-short d,
    λ long. absurd (omega arith),
    λ h e. absurd (cc (unpack-short d short)),
  )
  | no long ↦ (
    Ensures-ne_fault (unpack-Ensures d (omega arith)),
    λ short. absurd (omega arith),
    λ le e. Ensures-error (unpack-Ensures d le),
    λ h. Ensures-done (unpack-Ensures d (omega arith)),
  )
]
