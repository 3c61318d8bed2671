-- ===== src/DataChannel/Codec.antt =====
-- The OPEN message of src/nano_datachannel.c, written and read.
use nanortc.Prelude.{
  List, [], ap, arith, done, fail_if, length, length-append, le→ltb, read, read_u16be, read_u32be,
  refl, slice, slice-middle, write_u16be, write_u32be, ℕ, ◌%◌, ◌*◌, ◌++◌, ◌+◌, ◌-◌, ◌/◌, ◌<◌, ◌^◌,
  ◌∙◌, ◌∷◌, ◌≡◌,
}
use mathlib.Core.List.{append-nil, append_assoc}
use mathlib.Core.Path.{subst}
use nanortc.DataChannel.{encode_open, msg_open, open_body, parse_open}

-- Two texts behind a header of 12 bytes.
slice-texts :
    (pre label protocol : List ℕ)
    → length pre ≡ 12
    → (slice (pre ++ (label ++ protocol)) 12 (length label) ≡ done label)
      × (slice (pre ++ (label ++ protocol)) (12 + length label) (length protocol) ≡ done protocol)
slice-texts pre label protocol h = (
  slice-middle pre label protocol 12 h,
  subst (λ bytes. slice bytes (12 + length label) (length protocol) ≡ done protocol)
      (ap (λ l. (pre ++ label) ++ l) (append-nil protocol) ∙ append_assoc pre label protocol)
      (slice-middle (pre ++ label) protocol [] (12 + length label)
        (omega (arith, h, length-append pre label))),
)

open_body-texts :
    (pre label protocol : List ℕ) (ct prio rel : ℕ)
    → length pre ≡ 12
    → open_body (pre ++ (label ++ protocol)) ct prio rel (length label) (length protocol)
      ≡ done (record {
        channel_type = ct;
        priority = prio;
        reliability_param = rel;
        label = label;
        protocol = protocol;
      })
unfolding open_body
open_body-texts pre label protocol ct prio rel h =
    let (a, b) = slice-texts pre label protocol h in
    rw (
      le→ltb (length (pre ++ (label ++ protocol)) - 12) (length label)
          (omega (arith, h, length-append pre (label ++ protocol), length-append label protocol)),
      le→ltb (length (pre ++ (label ++ protocol)) - 12 - length label) (length protocol)
          (omega (arith, h, length-append pre (label ++ protocol), length-append label protocol)),
      a,
      b,
    )

-- The 12 bytes before the texts.
abbrev header : ℕ → ℕ → ℕ → ℕ → ℕ → List ℕ
header ct prio rel label_len protocol_len =
    msg_open
    ∷ ct
    ∷ (write_u16be prio ++ (write_u32be rel ++ (write_u16be label_len ++ write_u16be protocol_len)))

parse_open-header :
    (ct prio rel label_len protocol_len : ℕ) (texts : List ℕ)
    → prio < 2 ^ 16
    → rel < 2 ^ 32
    → label_len < 2 ^ 16
    → protocol_len < 2 ^ 16
    → parse_open (header ct prio rel label_len protocol_len ++ texts)
      ≡ open_body
          (header ct prio rel label_len protocol_len ++ texts)
          ct
          prio
          rel
          label_len
          protocol_len
unfolding parse_open read read_u16be read_u32be fail_if
parse_open-header ct prio rel label_len protocol_len texts p r l q =
    let number : prio / 2 ^ 8 % 2 ^ 8 * 2 ^ 8 + prio % 2 ^ 8 ≡ prio = omega arith in
    let number' : label_len / 2 ^ 8 % 2 ^ 8 * 2 ^ 8 + label_len % 2 ^ 8 ≡ label_len = omega arith in
    let number2 : protocol_len / 2 ^ 8 % 2 ^ 8 * 2 ^ 8 + protocol_len % 2 ^ 8 ≡ protocol_len =
      omega arith in
    let word : rel / 2 ^ 24 % 2 ^ 8 * 2 ^ 24
          + rel / 2 ^ 16 % 2 ^ 8 * 2 ^ 16
          + rel / 2 ^ 8 % 2 ^ 8 * 2 ^ 8
          + rel % 2 ^ 8
        ≡ rel =
      omega arith in
    rw (
      le→ltb (length (header ct prio rel label_len protocol_len ++ texts)) 12 (omega arith),
      number,
      word,
      number',
      number2,
    )

-- What dcep_encode_open writes, dcep_parse_open reads back, field by field, when every number fits
-- its field and every text has a length below 2 ^ 16.
pub parse_open-encode_open :
    (ct prio rel : ℕ) (label protocol : List ℕ)
    → prio < 2 ^ 16
    → rel < 2 ^ 32
    → length label < 2 ^ 16
    → length protocol < 2 ^ 16
    → parse_open (encode_open ct prio rel label protocol)
      ≡ done (record {
        channel_type = ct;
        priority = prio;
        reliability_param = rel;
        label = label;
        protocol = protocol;
      })
unfolding encode_open
parse_open-encode_open ct prio rel label protocol p r l q =
    parse_open-header ct prio rel (length label) (length protocol) (label ++ protocol) p r l q
    ∙ open_body-texts (header ct prio rel (length label) (length protocol)) label protocol ct prio
        rel refl
