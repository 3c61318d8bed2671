-- ===== src/Base64/Tests.antt =====
-- Runs of src/nano_base64.c.
use nanortc.Prelude.{
  List, [], arith, buffer_too_small, done, error, length, refl, some, ℕ, ◌%◌, ◌++◌, ◌+◌, ◌<◌, ◌∷◌,
  ◌≡◌, ◌≤◌,
}
use nanortc.Base64.{encode, encoded_size, groups, sextet}
use nanortc.Base64.RoundTrip.{decode, decode-encode}

-- The text "foob" of RFC 4648.
abbrev foob : List ℕ
foob = 102 ∷ 111 ∷ 111 ∷ 98 ∷ []

foob_encoded : groups foob ≡ 90 ∷ 109 ∷ 57 ∷ 118 ∷ 89 ∷ 103 ∷ 61 ∷ 61 ∷ []
unfolding groups sextet
foob_encoded = refl

decode-encode_example :
    (encoded_size (length foob) ≤ 9
      → (text : List ℕ) × (encode foob 9 ≡ done (text ++ 0 ∷ [], length text))
        × (decode text ≡ some foob)
        × (length text + 1 ≡ encoded_size (length foob))
        × (length text % 4 ≡ 0))
    × (9 < encoded_size (length foob) → encode foob 9 ≡ error buffer_too_small)
decode-encode_example =
    decode-encode foob 9 (omega arith, (omega arith, (omega arith, (omega arith, tt))))
