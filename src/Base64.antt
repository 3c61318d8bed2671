-- ===== src/Base64.antt =====
-- src/nano_base64.c, the encoder. A character is its code, a text the list of its codes.
pub mod RoundTrip
mod Tests
use nanortc.Prelude.{
  List, Outcome, [], buffer_too_small, done, error, get_or, if◌then◌else◌, length, ltb, ℕ, ◌%◌, ◌*◌,
  ◌++◌, ◌+◌, ◌/◌, ◌^◌, ◌∷◌,
}

-- kBase64Alphabet
abbrev pub alphabet : List ℕ
alphabet =
    65 ∷ 66 ∷ 67 ∷ 68 ∷ 69 ∷ 70 ∷ 71 ∷ 72 ∷ 73 ∷ 74 ∷ 75 ∷ 76 ∷ 77 ∷ 78 ∷ 79 ∷ 80 ∷ 81 ∷ 82 ∷ 83
    ∷ 84 ∷ 85 ∷ 86 ∷ 87 ∷ 88 ∷ 89 ∷ 90 ∷ 97 ∷ 98 ∷ 99 ∷ 100 ∷ 101 ∷ 102 ∷ 103 ∷ 104 ∷ 105 ∷ 106
    ∷ 107 ∷ 108 ∷ 109 ∷ 110 ∷ 111 ∷ 112 ∷ 113 ∷ 114 ∷ 115 ∷ 116 ∷ 117 ∷ 118 ∷ 119 ∷ 120 ∷ 121 ∷ 122
    ∷ 48 ∷ 49 ∷ 50 ∷ 51 ∷ 52 ∷ 53 ∷ 54 ∷ 55 ∷ 56 ∷ 57 ∷ 43 ∷ 47 ∷ []

-- '='
abbrev pub pad : ℕ
pad = 61

-- kBase64Alphabet[(triple >> shift) & 0x3F]
unfoldable pub sextet : ℕ → ℕ → ℕ
sextet triple shift = get_or alphabet (triple / 2 ^ shift % 64) 0

-- The loop over groups of three bytes, and the tail after it.
unfoldable pub groups : List ℕ → List ℕ
groups [] = []
groups (a ∷ []) = let triple = a * 2 ^ 16 in sextet triple 18 ∷ sextet triple 12 ∷ pad ∷ pad ∷ []
groups (a ∷ b ∷ []) =
    let triple = a * 2 ^ 16 + b * 2 ^ 8 in
    sextet triple 18 ∷ sextet triple 12 ∷ sextet triple 6 ∷ pad ∷ []
groups (a ∷ b ∷ c ∷ src) =
    let triple = a * 2 ^ 16 + b * 2 ^ 8 + c in
    sextet triple 18 ∷ sextet triple 12 ∷ sextet triple 6 ∷ sextet triple 0 ∷ groups src

-- nano_base64_encoded_size
unfoldable pub encoded_size : ℕ → ℕ
encoded_size src_len = (src_len + 2) / 3 * 4 + 1

-- nano_base64_encode: the bytes that it writes, the NUL included, and `*out_len`.
unfoldable pub encode : List ℕ → ℕ → Outcome (List ℕ × ℕ)
encode src dst_cap =
    if ltb dst_cap ((length src + 2) / 3 * 4 + 1)
    then error buffer_too_small
    else done (groups src ++ 0 ∷ [], length (groups src))
