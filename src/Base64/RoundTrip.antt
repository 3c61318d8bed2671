-- ===== src/Base64/RoundTrip.antt =====
-- What nano_base64_encode of src/nano_base64.c writes, and a decoder.
use nanortc.Prelude.{
  ==_iff, IsBytes, List, Option, [], ap, ap₂, arith, buffer_too_small, done, error, false, get_or,
  if◌then◌else◌, leb, length, none, not, refl, some, true, ℕ, ◌%◌, ◌&&◌, ◌*◌, ◌++◌, ◌+◌, ◌-◌, ◌/◌,
  ◌<◌, ◌==◌, ◌^◌, ◌||◌, ◌∷◌, ◌≡◌, ◌≤◌,
}
use nanortc.Prelude.Xor.{all_below, all_below-apply}
use nanortc.Prelude.Wire.{IsBytes}
use nanortc.Base64.{alphabet, encode, encoded_size, groups, sextet}

-- The number that a character of the alphabet of RFC 4648 stands for, and 64 for any other.
unfoldable pub value : ℕ → ℕ
value c =
    if leb 65 c && leb c 90
    then c - 65
    else if leb 97 c && leb c 122
    then c - 71
    else if leb 48 c && leb c 57
    then c + 4
    else if c == 43
    then 62
    else if c == 47
    then 63
    else 64

-- The last group: one or two padding characters, and the bits that they leave over are 0.
unfoldable pub decode_last : ℕ → ℕ → ℕ → Option (List ℕ)
decode_last a b y =
    if y == 61
    then if b % 16 == 0 then some ((a * 4 + b / 16) ∷ []) else none
    else if leb 64 (value y) || not (value y % 4 == 0)
    then none
    else some ((a * 4 + b / 16) ∷ (b % 16 * 16 + value y / 4) ∷ [])

-- A group of four characters of the alphabet, before what follows it.
unfoldable pub decode_group : ℕ → ℕ → ℕ → ℕ → Option (List ℕ) → Option (List ℕ)
decode_group a b c d none = none
decode_group a b c d (some later) =
    if leb 64 c || leb 64 d
    then none
    else some ((a * 4 + b / 16) ∷ (b % 16 * 16 + c / 4) ∷ (c % 4 * 64 + d) ∷ later)

-- The decoder of RFC 4648, 4: the length is a multiple of four, all characters are of the alphabet,
-- and padding, the code 61, stands at the end alone.
unfoldable pub decode : List ℕ → Option (List ℕ)
decode [] = some []
decode (w ∷ x ∷ y ∷ z ∷ text) =
    let later = decode text in
    if leb 64 (value w) || leb 64 (value x)
    then none
    else if z == 61
    then if length text == 0 then decode_last (value w) (value x) y else none
    else decode_group (value w) (value x) (value y) (value z) later
decode text = none

is_inverse : all_below 64 (λ i. value (get_or alphabet i 0) == i) ≡ true
unfolding all_below value
is_inverse = refl

never_padding : all_below 64 (λ i. not (get_or alphabet i 0 == 61)) ≡ true
unfolding all_below
never_padding = refl

value-sextet : (t n : ℕ) → value (sextet t n) ≡ t / 2 ^ n % 64
unfolding sextet
value-sextet t n =
    let i = t / 2 ^ n % 64 in
    (==_iff (value (get_or alphabet i 0)) i).0
      (all_below-apply 64 (λ j. value (get_or alphabet j 0) == j) i is_inverse (omega arith))

sextet-ne_pad : (t n : ℕ) → (sextet t n == 61) ≡ false
unfolding sextet
sextet-ne_pad t n =
    let i = t / 2 ^ n % 64 in
    ground (
      all_below-apply 64 (λ j. not (get_or alphabet j 0 == 61)) i never_padding (omega arith),
      arith,
    )

known_sextet : (t n : ℕ) → leb 64 (value (sextet t n)) ≡ false
known_sextet t n = let e = value-sextet t n in ground (arith, e)

length-groups : (src : List ℕ) → length (groups src) ≡ (length src + 2) / 3 * 4
unfolding groups
length-groups [] = refl
length-groups (a ∷ []) = refl
length-groups (a ∷ b ∷ []) = refl
length-groups (a ∷ b ∷ c ∷ src) = let ih = length-groups src in omega (arith, ih)

-- The last groups, of one byte and of two.
decode-one : (a : ℕ) → a < 256 → decode (groups (a ∷ [])) ≡ some (a ∷ [])
unfolding groups decode decode_last
decode-one a h =
    let t = a * 2 ^ 16 in
    let whole : (t / 2 ^ 12 % 64 % 16 == 0) ≡ true = ground arith in
    rw (known_sextet t 18, known_sextet t 12, value-sextet t 18, value-sextet t 12, whole)
      (ap (λ x. some (x ∷ [])) (omega (arith, h)))

decode-two : (a b : ℕ) → a < 256 → b < 256 → decode (groups (a ∷ b ∷ [])) ≡ some (a ∷ b ∷ [])
unfolding groups decode decode_last
decode-two a b ha hb =
    let t = a * 2 ^ 16 + b * 2 ^ 8 in
    let whole : (t / 2 ^ 6 % 64 % 4 == 0) ≡ true = ground arith in
    rw
      (
        known_sextet t 18,
        known_sextet t 12,
        sextet-ne_pad t 6,
        known_sextet t 6,
        value-sextet t 18,
        value-sextet t 12,
        value-sextet t 6,
        whole,
      )
      (ap₂ (λ x y. some (x ∷ y ∷ [])) (omega (arith, ha, hb)) (omega (arith, ha, hb)))

-- A group of three.
decode-three :
    (a b c : ℕ) (src : List ℕ)
    → a < 256
    → b < 256
    → c < 256
    → decode (groups src) ≡ some src
    → decode (groups (a ∷ b ∷ c ∷ src)) ≡ some (a ∷ b ∷ c ∷ src)
unfolding groups decode decode_group
decode-three a b c src ha hb hc later =
    let t = a * 2 ^ 16 + b * 2 ^ 8 + c in
    rw
      (
        known_sextet t 18,
        known_sextet t 12,
        sextet-ne_pad t 0,
        later,
        known_sextet t 6,
        known_sextet t 0,
        value-sextet t 18,
        value-sextet t 12,
        value-sextet t 6,
        value-sextet t 0,
      )
      (ap₂ (λ x l. some (x ∷ l)) (omega (arith, ha, hb, hc))
        (ap₂ (λ y z. y ∷ z ∷ src) (omega (arith, ha, hb, hc)) (omega (arith, ha, hb, hc))))

decode-groups : (src : List ℕ) → IsBytes src → decode (groups src) ≡ some src
unfolding groups decode
decode-groups [] h = refl
decode-groups (a ∷ []) (ha, _) = decode-one a ha
decode-groups (a ∷ b ∷ []) (ha, (hb, _)) = decode-two a b ha hb
decode-groups (a ∷ b ∷ c ∷ src) (ha, (hb, (hc, h))) =
    decode-three a b c src ha hb hc (decode-groups src h)

-- What nano_base64_encode leaves for any bytes. With nano_base64_encoded_size bytes of room it
-- writes a text and a NUL that fill just those bytes; a decoder of RFC 4648 that takes no other
-- character, no padding but at the end, and no bits set that padding leaves over, accepts the text
-- and gives the source back, and `*out_len` is its length, a multiple of 4. With less room it
-- writes nothing and returns NANORTC_ERR_BUFFER_TOO_SMALL.
pub decode-encode :
    (src : List ℕ) (dst_cap : ℕ)
    → IsBytes src
    → (encoded_size (length src) ≤ dst_cap
        → (text : List ℕ) × (encode src dst_cap ≡ done (text ++ 0 ∷ [], length text))
          × (decode text ≡ some src)
          × (length text + 1 ≡ encoded_size (length src))
          × (length text % 4 ≡ 0))
      × (dst_cap < encoded_size (length src) → encode src dst_cap ≡ error buffer_too_small)
unfolding encode encoded_size
decode-encode src dst_cap h =
    let l = length-groups src in
    (
      (λ room. (
        groups src,
        ground (arith, room),
        decode-groups src h,
        omega (arith, l),
        omega (arith, l),
      )),
      λ short. ground (arith, short),
    )
