-- ===== src/Bwe/Remb.antt =====
-- bwe_parse_remb of src/nano_bwe.c.
use nanortc.Prelude.{
  Error, IsBytes, List, Outcome, ap, arith, byte-lt, done, error, fail_if, fault, get_or,
  if◌then◌else◌, leb, length, ltb, min, parse, read-in_range, read_u16be-in_range,
  read_u32be-in_range, refl, suc, u16_at, u32, u32_at, u32_max, zero, ℕ, ◌%◌, ◌&&◌, ◌*◌, ◌+◌, ◌/◌,
  ◌<◌, ◌^◌, ◌||◌, ◌∙◌, ◌≡◌, ◌≢◌, ◌≤◌,
}
use native.Mathlib.Nat.{one-le-pow}
use nanortc.Bwe.{parse_remb}

-- The bitrate of the bytes 17 to 19: a 6-bit exponent and an 18-bit mantissa.
abbrev pub exponent : List ℕ → ℕ
exponent d = get_or d 17 0 / 4 % 64

abbrev pub mantissa : List ℕ → ℕ
mantissa d = get_or d 17 0 % 4 * 2 ^ 16 + get_or d 18 0 * 2 ^ 8 + get_or d 19 0

-- The header of a REMB packet that fits the buffer.
pub record IsRemb (d : List ℕ) : Type 0 where
  pub size : 20 ≤ length d
  pub version : get_or d 0 0 / 64 % 4 ≡ 2
  pub format : get_or d 0 0 % 32 ≡ 15
  pub packet_type : get_or d 1 0 ≡ 206
  pub long_enough : 4 ≤ u16_at d 2
  pub fits : (u16_at d 2 + 1) * 4 ≤ length d
  pub unique_id : u32_at d 12 ≡ 0x52454D42

-- The bitrate, saturated at UINT32_MAX; an exponent of 32 or more saturates whatever the mantissa.
abbrev pub value : ℕ → ℕ → ℕ
value e m = if leb 32 e then u32_max else min (m * 2 ^ e) u32_max

saturate : ℕ → ℕ → ℕ
saturate e m = if leb 32 e || (ltb 0 e && ltb (u32_max / 2 ^ e) m) then u32_max else u32 (m * 2 ^ e)

le-div : (m p n : ℕ) → 0 < p → m ≤ n / p → m * p ≤ n
le-div m p n h k = grind arith

lt-div : (m p n : ℕ) → 0 < p → n / p < m → n < m * p
lt-div m p n h k = grind arith

pow-pos : (e : ℕ) → 0 < 2 ^ e
pow-pos e = omega (arith, one-le-pow e 2 (omega arith))

saturate_lem : (e m : ℕ) → m < 2 ^ 18 → saturate e m ≡ value e m
unfolding saturate
saturate_lem zero m k = ground arith
saturate_lem (suc e) m k = ground (
  arith,
  le-div m (2 ^ suc e) u32_max (pow-pos (suc e)),
  lt-div m (2 ^ suc e) u32_max (pow-pos (suc e)),
)

saturate_def :
    (e m : ℕ)
    → saturate e m
      ≡ (if leb 32 e || (ltb 0 e && ltb (u32_max / 2 ^ e) m) then u32_max else u32 (m * 2 ^ e))
unfolding saturate
saturate_def e m = refl

-- The parser reads nothing outside the buffer, and a refusal is NANORTC_ERR_PARSE.
parse_remb_outcomes :
    (d : List ℕ) → (parse_remb d ≢ fault) × ((e : Error) → parse_remb d ≡ error e → e ≡ parse)
unfolding parse_remb fail_if
parse_remb_outcomes d = ground (
  arith,
  read-in_range d 0,
  read-in_range d 1,
  read-in_range d 17,
  read-in_range d 18,
  read-in_range d 19,
  read_u16be-in_range d 2,
  read_u32be-in_range d 12,
)

parse_remb-IsRemb : (d : List ℕ) (r : ℕ) → parse_remb d ≡ done r → IsRemb d
unfolding parse_remb fail_if
parse_remb-IsRemb d r h = ground (
  arith,
  read-in_range d 0,
  read-in_range d 1,
  read-in_range d 17,
  read-in_range d 18,
  read-in_range d 19,
  read_u16be-in_range d 2,
  read_u32be-in_range d 12,
)

parse_remb-value :
    (d : List ℕ) → IsBytes d → IsRemb d → parse_remb d ≡ done (value (exponent d) (mantissa d))
unfolding parse_remb fail_if
parse_remb-value d b h = ground (
  arith,
  read-in_range d 0,
  read-in_range d 1,
  read-in_range d 17,
  read-in_range d 18,
  read-in_range d 19,
  read_u16be-in_range d 2,
  read_u32be-in_range d 12,
  saturate_lem (exponent d) (mantissa d),
  byte-lt d 17 b,
  byte-lt d 18 b,
  byte-lt d 19 b,
  saturate_def (exponent d) (mantissa d),
)

-- The parser never reads outside the buffer. On a REMB packet that fits the buffer it returns
-- mantissa * 2^exponent, saturated at 2^32 - 1 (an exponent of 32 or more saturates whatever the
-- mantissa is); on any other bytes it returns NANORTC_ERR_PARSE.
pub parse_remb_lem :
    (d : List ℕ)
    → IsBytes d
    → (parse_remb d ≢ fault)
      × (IsRemb d → parse_remb d ≡ done (value (exponent d) (mantissa d)))
      × (¬ IsRemb d → parse_remb d ≡ error parse)
parse_remb_lem d b = ((parse_remb_outcomes d).0, parse_remb-value d b, refused (parse_remb d) refl)
  where
    refused : (r : Outcome ℕ) → parse_remb d ≡ r → ¬ IsRemb d → parse_remb d ≡ error parse
    refused (done x) e no_remb = absurd (no_remb (parse_remb-IsRemb d x e))
    refused (error x) e no_remb = e ∙ ap error ((parse_remb_outcomes d).1 x e)
    refused fault e no_remb = absurd ((parse_remb_outcomes d).0 e)
