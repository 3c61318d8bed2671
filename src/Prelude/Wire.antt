-- ===== src/Prelude/Wire.antt =====
-- The big-endian accessors of include/nanortc.h (nanortc_read_u16be and its siblings).
-- `a << k | b` with `b` below `2 ^ k` is written as the sum.
use Prim.Native.Nat.{ℕ, zero, suc, ◌%◌, ◌+◌, ◌*◌, ◌/◌, ◌<◌, ◌^◌}
use mathlib.Core.Path.{◌≡◌, ap, refl, ◌∙◌}
use mathlib.Core.List.{List, [], ◌∷◌, ◌++◌}
use native.Mathlib.Omega.{arith}
use nanortc.Prelude.Lists.{get_or, length}
use nanortc.Prelude.Words.{u8}
use nanortc.Prelude.Results.{Outcome, done, read, read-append, read-in_range, ◌>>=◌}

-- A buffer of `uint8_t`.
abbrev pub IsBytes : List ℕ → Type 0
IsBytes [] = Unit
IsBytes (x ∷ xs) = (x < 256) × IsBytes xs

pub byte-lt : (d : List ℕ) (i : ℕ) → IsBytes d → get_or d i 0 < 256
byte-lt [] i h = omega arith
byte-lt (x ∷ d) zero h = h.0
byte-lt (x ∷ d) (suc i) h = byte-lt d i h.1

pub IsBytes-append : (xs ys : List ℕ) → IsBytes xs → IsBytes ys → IsBytes (xs ++ ys)
IsBytes-append [] ys h k = k
IsBytes-append (x ∷ xs) ys h k = (h.0, IsBytes-append xs ys h.1 k)

-- nanortc_read_u16be
unfoldable pub read_u16be : List ℕ → ℕ → Outcome ℕ
read_u16be p i = do b0 ← read p i; b1 ← read p (i + 1); done (b0 * 2 ^ 8 + b1)

-- nanortc_read_u32be
unfoldable pub read_u32be : List ℕ → ℕ → Outcome ℕ
read_u32be p i = do
  b0 ← read p i
  b1 ← read p (i + 1)
  b2 ← read p (i + 2)
  b3 ← read p (i + 3)
  done (b0 * 2 ^ 24 + b1 * 2 ^ 16 + b2 * 2 ^ 8 + b3)

-- nanortc_write_u16be: the two bytes in the order in which they are stored.
abbrev pub write_u16be : ℕ → List ℕ
write_u16be v = u8 (v / 2 ^ 8) ∷ u8 v ∷ []

-- nanortc_write_u32be
abbrev pub write_u32be : ℕ → List ℕ
write_u32be v = u8 (v / 2 ^ 24) ∷ u8 (v / 2 ^ 16) ∷ u8 (v / 2 ^ 8) ∷ u8 v ∷ []

-- The same numbers without the bounds of the buffer, for statements.
abbrev pub u16_at : List ℕ → ℕ → ℕ
u16_at p i = get_or p i 0 * 2 ^ 8 + get_or p (i + 1) 0

abbrev pub u32_at : List ℕ → ℕ → ℕ
u32_at p i =
    get_or p i 0 * 2 ^ 24
    + get_or p (i + 1) 0 * 2 ^ 16
    + get_or p (i + 2) 0 * 2 ^ 8
    + get_or p (i + 3) 0

pub read_u16be-in_range :
    (p : List ℕ) (i : ℕ) → i + 1 < length p → read_u16be p i ≡ done (u16_at p i)
unfolding read_u16be
read_u16be-in_range p i h =
    rw (read-in_range p i (omega arith), read-in_range p (i + 1) (omega arith))

pub read_u32be-in_range :
    (p : List ℕ) (i : ℕ) → i + 3 < length p → read_u32be p i ≡ done (u32_at p i)
unfolding read_u32be
read_u32be-in_range p i h = rw (
  read-in_range p i (omega arith),
  read-in_range p (i + 1) (omega arith),
  read-in_range p (i + 2) (omega arith),
  read-in_range p (i + 3) (omega arith),
)

pub u16_at-lt : (p : List ℕ) (i : ℕ) → IsBytes p → u16_at p i < 2 ^ 16
u16_at-lt p i h = omega (arith, byte-lt p i h, byte-lt p (i + 1) h)

pub u32_at-lt : (p : List ℕ) (i : ℕ) → IsBytes p → u32_at p i < 2 ^ 32
u32_at-lt p i h =
    omega (arith, byte-lt p i h, byte-lt p (i + 1) h, byte-lt p (i + 2) h, byte-lt p (i + 3) h)

-- The bytes of a number, put together again.
pub join16 : (n : ℕ) → n < 2 ^ 16 → n / 2 ^ 8 % 2 ^ 8 * 2 ^ 8 + n % 2 ^ 8 ≡ n
join16 n h = omega arith

pub join32 :
    (n : ℕ)
    → n < 2 ^ 32
    → n / 2 ^ 24 % 2 ^ 8 * 2 ^ 24
        + n / 2 ^ 16 % 2 ^ 8 * 2 ^ 16
        + n / 2 ^ 8 % 2 ^ 8 * 2 ^ 8
        + n % 2 ^ 8
      ≡ n
join32 n h = omega arith

-- A number behind a prefix.
pub read_u16be-append :
    (pre rest : List ℕ) (i v : ℕ)
    → length pre ≡ i
    → v < 2 ^ 16
    → read_u16be (pre ++ (write_u16be v ++ rest)) i ≡ done v
unfolding read_u16be read
read_u16be-append pre rest i v e h =
    let bytes = pre ++ (write_u16be v ++ rest) in
    let high : read bytes i ≡ done (u8 (v / 2 ^ 8)) =
      ap (read bytes) (omega arith) ∙ read-append pre (write_u16be v ++ rest) i 0 e in
    let low : read bytes (i + 1) ≡ done (u8 v) = read-append pre (write_u16be v ++ rest) i 1 e in
    rw (high, low, join16 v h) refl
