-- ===== src/Prelude/Results.antt =====
-- What a C function that returns an `int` status leaves behind, and reads of a byte buffer.
use Prim.Native.Nat.{ℕ, zero, suc, ◌+◌, ◌<◌, ◌≤◌}
use mathlib.Core.Path.{◌≡◌, ap, refl, sym}
use mathlib.Core.Logic.{◌⊎◌, inl, inr}
use mathlib.Core.Bool.{Bool, true, false}
use mathlib.Core.List.{List, [], ◌++◌, ◌∷◌}
use mathlib.Core.Option.{none, some}
use native.Mathlib.Omega.{arith}
use nanortc.Prelude.Tests.{if◌then◌else◌, leb}
use nanortc.Prelude.Lists.{
  drop, drop-append, get_elem?, get_or, length, length-append, take, take-append,
}

-- The `NANORTC_ERR_*` codes that the modelled functions return.
pub data Error : Type 0 where
  invalid_param buffer_too_small parse no_data protocol_error : Error
  not_implemented bad_state would_block crypto_failed : Error

-- `done` is `NANORTC_OK` with what goes through the out-parameters; `fault` is an access
-- outside a buffer, which C leaves undefined.
pub data Outcome {ℓ} (A : Type ℓ) : Type ℓ where
  done : A → Outcome A
  error : Error → Outcome A
  fault : Outcome A

infixl 5 ◌>>=◌ ◌>>◌
abbrev pub ◌>>=◌ {ℓ κ} : {A : Type ℓ} {B : Type κ} → Outcome A → (A → Outcome B) → Outcome B
done a >>= f = f a
error e >>= f = error e
fault >>= f = fault

abbrev pub ◌>>◌ {ℓ κ} : {A : Type ℓ} {B : Type κ} → Outcome A → Outcome B → Outcome B
m >> k = m >>= λ _. k

-- `if (test) return e;`
unfoldable pub fail_if : Bool → Error → Outcome (Unit {0})
fail_if true e = error e
fail_if false e = done tt

-- `data[i]`
unfoldable pub read : List ℕ → ℕ → Outcome ℕ
read d i = elim (get_elem? d i) [ some x ↦ done x | none ↦ fault ]

get_elem?-in_range : (d : List ℕ) (i : ℕ) → i < length d → get_elem? d i ≡ some (get_or d i 0)
get_elem?-in_range [] i h = absurd (omega arith)
get_elem?-in_range (x ∷ d) zero h = refl
get_elem?-in_range (x ∷ d) (suc i) h = get_elem?-in_range d i (omega arith)

-- A read in range gives the byte.
pub read-in_range : (d : List ℕ) (i : ℕ) → i < length d → read d i ≡ done (get_or d i 0)
unfolding read
read-in_range d i h = rw (get_elem?-in_range d i h, read)

-- A read behind a prefix.
pub read-append :
    (pre ys : List ℕ) (i k : ℕ) → length pre ≡ i → read (pre ++ ys) (i + k) ≡ read ys k
unfolding read
read-append [] ys zero k e = ap (read ys) (omega arith)
read-append [] ys (suc i) k e = absurd (omega (arith, e))
read-append (x ∷ pre) ys zero k e = absurd (omega (arith, e))
read-append (x ∷ pre) ys (suc i) k e =
    let next : suc i + k ≡ suc (i + k) = omega arith in
    rw next (read-append pre ys i k (omega (arith, e)))

-- The `n` bytes from `i` on, as the source of a memcpy.
unfoldable pub slice : List ℕ → ℕ → ℕ → Outcome (List ℕ)
slice d i n = if leb (i + n) (length d) then done (take n (drop i d)) else fault

pub slice-in_range :
    (d : List ℕ) (i n : ℕ) → i + n ≤ length d → slice d i n ≡ done (take n (drop i d))
unfolding slice
slice-in_range d i n h = ground arith

-- The part that stands between two others.
pub slice-middle :
    (pre mid post : List ℕ) (i : ℕ)
    → length pre ≡ i
    → slice (pre ++ (mid ++ post)) i (length mid) ≡ done mid
slice-middle pre mid post i h = rw (
  sym h,
  slice-in_range (pre ++ (mid ++ post)) (length pre) (length mid)
      (omega (arith, length-append pre (mid ++ post), length-append mid post)),
  drop-append pre (mid ++ post),
  take-append mid post,
)

-- To split on an outcome and keep the equation.
pub Outcome-cases {ℓ} :
    {A : Type ℓ} (r : Outcome A)
    → ((a : A) × (r ≡ done a)) ⊎ (((e : Error) × (r ≡ error e)) ⊎ (r ≡ fault))
Outcome-cases (done a) = inl (a, refl)
Outcome-cases (error e) = inr (inl (e, refl))
Outcome-cases fault = inr (inr refl)
