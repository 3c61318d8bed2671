-- ===== src/Prelude/Ensures.antt =====
-- What a chain of fallible steps guarantees: it does not fault, an error satisfies `E` and a
-- result satisfies `P`. One rule for each step of a `do` block.
use Prim.Native.Nat.{ℕ, ◌+◌, ◌<◌, ◌≤◌}
use mathlib.Core.Path.{◌≡◌, refl, sym, subst}
use mathlib.Core.Logic.{◌≢◌}
use mathlib.Core.Bool.{Bool, true, false}
use mathlib.Core.List.{List}
use mathlib.Core.Option.{Option, none, some}
use nanortc.Prelude.Tests.{if◌then◌else◌}
use nanortc.Prelude.Lists.{drop, get_or, length, take}
use nanortc.Prelude.Results.{
  Error, Outcome, done, error, fail_if, fault, read, read-in_range, slice, slice-in_range, ◌>>=◌,
}
use nanortc.Prelude.Wire.{
  read_u16be, read_u16be-in_range, read_u32be, read_u32be-in_range, u16_at, u32_at,
}

pub data Ensures {A : Type 0} (E : Error → Type 0) (P : A → Type 0) : Outcome A → Type 0 where
  returns : {a : A} → P a → Ensures E P (done a)
  fails : {e : Error} → E e → Ensures E P (error e)

module _ {A : Type 0} {E : Error → Type 0} {P : A → Type 0} where
  pub Ensures-bind :
      {B : Type 0} {Q : B → Type 0} {m : Outcome A} {f : A → Outcome B}
      → Ensures E P m
      → ((a : A) → P a → Ensures E Q (f a))
      → Ensures E Q (m >>= f)
  Ensures-bind (returns {a = a} p) k = k a p
  Ensures-bind (fails e) k = fails e

  pub Ensures-eq : {m n : Outcome A} → m ≡ n → Ensures E P n → Ensures E P m
  Ensures-eq e h = subst (λ r. Ensures E P r) (sym e) h

  pub Ensures-weaken :
      {Q : A → Type 0} {m : Outcome A} → Ensures E P m → ((a : A) → P a → Q a) → Ensures E Q m
  Ensures-weaken (returns {a = a} p) k = returns (k a p)
  Ensures-weaken (fails e) k = fails e

  pub Ensures-ne_fault : {m : Outcome A} → Ensures E P m → m ≢ fault
  Ensures-ne_fault (returns p) h = cc
  Ensures-ne_fault (fails e) h = cc

  pub Ensures-done : {m : Outcome A} {a : A} → Ensures E P m → m ≡ done a → P a
  Ensures-done (returns p) h = subst P (cc) p
  Ensures-done (fails e) h = absurd (cc)

  pub Ensures-error : {m : Outcome A} {e : Error} → Ensures E P m → m ≡ error e → E e
  Ensures-error (returns p) h = absurd (cc)
  Ensures-error (fails p) h = subst E (cc) p

  -- `if (test) … else …`
  pub Ensures-if :
      (b : Bool) {m n : Outcome A}
      → (b ≡ true → Ensures E P m)
      → (b ≡ false → Ensures E P n)
      → Ensures E P (elim b [ true ↦ m | false ↦ n ])
  Ensures-if true h k = h refl
  Ensures-if false h k = k refl

  pub Ensures-test :
      (b : Bool) (m n : Outcome A)
      → (b ≡ true → Ensures E P m)
      → (b ≡ false → Ensures E P n)
      → Ensures E P (if b then m else n)
  Ensures-test true m n h k = h refl
  Ensures-test false m n h k = k refl

  -- A match on an option.
  pub Ensures-option :
      {C : Type 0} (o : Option C) {m : Outcome A} {f : C → Outcome A}
      → Ensures E P m
      → ((c : C) → Ensures E P (f c))
      → Ensures E P (elim o [ none ↦ m | some c ↦ f c ])
  Ensures-option none h k = h
  Ensures-option (some c) h k = k c

module _ {E : Error → Type 0} where
  pub slice-Ensures :
      (d : List ℕ) (i n : ℕ)
      → i + n ≤ length d
      → Ensures E (λ l. l ≡ take n (drop i d)) (slice d i n)
  slice-Ensures d i n h = Ensures-eq (slice-in_range d i n h) (returns refl)

  pub fail_if-Ensures :
      (b : Bool) (e : Error) → (b ≡ true → E e) → Ensures E (λ _. b ≡ false) (fail_if b e)
  unfolding fail_if
  fail_if-Ensures true e h = fails (h refl)
  fail_if-Ensures false e h = returns refl

  pub read-Ensures :
      (d : List ℕ) (i : ℕ) → i < length d → Ensures E (λ x. x ≡ get_or d i 0) (read d i)
  read-Ensures d i h = Ensures-eq (read-in_range d i h) (returns refl)

  pub read_u16be-Ensures :
      (d : List ℕ) (i : ℕ) → i + 1 < length d → Ensures E (λ x. x ≡ u16_at d i) (read_u16be d i)
  read_u16be-Ensures d i h = Ensures-eq (read_u16be-in_range d i h) (returns refl)

  pub read_u32be-Ensures :
      (d : List ℕ) (i : ℕ) → i + 3 < length d → Ensures E (λ x. x ≡ u32_at d i) (read_u32be d i)
  read_u32be-Ensures d i h = Ensures-eq (read_u32be-in_range d i h) (returns refl)
