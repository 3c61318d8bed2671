-- ===== src/RateControl/Policy.antt =====
-- The policy that src/nano_rate_control.h promises.
use nanortc.Prelude.{
  Bool-cases, List, Outcome, [], ap, arith, done, false, get_or, if◌then◌else◌, inl, inr, leb,
  length, ltb, max, min, read-in_range, refl, sub32, suc, true, u8, zero, ℕ, ◌%◌, ◌*◌, ◌+◌, ◌-◌,
  ◌/◌, ◌<◌, ◌==◌, ◌>>=◌, ◌^◌, ◌||◌, ◌↔◌, ◌∷◌, ◌≡◌, ◌≢◌, ◌≤◌, ◌⊎◌,
}
use native.Mathlib.Decide.{dec_lt}
use mathlib.Core.Path.{subst}
use nanortc.RateControl.{
  RateControl, budget, clear_up, loss_down_q8, lossy_target, min_hold_ms, move, safety_pct,
  select_from, select_target, try_up, up_headroom_pct, update,
}

-- The bitrates do not fall from one rung to the next.
abbrev pub IsAscending : List ℕ → Type 0
IsAscending ladder = (i j : ℕ) → i ≤ j → j < length ladder → get_or ladder i 0 ≤ get_or ladder j 0

-- The result never falls below the rung selected so far, and stays inside the ladder.
select_from_range :
    (limit : ℕ) (ladder : List ℕ) (i target : ℕ)
    → target ≤ i
    → (target ≤ select_from limit ladder i target)
      × (select_from limit ladder i target ≤ i + (length ladder - 1))
unfolding select_from
select_from_range limit [] i target h = omega arith
select_from_range limit (b ∷ []) i target h = ground arith
select_from_range limit (b ∷ c ∷ ladder) i target h =
    ground (arith, select_from_range limit (c ∷ ladder) (i + 1) (if leb b limit then i else target))

-- A rung above the selected one does not fit the budget.
select_from-highest :
    (limit : ℕ) (ladder : List ℕ) (i target k : ℕ)
    → target ≤ i
    → k < length ladder
    → select_from limit ladder i target < i + k
    → limit < get_or ladder k 0
unfolding select_from
select_from-highest limit [] i target k t h lt = absurd (omega arith)
select_from-highest limit (b ∷ ladder) i target zero t h lt =
    ground (arith, select_from_range limit ladder (i + 1) (if leb b limit then i else target))
select_from-highest limit (b ∷ ladder) i target (suc k) t h lt =
    select_from-highest limit ladder (i + 1) (if leb b limit then i else target) k (ground arith)
      (omega arith) (omega arith)

select_from_cases :
    (limit : ℕ) (ladder : List ℕ) (i target : ℕ)
    → (select_from limit ladder i target ≡ target) ⊎ (i ≤ select_from limit ladder i target)
unfolding select_from
select_from_cases limit [] i target = inl refl
select_from_cases limit (b ∷ ladder) i target =
    ground (arith, select_from_cases limit ladder (i + 1) (if leb b limit then i else target))

-- The selected rung fits the budget, if one was selected.
select_from-fits :
    (limit : ℕ) (ladder : List ℕ) (i target k : ℕ)
    → target < i
    → select_from limit ladder i target ≡ i + k
    → get_or ladder k 0 ≤ limit
unfolding select_from
select_from-fits limit [] i target k h e = omega arith
select_from-fits limit (b ∷ ladder) i target zero h e =
    ground (arith, select_from_cases limit ladder (i + 1) (if leb b limit then i else target))
select_from-fits limit (b ∷ ladder) i target (suc k) h e =
    select_from-fits limit ladder (i + 1) (if leb b limit then i else target) k (ground arith)
      (omega arith)

-- On an ascending ladder the selected rung is the highest whose bitrate is within 85 % of the
-- estimate: a rung is at or below it exactly when it fits the budget or is the lowest.
pub select_target_lem :
    (estimate_bps : ℕ) (ladder : List ℕ) (k : ℕ)
    → estimate_bps < 2 ^ 32
    → IsAscending ladder
    → k < length ladder
    → (k ≤ select_target estimate_bps ladder)
      ↔ ((k ≡ 0) ⊎ (get_or ladder k 0 ≤ estimate_bps * safety_pct / 100))
unfolding select_target budget
select_target_lem estimate_bps [] k fits up h = absurd (omega arith)
select_target_lem estimate_bps (b ∷ ladder) k fits up h = (down (dec_lt 0 k), above)
  where
    limit : ℕ
    limit = estimate_bps * safety_pct % 2 ^ 64 / 100

    s : ℕ
    s = select_from limit (b ∷ ladder) 0 0

    chosen : 0 < s → get_or ladder (s - 1) 0 ≤ limit
    chosen p =
        select_from-fits limit ladder 1 (if leb b limit then 0 else 0) (s - 1) (ground arith)
          (unfold select_from in omega arith)

    down :
        Dec (0 < k) → k ≤ s → (k ≡ 0) ⊎ (get_or (b ∷ ladder) k 0 ≤ estimate_bps * safety_pct / 100)
    down (no z) le = inl (omega arith)
    down (yes p) le = inr (
        omega (
          arith,
          chosen (omega arith),
          up k s le (omega (arith, select_from_range limit (b ∷ ladder) 0 0 (omega arith))),
          at_suc s (omega arith),
        ))
      where
        at_suc : (j : ℕ) → 0 < j → get_or (b ∷ ladder) j 0 ≡ get_or ladder (j - 1) 0
        at_suc zero q = absurd (omega arith)
        at_suc (suc j) q = ap (λ m. get_or ladder m 0) (omega arith)

    above : (k ≡ 0) ⊎ (get_or (b ∷ ladder) k 0 ≤ estimate_bps * safety_pct / 100) → k ≤ s
    above (inl e) = omega arith
    above (inr f) = elim (dec_lt s k) [
      | no p ↦ omega arith
      | yes p ↦ absurd (
          omega (arith, select_from-highest limit (b ∷ ladder) 0 0 k (omega arith) h (omega arith)))
    ]

pub select_target-lt :
    (estimate_bps : ℕ) (ladder : List ℕ)
    → length ladder ≢ 0
    → select_target estimate_bps ladder < length ladder
unfolding select_target
select_target-lt estimate_bps ladder ne =
    omega (arith, select_from_range (budget estimate_bps) ladder 0 0 (omega arith))

-- The bitrate of the next rung with its headroom.
abbrev pub next_need : RateControl → List ℕ → ℕ
next_need rc ladder = get_or ladder (rc.cur_rung + 1) 0 * (100 + up_headroom_pct) / 100

-- The target: the rung of the selection, or the one below the current rung where that is lower and
-- the loss is sustained, 25/256 or more.
abbrev pub wanted : RateControl → ℕ → ℕ → ℕ
wanted rc loss_q8 selected =
    if ltb loss_q8 25 || rc.cur_rung == 0 then selected else min selected (rc.cur_rung - 1)

lossy_target-wanted :
    (rc : RateControl) (loss_q8 target : ℕ)
    → lossy_target rc loss_q8 target ≡ wanted rc loss_q8 target
unfolding lossy_target
lossy_target-wanted rc loss_q8 target = ground arith

-- What one call does once a first rung has been chosen: the rungs named are those of a ladder
-- of 1 to 255 rungs, the state's own rung included.
pub record Moved (rc : RateControl) (estimate_bps : ℕ) (ladder : List ℕ) (target now_ms : ℕ)
    (rc' : RateControl) : Type 0 where
  pub in_ladder : rc'.cur_rung < length ladder
  pub down : target < rc.cur_rung → rc'.cur_rung ≡ target
  pub not_down : rc.cur_rung ≤ target → rc.cur_rung ≤ rc'.cur_rung
  pub one_up : rc'.cur_rung ≤ max target rc.cur_rung
  pub single : rc.cur_rung < rc'.cur_rung → rc'.cur_rung ≡ rc.cur_rung + 1
  pub held :
      rc.cur_rung < rc'.cur_rung
      → (rc.up_target ≡ rc.cur_rung + 1) × (min_hold_ms ≤ sub32 now_ms rc.up_since_ms)
  pub headroom :
      rc.cur_rung < rc'.cur_rung
      → get_or ladder rc'.cur_rung 0 * (100 + up_headroom_pct) / 100 ≤ estimate_bps
  pub rises :
      rc.cur_rung < target
      → next_need rc ladder ≤ estimate_bps
      → rc.up_target ≡ rc.cur_rung + 1
      → min_hold_ms ≤ sub32 now_ms rc.up_since_ms
      → rc'.cur_rung ≡ rc.cur_rung + 1
  pub arms :
      rc.cur_rung < target
      → next_need rc ladder ≤ estimate_bps
      → rc.up_target ≢ rc.cur_rung + 1
      → (rc'.up_target ≡ rc.cur_rung + 1) × (rc'.up_since_ms ≡ now_ms)
  pub waits :
      rc.cur_rung < target
      → next_need rc ladder ≤ estimate_bps
      → rc.up_target ≡ rc.cur_rung + 1
      → sub32 now_ms rc.up_since_ms < min_hold_ms
      → rc' ≡ rc
  pub disarms : estimate_bps < next_need rc ladder → rc'.up_target ≡ 0
  pub settles : target ≤ rc.cur_rung → rc'.up_target ≡ 0

moved : RateControl → ℕ → List ℕ → ℕ → ℕ → RateControl
unfolding clear_up try_up
moved rc estimate_bps ladder target now_ms =
    if ltb target rc.cur_rung
    then clear_up (record rc { cur_rung = target })
    else if ltb rc.cur_rung target
    then try_up rc estimate_bps (get_or ladder (rc.cur_rung + 1) 0) now_ms
    else clear_up rc

module _ (rc : RateControl) (estimate_bps : ℕ) (ladder : List ℕ) (target now_ms : ℕ)
    (n : length ladder ≤ 255) (t : target < length ladder) where
  move_lem :
      move rc estimate_bps ladder target now_ms ≡ done (moved rc estimate_bps ladder target now_ms)
  unfolding move moved
  move_lem = ground (arith, read-in_range ladder (u8 (rc.cur_rung + 1)), same)
    where
      same : rc.cur_rung < target → u8 (rc.cur_rung + 1) ≡ rc.cur_rung + 1
      same h = omega arith

  moved-Moved :
      rc.cur_rung < length ladder
      → now_ms < 2 ^ 32
      → rc.up_since_ms < 2 ^ 32
      → get_or ladder (rc.cur_rung + 1) 0 < 2 ^ 32
      → Moved rc estimate_bps ladder target now_ms (moved rc estimate_bps ladder target now_ms)
  unfolding moved
  moved-Moved c w s b = ground arith

  moved-lt :
      rc.cur_rung < length ladder
      → (moved rc estimate_bps ladder target now_ms).cur_rung < length ladder
  unfolding moved
  moved-lt c = ground arith

lossy_target_lem :
    (rc : RateControl) (loss_q8 target : ℕ)
    → (lossy_target rc loss_q8 target ≤ target)
      × (loss_down_q8 ≤ loss_q8 → 0 < rc.cur_rung → lossy_target rc loss_q8 target < rc.cur_rung)
unfolding lossy_target
lossy_target_lem rc loss_q8 target = ground arith

update-move :
    (rc : RateControl) (estimate_bps loss_q8 : ℕ) (ladder : List ℕ) (now_ms : ℕ)
    → length ladder ≢ 0
    → length ladder ≤ 255
    → estimate_bps ≢ 0
    → rc.has_rung ≡ true
    → let target = lossy_target rc loss_q8 (select_target estimate_bps ladder) in
      let rc' = moved rc estimate_bps ladder target now_ms in
      update rc estimate_bps loss_q8 ladder now_ms ≡ done (rc', rc'.cur_rung)
unfolding update
update-move rc estimate_bps loss_q8 ladder now_ms ne n e started = ground (
  arith,
  move_lem rc estimate_bps ladder (lossy_target rc loss_q8 (select_target estimate_bps ladder))
      now_ms n inside,
)
  where
    inside : lossy_target rc loss_q8 (select_target estimate_bps ladder) < length ladder
    inside = omega (
      arith,
      select_target-lt estimate_bps ladder ne,
      lossy_target_lem rc loss_q8 (select_target estimate_bps ladder),
    )

-- After a first selection, on a ladder of 1 to 255 rungs with 32-bit bitrates that holds the
-- current rung, a call with an estimate and 32-bit times reads the ladder in range and returns the
-- rung of its new state. The target is the rung of the selection, or under sustained loss, 25/256
-- or more, the rung below the current one where that is lower. The rung drops to a lower target at
-- once. It never passes the target upwards and rises by one at most: it does so exactly when the
-- target is higher, the estimate covers the next bitrate with its headroom, and that step has been
-- armed for the hold time. A step that is not armed is armed then, an armed one goes on waiting,
-- and where the estimate does not cover the next bitrate or the target is not higher no step is
-- armed. Under sustained loss the rung falls unless it is 0 already.
pub update_lem :
    (rc : RateControl) (estimate_bps loss_q8 : ℕ) (ladder : List ℕ) (now_ms : ℕ)
    → length ladder ≢ 0
    → length ladder ≤ 255
    → ((i : ℕ) → get_or ladder i 0 < 2 ^ 32)
    → estimate_bps ≢ 0
    → rc.has_rung ≡ true
    → rc.cur_rung < length ladder
    → rc.up_since_ms < 2 ^ 32
    → now_ms < 2 ^ 32
    → (rc' : RateControl) × (update rc estimate_bps loss_q8 ladder now_ms
        ≡ done (rc', rc'.cur_rung))
      × Moved rc estimate_bps ladder
          (wanted rc loss_q8 (select_target estimate_bps ladder))
          now_ms
          rc'
      × (loss_down_q8 ≤ loss_q8 → 0 < rc.cur_rung → rc'.cur_rung < rc.cur_rung)
update_lem rc estimate_bps loss_q8 ladder now_ms ne n words e started c s w = (
  moved rc estimate_bps ladder target now_ms,
  update-move rc estimate_bps loss_q8 ladder now_ms ne n e started,
  subst (λ t. Moved rc estimate_bps ladder t now_ms (moved rc estimate_bps ladder target now_ms))
      (lossy_target-wanted rc loss_q8 (select_target estimate_bps ladder)) facts,
  λ l p. omega (
    arith,
    facts.down ((lossy_target_lem rc loss_q8 (select_target estimate_bps ladder)).1 l p),
    (lossy_target_lem rc loss_q8 (select_target estimate_bps ladder)).1 l p,
  ),
)
  where
    target : ℕ
    target = lossy_target rc loss_q8 (select_target estimate_bps ladder)

    inside : target < length ladder
    inside = omega (
      arith,
      select_target-lt estimate_bps ladder ne,
      lossy_target_lem rc loss_q8 (select_target estimate_bps ladder),
    )

    facts : Moved rc estimate_bps ladder target now_ms (moved rc estimate_bps ladder target now_ms)
    facts =
        moved-Moved rc estimate_bps ladder target now_ms n inside c w s (words (rc.cur_rung + 1))

-- One call's arguments: the estimate, the loss and the time.
abbrev pub Sample : Type 0
Sample = ℕ × ℕ × ℕ

-- The rungs that a series of calls returns on one ladder.
pub rungs : RateControl → List ℕ → List Sample → Outcome (List ℕ)
rungs rc ladder [] = done []
rungs rc ladder ((estimate_bps, loss_q8, now_ms) ∷ samples) =
    update rc estimate_bps loss_q8 ladder now_ms >>= λ r.
    (rungs r.0 ladder samples >>= λ rest. done (r.1 ∷ rest))

abbrev pub AllBelow : ℕ → List ℕ → Type 0
AllBelow n [] = Unit
AllBelow n (x ∷ xs) = (x < n) × AllBelow n xs

-- One call on a ladder of 1 to 255 rungs that holds the current rung, whatever the flags.
update-in_ladder :
    (rc : RateControl) (estimate_bps loss_q8 : ℕ) (ladder : List ℕ) (now_ms : ℕ)
    → length ladder ≢ 0
    → length ladder ≤ 255
    → rc.cur_rung < length ladder
    → (rc' : RateControl) × (rung : ℕ) × (update rc estimate_bps loss_q8 ladder now_ms
        ≡ done (rc', rung))
      × (rc'.cur_rung < length ladder)
      × (rung < length ladder)
unfolding update clear_up
update-in_ladder rc estimate_bps loss_q8 ladder now_ms ne n c =
    split (Bool-cases (estimate_bps == 0)) (Bool-cases rc.has_rung)
  where
    first : RateControl
    first = record {
      cur_rung = select_target estimate_bps ladder;
      has_rung = true;
      up_target = 0;
      up_since_ms = 0;
    }

    next : RateControl
    next =
        moved rc estimate_bps ladder (lossy_target rc loss_q8 (select_target estimate_bps ladder))
          now_ms

    low : select_target estimate_bps ladder < length ladder
    low = select_target-lt estimate_bps ladder ne

    inside : lossy_target rc loss_q8 (select_target estimate_bps ladder) < length ladder
    inside = omega (arith, low, lossy_target_lem rc loss_q8 (select_target estimate_bps ladder))

    next_inside : next.cur_rung < length ladder
    next_inside =
        moved-lt rc estimate_bps ladder
          (lossy_target rc loss_q8 (select_target estimate_bps ladder)) now_ms n inside c

    split :
        (estimate_bps == 0 ≡ true) ⊎ (estimate_bps == 0 ≡ false)
        → (rc.has_rung ≡ true) ⊎ (rc.has_rung ≡ false)
        → (rc' : RateControl) × (rung : ℕ) × (update rc estimate_bps loss_q8 ladder now_ms
            ≡ done (rc', rung))
          × (rc'.cur_rung < length ladder)
          × (rung < length ladder)
    split (inl z) g = (rc, (if rc.has_rung then rc.cur_rung else 0), ground arith, c, ground arith)
    split (inr p) (inl g) = (
      next,
      next.cur_rung,
      update-move rc estimate_bps loss_q8 ladder now_ms ne n (ground arith) g,
      next_inside,
      next_inside,
    )
    split (inr p) (inr g) = (first, first.cur_rung, ground arith, low, low)

-- Any series of calls on one ladder of 1 to 255 rungs that holds the first rung reads the ladder
-- in range and returns a rung of it each time.
pub rungs-AllBelow :
    (rc : RateControl) (ladder : List ℕ) (samples : List Sample)
    → length ladder ≢ 0
    → length ladder ≤ 255
    → rc.cur_rung < length ladder
    → (rs : List ℕ) × (rungs rc ladder samples ≡ done rs)
      × (length rs ≡ length samples)
      × AllBelow (length ladder) rs
unfolding rungs
rungs-AllBelow rc ladder [] ne n c = ([], refl, refl, tt)
rungs-AllBelow rc ladder ((e, l, w) ∷ samples) ne n c =
    let (rc', rung, eq, c', r) = update-in_ladder rc e l ladder w ne n c in
    let (rs, eqs, len, all) = rungs-AllBelow rc' ladder samples ne n c' in
    (rung ∷ rs, rw eq (rw eqs refl), ap suc len, (r, all))
