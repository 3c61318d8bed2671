-- ===== src/RateControl/Tests.antt =====
-- The rate controller on a ladder of three rungs.
use nanortc.Prelude.{
  List, [], arith, done, get_or, length, read, refl, suc, true, zero, ℕ, ◌*◌, ◌/◌, ◌<◌, ◌^◌, ◌↔◌,
  ◌∷◌, ◌≡◌, ◌≤◌, ◌⊎◌,
}
use nanortc.RateControl.{
  RateControl, budget, clear_up, loss_down_q8, lossy_target, move, safety_pct, select_from,
  select_target, try_up, update,
}
use nanortc.RateControl.Policy.{
  AllBelow, IsAscending, Moved, rungs, rungs-AllBelow, select_target_lem, update_lem, wanted,
}

abbrev ladder : List ℕ
ladder = 100000 ∷ 500000 ∷ 1500000 ∷ []

ladder-IsAscending : IsAscending ladder
ladder-IsAscending zero j le lt = grind arith
ladder-IsAscending (suc zero) j le lt = grind arith
ladder-IsAscending (suc (suc zero)) j le lt = grind arith
ladder-IsAscending (suc (suc (suc i))) j le lt = absurd (omega arith)

ladder_words : (i : ℕ) → get_or ladder i 0 < 2 ^ 32
ladder_words zero = omega arith
ladder_words (suc zero) = omega arith
ladder_words (suc (suc zero)) = omega arith
ladder_words (suc (suc (suc i))) = omega arith

select_target_lem_example :
    (1 ≤ select_target 700000 ladder) ↔ (◌≡◌ {A = ℕ} 1 0 ⊎ (500000 ≤ 700000 * safety_pct / 100))
select_target_lem_example =
    select_target_lem 700000 ladder 1 (omega arith) ladder-IsAscending (omega arith)

abbrev armed : RateControl
armed = record { cur_rung = 0; has_rung = true; up_target = 1; up_since_ms = 1000 }

climbs :
    update armed 700000 0 ladder 4000
    ≡ done (record { cur_rung = 1; has_rung = true; up_target = 0; up_since_ms = 0 }, 1)
unfolding update move try_up clear_up lossy_target select_target select_from budget read
climbs = refl

update_lem_example :
    (rc' : RateControl) × (update armed 700000 0 ladder 4000 ≡ done (rc', rc'.cur_rung))
    × Moved armed 700000 ladder (wanted armed 0 (select_target 700000 ladder)) 4000 rc'
    × (loss_down_q8 ≤ 0 → 0 < 0 → rc'.cur_rung < 0)
update_lem_example =
    update_lem armed 700000 0 ladder 4000 (omega arith) (omega arith) ladder_words (omega arith)
      refl (omega arith) (omega arith) (omega arith)

rungs-AllBelow_example :
    (rs : List ℕ) × (rungs armed ladder ((700000, 0, 4000) ∷ (90000, 60, 4100) ∷ []) ≡ done rs)
    × (length rs ≡ 2)
    × AllBelow 3 rs
rungs-AllBelow_example =
    rungs-AllBelow armed ladder ((700000, 0, 4000) ∷ (90000, 60, 4100) ∷ []) (omega arith)
      (omega arith) (omega arith)
