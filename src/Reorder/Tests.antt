-- ===== src/Reorder/Tests.antt =====
-- The reorder buffer on a few packets.
use nanortc.Prelude.{
  List, [], arith, done, error, false, no_data, refl, sub16, true, ℕ, ◌-◌, ◌<◌, ◌∷◌, ◌≡◌, ◌≢◌, ◌≤◌,
}
use nanortc.Reorder.{
  Reorder, advance, consider, holds, init, next_timeout_ms, pop, pop_loop, push, release,
  should_skip, skip, skip_from, slot_count, slot_idx, start, store, timeout_from, waits_ahead,
}
use nanortc.Reorder.Slots.{
  Call, IsValid, init-IsValid, popped, push_lem, pushed, run, run_calls-IsValid,
}
use nanortc.Reorder.Wake.{Releases, reorder_pop-next_timeout_ms}

-- Number 10 arrives, is released, and 12 arrives before 11.
abbrev script : List Call
script = pushed 10 0 1 (1 ∷ []) 100 ∷ popped 100 ∷ pushed 12 9 0 (3 ∷ []) 105 ∷ []

abbrev gap : Reorder
gap = run 1232 init script

run_calls-IsValid_example : IsValid gap
run_calls-IsValid_example = run_calls-IsValid 1232 init script (omega arith) init-IsValid

holds_back : (pop gap 110).1 ≡ error no_data
unfolding run push start advance store holds init pop pop_loop release should_skip skip_from
    waits_ahead skip
holds_back = refl

gives_up :
    (pop gap 135).1 ≡ done (record { seq = 12; ts = 9; marker = 0; bytes = 3 ∷ []; lost = true })
unfolding run push start advance store holds init pop pop_loop release should_skip skip_from
    waits_ahead skip
gives_up = refl

wakes : next_timeout_ms gap 110 ≡ 25
unfolding run push start advance store holds init pop pop_loop release next_timeout_ms timeout_from
    consider waits_ahead
wakes = refl

reorder_pop-next_timeout_ms_example :
    (next_timeout_ms gap 135 ≡ 0 → Releases gap 135)
    × (next_timeout_ms gap 135 ≢ 0 → pop gap 135 ≡ (gap, error no_data))
unfolding run push start advance store holds init pop pop_loop release
reorder_pop-next_timeout_ms_example =
    reorder_pop-next_timeout_ms gap 135 run_calls-IsValid_example refl

push_lem_example :
    let r' = (push 1232 gap 30 7 0 (5 ∷ []) 140).0 in
    (holds r' 30 ≡ true)
    × (sub16 30 r'.next_seq < slot_count)
    × (holds gap 30 ≡ false
        → r'.slots (slot_idx 30) ≡ record {
          bytes = 5 ∷ [];
          ts = 7;
          arrival_ms = 140;
          seq = 30;
          marker = 0;
          occupied = true;
        })
    × (holds gap 30 ≡ true → r'.slots (slot_idx 30) ≡ gap.slots (slot_idx 30))
    × ((i : ℕ) → i ≢ slot_idx 30 → r'.slots i ≡ gap.slots i)
    × (sub16 30 gap.next_seq < slot_count
        → (r'.next_seq ≡ gap.next_seq) × (r'.pending_lost ≡ gap.pending_lost))
    × (slot_count ≤ sub16 30 gap.next_seq
        → (sub16 30 r'.next_seq ≡ slot_count - 1) × (r'.pending_lost ≡ true))
unfolding run push start advance store holds init pop pop_loop release
push_lem_example =
    push_lem 1232 gap 30 7 0 (5 ∷ []) 140 (omega arith) (omega arith) refl (omega arith)
      (omega arith) (omega arith)
