-- ===== src/Jitter/Window.antt =====
-- The window of src/nano_jitter.c: what a slot may hold.
use nanortc.Prelude.{
  Bool-cases, List, arith, inl, inr, sub16, suc, true, zero, ℕ, ◌%◌, ◌<◌, ◌==◌, ◌^◌, ◌≡◌,
}
use nanortc.Jitter.{Jitter, drop_head, skip_to, slot_count, store}

-- Every occupied slot has its own packet, one of the 32 sequence numbers from `head_seq` on.
pub record IsWindow (jb : Jitter) : Type 0 where
  pub head_word : jb.head_seq < 2 ^ 16
  pub own_slot :
      (i : ℕ)
      → i < slot_count
      → (jb.slots i).occupied ≡ true
      → ((jb.slots i).seq < 2 ^ 16)
        × ((jb.slots i).seq % slot_count ≡ i)
        × (sub16 (jb.slots i).seq jb.head_seq < slot_count)

pub drop_head-IsWindow : (jb : Jitter) → IsWindow jb → IsWindow (drop_head jb)
unfolding drop_head
drop_head-IsWindow jb w = record {
  head_word = omega arith;
  own_slot = λ i h o. ground (arith, w.head_word, w.own_slot i h);
}

-- The loop of jitter_push ends by its own test.
pub skip_to-head :
    (fuel new_head : ℕ) (jb : Jitter)
    → jb.head_seq < 2 ^ 16
    → new_head < 2 ^ 16
    → sub16 new_head jb.head_seq < fuel
    → (skip_to fuel new_head jb).head_seq ≡ new_head
unfolding skip_to
skip_to-head zero new_head jb h k f = absurd (omega arith)
skip_to-head (suc fuel) new_head jb h k f = elim (Bool-cases (jb.head_seq == new_head)) [
  | inl e ↦ rw (e, skip_to) (ground arith)
  | inr ne ↦
      rw (ne, skip_to)
        (skip_to-head fuel new_head (drop_head jb) (unfold drop_head in omega arith) k
          (unfold drop_head in ground arith))
]

pub store-IsWindow :
    (jb : Jitter) (seq timestamp : ℕ) (bytes : List ℕ) (now_ms : ℕ)
    → seq < 2 ^ 16
    → sub16 seq jb.head_seq < slot_count
    → IsWindow jb
    → IsWindow (store jb seq timestamp bytes now_ms)
unfolding store
store-IsWindow jb seq timestamp bytes now_ms h k w = record {
  head_word = w.head_word;
  own_slot = λ i l o. ground (arith, w.own_slot i l);
}
