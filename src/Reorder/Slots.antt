-- ===== src/Reorder/Slots.antt =====
-- The slots of src/nano_reorder.c: each holds its own numbers.
use nanortc.Prelude.{
  Bool-cases, List, [], arith, false, inl, inr, leb, length, sub16, suc, true, zero, ℕ, ◌-◌, ◌<◌,
  ◌^◌, ◌∷◌, ◌≡◌, ◌≢◌, ◌≤◌,
}
use nanortc.Reorder.{
  Reorder, advance, holds, init, pop, pop_loop, push, release, skip, slot_count, slot_idx, start,
  store,
}

-- An occupied slot holds a packet whose number belongs to it.
pub record IsValid (r : Reorder) : Type 0 where
  pub next_word : r.next_seq < 2 ^ 16
  pub own_slot :
      (i : ℕ)
      → i < slot_count
      → (r.slots i).occupied ≡ true
      → ((r.slots i).seq < 2 ^ 16) × (slot_idx (r.slots i).seq ≡ i)

pub skip-IsValid : (r : Reorder) → IsValid r → IsValid (skip r)
unfolding skip
skip-IsValid r v = record { next_word = omega arith; own_slot = v.own_slot }

release-IsValid : (r : Reorder) → IsValid r → IsValid (release r).0
unfolding release
release-IsValid r v = record {
  next_word = omega arith;
  own_slot = λ i h o. ground (arith, v.own_slot i h);
}

pub pop_loop-IsValid :
    (fuel : ℕ) (r : Reorder) (now_ms : ℕ) → IsValid r → IsValid (pop_loop fuel r now_ms).0
unfolding pop_loop
pop_loop-IsValid zero r now_ms v = v
pop_loop-IsValid (suc fuel) r now_ms v =
    ground (arith, v, release-IsValid r v, pop_loop-IsValid fuel (skip r) now_ms (skip-IsValid r v))

store-IsValid :
    (r : Reorder) (seq ts marker : ℕ) (bytes : List ℕ) (now_ms : ℕ)
    → seq < 2 ^ 16
    → IsValid r
    → IsValid (store r seq ts marker bytes now_ms)
unfolding store
store-IsValid r seq ts marker bytes now_ms h v = elim (Bool-cases (holds r seq)) [
  | inl old ↦ rw old v
  | inr new ↦
      rw new
        (record { next_word = v.next_word; own_slot = λ i l o. ground (arith, v.own_slot i l) })
]

start-IsValid : (r : Reorder) (seq : ℕ) → seq < 2 ^ 16 → IsValid r → IsValid (start r seq)
unfolding start
start-IsValid r seq h v = elim (Bool-cases r.inited) [
  | inl on ↦ simp on v
  | inr off ↦ simp off (record { next_word = h; own_slot = v.own_slot })
]

advance-IsValid : (r : Reorder) (seq : ℕ) → IsValid r → IsValid (advance r seq)
unfolding advance
advance-IsValid r seq v = elim (Bool-cases (leb slot_count (sub16 seq r.next_seq))) [
  | inl far ↦ simp far (record { next_word = omega arith; own_slot = v.own_slot })
  | inr near ↦ simp near v
]

-- The calls that the media path makes.
pub data Call : Type 0 where
  pushed : ℕ → ℕ → ℕ → List ℕ → ℕ → Call
  popped : ℕ → Call

abbrev pub FitsWord : Call → Type 0
FitsWord (pushed seq ts marker bytes now_ms) = seq < 2 ^ 16
FitsWord (popped now_ms) = Unit

abbrev pub AllFit : List Call → Type 0
AllFit [] = Unit
AllFit (c ∷ cs) = FitsWord c × AllFit cs

unfoldable pub run : ℕ → Reorder → List Call → Reorder
run size r [] = r
run size r (pushed seq ts marker bytes now_ms ∷ cs) =
    run size (push size r seq ts marker bytes now_ms).0 cs
run size r (popped now_ms ∷ cs) = run size (pop r now_ms).0 cs

push-IsValid :
    (size : ℕ) (r : Reorder) (seq ts marker : ℕ) (bytes : List ℕ) (now_ms : ℕ)
    → seq < 2 ^ 16
    → IsValid r
    → IsValid (push size r seq ts marker bytes now_ms).0
unfolding push
push-IsValid size r seq ts marker bytes now_ms h v = ground (
  arith,
  v,
  start-IsValid r seq h v,
  store-IsValid (advance (start r seq) seq) seq ts marker bytes now_ms h
      (advance-IsValid (start r seq) seq (start-IsValid r seq h v)),
)

pop-IsValid : (r : Reorder) (now_ms : ℕ) → IsValid r → IsValid (pop r now_ms).0
unfolding pop
pop-IsValid r now_ms v = ground (arith, v, pop_loop-IsValid slot_count r now_ms v)

-- From a valid buffer, any calls of reorder_push and reorder_pop with 16-bit sequence numbers, in
-- any order, leave a valid one: the head is a 16-bit number, and a packet that is stored stands in
-- the slot of its own number.
pub run_calls-IsValid :
    (size : ℕ) (r : Reorder) (cs : List Call) → AllFit cs → IsValid r → IsValid (run size r cs)
unfolding run
run_calls-IsValid size r [] f v = v
run_calls-IsValid size r (pushed seq ts marker bytes now_ms ∷ cs) f v =
    run_calls-IsValid size (push size r seq ts marker bytes now_ms).0 cs f.1
      (push-IsValid size r seq ts marker bytes now_ms f.0 v)
run_calls-IsValid size r (popped now_ms ∷ cs) f v =
    run_calls-IsValid size (pop r now_ms).0 cs f.1 (pop-IsValid r now_ms v)

pub init-IsValid : IsValid init
unfolding init
init-IsValid = record { next_word = omega arith; own_slot = λ i h o. absurd (cc) }

-- A packet of at least one byte that fits a slot and is not behind the head, pushed to a buffer
-- that has seen one, the numbers having 16 bits, is buffered afterwards and lies within the 8
-- numbers from the head on. Its slot holds its bytes, timestamp, marker, number and the time, or
-- what it held before where that was a packet of the same number; every other slot is as it was.
-- Where the packet is within the 8 numbers already, the head and the pending loss are as they were;
-- otherwise the head has moved just so far that the packet is the last of the 8, and a loss is
-- pending.
pub push_lem :
    (size : ℕ) (r : Reorder) (seq ts marker : ℕ) (bytes : List ℕ) (now_ms : ℕ)
    → seq < 2 ^ 16
    → r.next_seq < 2 ^ 16
    → r.inited ≡ true
    → 0 < length bytes
    → length bytes ≤ size
    → sub16 seq r.next_seq < 2 ^ 15
    → let r' = (push size r seq ts marker bytes now_ms).0 in
      (holds r' seq ≡ true)
      × (sub16 seq r'.next_seq < slot_count)
      × (holds r seq ≡ false
          → r'.slots (slot_idx seq) ≡ record {
            bytes = bytes;
            ts = ts;
            arrival_ms = now_ms;
            seq = seq;
            marker = marker;
            occupied = true;
          })
      × (holds r seq ≡ true → r'.slots (slot_idx seq) ≡ r.slots (slot_idx seq))
      × ((i : ℕ) → i ≢ slot_idx seq → r'.slots i ≡ r.slots i)
      × (sub16 seq r.next_seq < slot_count
          → (r'.next_seq ≡ r.next_seq) × (r'.pending_lost ≡ r.pending_lost))
      × (slot_count ≤ sub16 seq r.next_seq
          → (sub16 seq r'.next_seq ≡ slot_count - 1) × (r'.pending_lost ≡ true))
unfolding push start advance store holds
push_lem size r seq ts marker bytes now_ms h w on p q near = (
  ground arith,
  ground arith,
  (λ new. ground (arith, new)),
  (λ old. ground (arith, old)),
  (λ i ne. ground (arith, ne)),
  (λ within. ground (arith, within)),
  λ far. ground (arith, far),
)
