-- ===== src/Jitter/Run.antt =====
-- The states that src/nano_jitter.c reaches while no packet arrives late.
use nanortc.Prelude.{
  Bool-cases, List, ap, arith, false, inl, inr, length, refl, sub16, suc, sym, true, u16, zero, ℕ,
  ◌%◌, ◌+◌, ◌-◌, ◌<◌, ◌==◌, ◌^◌, ◌∙◌, ◌≡◌, ◌≤◌, ◌⊎◌,
}
use native.Mathlib.Decide.{dec_lt}
use nanortc.Jitter.{
  Jitter, drop_head, holds, init, look_ahead, place, pop, push, release, skip_gap, skip_to,
  slot_count, slot_data_size, start, store,
}
use nanortc.Jitter.Window.{IsWindow, drop_head-IsWindow, skip_to-head, store-IsWindow}
use nanortc.Jitter.Playout.{IsFirst, at, head_slot, look_ahead-first, look_ahead-none, search_cases}

-- The slots lie in the window, none is occupied before the first packet, and every packet fits
-- a slot.
pub record IsValid (jb : Jitter) : Type 0 where
  pub window : IsWindow jb
  pub idle : (i : ℕ) → jb.started ≡ false → (jb.slots i).occupied ≡ false
  pub room : (i : ℕ) → length (jb.slots i).bytes ≤ slot_data_size

-- The packet is the head's or a later one, or so old that it is discarded.
abbrev pub IsTimely : Jitter → ℕ → Type 0
IsTimely jb seq =
    let delta = sub16 seq (start jb seq).head_seq in
    (delta < 2 ^ 15) ⊎ (delta ≤ 2 ^ 16 - slot_count)

pub data Step : Jitter → Jitter → Type 0 where
  pushed :
      (jb : Jitter) (seq timestamp : ℕ) (bytes : List ℕ) (now_ms : ℕ)
      → seq < 2 ^ 16
      → IsTimely jb seq
      → Step jb (push jb seq timestamp bytes now_ms).0
  popped : (jb : Jitter) (now_ms buf_len : ℕ) → Step jb (pop jb now_ms buf_len).0

pub data Reach (depth_ms : ℕ) : Jitter → Type 0 where
  here : Reach depth_ms (init depth_ms)
  next : {jb jb' : Jitter} → Reach depth_ms jb → Step jb jb' → Reach depth_ms jb'

init-IsValid : (depth_ms : ℕ) → IsValid (init depth_ms)
unfolding init
init-IsValid depth_ms = record {
  window = record { head_word = omega arith; own_slot = λ i h o. absurd (cc) };
  idle = λ i e. refl;
  room = λ i. omega arith;
}

occupied-holds :
    (jb : Jitter) (i : ℕ)
    → (jb.slots i).seq % slot_count ≡ i
    → (jb.slots i).occupied ≡ true
    → holds jb (jb.slots i).seq ≡ true
unfolding holds
occupied-holds jb i e o = ground (arith, o, ap jb.slots e)

-- No buffered packet lies before the first one.
offset-ge :
    (jb : Jitter) (k i : ℕ)
    → IsWindow jb
    → IsFirst jb 0 k
    → i < slot_count
    → (jb.slots i).occupied ≡ true
    → k ≤ sub16 (jb.slots i).seq jb.head_seq
offset-ge jb k i w f h o = elim (dec_lt (sub16 (jb.slots i).seq jb.head_seq) k) [
  | no p ↦ omega arith
  | yes p ↦ absurd (clash (f.before (sub16 (jb.slots i).seq jb.head_seq) (omega arith) p))
]
  where
    same : at jb (sub16 (jb.slots i).seq jb.head_seq) ≡ (jb.slots i).seq
    same = omega (arith, w.head_word, w.own_slot i h o)

    clash : holds jb (at jb (sub16 (jb.slots i).seq jb.head_seq)) ≡ false → ⊥
    clash e = cc (occupied-holds jb i (w.own_slot i h o).1 o, same)

-- Moving the head to the first buffered packet leaves all packets in the window.
moved-IsWindow :
    (jb : Jitter) (k : ℕ)
    → IsWindow jb
    → IsFirst jb 0 k
    → k < slot_count
    → IsWindow (record jb { head_seq = at jb k })
moved-IsWindow jb k w f l = record {
  head_word = omega arith;
  own_slot = λ i h o. (
    (w.own_slot i h o).0,
    (w.own_slot i h o).1,
    omega (arith, w.head_word, w.own_slot i h o, offset-ge jb k i w f h o),
  );
}

drop_head-IsValid :
    (jb : Jitter)
    → IsValid jb
    → jb.started ≡ true
    → IsValid (drop_head jb) × ((drop_head jb).started ≡ true)
drop_head-IsValid jb v on = (
  record {
    window = drop_head-IsWindow jb v.window;
    idle = λ i e. unfold drop_head in ground (arith, on, v.idle i);
    room = λ i. unfold drop_head in ground (arith, v.room i, v.room (jb.head_seq % slot_count));
  },
  unfold drop_head in on,
)

release-IsValid :
    (jb : Jitter) (now_ms buf_len : ℕ)
    → IsValid jb
    → jb.started ≡ true
    → IsValid (release jb now_ms buf_len).0
unfolding release
release-IsValid jb now_ms buf_len v on = ground (arith, drop_head-IsValid jb v on)

skip_to-IsValid :
    (fuel new_head : ℕ) (jb : Jitter)
    → IsValid jb
    → jb.started ≡ true
    → IsValid (skip_to fuel new_head jb) × ((skip_to fuel new_head jb).started ≡ true)
unfolding skip_to
skip_to-IsValid zero new_head jb v on = (v, on)
skip_to-IsValid (suc fuel) new_head jb v on = elim (Bool-cases (jb.head_seq == new_head)) [
  | inl e ↦ rw (e, skip_to) (v, on)
  | inr ne ↦
      rw (ne, skip_to)
        (skip_to-IsValid fuel new_head (drop_head jb) (drop_head-IsValid jb v on).0
          (drop_head-IsValid jb v on).1)
]

store-IsValid :
    (jb : Jitter) (seq timestamp : ℕ) (bytes : List ℕ) (now_ms : ℕ)
    → seq < 2 ^ 16
    → sub16 seq jb.head_seq < slot_count
    → length bytes ≤ slot_data_size
    → IsValid jb
    → jb.started ≡ true
    → IsValid (store jb seq timestamp bytes now_ms)
store-IsValid jb seq timestamp bytes now_ms h k l v on = record {
  window = store-IsWindow jb seq timestamp bytes now_ms h k v.window;
  idle = λ i e. absurd (unfold store in cc);
  room = λ i. unfold store in ground (arith, v.room i);
}

moved-IsValid :
    (jb : Jitter) (k : ℕ)
    → IsValid jb
    → jb.started ≡ true
    → IsFirst jb 0 k
    → k < slot_count
    → IsValid (record jb { head_seq = at jb k })
moved-IsValid jb k v on f l = record {
  window = moved-IsWindow jb k v.window f l;
  idle = v.idle;
  room = v.room;
}

skip_gap-IsValid :
    (jb : Jitter) (now_ms buf_len k : ℕ)
    → IsValid jb
    → jb.started ≡ true
    → k < slot_count
    → IsFirst jb 1 k
    → holds jb (at jb 0) ≡ false
    → IsValid (skip_gap jb now_ms buf_len (look_ahead jb now_ms 31 1)).0
unfolding skip_gap
skip_gap-IsValid jb now_ms buf_len k v on l f gap = rw (look_ahead-first jb now_ms 31 1 k l f) (
    ground (
      arith,
      v,
      release-IsValid (record jb { head_seq = at jb k }) now_ms buf_len
          (moved-IsValid jb k v on first l) on,
    ))
  where
    first : IsFirst jb 0 k
    first = record {
      reached = omega arith;
      here = f.here;
      before = λ j h m. elim (dec_lt 0 j) [ yes p ↦ f.before j p m | no z ↦ rw (nothing j z) gap ];
    }
      where
        nothing : (j : ℕ) → ¬ (0 < j) → j ≡ 0
        nothing j z = omega arith

pop-IsValid : (jb : Jitter) (now_ms buf_len : ℕ) → IsValid jb → IsValid (pop jb now_ms buf_len).0
unfolding pop
pop-IsValid jb now_ms buf_len v = elim (Bool-cases jb.started) [
  | inr off ↦ simp off v
  | inl on ↦ elim (Bool-cases (jb.slots (jb.head_seq % slot_count)).occupied) [
    | inl head ↦ simp (on, head) (release-IsValid jb now_ms buf_len v on)
    | inr gap ↦ elim (search_cases jb 31 1) [
      | inl (k, l, f) ↦
          simp (on, gap)
            (skip_gap-IsValid jb now_ms buf_len k v on l f (sym (head_slot jb v.window) ∙ gap))
      | inr h ↦ simp (on, gap, look_ahead-none jb now_ms 31 1 h) v
    ]
  ]
]

start-IsValid : (jb : Jitter) (seq : ℕ) → seq < 2 ^ 16 → IsValid jb → IsValid (start jb seq)
unfolding start
start-IsValid jb seq h v = elim (Bool-cases jb.started) [
  | inl on ↦ simp on v
  | inr off ↦ simp off (record {
    window = record { head_word = h; own_slot = λ i l o. absurd (cc (v.idle i off)) };
    idle = λ i e. v.idle i off;
    room = v.room;
  })
]

place-IsValid :
    (jb : Jitter) (seq timestamp : ℕ) (bytes : List ℕ) (now_ms : ℕ)
    → seq < 2 ^ 16
    → (sub16 seq jb.head_seq < 2 ^ 15) ⊎ (sub16 seq jb.head_seq ≤ 2 ^ 16 - slot_count)
    → length bytes ≤ slot_data_size
    → jb.started ≡ true
    → IsValid jb
    → IsValid (place jb seq timestamp bytes now_ms).0
unfolding place
place-IsValid jb seq timestamp bytes now_ms h t l on v = ground (
  arith,
  v,
  store-IsValid jb seq timestamp bytes now_ms h,
  store-IsValid (skip_to (2 ^ 16) new_head jb) seq timestamp bytes now_ms h,
  skip_to-IsValid (2 ^ 16) new_head jb v on,
  skip_to-head (2 ^ 16) new_head jb v.window.head_word,
)
  where
    new_head : ℕ
    new_head = u16 (sub16 seq slot_count + 1)

push-IsValid :
    (jb : Jitter) (seq timestamp : ℕ) (bytes : List ℕ) (now_ms : ℕ)
    → seq < 2 ^ 16
    → IsTimely jb seq
    → IsValid jb
    → IsValid (push jb seq timestamp bytes now_ms).0
unfolding push
push-IsValid jb seq timestamp bytes now_ms h t v = ground (
  arith,
  v,
  place-IsValid (start jb seq) seq timestamp bytes now_ms h t,
  on,
  start-IsValid jb seq h v,
)
  where
    on : (start jb seq).started ≡ true
    on = unfold start in ground arith

-- Whatever is pushed and popped at whatever times after jitter_init, while no packet arrives
-- behind the head by less than the buffer's size: every buffered packet is in its own slot and
-- within the window, and fits a slot.
pub Reach-IsValid : {depth_ms : ℕ} {jb : Jitter} → Reach depth_ms jb → IsValid jb
Reach-IsValid {depth_ms} here = init-IsValid depth_ms
Reach-IsValid (next r (pushed jb seq timestamp bytes now_ms h t)) =
    push-IsValid jb seq timestamp bytes now_ms h t (Reach-IsValid r)
Reach-IsValid (next r (popped jb now_ms buf_len)) = pop-IsValid jb now_ms buf_len (Reach-IsValid r)
