-- ===== src/Reorder/Wake.antt =====
-- reorder_next_timeout_ms tells when reorder_pop will release a packet (src/nano_reorder.c).
use native.Mathlib.Decide.{ℕ_discrete}
use nanortc.Prelude.{
  Bool-cases, arith, error, false, inl, inr, no_data, refl, suc, sym, true, u32_max, zero, ℕ, ◌+◌,
  ◌<◌, ◌∙◌, ◌≡◌, ◌≢◌, ◌≤◌, ◌⊎◌,
}
use nanortc.Reorder.{
  Reorder, age, ahead, consider, holds, max_wait_ms, next_timeout_ms, pop, pop_loop, should_skip,
  slot_count, timeout_from, waits_ahead,
}
use nanortc.Reorder.Slots.{IsValid}
use nanortc.Reorder.Pop.{
  IsAged, IsAged-should_skip, IsReleased, NextHeld, aged-holds, find_held, pop_loop-held,
  pop_loop-waits, release-IsReleased,
}

consider_lem :
    (r : Reorder) (now_ms i best : ℕ)
    → (consider r now_ms i best ≤ best)
      × (waits_ahead r i ≡ true → max_wait_ms ≤ age r now_ms i → consider r now_ms i best ≡ 0)
      × (consider r now_ms i best ≡ 0
          → (best ≡ 0) ⊎ ((waits_ahead r i ≡ true) × (max_wait_ms ≤ age r now_ms i)))
unfolding consider
consider_lem r now_ms i best = ground arith

timeout_from-le : (r : Reorder) (now_ms n i best : ℕ) → timeout_from r now_ms n i best ≤ best
unfolding timeout_from
timeout_from-le r now_ms zero i best = omega arith
timeout_from-le r now_ms (suc n) i best = omega (
  arith,
  timeout_from-le r now_ms n (i + 1) (consider r now_ms i best),
  (consider_lem r now_ms i best).0,
)

-- An aged packet brings the result down to zero.
timeout_from-aged :
    (r : Reorder) (now_ms n i best j : ℕ)
    → i ≤ j
    → j < i + n
    → waits_ahead r j ≡ true
    → max_wait_ms ≤ age r now_ms j
    → timeout_from r now_ms n i best ≡ 0
unfolding timeout_from
timeout_from-aged r now_ms zero i best j h l w a = absurd (omega arith)
timeout_from-aged r now_ms (suc n) i best j h l w a = elim (ℕ_discrete i j) [
  | yes e ↦ omega (
    arith,
    timeout_from-le r now_ms n (i + 1) (consider r now_ms i best),
    (consider_lem r now_ms i best).1 (rw e w) (rw e a),
  )
  | no ne ↦
      timeout_from-aged r now_ms n (i + 1) (consider r now_ms i best) j (omega arith) (omega arith)
        w a
]

-- Nothing else does.
timeout_from-zero :
    (r : Reorder) (now_ms n i best : ℕ)
    → timeout_from r now_ms n i best ≡ 0
    → (best ≡ 0)
      ⊎ ((j : ℕ) × (i ≤ j)
          × (j < i + n)
          × (waits_ahead r j ≡ true)
          × (max_wait_ms ≤ age r now_ms j))
unfolding timeout_from
timeout_from-zero r now_ms zero i best h = inl h
timeout_from-zero r now_ms (suc n) i best h =
    elim (timeout_from-zero r now_ms n (i + 1) (consider r now_ms i best) h) [
      | inr (j, l, m, w, a) ↦ inr (j, omega arith, omega arith, w, a)
      | inl z ↦ elim ((consider_lem r now_ms i best).2 z) [
        | inl b ↦ inl b
        | inr (w, a) ↦ inr (i, omega arith, omega arith, w, a)
      ]
    ]

wait-zero :
    (r : Reorder) (now_ms : ℕ)
    → timeout_from r now_ms slot_count 0 u32_max ≡ 0
    → (j : ℕ) × IsAged r now_ms j
wait-zero r now_ms h = elim (timeout_from-zero r now_ms slot_count 0 u32_max h) [
  | inl z ↦ absurd (omega arith)
  | inr (j, l, m, w, a) ↦ (j, (omega arith, w, a))
]

-- The result of a pop of a buffer that is ready: the first `k` numbers are missing, and the
-- packet behind them is released.
abbrev pub Releases : Reorder → ℕ → Type 0
Releases r now_ms = (k : ℕ) × (k < slot_count) × NextHeld k r × IsReleased r k (pop r now_ms)

pop-inited :
    (r : Reorder) (now_ms : ℕ) → r.inited ≡ true → pop r now_ms ≡ pop_loop slot_count r now_ms
unfolding pop
pop-inited r now_ms on = ground arith

ready-Releases :
    (r : Reorder) (now_ms k i : ℕ)
    → IsValid r
    → r.inited ≡ true
    → k < slot_count
    → NextHeld k r
    → (k ≡ 0) ⊎ (IsAged r now_ms i × (k ≤ ahead r i))
    → Releases r now_ms
ready-Releases r now_ms k i v on l n a = (
  k,
  l,
  n,
  rw (pop-inited r now_ms on, pop_loop-held k slot_count i r now_ms v l n a)
      (release-IsReleased k r v.next_word n),
)

aged-Releases :
    (r : Reorder) (now_ms i : ℕ)
    → IsValid r
    → r.inited ≡ true
    → IsAged r now_ms i
    → Releases r now_ms
aged-Releases r now_ms i v on a =
    let (h, p, q) = aged-holds r now_ms i v a in
    let (k, l, n) = find_held (ahead r i) r v.next_word h in
    ready-Releases r now_ms k i v on (omega arith) n (inr (a, l))

quiet :
    (r : Reorder) (now_ms : ℕ)
    → r.inited ≡ true
    → holds r r.next_seq ≡ false
    → should_skip r now_ms ≡ false
    → pop r now_ms ≡ (r, error no_data)
quiet r now_ms on h s = rw (pop-inited r now_ms on, pop_loop-waits 7 r now_ms h s)

next_timeout-held :
    (r : Reorder) (now_ms : ℕ)
    → r.inited ≡ true
    → holds r r.next_seq ≡ true
    → next_timeout_ms r now_ms ≡ 0
unfolding next_timeout_ms
next_timeout-held r now_ms on h = ground arith

next_timeout-gap :
    (r : Reorder) (now_ms : ℕ)
    → r.inited ≡ true
    → holds r r.next_seq ≡ false
    → next_timeout_ms r now_ms ≡ timeout_from r now_ms slot_count 0 u32_max
unfolding next_timeout_ms
next_timeout-gap r now_ms on h = ground arith

-- What the event loop relies on when it sleeps for the time that reorder_next_timeout_ms returns:
-- on a valid buffer that has seen a packet, if the call returns 0 then reorder_pop, called now,
-- releases the packet behind the first `k` missing numbers, flags it as preceded by a loss exactly
-- when some number was skipped now or earlier, and moves the head just behind it; otherwise
-- reorder_pop returns NANORTC_ERR_NO_DATA and changes nothing. The loop always ends.
pub reorder_pop-next_timeout_ms :
    (r : Reorder) (now_ms : ℕ)
    → IsValid r
    → r.inited ≡ true
    → (next_timeout_ms r now_ms ≡ 0 → Releases r now_ms)
      × (next_timeout_ms r now_ms ≢ 0 → pop r now_ms ≡ (r, error no_data))
reorder_pop-next_timeout_ms r now_ms v on = elim (Bool-cases (holds r r.next_seq)) [
  | inl here ↦ (
    λ z. ready-Releases r now_ms zero 0 v on (omega arith) here (inl refl),
    λ nz. absurd (nz (next_timeout-held r now_ms on here)),
  )
  | inr gone ↦ elim (Bool-cases (should_skip r now_ms)) [
    | inl go ↦ (
      λ z. (let (j, a) = IsAged-should_skip r now_ms go in aged-Releases r now_ms j v on a),
      λ nz. absurd (
          nz (
            let (j, a) = IsAged-should_skip r now_ms go in
            next_timeout-gap r now_ms on gone
            ∙ timeout_from-aged r now_ms slot_count 0 u32_max j (omega arith) (omega arith) a.1
                a.2)),
    )
    | inr stay ↦ (
      λ z.
          (let (j, a) = wait-zero r now_ms (sym (next_timeout-gap r now_ms on gone) ∙ z) in
            aged-Releases r now_ms j v on a),
      λ nz. quiet r now_ms on gone stay,
    )
  ]
]
