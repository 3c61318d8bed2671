-- ===== src/Jitter/Tests.antt =====
-- The jitter buffer on a few packets, across the wrap of the sequence numbers.
use nanortc.Prelude.{
  [], arith, done, error, false, if◌then◌else◌, inl, no_data, refl, sub16, true, ℕ, ◌<◌, ◌==◌, ◌^◌,
  ◌∷◌, ◌≡◌, ◌≢◌,
}
use nanortc.Jitter.{
  Jitter, drop_head, empty_slot, holds, init, look_ahead, next_timeout_ms, place, pop, push,
  release, slot_count, start, store, timeout_from,
}
use nanortc.Jitter.Playout.{IsFirst, packet, pop-next_timeout_ms, released}
use nanortc.Jitter.Run.{IsValid, Reach, Reach-IsValid, here, next, popped, pushed}
use nanortc.Jitter.Late.{push_late_evicts, slot_of}

-- Two packets are buffered, 65535 and, behind a gap, 1.
abbrev two_packets : Jitter
two_packets = (push (push (init 20) 65535 160 (7 ∷ 8 ∷ []) 100).0 1 480 (9 ∷ []) 110).0

abbrev after_pop : Jitter
after_pop = (pop two_packets 120 320).0

first_packet : (pop two_packets 120 320).1 ≡ done (7 ∷ 8 ∷ [], 160)
unfolding push place start store pop release drop_head init
first_packet = refl

waits : next_timeout_ms after_pop 120 ≡ 10
unfolding push place start store pop release drop_head init next_timeout_ms timeout_from holds
waits = refl

skips : (pop after_pop 130 320).1 ≡ done (9 ∷ [], 480)
unfolding push place start store pop release drop_head init look_ahead holds
skips = refl

two_packets-Reach : Reach 20 two_packets
unfolding start init
two_packets-Reach =
    next (next here (pushed _ 65535 160 (7 ∷ 8 ∷ []) 100 (omega arith) (inl (omega arith))))
      (pushed _ 1 480 (9 ∷ []) 110 (omega arith) (inl timely))
  where
    timely : sub16 1 (start (push (init 20) 65535 160 (7 ∷ 8 ∷ []) 100).0 1).head_seq < 2 ^ 15
    timely = unfold push place start store in omega arith

Reach-IsValid_example : IsValid (pop two_packets 120 320).0
Reach-IsValid_example = Reach-IsValid (next two_packets-Reach (popped two_packets 120 320))

pop-next_timeout_ms_example :
    (next_timeout_ms two_packets 120 ≡ 0
      → (k : ℕ) × (k < slot_count)
        × IsFirst two_packets 0 k
        × (pop two_packets 120 320 ≡ (released two_packets k, done (packet two_packets k))))
    × (next_timeout_ms two_packets 120 ≢ 0 → pop two_packets 120 320 ≡ (two_packets, error no_data))
unfolding push place start store init
pop-next_timeout_ms_example =
    pop-next_timeout_ms two_packets 120 320 (Reach-IsValid two_packets-Reach).window refl
      (Reach-IsValid two_packets-Reach).room (omega arith)

-- The head is 1 and the packet 31 waits in the slot that the late packet 65535 shares.
abbrev waiting : Jitter
waiting = record {
  slots = λ i. if i == 31 then slot_of 31 4800 (9 ∷ []) 120 else empty_slot;
  head_seq = 1;
  depth_ms = 20;
  started = true;
}

buffered : holds waiting 31 ≡ true
unfolding holds
buffered = refl

push_late_evicts_example :
    let (jb', r) = push waiting (sub16 1 2) 0 (5 ∷ []) 130 in
    (r ≡ done tt)
    × (jb'.head_seq ≡ 1)
    × (jb'.slots 31 ≡ slot_of (sub16 1 2) 0 (5 ∷ []) 130)
    × (holds jb' 31 ≡ false)
    × ((i : ℕ) → i ≢ 31 → jb'.slots i ≡ waiting.slots i)
    × ((later_ms buf_len : ℕ)
        → let (jb'', r') = pop (record jb' { head_seq = 31 }) later_ms buf_len in
          (r' ≡ error no_data)
          × (jb''.head_seq ≡ 32)
          × ((jb''.slots 31).occupied ≡ false)
          × ((i : ℕ) → i ≢ 31 → jb''.slots i ≡ jb'.slots i))
push_late_evicts_example =
    push_late_evicts waiting 2 0 (5 ∷ []) 130 (omega arith) refl (omega arith) (omega arith)
      (omega arith) (omega arith)
