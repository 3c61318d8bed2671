-- ===== src/Jitter/Late.antt =====
-- A packet that arrives just behind the head takes the slot of one that is still to be played
-- (jitter_push of src/nano_jitter.c).
use nanortc.Prelude.{
  List, arith, done, error, false, length, no_data, sub16, true, u16, ℕ, ◌%◌, ◌+◌, ◌-◌, ◌<◌, ◌^◌,
  ◌≡◌, ◌≢◌, ◌≤◌,
}
use nanortc.Jitter.{
  Jitter, Slot, drop_head, holds, place, pop, push, release, slot_count, slot_data_size, start,
  store,
}

-- The slot that jitter_push fills.
abbrev pub slot_of : ℕ → ℕ → List ℕ → ℕ → Slot
slot_of seq timestamp bytes now_ms = record {
  bytes = bytes;
  seq = seq;
  timestamp = timestamp;
  arrival_ms = now_ms;
  occupied = true;
}

-- A late packet of 1 to 320 bytes, from 1 to 31 behind the head of a buffer that has started, is
-- accepted, and the head, which has 16 bits, stays. It is stored in the slot of the packet 32
-- later, the victim, whatever stood there, so that the victim is buffered no longer; no other slot
-- changes. When the head reaches the victim's number, jitter_pop gives nothing at any time and for
-- any buffer: it empties that slot alone and moves the head on by one.
pub push_late_evicts :
    (jb : Jitter) (behind timestamp : ℕ) (bytes : List ℕ) (now_ms : ℕ)
    → jb.head_seq < 2 ^ 16
    → jb.started ≡ true
    → 0 < behind
    → behind < slot_count
    → 0 < length bytes
    → length bytes ≤ slot_data_size
    → let late = sub16 jb.head_seq behind in
      let victim = u16 (jb.head_seq + (slot_count - behind)) in
      let (jb', r) = push jb late timestamp bytes now_ms in
      (r ≡ done tt)
      × (jb'.head_seq ≡ jb.head_seq)
      × (jb'.slots (victim % slot_count) ≡ slot_of late timestamp bytes now_ms)
      × (holds jb' victim ≡ false)
      × ((i : ℕ) → i ≢ victim % slot_count → jb'.slots i ≡ jb.slots i)
      × ((later_ms buf_len : ℕ)
          → let (jb'', r') = pop (record jb' { head_seq = victim }) later_ms buf_len in
            (r' ≡ error no_data)
            × (jb''.head_seq ≡ u16 (victim + 1))
            × ((jb''.slots (victim % slot_count)).occupied ≡ false)
            × ((i : ℕ) → i ≢ victim % slot_count → jb''.slots i ≡ jb'.slots i))
unfolding push place start store holds pop release drop_head
push_late_evicts jb behind timestamp bytes now_ms h on p l q m = (
  ground arith,
  ground arith,
  ground arith,
  ground arith,
  (λ i ne. ground (arith, ne)),
  λ later_ms buf_len. (ground arith, ground arith, ground arith, λ i ne. ground (arith, ne)),
)
