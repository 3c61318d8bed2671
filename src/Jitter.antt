-- ===== src/Jitter.antt =====
-- src/nano_jitter.c: the audio jitter buffer. A compile-time option has its default value.
-- The array of slots is a function of the index, which the code always takes modulo the number
-- of slots; of a slot's `data` the first `len` bytes are kept, the only ones that are read.
pub mod Window
pub mod Playout
pub mod Run
pub mod Late
mod Tests
use nanortc.Prelude.{
  Bool, List, Option, Outcome, [], buffer_too_small, done, error, false, if◌then◌else◌,
  invalid_param, leb, length, ltb, no_data, none, not, some, sub16, sub32, suc, true, u16, u32_max,
  zero, ℕ, ◌%◌, ◌&&◌, ◌+◌, ◌-◌, ◌==◌, ◌^◌,
}

-- NANORTC_JITTER_SLOTS, NANORTC_JITTER_SLOT_DATA_SIZE
abbrev pub slot_count : ℕ
slot_count = 32

abbrev pub slot_data_size : ℕ
slot_data_size = 320

-- nano_jitter_slot_t
pub record Slot : Type 0 where
  pub bytes : List ℕ
  pub seq : ℕ
  pub timestamp : ℕ
  pub arrival_ms : ℕ
  pub occupied : Bool

-- nano_jitter_t
pub record Jitter : Type 0 where
  pub slots : ℕ → Slot
  pub head_seq : ℕ
  pub depth_ms : ℕ
  pub started : Bool

abbrev pub update : (ℕ → Slot) → ℕ → Slot → ℕ → Slot
update slots i s j = if j == i then s else slots j

abbrev pub empty_slot : Slot
empty_slot = record { bytes = []; seq = 0; timestamp = 0; arrival_ms = 0; occupied = false }

-- jitter_init
unfoldable pub init : ℕ → Jitter
init depth_ms = record {
  slots = λ _. empty_slot;
  head_seq = 0;
  depth_ms = depth_ms;
  started = false;
}

-- `slots[idx].occupied = 0; head_seq++`
unfoldable pub drop_head : Jitter → Jitter
drop_head jb =
    let idx = jb.head_seq % slot_count in
    record jb {
      slots = update jb.slots idx (record (jb.slots idx) { occupied = false });
      head_seq = u16 (jb.head_seq + 1);
    }

-- `while (head_seq != new_head)` of jitter_push, with fuel.
unfoldable pub skip_to : ℕ → ℕ → Jitter → Jitter
skip_to zero new_head jb = jb
skip_to (suc fuel) new_head jb =
    let rest = skip_to fuel new_head (drop_head jb) in if jb.head_seq == new_head then jb else rest

-- The stores of jitter_push into the slot of `seq`.
unfoldable pub store : Jitter → ℕ → ℕ → List ℕ → ℕ → Jitter
store jb seq timestamp bytes now_ms = record jb {
  slots = update jb.slots (seq % slot_count) (record {
    bytes = bytes;
    seq = seq;
    timestamp = timestamp;
    arrival_ms = now_ms;
    occupied = true;
  });
}

-- `if (!started) { head_seq = seq; started = 1; }`
unfoldable pub start : Jitter → ℕ → Jitter
start jb seq = if jb.started then jb else record jb { head_seq = seq; started = true }

-- jitter_push from the comparison with `head_seq` on. `delta` is an `int16_t`, negative from 2^15
-- on; a loop over 16-bit sequence numbers makes fewer than 2^16 rounds.
unfoldable pub place : Jitter → ℕ → ℕ → List ℕ → ℕ → Jitter × Outcome (Unit {0})
place jb seq timestamp bytes now_ms =
    let delta = sub16 seq jb.head_seq in
    let new_head = u16 (sub16 seq slot_count + 1) in
    if leb (2 ^ 15) delta && leb slot_count (2 ^ 16 - delta)
    then (jb, error no_data)
    else if ltb delta (2 ^ 15) && leb slot_count delta
    then (store (skip_to (2 ^ 16) new_head jb) seq timestamp bytes now_ms, done tt)
    else (store jb seq timestamp bytes now_ms, done tt)

-- jitter_push: `bytes` are the `len` bytes at `data`.
unfoldable pub push : Jitter → ℕ → ℕ → List ℕ → ℕ → Jitter × Outcome (Unit {0})
push jb seq timestamp bytes now_ms =
    if length bytes == 0
    then (jb, error invalid_param)
    else if ltb slot_data_size (length bytes)
    then (jb, error buffer_too_small)
    else place (start jb seq) seq timestamp bytes now_ms

-- `slots[seq % NANORTC_JITTER_SLOTS]` holds the packet with this number.
unfoldable pub holds : Jitter → ℕ → Bool
holds jb seq = let s = jb.slots (seq % slot_count) in s.occupied && s.seq == seq

-- The search of jitter_pop from offset `i` on, `n` offsets left: the number to skip to.
unfoldable pub look_ahead : Jitter → ℕ → ℕ → ℕ → Option ℕ
look_ahead jb now_ms zero i = none
look_ahead jb now_ms (suc n) i =
    let check_seq = u16 (jb.head_seq + i) in
    let waited = sub32 now_ms (jb.slots (check_seq % slot_count)).arrival_ms in
    let rest = look_ahead jb now_ms n (i + 1) in
    if holds jb check_seq then if leb jb.depth_ms waited then some check_seq else none else rest

-- jitter_pop from the test of the slot's number on; the packet is its bytes and timestamp.
unfoldable pub release : Jitter → ℕ → ℕ → Jitter × Outcome (List ℕ × ℕ)
release jb now_ms buf_len =
    let slot = jb.slots (jb.head_seq % slot_count) in
    if not (slot.seq == jb.head_seq)
    then (drop_head jb, error no_data)
    else if ltb (sub32 now_ms slot.arrival_ms) jb.depth_ms
    then (jb, error no_data)
    else if ltb buf_len (length slot.bytes)
    then (jb, error buffer_too_small)
    else (drop_head jb, done (slot.bytes, slot.timestamp))

-- The empty head slot of jitter_pop: the search found a packet to skip to, or none.
unfoldable pub skip_gap : Jitter → ℕ → ℕ → Option ℕ → Jitter × Outcome (List ℕ × ℕ)
skip_gap jb now_ms buf_len none = (jb, error no_data)
skip_gap jb now_ms buf_len (some check_seq) =
    release (record jb { head_seq = check_seq }) now_ms buf_len

-- jitter_pop
unfoldable pub pop : Jitter → ℕ → ℕ → Jitter × Outcome (List ℕ × ℕ)
unfolding skip_gap
pop jb now_ms buf_len =
    if not jb.started
    then (jb, error no_data)
    else if (jb.slots (jb.head_seq % slot_count)).occupied
    then release jb now_ms buf_len
    else skip_gap jb now_ms buf_len (look_ahead jb now_ms (slot_count - 1) 1)

-- The loop of jitter_next_timeout_ms.
unfoldable pub timeout_from : Jitter → ℕ → ℕ → ℕ → ℕ
timeout_from jb now_ms zero i = u32_max
timeout_from jb now_ms (suc n) i =
    let seq = u16 (jb.head_seq + i) in
    let elapsed = sub32 now_ms (jb.slots (seq % slot_count)).arrival_ms in
    let rest = timeout_from jb now_ms n (i + 1) in
    if not (holds jb seq)
    then rest
    else if leb jb.depth_ms elapsed
    then 0
    else jb.depth_ms - elapsed

-- jitter_next_timeout_ms
unfoldable pub next_timeout_ms : Jitter → ℕ → ℕ
next_timeout_ms jb now_ms = if not jb.started then u32_max else timeout_from jb now_ms slot_count 0
