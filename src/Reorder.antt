-- ===== src/Reorder.antt =====
-- src/nano_reorder.c: the video reorder buffer. A compile-time option has its default value.
-- The array of slots is a function of the index, which the code always masks to the array's size;
-- of a slot's `data` the first `len` bytes are kept, the only ones that are read.
pub mod Slots
pub mod Pop
pub mod Wake
mod Tests
use nanortc.Prelude.{
  Bool, List, Outcome, [], done, error, false, fault, if◌then◌else◌, invalid_param, leb, length,
  ltb, no_data, not, sub16, sub32, suc, true, u16, u32_max, zero, ℕ, ◌%◌, ◌&&◌, ◌+◌, ◌-◌, ◌==◌, ◌^◌,
  ◌||◌,
}

-- NANORTC_VIDEO_REORDER_SLOTS, NANORTC_VIDEO_REORDER_MAX_WAIT_MS
abbrev pub slot_count : ℕ
slot_count = 8

abbrev pub max_wait_ms : ℕ
max_wait_ms = 30

-- nano_reorder_slot_t
pub record Slot : Type 0 where
  pub bytes : List ℕ
  pub ts : ℕ
  pub arrival_ms : ℕ
  pub seq : ℕ
  pub marker : ℕ
  pub occupied : Bool

-- nano_reorder_t
pub record Reorder : Type 0 where
  pub slots : ℕ → Slot
  pub next_seq : ℕ
  pub inited : Bool
  pub pending_lost : Bool

abbrev pub update : (ℕ → Slot) → ℕ → Slot → ℕ → Slot
update slots i s j = if j == i then s else slots j

-- reorder_init
unfoldable pub init : Reorder
init = record {
  slots = λ _. record { bytes = []; ts = 0; arrival_ms = 0; seq = 0; marker = 0; occupied = false };
  next_seq = 0;
  inited = false;
  pending_lost = false;
}

-- reorder_slot_idx: the number of slots is a power of two.
abbrev pub slot_idx : ℕ → ℕ
slot_idx seq = seq % slot_count

-- The slot of `seq` holds the packet with this number.
unfoldable pub holds : Reorder → ℕ → Bool
holds r seq = let s = r.slots (slot_idx seq) in s.occupied && s.seq == seq

-- `if (!inited) { inited = true; next_seq = seq; }`
unfoldable pub start : Reorder → ℕ → Reorder
start r seq = if r.inited then r else record r { inited = true; next_seq = seq }

-- The force-advance of reorder_push.
unfoldable pub advance : Reorder → ℕ → Reorder
advance r seq =
    if leb slot_count (sub16 seq r.next_seq)
    then record r { next_seq = u16 (sub16 seq slot_count + 1); pending_lost = true }
    else r

-- The stores of reorder_push, unless the packet is there already.
unfoldable pub store : Reorder → ℕ → ℕ → ℕ → List ℕ → ℕ → Reorder
store r seq ts marker bytes now_ms = if holds r seq then r else record r {
  slots = update r.slots (slot_idx seq) (record {
    bytes = bytes;
    ts = ts;
    arrival_ms = now_ms;
    seq = seq;
    marker = marker;
    occupied = true;
  });
}

-- reorder_push: `bytes` are the `len` bytes at `data`, at most `media_buf_size` of them. `diff` is
-- an `int16_t`, negative from 2^15 on.
unfoldable pub push : ℕ → Reorder → ℕ → ℕ → ℕ → List ℕ → ℕ → Reorder × Outcome (Unit {0})
push media_buf_size r seq ts marker bytes now_ms =
    let r' = start r seq in
    if length bytes == 0 || ltb media_buf_size (length bytes)
    then (r, error invalid_param)
    else if leb (2 ^ 15) (sub16 seq r'.next_seq)
    then (r', done tt)
    else (store (advance r' seq) seq ts marker bytes now_ms, done tt)

-- `ahead > 0 && ahead < NANORTC_VIDEO_REORDER_SLOTS` for the packet in slot `i`
abbrev pub ahead : Reorder → ℕ → ℕ
ahead r i = sub16 (r.slots i).seq r.next_seq

unfoldable pub waits_ahead : Reorder → ℕ → Bool
waits_ahead r i = (r.slots i).occupied && (ltb 0 (ahead r i) && ltb (ahead r i) slot_count)

abbrev pub age : Reorder → ℕ → ℕ → ℕ
age r now_ms i = sub32 now_ms (r.slots i).arrival_ms

-- The loop of reorder_should_skip from slot `i` on, `n` slots left.
unfoldable pub skip_from : Reorder → ℕ → ℕ → ℕ → Bool
skip_from r now_ms zero i = false
skip_from r now_ms (suc n) i =
    let rest = skip_from r now_ms n (i + 1) in
    if waits_ahead r i && leb max_wait_ms (age r now_ms i) then true else rest

-- reorder_should_skip
unfoldable pub should_skip : Reorder → ℕ → Bool
should_skip r now_ms = skip_from r now_ms slot_count 0

-- What reorder_pop stores through its out-parameters.
pub record Packet : Type 0 where
  pub seq : ℕ
  pub ts : ℕ
  pub marker : ℕ
  pub bytes : List ℕ
  pub lost : Bool

-- The release of the packet at `next_seq`.
unfoldable pub release : Reorder → Reorder × Outcome Packet
release r =
    let i = slot_idx r.next_seq in
    let s = r.slots i in
    (
      record r {
        slots = update r.slots i (record s { occupied = false });
        next_seq = u16 (r.next_seq + 1);
        pending_lost = false;
      },
      done (record {
        seq = s.seq;
        ts = s.ts;
        marker = s.marker;
        bytes = s.bytes;
        lost = r.pending_lost;
      }),
    )

-- `next_seq++; pending_lost = true;`
unfoldable pub skip : Reorder → Reorder
skip r = record r { next_seq = u16 (r.next_seq + 1); pending_lost = true }

-- The `for (;;)` of reorder_pop, with fuel; running out of it is a fault.
unfoldable pub pop_loop : ℕ → Reorder → ℕ → Reorder × Outcome Packet
pop_loop zero r now_ms = (r, fault)
pop_loop (suc fuel) r now_ms =
    let rest = pop_loop fuel (skip r) now_ms in
    if holds r r.next_seq
    then release r
    else if should_skip r now_ms
    then rest
    else (r, error no_data)

-- reorder_pop: a packet that is waited for lies less than 8 numbers ahead, so 8 rounds are enough.
unfoldable pub pop : Reorder → ℕ → Reorder × Outcome Packet
pop r now_ms = if not r.inited then (r, error no_data) else pop_loop slot_count r now_ms

-- One round of the loop of reorder_next_timeout_ms.
unfoldable pub consider : Reorder → ℕ → ℕ → ℕ → ℕ
consider r now_ms i best =
    let left = if leb max_wait_ms (age r now_ms i) then 0 else max_wait_ms - age r now_ms i in
    if waits_ahead r i then if ltb left best then left else best else best

unfoldable pub timeout_from : Reorder → ℕ → ℕ → ℕ → ℕ → ℕ
timeout_from r now_ms zero i best = best
timeout_from r now_ms (suc n) i best = timeout_from r now_ms n (i + 1) (consider r now_ms i best)

-- reorder_next_timeout_ms
unfoldable pub next_timeout_ms : Reorder → ℕ → ℕ
next_timeout_ms r now_ms =
    if not r.inited
    then u32_max
    else if holds r r.next_seq
    then 0
    else timeout_from r now_ms slot_count 0 u32_max
