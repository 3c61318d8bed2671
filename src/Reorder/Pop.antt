-- ===== src/Reorder/Pop.antt =====
-- The loop of reorder_pop (src/nano_reorder.c): it ends, and in what order it releases packets.
use nanortc.Prelude.{
  Bool-cases, Outcome, ap, arith, done, error, false, inl, inr, leb, ltb, no_data, refl, suc, true,
  u16, zero, ℕ, ◌&&◌, ◌+◌, ◌<◌, ◌^◌, ◌||◌, ◌∙◌, ◌≡◌, ◌≤◌, ◌⊎◌,
}
use nanortc.Reorder.{
  Packet, Reorder, Slot, age, ahead, holds, max_wait_ms, pop_loop, release, should_skip, skip,
  skip_from, slot_count, slot_idx, waits_ahead,
}
use nanortc.Reorder.Slots.{IsValid, skip-IsValid}
use native.Mathlib.Decide.{ℕ_discrete}

-- `k` numbers are missing and the packet behind them is buffered.
abbrev pub NextHeld : ℕ → Reorder → Type 0
NextHeld zero r = holds r r.next_seq ≡ true
NextHeld (suc k) r = (holds r r.next_seq ≡ false) × NextHeld k (skip r)

pub skips : ℕ → Reorder → Reorder
unfolding skip
skips zero r = r
skips (suc k) r = skips k (skip r)

-- The packet in slot `i` waits ahead of a gap and has waited long enough.
abbrev pub IsAged : Reorder → ℕ → ℕ → Type 0
IsAged r now_ms i = (i < slot_count) × (waits_ahead r i ≡ true) × (max_wait_ms ≤ age r now_ms i)

skip_from-aged :
    (r : Reorder) (now_ms n i j : ℕ)
    → i ≤ j
    → j < i + n
    → waits_ahead r j ≡ true
    → max_wait_ms ≤ age r now_ms j
    → skip_from r now_ms n i ≡ true
unfolding skip_from
skip_from-aged r now_ms zero i j h l w a = absurd (omega arith)
skip_from-aged r now_ms (suc n) i j h l w a = elim (ℕ_discrete i j) [
  | yes e ↦ rw e (ground arith)
  | no ne ↦ ground (arith, skip_from-aged r now_ms n (i + 1) j)
]

pub should_skip-aged :
    (r : Reorder) (now_ms j : ℕ) → IsAged r now_ms j → should_skip r now_ms ≡ true
unfolding should_skip
should_skip-aged r now_ms j a =
    skip_from-aged r now_ms slot_count 0 j (omega arith) (omega arith) a.1 a.2

skip_from-true :
    (r : Reorder) (now_ms n i : ℕ)
    → skip_from r now_ms n i ≡ true
    → (j : ℕ) × (i ≤ j) × (j < i + n) × (waits_ahead r j ≡ true) × (max_wait_ms ≤ age r now_ms j)
unfolding skip_from
skip_from-true r now_ms zero i h = absurd (cc)
skip_from-true r now_ms (suc n) i h =
    elim (Bool-cases (waits_ahead r i && leb max_wait_ms (age r now_ms i))) [
      | inl here ↦ (i, omega arith, omega arith, ground arith, ground arith)
      | inr later ↦
          (let (j, l, m, w, a) = skip_from-true r now_ms n (i + 1) (rw later at h) in
            (j, omega arith, omega arith, w, a))
    ]

pub IsAged-should_skip :
    (r : Reorder) (now_ms : ℕ) → should_skip r now_ms ≡ true → (j : ℕ) × IsAged r now_ms j
unfolding should_skip
IsAged-should_skip r now_ms h =
    let (j, l, m, w, a) = skip_from-true r now_ms slot_count 0 h in (j, (omega arith, w, a))

-- A buffered packet that is not behind the head is reached.
pub find_held :
    (a : ℕ) (r : Reorder)
    → r.next_seq < 2 ^ 16
    → holds r (u16 (r.next_seq + a)) ≡ true
    → (k : ℕ) × (k ≤ a) × NextHeld k r
find_held zero r w h = (zero, omega arith, rw same at h)
  where
    same : u16 (r.next_seq + zero) ≡ r.next_seq
    same = omega arith
find_held (suc a) r w h = elim (Bool-cases (holds r r.next_seq)) [
  | inl here ↦ (zero, omega arith, here)
  | inr gone ↦ (let (k, l, n) = find_held a (skip r) word moved in (suc k, omega arith, (gone, n)))
]
  where
    word : (skip r).next_seq < 2 ^ 16
    word = unfold skip in omega arith

    moved : holds (skip r) (u16 ((skip r).next_seq + a)) ≡ true
    moved = unfold skip holds in rw (same) (unfold holds in h)
      where
        same : u16 (u16 (r.next_seq + 1) + a) ≡ u16 (r.next_seq + suc a)
        same = omega arith

slot_holds :
    (r : Reorder) (i : ℕ)
    → slot_idx (r.slots i).seq ≡ i
    → (r.slots i).occupied ≡ true
    → holds r (r.slots i).seq ≡ true
unfolding holds
slot_holds r i e o = ground (arith, o, ap r.slots e)

waits_ahead_lem :
    (r : Reorder) (i : ℕ)
    → waits_ahead r i ≡ true
    → ((r.slots i).occupied ≡ true) × (0 < ahead r i) × (ahead r i < slot_count)
unfolding waits_ahead
waits_ahead_lem r i h = ground arith

pub aged-holds :
    (r : Reorder) (now_ms i : ℕ)
    → IsValid r
    → IsAged r now_ms i
    → (holds r (u16 (r.next_seq + ahead r i)) ≡ true) × (0 < ahead r i) × (ahead r i < slot_count)
aged-holds r now_ms i v a =
    (rw same (slot_holds r i (v.own_slot i a.0 facts.0).1 facts.0), facts.1, facts.2)
  where
    facts : ((r.slots i).occupied ≡ true) × (0 < ahead r i) × (ahead r i < slot_count)
    facts = waits_ahead_lem r i a.1

    same : u16 (r.next_seq + ahead r i) ≡ (r.slots i).seq
    same = omega (arith, v.next_word, v.own_slot i a.0 facts.0)

-- Skipping one number brings an aged packet one nearer.
IsAged-skip :
    (r : Reorder) (now_ms i : ℕ)
    → IsValid r
    → IsAged r now_ms i
    → 1 < ahead r i
    → IsAged (skip r) now_ms i × (ahead r i ≡ ahead (skip r) i + 1)
unfolding skip waits_ahead
IsAged-skip r now_ms i v a far = ground (arith, v.next_word, v.own_slot i a.0)

-- After skipping the missing numbers the loop releases the packet behind them, as long as an
-- aged packet is ahead that far.
pub pop_loop-held :
    (k fuel i : ℕ) (r : Reorder) (now_ms : ℕ)
    → IsValid r
    → k < fuel
    → NextHeld k r
    → (k ≡ 0) ⊎ (IsAged r now_ms i × (k ≤ ahead r i))
    → pop_loop fuel r now_ms ≡ release (skips k r)
unfolding pop_loop skips
pop_loop-held k zero i r now_ms v f n a = absurd (omega arith)
pop_loop-held zero (suc fuel) i r now_ms v f n a = rw n refl
pop_loop-held (suc k) (suc fuel) i r now_ms v f n (inl z) = absurd (omega arith)
pop_loop-held (suc k) (suc fuel) i r now_ms v f n (inr a) =
    rw (n.0, should_skip-aged r now_ms i a.0)
      (pop_loop-held k fuel i (skip r) now_ms (skip-IsValid r v) (omega arith) n.1 (still k a))
  where
    still :
        (k : ℕ)
        → IsAged r now_ms i × (suc k ≤ ahead r i)
        → (k ≡ 0) ⊎ (IsAged (skip r) now_ms i × (k ≤ ahead (skip r) i))
    still zero a = inl refl
    still (suc k) a =
        inr (let (b, e) = IsAged-skip r now_ms i v a.0 (omega arith) in (b, omega arith))

pub pop_loop-waits :
    (fuel : ℕ) (r : Reorder) (now_ms : ℕ)
    → holds r r.next_seq ≡ false
    → should_skip r now_ms ≡ false
    → pop_loop (suc fuel) r now_ms ≡ (r, error no_data)
unfolding pop_loop
pop_loop-waits fuel r now_ms h s = rw (h, s)

-- What the released packet is, and where the head stands after it.
pub record IsReleased (r : Reorder) (k : ℕ) (out : Reorder × Outcome Packet) : Type 0 where
  pub packet : Packet
  pub delivered : out.1 ≡ done packet
  pub number : packet.seq ≡ u16 (r.next_seq + k)
  pub lost_flag : packet.lost ≡ (r.pending_lost || ltb 0 k)
  pub head_moves : out.0.next_seq ≡ u16 (r.next_seq + k + 1)
  pub flag_cleared : out.0.pending_lost ≡ false

pub release-IsReleased :
    (k : ℕ) (r : Reorder)
    → r.next_seq < 2 ^ 16
    → NextHeld k r
    → IsReleased r k (release (skips k r))
unfolding release skips
release-IsReleased zero r w n = record {
  packet = record {
    seq = s.seq;
    ts = s.ts;
    marker = s.marker;
    bytes = s.bytes;
    lost = r.pending_lost;
  };
  delivered = refl;
  number = unfold holds in ground arith;
  lost_flag = ground arith;
  head_moves = omega arith;
  flag_cleared = refl;
}
  where
    s : Slot
    s = r.slots (slot_idx r.next_seq)
release-IsReleased (suc k) r w n =
    let d = release-IsReleased k (skip r) (unfold skip in omega arith) n.1 in
    record {
      packet = d.packet;
      delivered = d.delivered;
      number = d.number ∙ unfold skip in omega arith;
      lost_flag = d.lost_flag ∙ unfold skip in ground arith;
      head_moves = d.head_moves ∙ unfold skip in omega arith;
      flag_cleared = d.flag_cleared;
    }
