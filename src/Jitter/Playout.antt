-- ===== src/Jitter/Playout.antt =====
-- What jitter_pop releases, and when jitter_next_timeout_ms says so (src/nano_jitter.c).
use nanortc.Prelude.{
  Bool-cases, List, arith, done, error, false, if◌then◌else◌, inl, inr, leb, length, no_data, none,
  refl, some, sub32, suc, true, u16, u32_max, zero, ℕ, ◌%◌, ◌+◌, ◌-◌, ◌<◌, ◌^◌, ◌≡◌, ◌≢◌, ◌≤◌, ◌⊎◌,
}
use nanortc.Jitter.Window.{IsWindow}
use nanortc.Jitter.{
  Jitter, drop_head, holds, look_ahead, next_timeout_ms, pop, release, slot_count, timeout_from,
}

-- The sequence number at an offset from the head, and how long its slot's packet has waited.
abbrev pub at : Jitter → ℕ → ℕ
at jb k = u16 (jb.head_seq + k)

abbrev pub waited : Jitter → ℕ → ℕ → ℕ
waited jb now_ms k = sub32 now_ms (jb.slots (at jb k % slot_count)).arrival_ms

-- The packet at offset `k` is the first buffered one from offset `i` on.
pub record IsFirst (jb : Jitter) (i k : ℕ) : Type 0 where
  pub reached : i ≤ k
  pub here : holds jb (at jb k) ≡ true
  pub before : (j : ℕ) → i ≤ j → j < k → holds jb (at jb j) ≡ false

abbrev pub NoneFrom : Jitter → ℕ → ℕ → Type 0
NoneFrom jb i n = (j : ℕ) → i ≤ j → j < i + n → holds jb (at jb j) ≡ false

pub search_cases :
    (jb : Jitter) (n i : ℕ) → ((k : ℕ) × (k < i + n) × IsFirst jb i k) ⊎ NoneFrom jb i n
search_cases jb zero i = inr (λ j h l. absurd (omega arith))
search_cases jb (suc n) i = elim (Bool-cases (holds jb (at jb i))) [
  | inl here ↦ inl (
    i,
    omega arith,
    record { reached = omega arith; here = here; before = λ j h l. absurd (omega arith) },
  )
  | inr gone ↦ elim (search_cases jb n (i + 1)) [
    | inl (k, l, f) ↦ inl (
      k,
      omega arith,
      record {
        reached = omega (arith, f.reached);
        here = f.here;
        before = λ j h m. ground (arith, gone, f.before j);
      },
    )
    | inr none_left ↦ inr (λ j h m. ground (arith, gone, none_left j))
  ]
]

IsFirst-next :
    (jb : Jitter) (i k : ℕ) → IsFirst jb i k → holds jb (at jb i) ≡ false → IsFirst jb (i + 1) k
IsFirst-next jb i k f gone = record {
  reached = ground (arith, f.reached, f.here);
  here = f.here;
  before = λ j h m. f.before j (omega arith) m;
}

module _ (jb : Jitter) (now_ms : ℕ) where
  pub look_ahead-first :
      (n i k : ℕ)
      → k < i + n
      → IsFirst jb i k
      → look_ahead jb now_ms n i
        ≡ (if leb jb.depth_ms (waited jb now_ms k) then some (at jb k) else none)
  unfolding look_ahead
  look_ahead-first zero i k l f = absurd (omega (arith, f.reached))
  look_ahead-first (suc n) i k l f = elim (Bool-cases (holds jb (at jb i))) [
    | inl here ↦ rw here (ground (arith, f.reached, f.before i))
    | inr gone ↦ rw gone (look_ahead-first n (i + 1) k (omega arith) (IsFirst-next jb i k f gone))
  ]

  timeout_from-first :
      (n i k : ℕ)
      → k < i + n
      → IsFirst jb i k
      → timeout_from jb now_ms n i
        ≡ (if leb jb.depth_ms (waited jb now_ms k) then 0 else jb.depth_ms - waited jb now_ms k)
  unfolding timeout_from
  timeout_from-first zero i k l f = absurd (omega (arith, f.reached))
  timeout_from-first (suc n) i k l f = elim (Bool-cases (holds jb (at jb i))) [
    | inl here ↦ rw here (ground (arith, f.reached, f.before i))
    | inr gone ↦ rw gone (timeout_from-first n (i + 1) k (omega arith) (IsFirst-next jb i k f gone))
  ]

  pub look_ahead-none : (n i : ℕ) → NoneFrom jb i n → look_ahead jb now_ms n i ≡ none
  unfolding look_ahead
  look_ahead-none zero i h = refl
  look_ahead-none (suc n) i h =
      rw (h i (omega arith) (omega arith))
        (look_ahead-none n (i + 1) (λ j l m. h j (omega arith) (omega arith)))

  timeout_from-none : (n i : ℕ) → NoneFrom jb i n → timeout_from jb now_ms n i ≡ u32_max
  unfolding timeout_from
  timeout_from-none zero i h = refl
  timeout_from-none (suc n) i h =
      rw (h i (omega arith) (omega arith))
        (timeout_from-none n (i + 1) (λ j l m. h j (omega arith) (omega arith)))

-- The head's slot is occupied exactly when it holds the head's packet.
pub head_slot :
    (jb : Jitter)
    → IsWindow jb
    → (jb.slots (jb.head_seq % slot_count)).occupied ≡ holds jb (at jb 0)
unfolding holds
head_slot jb w = ground (arith, w.head_word, w.own_slot (jb.head_seq % slot_count), same)
  where
    same : at jb 0 ≡ jb.head_seq
    same = omega (arith, w.head_word)

-- Moving the head to a packet that is buffered there releases it.
release_lem :
    (jb : Jitter) (now_ms buf_len : ℕ)
    → jb.head_seq < 2 ^ 16
    → holds jb jb.head_seq ≡ true
    → let slot = jb.slots (jb.head_seq % slot_count) in
      jb.depth_ms ≤ sub32 now_ms slot.arrival_ms
      → length slot.bytes ≤ buf_len
      → release jb now_ms buf_len ≡ (drop_head jb, done (slot.bytes, slot.timestamp))
unfolding release holds
release_lem jb now_ms buf_len h p w l = ground arith

early_lem :
    (jb : Jitter) (now_ms buf_len : ℕ)
    → holds jb jb.head_seq ≡ true
    → sub32 now_ms (jb.slots (jb.head_seq % slot_count)).arrival_ms < jb.depth_ms
    → release jb now_ms buf_len ≡ (jb, error no_data)
unfolding release holds
early_lem jb now_ms buf_len p w = ground arith

-- The packet at offset `k` has been taken out and the head stands behind it.
abbrev pub released : Jitter → ℕ → Jitter
released jb k = drop_head (record jb { head_seq = at jb k })

abbrev pub packet : Jitter → ℕ → List ℕ × ℕ
packet jb k = let slot = jb.slots (at jb k % slot_count) in (slot.bytes, slot.timestamp)

module _ (jb : Jitter) (now_ms buf_len : ℕ) (w : IsWindow jb) (on : jb.started ≡ true) where
  pop-first :
      (k : ℕ)
      → k < slot_count
      → IsFirst jb 0 k
      → length (packet jb k).0 ≤ buf_len
      → pop jb now_ms buf_len ≡ (
          if leb jb.depth_ms (waited jb now_ms k)
          then (released jb k, done (packet jb k))
          else (jb, error no_data))
  unfolding pop
  pop-first zero l f b = ground (
    arith,
    head_slot jb w,
    same,
    f.here,
    release_lem jb now_ms buf_len w.head_word,
    early_lem jb now_ms buf_len,
  )
    where
      same : at jb 0 ≡ jb.head_seq
      same = omega (arith, w.head_word)
  pop-first (suc k) l f b = ground (
    arith,
    head_slot jb w,
    f.before 0,
    f.here,
    look_ahead-first jb now_ms 31 1 (suc k) (omega arith)
        (IsFirst-next jb 0 (suc k) f (f.before 0 (omega arith) (omega arith))),
    release_lem moved now_ms buf_len (omega arith) moved_here,
  )
    where
      moved : Jitter
      moved = record jb { head_seq = at jb (suc k) }

      moved_here : holds moved (at jb (suc k)) ≡ true
      moved_here = unfold holds in f.here

  pop-none : NoneFrom jb 0 slot_count → pop jb now_ms buf_len ≡ (jb, error no_data)
  unfolding pop
  pop-none h = ground (
    arith,
    head_slot jb w,
    h 0,
    look_ahead-none jb now_ms 31 1 (λ j l m. h j (omega arith) (omega arith)),
  )

-- What the caller relies on when it sleeps for the time that jitter_next_timeout_ms returns: on a
-- started buffer whose slots lie in the window, with a 32-bit depth and room for any packet, the
-- call returns 0 exactly when jitter_pop, called now, delivers a packet. The delivered packet is
-- the first buffered one from the head on, and the head moves just behind it; otherwise jitter_pop
-- returns NANORTC_ERR_NO_DATA and changes nothing.
pub pop-next_timeout_ms :
    (jb : Jitter) (now_ms buf_len : ℕ)
    → IsWindow jb
    → jb.started ≡ true
    → ((i : ℕ) → length (jb.slots i).bytes ≤ buf_len)
    → jb.depth_ms < 2 ^ 32
    → (next_timeout_ms jb now_ms ≡ 0
        → (k : ℕ) × (k < slot_count)
          × IsFirst jb 0 k
          × (pop jb now_ms buf_len ≡ (released jb k, done (packet jb k))))
      × (next_timeout_ms jb now_ms ≢ 0 → pop jb now_ms buf_len ≡ (jb, error no_data))
unfolding next_timeout_ms
pop-next_timeout_ms jb now_ms buf_len w on room depth = cases (search_cases jb slot_count 0)
  where
    cases :
        ((k : ℕ) × (k < 0 + slot_count) × IsFirst jb 0 k) ⊎ NoneFrom jb 0 slot_count
        → (next_timeout_ms jb now_ms ≡ 0
            → (k : ℕ) × (k < slot_count)
              × IsFirst jb 0 k
              × (pop jb now_ms buf_len ≡ (released jb k, done (packet jb k))))
          × (next_timeout_ms jb now_ms ≢ 0 → pop jb now_ms buf_len ≡ (jb, error no_data))
    cases (inl (k, l, f)) = (
      λ z. (
        k,
        l,
        f,
        ground (
          arith,
          on,
          pop-first jb now_ms buf_len w on k l f (room (at jb k % slot_count)),
          timeout_from-first jb now_ms slot_count 0 k l f,
        ),
      ),
      λ nz. ground (
        arith,
        on,
        pop-first jb now_ms buf_len w on k l f (room (at jb k % slot_count)),
        timeout_from-first jb now_ms slot_count 0 k l f,
      ),
    )
    cases (inr h) = (
      λ z. absurd (ground (arith, on, timeout_from-none jb now_ms slot_count 0 h)),
      λ nz. pop-none jb now_ms buf_len w on h,
    )
