-- ===== src/Bwe/Bounds.antt =====
-- The estimate of src/nano_bwe.c stays inside the effective bitrate bounds.
use nanortc.Prelude.{
  Bool, List, Outcome, [], arith, done, error, fault, refl, u32, ℕ, ◌+◌, ◌<◌, ◌==◌, ◌>>=◌, ◌^◌, ◌∷◌,
  ◌≡◌, ◌≤◌,
}
use nanortc.Bwe.{
  Bwe, apply, clamp, effective_max, effective_min, init, on_rtcp_feedback, on_twcc_loss, parse_remb,
  set_bounds, set_initial_bitrate, should_emit_event,
}

-- The bounds are in order and fit 32 bits, the estimate is inside them, and the smoothed loss
-- is at most 100 %.
pub record IsValid (b : Bwe) : Type 0 where
  pub ordered : effective_min b ≤ effective_max b
  pub top : effective_max b < 2 ^ 32
  pub above_min : effective_min b ≤ b.estimated_bitrate
  pub below_max : b.estimated_bitrate ≤ effective_max b
  pub loss_range : b.smoothed_loss_q8 ≤ 256

pub clamp_bounds :
    (b : Bwe) (x : ℕ)
    → effective_min b ≤ effective_max b
    → (effective_min b ≤ clamp b x) × (clamp b x ≤ effective_max b)
unfolding clamp
clamp_bounds b x h = ground arith

-- The smoothing is a weighted mean, so it leaves neither end of the range.
pub apply-range :
    (b : Bwe) (c now_ms : ℕ) (first : Bool)
    → effective_min b ≤ effective_max b
    → effective_max b < 2 ^ 32
    → effective_min b ≤ b.estimated_bitrate
    → b.estimated_bitrate ≤ effective_max b
    → (effective_min b ≤ (apply b c now_ms first).estimated_bitrate)
      × ((apply b c now_ms first).estimated_bitrate ≤ effective_max b)
unfolding apply
apply-range b c now_ms first h1 h2 h3 h4 = ground (arith, clamp_bounds b c)

-- `apply` changes the estimate and the time only.
apply_frame :
    (b : Bwe) (c now_ms : ℕ) (first : Bool)
    → let b' = apply b c now_ms first in
      (effective_min b' ≡ effective_min b)
      × (effective_max b' ≡ effective_max b)
      × (b'.smoothed_loss_q8 ≡ b.smoothed_loss_q8)
unfolding apply effective_min effective_max
apply_frame b c now_ms first = (refl, refl, refl)

pub apply-IsValid :
    (b : Bwe) (c now_ms : ℕ) (first : Bool) → IsValid b → IsValid (apply b c now_ms first)
apply-IsValid b c now_ms first v = omega (
  arith,
  apply_frame b c now_ms first,
  apply-range b c now_ms first v.ordered v.top v.above_min v.below_max,
)

-- The configuration calls that a client can make, and the feedback that can arrive.
pub data Event : Type 0 where
  bounds : ℕ → ℕ → Event
  initial : ℕ → Event
  remb : List ℕ → ℕ → Event
  loss : ℕ → ℕ → Event
  poll : Event

-- A call that fails leaves the state as it was.
abbrev or_else : Bwe → Outcome Bwe → Bwe
or_else b (done b') = b'
or_else b (error e) = b
or_else b fault = b

pub step : Bwe → Event → Bwe
step b (bounds lo hi) = or_else b (set_bounds b lo hi)
step b (initial bps) = set_initial_bitrate b bps
step b (remb d now_ms) = or_else b (on_rtcp_feedback b d now_ms)
step b (loss q8 now_ms) = on_twcc_loss b q8 now_ms
step b poll = (should_emit_event b).1

pub run : Bwe → List Event → Bwe
unfolding step
run b [] = b
run b (e ∷ es) = run (step b e) es

-- The arguments are `uint32_t` where the C signature says so.
abbrev pub FitsWord : Event → Type 0
FitsWord (bounds lo hi) = hi < 2 ^ 32
FitsWord _ = Unit

abbrev pub AllFit : List Event → Type 0
AllFit [] = Unit
AllFit (e ∷ es) = FitsWord e × AllFit es

set_bounds-IsValid :
    (b : Bwe) (lo hi : ℕ) → IsValid b → hi < 2 ^ 32 → IsValid (or_else b (set_bounds b lo hi))
unfolding set_bounds effective_min effective_max
set_bounds-IsValid b lo hi v h = ground arith

set_initial-IsValid : (b : Bwe) (bps : ℕ) → IsValid b → IsValid (set_initial_bitrate b bps)
unfolding set_initial_bitrate effective_min effective_max
set_initial-IsValid b bps v = ground arith

remb-IsValid :
    (b : Bwe) (d : List ℕ) (now_ms : ℕ)
    → IsValid b
    → IsValid (or_else b (on_rtcp_feedback b d now_ms))
unfolding on_rtcp_feedback
remb-IsValid b d now_ms v = go (parse_remb d)
  where
    count : ℕ
    count = u32 (b.remb_count + 1)

    counted : IsValid (record b { remb_count = count })
    counted = unfold effective_min effective_max in omega arith

    go :
        (r : Outcome ℕ)
        → IsValid (
            or_else b
              (r >>= λ bps. done (apply (record b { remb_count = count }) bps now_ms (count == 1))))
    go (done bps) = apply-IsValid (record b { remb_count = count }) bps now_ms (count == 1) counted
    go (error e) = v
    go fault = v

loss-IsValid : (b : Bwe) (q8 now_ms : ℕ) → IsValid b → IsValid (on_twcc_loss b q8 now_ms)
unfolding on_twcc_loss
loss-IsValid b q8 now_ms v =
    apply-IsValid _ _ _ _ (unfold effective_min effective_max in ground arith)

poll-IsValid : (b : Bwe) → IsValid b → IsValid (should_emit_event b).1
unfolding should_emit_event effective_min effective_max
poll-IsValid b v = ground arith

step-IsValid : (b : Bwe) (e : Event) → FitsWord e → IsValid b → IsValid (step b e)
unfolding step
step-IsValid b (bounds lo hi) f v = set_bounds-IsValid b lo hi v f
step-IsValid b (initial bps) f v = set_initial-IsValid b bps v
step-IsValid b (remb d now_ms) f v = remb-IsValid b d now_ms v
step-IsValid b (loss q8 now_ms) f v = loss-IsValid b q8 now_ms v
step-IsValid b poll f v = poll-IsValid b v

run-keeps_IsValid : (b : Bwe) (es : List Event) → AllFit es → IsValid b → IsValid (run b es)
unfolding run
run-keeps_IsValid b [] f v = v
run-keeps_IsValid b (e ∷ es) f v = run-keeps_IsValid (step b e) es f.1 (step-IsValid b e f.0 v)

-- Whatever bounds are set and whatever feedback arrives, in any order, after bwe_init the
-- estimate is inside the effective bounds, these are in order, and the smoothed loss is at most
-- 256; the only condition is that an upper bound that is set fits 32 bits.
pub run-IsValid : (es : List Event) → AllFit es → IsValid (run init es)
unfolding init effective_min effective_max
run-IsValid es f = run-keeps_IsValid init es f (omega arith)
