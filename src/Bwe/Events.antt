-- ===== src/Bwe/Events.antt =====
-- When src/nano_bwe.c reports a new estimate, and which way the loss controller moves it.
use nanortc.Prelude.{
  Bool, arith, false, if◌then◌else◌, ltb, true, u16, u32, ℕ, ◌*◌, ◌+◌, ◌-◌, ◌/◌, ◌<◌, ◌==◌, ◌^◌,
  ◌↔◌, ◌≡◌, ◌≢◌, ◌≤◌, ◌⊎◌,
}
use nanortc.Bwe.{
  Bwe, apply, clamp, effective_max, effective_min, event_threshold_pct, loss_target, on_twcc_loss,
  should_emit_event,
}
use nanortc.Bwe.Bounds.{IsValid}

abbrev pub threshold : Bwe → ℕ
threshold b =
    if b.runtime_event_threshold_pct == 0
    then event_threshold_pct
    else b.runtime_event_threshold_pct

no_wrap : (prev pct : ℕ) → prev < 2 ^ 32 → pct ≤ 100 → u32 (prev / 100 * pct) ≡ prev / 100 * pct
no_wrap prev pct h k = omega (arith, scaled (prev / 100) pct k)
  where
    scaled : (q pct : ℕ) → pct ≤ 100 → q * pct ≤ q * 100
    scaled q pct k = grind arith

-- The rounded threshold is no more than the exact one.
share-le : (prev pct : ℕ) → prev / 100 * pct * 100 ≤ prev * pct
share-le prev pct =
    let hundredth : prev / 100 * 100 ≤ prev = omega arith in grind (arith, scaled hundredth)
  where
    scaled : {x y : ℕ} → x ≤ y → x * pct ≤ y * pct
    scaled h = grind (arith, h)

split_share : (prev pct : ℕ) → prev * (100 + pct) ≡ prev * 100 + prev * pct
split_share prev pct = grind arith

no_share : (prev pct : ℕ) → prev < 100 → prev / 100 * pct ≡ 0
no_share prev pct h = let rounded : prev / 100 ≡ 0 = omega (arith, h) in rw rounded (omega arith)

-- With a 32-bit baseline that is not zero and a threshold of at most 100 %, an event is emitted
-- exactly when the estimate has moved by more than the threshold times the hundredth part of the
-- baseline, rounded down before the product. So a move by more than the threshold's share of the
-- baseline itself always emits; the rounding lets a smaller move emit too, one of any size where
-- the baseline is below 100. Emitting moves the baseline to the estimate and changes nothing else,
-- so that a second call right after the first emits nothing.
pub should_emit_event_lem :
    (b : Bwe)
    → b.prev_event_bitrate < 2 ^ 32
    → b.prev_event_bitrate ≢ 0
    → threshold b ≤ 100
    → let step_size = b.prev_event_bitrate / 100 * threshold b in
      let (emit, b') = should_emit_event b in
      ((emit ≡ true) ↔ (
        (b.prev_event_bitrate + step_size < b.estimated_bitrate)
        ⊎ (b.estimated_bitrate + step_size < b.prev_event_bitrate)))
      × (b.prev_event_bitrate * (100 + threshold b) < b.estimated_bitrate * 100 → emit ≡ true)
      × (b.estimated_bitrate * 100 + b.prev_event_bitrate * threshold b < b.prev_event_bitrate * 100
          → emit ≡ true)
      × (b.prev_event_bitrate < 100 → b.estimated_bitrate ≢ b.prev_event_bitrate → emit ≡ true)
      × (emit ≡ true → b' ≡ record b { prev_event_bitrate = b.estimated_bitrate })
      × (emit ≡ false → b' ≡ b)
      × ((should_emit_event b').0 ≡ false)
unfolding should_emit_event
should_emit_event_lem b fits armed pct =
    let share = share-le b.prev_event_bitrate (threshold b) in
    let product = split_share b.prev_event_bitrate (threshold b) in
    let small = no_share b.prev_event_bitrate (threshold b) in
    ground (arith, no_wrap b.prev_event_bitrate (threshold b) fits pct, share, product, small)

-- The smoothing moves the estimate towards the candidate, and not at all if they agree.
apply_toward :
    (b : Bwe) (c now_ms : ℕ) (first : Bool)
    → IsValid b
    → let new = (apply b c now_ms first).estimated_bitrate in
      let old = b.estimated_bitrate in (c ≤ old → new ≤ old) × (old ≤ c → old ≤ new)
unfolding apply clamp
apply_toward b c now_ms first v = ground arith

loss_target_direction :
    (b : Bwe) (q8 : ℕ)
    → IsValid b
    → q8 ≤ 256
    → let new = loss_target b q8 in
      let old = b.estimated_bitrate in
      (q8 < 5 → old ≤ new) × (5 ≤ q8 → q8 ≤ 25 → new ≡ old) × (25 < q8 → new ≤ old)
unfolding loss_target
loss_target_direction b q8 v k =
    ground (arith, scaled b.estimated_bitrate (512 - q8) (omega arith), effective_min-pos b)
  where
    scaled : (x k : ℕ) → k ≤ 512 → x * k ≤ x * 512
    scaled x k h = grind arith

    effective_min-pos : (b : Bwe) → 0 < effective_min b
    effective_min-pos b = unfold effective_min in ground arith

-- One TWCC report moves the estimate of a valid estimator the right way: not down when less
-- than 5/256 of the packets are lost, not at all from 5/256 to 25/256, and not up above that.
pub on_twcc_loss_direction :
    (b : Bwe) (q8 now_ms : ℕ)
    → IsValid b
    → let new = (on_twcc_loss b q8 now_ms).estimated_bitrate in
      let old = b.estimated_bitrate in
      (q8 < 5 → old ≤ new) × (5 ≤ q8 → q8 ≤ 25 → new ≡ old) × (25 < q8 → new ≤ old)
unfolding on_twcc_loss
on_twcc_loss_direction b q8 now_ms v = ground (
  arith,
  loss_target_direction b capped v (ground arith),
  apply_toward counted (loss_target b capped) now_ms (u32 (b.twcc_count + 1) == 1) counted_valid,
)
  where
    capped : ℕ
    capped = if ltb 256 q8 then 256 else q8

    counted : Bwe
    counted = record b {
      smoothed_loss_q8 =
          if b.twcc_count == 0 then capped else u16 (u32 (b.smoothed_loss_q8 * 3 + capped) / 4);
      twcc_count = u32 (b.twcc_count + 1);
    }

    counted_valid : IsValid counted
    counted_valid = unfold effective_min effective_max in ground arith
