-- ===== src/Bwe.antt =====
-- src/nano_bwe.c: the bandwidth estimator. A compile-time option has its default value.
pub mod Bounds
pub mod Remb
pub mod Events
mod Tests
use nanortc.Prelude.{
  Bool, List, Outcome, done, error, fail_if, false, if◌then◌else◌, invalid_param, leb, length, ltb,
  not, parse, read, read_u16be, read_u32be, true, u16, u32, u32_max, ℕ, ◌%◌, ◌&&◌, ◌*◌, ◌+◌, ◌-◌,
  ◌/◌, ◌==◌, ◌>>=◌, ◌>>◌, ◌^◌, ◌||◌,
}

-- NANORTC_BWE_MIN_BITRATE, NANORTC_BWE_MAX_BITRATE, NANORTC_BWE_INITIAL_BITRATE
abbrev pub min_bitrate : ℕ
min_bitrate = 30000

abbrev pub max_bitrate : ℕ
max_bitrate = 2000000

abbrev pub initial_bitrate : ℕ
initial_bitrate = 300000

-- NANORTC_BWE_EMA_ALPHA, NANORTC_BWE_EVENT_THRESHOLD_PCT
abbrev pub ema_alpha : ℕ
ema_alpha = 204

abbrev pub event_threshold_pct : ℕ
event_threshold_pct = 15

-- nano_bwe_t
pub record Bwe : Type 0 where
  pub estimated_bitrate : ℕ
  pub prev_event_bitrate : ℕ
  pub last_update_ms : ℕ
  pub remb_count : ℕ
  pub twcc_count : ℕ
  pub smoothed_loss_q8 : ℕ
  pub runtime_min_bps : ℕ
  pub runtime_max_bps : ℕ
  pub runtime_event_threshold_pct : ℕ

-- bwe_init
unfoldable pub init : Bwe
init = record {
  estimated_bitrate = initial_bitrate;
  prev_event_bitrate = initial_bitrate;
  last_update_ms = 0;
  remb_count = 0;
  twcc_count = 0;
  smoothed_loss_q8 = 0;
  runtime_min_bps = 0;
  runtime_max_bps = 0;
  runtime_event_threshold_pct = 0;
}

-- bwe_parse_remb: `d` holds `len` bytes.
unfoldable pub parse_remb : List ℕ → Outcome ℕ
parse_remb d = do
  let len = length d
  fail_if (ltb len 20) parse
  b0 ← read d 0
  fail_if (not (b0 / 2 ^ 6 % 4 == 2)) parse
  pt ← read d 1
  fail_if (not (b0 % 32 == 15) || not (pt == 206)) parse
  length_words ← read_u16be d 2
  let pkt_size = (length_words + 1) * 4
  fail_if (ltb len pkt_size || ltb pkt_size 20) parse
  uid ← read_u32be d 12
  fail_if (not (uid == 0x52454D42)) parse
  b17 ← read d 17
  b18 ← read d 18
  b19 ← read d 19
  let br_exp = b17 / 2 ^ 2 % 64
  let br_mantissa = b17 % 4 * 2 ^ 16 + b18 * 2 ^ 8 + b19
  done (
      if leb 32 br_exp || (ltb 0 br_exp && ltb (u32_max / 2 ^ br_exp) br_mantissa)
      then u32_max
      else u32 (br_mantissa * 2 ^ br_exp))

-- bwe_effective_min, bwe_effective_max
unfoldable pub effective_min : Bwe → ℕ
effective_min bwe = if bwe.runtime_min_bps == 0 then min_bitrate else bwe.runtime_min_bps

unfoldable pub effective_max : Bwe → ℕ
effective_max bwe = if bwe.runtime_max_bps == 0 then max_bitrate else bwe.runtime_max_bps

-- bwe_clamp
unfoldable pub clamp : Bwe → ℕ → ℕ
clamp bwe bps =
    let min_bps = effective_min bwe in
    let max_bps = effective_max bwe in
    if ltb bps min_bps then min_bps else if ltb max_bps bps then max_bps else bps

-- bwe_set_bounds
unfoldable pub set_bounds : Bwe → ℕ → ℕ → Outcome Bwe
unfolding clamp
set_bounds bwe min_bps max_bps =
    let effective_min_bps = if min_bps == 0 then min_bitrate else min_bps in
    let effective_max_bps = if max_bps == 0 then max_bitrate else max_bps in
    let bwe' = record bwe { runtime_min_bps = min_bps; runtime_max_bps = max_bps } in
    if ltb effective_max_bps effective_min_bps
    then error invalid_param
    else done (record bwe' {
      estimated_bitrate = clamp bwe' bwe.estimated_bitrate;
      prev_event_bitrate = clamp bwe' bwe.prev_event_bitrate;
    })

-- bwe_set_initial_bitrate
unfoldable pub set_initial_bitrate : Bwe → ℕ → Bwe
unfolding clamp
set_initial_bitrate bwe bps =
    let initial = if bps == 0 then initial_bitrate else bps in
    if bwe.remb_count == 0 && bwe.twcc_count == 0
    then record bwe {
      estimated_bitrate = clamp bwe initial;
      prev_event_bitrate = clamp bwe initial;
    }
    else bwe

-- bwe_apply: the products are taken in `uint64_t`.
unfoldable pub apply : Bwe → ℕ → ℕ → Bool → Bwe
apply bwe candidate now_ms first_sample =
    let candidate_bps = clamp bwe candidate in
    let smoothed =
      (ema_alpha * candidate_bps + (256 - ema_alpha) * bwe.estimated_bitrate) % 2 ^ 64 / 256 in
    record bwe {
      estimated_bitrate = if first_sample then candidate_bps else u32 smoothed;
      last_update_ms = now_ms;
    }

-- bwe_on_rtcp_feedback
unfoldable pub on_rtcp_feedback : Bwe → List ℕ → ℕ → Outcome Bwe
on_rtcp_feedback bwe d now_ms = do
  remb_bitrate ← parse_remb d
  let count = u32 (bwe.remb_count + 1)
  done (apply (record bwe { remb_count = count }) remb_bitrate now_ms (count == 1))

-- The target of the loss-based controller, before the smoothing of bwe_apply.
unfoldable pub loss_target : Bwe → ℕ → ℕ
loss_target bwe loss =
    let max_bps = effective_max bwe in
    let min_bps = effective_min bwe in
    let target = if bwe.estimated_bitrate == 0 then initial_bitrate else bwe.estimated_bitrate in
    let grown = target * 108 % 2 ^ 64 / 100 in
    let shrunk = target * (512 - loss) % 2 ^ 64 / 512 in
    if ltb loss 5
    then if ltb max_bps grown then max_bps else u32 grown
    else if ltb 25 loss
    then u32 (if ltb shrunk min_bps then min_bps else shrunk)
    else target

-- bwe_on_twcc_loss
unfoldable pub on_twcc_loss : Bwe → ℕ → ℕ → Bwe
on_twcc_loss bwe loss_fraction_q8 now_ms =
    let loss = if ltb 256 loss_fraction_q8 then 256 else loss_fraction_q8 in
    let smoothed =
      if bwe.twcc_count == 0 then loss else u16 (u32 (bwe.smoothed_loss_q8 * 3 + loss) / 4) in
    let target = loss_target bwe loss in
    let count = u32 (bwe.twcc_count + 1) in
    apply (record bwe { smoothed_loss_q8 = smoothed; twcc_count = count }) target now_ms
      (count == 1)

-- bwe_should_emit_event
unfoldable pub should_emit_event : Bwe → Bool × Bwe
should_emit_event bwe =
    let cur = bwe.estimated_bitrate in
    let prev = bwe.prev_event_bitrate in
    let diff = if ltb prev cur then cur - prev else prev - cur in
    let threshold_pct =
      if bwe.runtime_event_threshold_pct == 0
      then event_threshold_pct
      else bwe.runtime_event_threshold_pct in
    let threshold_abs = u32 (prev / 100 * threshold_pct) in
    if prev == 0
    then (false, bwe)
    else if ltb threshold_abs diff
    then (true, record bwe { prev_event_bitrate = cur })
    else (false, bwe)
