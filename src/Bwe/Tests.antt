-- ===== src/Bwe/Tests.antt =====
-- The estimator at concrete inputs.
use nanortc.Prelude.{
  List, [], arith, done, error, fail_if, false, fault, parse, read, read_u16be, read_u32be, refl,
  true, u32_max, ℕ, ◌*◌, ◌+◌, ◌<◌, ◌↔◌, ◌∷◌, ◌≡◌, ◌≢◌, ◌≤◌, ◌⊎◌,
}
use nanortc.Bwe.{
  Bwe, effective_max, effective_min, init, on_twcc_loss, parse_remb, should_emit_event,
}
use nanortc.Bwe.Bounds.{Event, bounds, initial, remb, loss, poll, IsValid, run, run-IsValid}
use nanortc.Bwe.Remb.{IsRemb, exponent, mantissa, parse_remb_lem, value}
use nanortc.Bwe.Events.{on_twcc_loss_direction, should_emit_event_lem}

-- One megabit per second: mantissa 250000, exponent 2.
abbrev remb_packet : List ℕ
remb_packet =
    0x8F ∷ 206 ∷ 0 ∷ 5 ∷ 0 ∷ 0 ∷ 0 ∷ 1 ∷ 0 ∷ 0 ∷ 0 ∷ 0 ∷ 0x52 ∷ 0x45 ∷ 0x4D ∷ 0x42 ∷ 1 ∷ 11 ∷ 208
    ∷ 144 ∷ 0 ∷ 0 ∷ 0 ∷ 9 ∷ []

parses : parse_remb remb_packet ≡ done 1000000
unfolding parse_remb fail_if read read_u16be read_u32be
parses = refl

-- A zero mantissa with an exponent of 32 or more is read as UINT32_MAX.
saturates_zero :
    parse_remb (
      0x8F ∷ 206 ∷ 0 ∷ 4 ∷ 0 ∷ 0 ∷ 0 ∷ 1 ∷ 0 ∷ 0 ∷ 0 ∷ 0 ∷ 0x52 ∷ 0x45 ∷ 0x4D ∷ 0x42 ∷ 0 ∷ 128 ∷ 0
      ∷ 0 ∷ [])
    ≡ done u32_max
unfolding parse_remb fail_if read read_u16be read_u32be
saturates_zero = refl

parse_remb_lem_example :
    (parse_remb remb_packet ≢ fault)
    × (IsRemb remb_packet
        → parse_remb remb_packet ≡ done (value (exponent remb_packet) (mantissa remb_packet)))
    × (¬ IsRemb remb_packet → parse_remb remb_packet ≡ error parse)
parse_remb_lem_example = parse_remb_lem remb_packet (omega arith)

remb_packet-IsRemb : IsRemb remb_packet
remb_packet-IsRemb = omega arith

abbrev script : List Event
script =
    bounds 50000 900000 ∷ remb remb_packet 10 ∷ loss 40 20 ∷ poll ∷ initial 70000 ∷ loss 1 30 ∷ []

run-IsValid_example : IsValid (run init script)
run-IsValid_example = run-IsValid script (omega arith)

abbrev moved : Bwe
moved = record {
  estimated_bitrate = 400000;
  prev_event_bitrate = 300000;
  last_update_ms = 5;
  remb_count = 1;
  twcc_count = 2;
  smoothed_loss_q8 = 3;
  runtime_min_bps = 0;
  runtime_max_bps = 0;
  runtime_event_threshold_pct = 0;
}

should_emit_event_lem_example :
    let (emit, b') = should_emit_event moved in
    ((emit ≡ true) ↔ ((300000 + 45000 < 400000) ⊎ (400000 + 45000 < 300000)))
    × (300000 * (100 + 15) < 400000 * 100 → emit ≡ true)
    × (400000 * 100 + 300000 * 15 < 300000 * 100 → emit ≡ true)
    × (300000 < 100 → ◌≢◌ {A = ℕ} 400000 300000 → emit ≡ true)
    × (emit ≡ true → b' ≡ record moved { prev_event_bitrate = 400000 })
    × (emit ≡ false → b' ≡ moved)
    × ((should_emit_event b').0 ≡ false)
should_emit_event_lem_example =
    should_emit_event_lem moved (omega arith) (omega arith) (omega arith)

moved-IsValid : IsValid moved
unfolding effective_min effective_max
moved-IsValid = omega arith

on_twcc_loss_direction_example :
    (40 < 5 → 400000 ≤ (on_twcc_loss moved 40 9).estimated_bitrate)
    × (5 ≤ 40 → 40 ≤ 25 → (on_twcc_loss moved 40 9).estimated_bitrate ≡ 400000)
    × (25 < 40 → (on_twcc_loss moved 40 9).estimated_bitrate ≤ 400000)
on_twcc_loss_direction_example = on_twcc_loss_direction moved 40 9 moved-IsValid
