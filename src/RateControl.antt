-- ===== src/RateControl.antt =====
-- src/nano_rate_control.c: the rung of the capability ladder that the encoder should use.
-- A compile-time option has its default value.
pub mod Policy
mod Tests
use nanortc.Prelude.{
  Bool, List, Outcome, [], done, error, false, if◌then◌else◌, invalid_param, leb, length, ltb, not,
  read, sub32, true, u8, ℕ, ◌%◌, ◌&&◌, ◌*◌, ◌+◌, ◌-◌, ◌/◌, ◌==◌, ◌>>=◌, ◌^◌, ◌∷◌,
}

-- NANORTC_RATE_CONTROL_SAFETY_PCT and its siblings
abbrev pub safety_pct : ℕ
safety_pct = 85

abbrev pub up_headroom_pct : ℕ
up_headroom_pct = 20

abbrev pub min_hold_ms : ℕ
min_hold_ms = 3000

abbrev pub loss_down_q8 : ℕ
loss_down_q8 = 25

-- nano_rate_control_t; `has_rung` is tested as a flag only.
pub record RateControl : Type 0 where
  pub cur_rung : ℕ
  pub has_rung : Bool
  pub up_target : ℕ
  pub up_since_ms : ℕ

-- rate_control_init
unfoldable pub init : RateControl
init = record { cur_rung = 0; has_rung = false; up_target = 0; up_since_ms = 0 }

-- rate_control_clear_up
unfoldable pub clear_up : RateControl → RateControl
clear_up rc = record rc { up_target = 0; up_since_ms = 0 }

-- The budget of rate_control_select_target, in `uint64_t`.
unfoldable pub budget : ℕ → ℕ
budget estimate_bps = estimate_bps * safety_pct % 2 ^ 64 / 100

-- The loop of rate_control_select_target over the rungs from `i` on. Of a rung only its
-- `bitrate_bps` is used, and the ladder is the list of these.
unfoldable pub select_from : ℕ → List ℕ → ℕ → ℕ → ℕ
select_from limit [] i target = target
select_from limit (bitrate ∷ ladder) i target =
    select_from limit ladder (i + 1) (if leb bitrate limit then i else target)

-- rate_control_select_target
unfoldable pub select_target : ℕ → List ℕ → ℕ
select_target estimate_bps ladder = select_from (budget estimate_bps) ladder 0 0

-- The `target > cur_rung` branch of rate_control_update; `bitrate` is that of the next rung.
unfoldable pub try_up : RateControl → ℕ → ℕ → ℕ → RateControl
try_up rc estimate_bps bitrate now_ms =
    let next = u8 (rc.cur_rung + 1) in
    let need = bitrate * (100 + up_headroom_pct) % 2 ^ 64 / 100 in
    let since = if rc.up_target == next then rc.up_since_ms else now_ms in
    if leb need estimate_bps
    then if leb min_hold_ms (sub32 now_ms since)
      then clear_up (record rc { cur_rung = next })
      else record rc { up_target = next; up_since_ms = since }
    else clear_up rc

-- The branches of rate_control_update once a rung has been selected. The ladder is read at
-- `ladder[cur_rung + 1]`, which may lie outside it.
unfoldable pub move : RateControl → ℕ → List ℕ → ℕ → ℕ → Outcome RateControl
move rc estimate_bps ladder target now_ms =
    if ltb target rc.cur_rung
    then done (clear_up (record rc { cur_rung = target }))
    else if ltb rc.cur_rung target
    then (read ladder (u8 (rc.cur_rung + 1)) >>= λ bitrate.
        done (try_up rc estimate_bps bitrate now_ms))
    else done (clear_up rc)

-- The target lowered by one rung at least under sustained loss.
unfoldable pub lossy_target : RateControl → ℕ → ℕ → ℕ
lossy_target rc loss_q8 target =
    if leb loss_down_q8 loss_q8 && ltb 0 rc.cur_rung
    then if ltb (rc.cur_rung - 1) target then rc.cur_rung - 1 else target
    else target

-- rate_control_update: the result is the new state with the recommended rung.
unfoldable pub update : RateControl → ℕ → ℕ → List ℕ → ℕ → Outcome (RateControl × ℕ)
update rc estimate_bps loss_q8 ladder now_ms =
    if length ladder == 0
    then error invalid_param
    else if estimate_bps == 0
    then done (rc, if rc.has_rung then rc.cur_rung else 0)
    else if not rc.has_rung
    then (let target = select_target estimate_bps ladder in
        done (clear_up (record rc { cur_rung = target; has_rung = true }), target))
    else (move rc estimate_bps ladder (lossy_target rc loss_q8 (select_target estimate_bps ladder))
          now_ms
        >>= λ rc'. done (rc', rc'.cur_rung))

-- rate_control_get_rung
unfoldable pub get_rung : RateControl → ℕ
get_rung rc = rc.cur_rung
