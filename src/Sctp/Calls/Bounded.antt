-- ===== src/Sctp/Calls/Bounded.antt =====
-- No sequence of calls breaks the bounds of src/nano_sctp.c.
use nanortc.Prelude.{arith, refl}
use nanortc.Sctp.{Sctp, init}
use nanortc.Sctp.Incoming.Sound.{IsBounded, Sound}

pub init-IsBounded : IsBounded init
unfolding init
init-IsBounded = (
  refl,
  record {
    queue_room = omega arith;
    buf_room = omega arith;
    inside = tt;
    rto_low = omega arith;
    rto_high = omega arith;
  },
)
