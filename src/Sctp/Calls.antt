-- ===== src/Sctp/Calls.antt =====
-- The calls of src/nano_rtc.c into src/nano_sctp.c, in any order.
pub mod Outgoing
pub mod Bounded
use nanortc.Prelude.{Bool, List, Option, Outcome, [], done, error, fault, ℕ, ◌∷◌}
use nanortc.Sctp.{Sctp}
use nanortc.Sctp.Receive.{poll_delivery}
use nanortc.Sctp.Transmit.{send_options}
use nanortc.Sctp.Assoc.{Random, start}
use nanortc.Sctp.Incoming.{handle_data}
use nanortc.Sctp.Output.{handle_timeout, poll_output}

-- A call with its arguments; where the code draws random bytes, the source of that call.
pub data Call : Type 0 where
  begin : Random → Call
  receive : Random → List ℕ → Call
  submit : ℕ → ℕ → List ℕ → Bool → Option ℕ → Call
  poll : ℕ → Call
  take_message : Call
  tick : Random → ℕ → Call

-- The result without its value.
abbrev pub status : {A : Type 0} → Sctp × Outcome A → Sctp × Outcome (Unit {0})
status (s, done a) = (s, done tt)
status (s, error e) = (s, error e)
status (s, fault) = (s, fault)

unfoldable pub call : Call → Sctp → Sctp × Outcome (Unit {0})
call (begin random) s = start random s
call (receive random bytes) s = handle_data random s bytes
call (submit stream_id ppid bytes unordered m) s = send_options s stream_id ppid bytes unordered m
call (poll buf_len) s = status (poll_output s buf_len)
call take_message s = status (poll_delivery s)
call (tick random now_ms) s = handle_timeout random s now_ms

-- The application goes on after an error.
unfoldable pub calls : List Call → Sctp → Sctp
calls [] s = s
calls (c ∷ rest) s = calls rest (call c s).0
