-- ===== src/Sctp/Transmit.antt =====
-- The send side of src/nano_sctp.c: the queue of chunks, its acknowledgement, its timers.
pub mod Within
pub mod Message
pub mod Refused
pub mod Bounds
pub mod Safety
use nanortc.Prelude.{
  Bool, List, Option, Outcome, [], bad_state, buffer_too_small, done, drop, error, fail_if, false,
  fault, get_or, if◌then◌else◌, invalid_param, leb, length, ltb, none, not, not_implemented, parse,
  protocol_error, read_u16be, set, some, sub32, suc, take, true, u16, u16_max, u32, u32_max,
  would_block, zero, ℕ, ◌&&◌, ◌*◌, ◌++◌, ◌+◌, ◌-◌, ◌/◌, ◌==◌, ◌>>=◌, ◌>>◌, ◌||◌, ◌∷◌,
}
use nanortc.Clock.{elapsed}
use nanortc.Sctp.{
  Sctp, SendEntry, Stream, Tx, heartbeat_interval_ms, is_begin, is_end, is_established,
  max_message_size, max_retransmissions, max_send_queue, rto_max_ms, sctp_mtu, send_buf_size,
  stream_of, tsn_gt, tsn_le,
}
use nanortc.Sctp.Codec.{Sack, parse_sack}

-- nsctp_gap_acked: the offset lies in one of the `count` gap blocks from block `i` on. The callers
-- pass an offset above 0, as an unsigned number.
unfoldable pub gap_acked : List ℕ → ℕ → ℕ → ℕ → Outcome Bool
gap_acked chunk zero i offset = done false
gap_acked chunk (suc n) i offset = read_u16be chunk (16 + 4 * i) >>= λ start.
    read_u16be chunk (18 + 4 * i) >>= λ end_. elim (leb start offset && leb offset end_) [
      | true ↦ done true
      | false ↦ gap_acked chunk n (i + 1) offset
    ]

-- The test of the gap blocks of nsctp_handle_sack_chunk, from block `i` on.
unfoldable pub check_gaps : List ℕ → ℕ → ℕ → ℕ → Outcome (Unit {0})
check_gaps chunk zero i previous_end = done tt
check_gaps chunk (suc n) i previous_end = read_u16be chunk (16 + 4 * i) >>= λ start.
    read_u16be chunk (18 + 4 * i) >>= λ end_. elim (leb start previous_end || ltb end_ start) [
      | true ↦ error parse
      | false ↦ check_gaps chunk n (i + 1) end_
    ]

-- `(int32_t)(e->tsn - cumulative_tsn)` is in the range of gap blocks, and a block covers it.
unfoldable pub is_gap_acked : List ℕ → Sack → SendEntry → Outcome Bool
is_gap_acked chunk sack e =
    let offset = sub32 e.tsn sack.cumulative_tsn in
    if offset == 0 || ltb u16_max offset
    then done false
    else gap_acked chunk sack.num_gap_blocks 0 offset

-- The highest TSN in flight that a gap block covers.
unfoldable pub highest_acked : List ℕ → Sack → ℕ → List SendEntry → Outcome ℕ
highest_acked chunk sack highest [] = done highest
highest_acked chunk sack highest (e ∷ queue) = elim (e.in_flight && tsn_gt e.tsn highest) [
  | false ↦ highest_acked chunk sack highest queue
  | true ↦ is_gap_acked chunk sack e >>= λ acked.
      highest_acked chunk sack (if acked then e.tsn else highest) queue
]

-- The second loop of nsctp_abandon_message, up to the end of the message.
unfoldable pub abandon_rest : List SendEntry → List SendEntry
abandon_rest [] = []
abandon_rest (e ∷ queue) =
    record e { abandoned = true } ∷ (if is_end e.flags then queue else abandon_rest queue)

abbrev pub no_entry : SendEntry
no_entry = record {
  tsn = 0;
  stream_id = 0;
  ssn = 0;
  ppid = 0;
  data_offset = 0;
  data_len = 0;
  sent_at_ms = 0;
  retransmit_count = 0;
  max_retransmits = none;
  abandoned = false;
  flags = 0;
  acked = false;
  in_flight = false;
}

abbrev pub entry : Tx → ℕ → SendEntry
entry tx i = get_or tx.send_queue i no_entry

-- The first loop of nsctp_abandon_message: back to the entry that begins the message.
unfoldable pub message_start : List SendEntry → ℕ → ℕ
message_start queue zero = 0
message_start queue (suc i) = elim (is_begin (get_or queue (suc i) no_entry).flags) [
  | true ↦ suc i
  | false ↦ message_start queue i
]

-- nsctp_abandon_message
unfoldable pub abandon_message : Tx → ℕ → Tx
abandon_message tx index =
    let first = message_start tx.send_queue index in
    record tx {
      send_queue = take first tx.send_queue ++ abandon_rest (drop first tx.send_queue);
      forward_pending = true;
    }

-- The loop that gives up messages with no retries, from entry `i` on, `n` entries left.
unfoldable pub abandon_lost : List ℕ → Sack → ℕ → ℕ → ℕ → Tx → Outcome Tx
abandon_lost chunk sack highest zero i tx = done tx
abandon_lost chunk sack highest (suc n) i tx =
    let e = entry tx i in
    elim (e.in_flight
        && (not e.acked
            && (not e.abandoned
                && (elim e.max_retransmits as (λ _. Bool) [ none ↦ false | some m ↦ m == 0 ]
                    && (tsn_gt e.tsn sack.cumulative_tsn && tsn_gt highest e.tsn)))))
      as (λ _. Outcome Tx) [
        | false ↦ abandon_lost chunk sack highest n (i + 1) tx
        | true ↦ is_gap_acked chunk sack e >>= λ acked.
            abandon_lost chunk sack highest n (i + 1) (if acked then tx else abandon_message tx i)
      ]

-- The entries up to the cumulative TSN are acknowledged.
unfoldable pub mark_acked : ℕ → List SendEntry → List SendEntry
mark_acked cumulative_tsn [] = []
mark_acked cumulative_tsn (e ∷ queue) =
    (if tsn_le e.tsn cumulative_tsn then record e { acked = true } else e)
    ∷ mark_acked cumulative_tsn queue

-- `sq_head` moves past acknowledged entries.
unfoldable pub drop_acked : List SendEntry → List SendEntry
drop_acked [] = []
drop_acked (e ∷ queue) = let rest = drop_acked queue in if e.acked then rest else e ∷ queue

-- The end of nsctp_handle_sack_chunk.
unfoldable pub acknowledge : Tx → ℕ → Tx
acknowledge tx cumulative_tsn =
    let queue = drop_acked (mark_acked cumulative_tsn tx.send_queue) in
    record tx { send_queue = queue; send_buf = if length queue == 0 then [] else tx.send_buf }

-- nsctp_handle_sack_chunk; on an error nothing has changed.
unfoldable pub handle_sack : Tx → List ℕ → Outcome Tx
handle_sack tx chunk = do
  sack ← parse_sack chunk
  fail_if
      (ltb ((length chunk - 16) / 4) sack.num_gap_blocks
        || ltb ((length chunk - 16) / 4 - sack.num_gap_blocks) sack.num_dup_tsns)
      parse
  check_gaps chunk sack.num_gap_blocks 0 0
  highest ← highest_acked chunk sack sack.cumulative_tsn tx.send_queue
  tx' ← abandon_lost chunk sack highest (length tx.send_queue) 0 tx
  done (acknowledge tx' sack.cumulative_tsn)

-- `mtu_payload` of nsctp_send_options
abbrev pub mtu_payload : ℕ
mtu_payload = sctp_mtu / 4 * 4 - 28

-- The loop of nsctp_send_options: `n` fragments are left, the next one is number `i`.
unfoldable pub fragments : ℕ → ℕ → SendEntry → ℕ → ℕ → List SendEntry
fragments zero i e off remaining = []
fragments (suc n) i e off remaining =
    let len = if ltb mtu_payload remaining then mtu_payload else remaining in
    record e {
      flags = (if i == 0 then 2 else 0) + (if n == 0 then 1 else 0) + e.flags;
      data_offset = off;
      data_len = len;
    }
    ∷ fragments n (i + 1) (record e { tsn = u32 (e.tsn + 1) }) (u16 (off + len)) (remaining - len)

-- `count` of nsctp_send_options
unfoldable pub fragment_count : ℕ → ℕ
fragment_count len = if len == 0 then 1 else (len + mtu_payload - 1) / mtu_payload

-- The end of nsctp_send_options, once there is room and the stream is known.
unfoldable pub enqueue : Tx → ℕ → ℕ → ℕ → List ℕ → Bool → Option ℕ → Tx
enqueue tx stream_id ssn ppid bytes unordered max_retransmits =
    let count = fragment_count (length bytes) in
    record tx {
      next_tsn = u32 (tx.next_tsn + count);
      send_buf = tx.send_buf ++ bytes;
      send_queue =
          tx.send_queue
          ++ fragments count 0
              (record no_entry {
                tsn = tx.next_tsn;
                stream_id = stream_id;
                ssn = ssn;
                ppid = ppid;
                flags = if unordered then 4 else 0;
                max_retransmits = max_retransmits;
              })
              (length tx.send_buf) (length bytes);
    }

-- `next_ssn[stream]++`
unfoldable pub take_ssn : List Stream → ℕ → List Stream
take_ssn streams i =
    let s = get_or streams i (record { stream_id = 0; next_ssn = 0; recv_ssn = 0 }) in
    set streams i (record s { next_ssn = u16 (s.next_ssn + 1) })

unfoldable pub ssn_of : List Stream → ℕ → ℕ
ssn_of streams i =
    (get_or streams i (record { stream_id = 0; next_ssn = 0; recv_ssn = 0 })).next_ssn

-- The tests of nsctp_send_options before anything changes.
unfoldable pub send_checks : Sctp → ℕ → Option ℕ → Outcome (Unit {0})
send_checks s len max_retransmits = do
  fail_if (not (is_established s.state)) bad_state
  fail_if (elim max_retransmits as (λ _. Bool) [ none ↦ false | some m ↦ ltb u16_max m ])
      invalid_param
  fail_if (elim max_retransmits as (λ _. Bool) [ none ↦ false | some m ↦ not s.peer_forward_tsn ])
      not_implemented
  fail_if
      (ltb max_message_size len
        || (ltb send_buf_size len
            || (not (s.peer_max_message_size == 0) && ltb s.peer_max_message_size len)))
      buffer_too_small
  fail_if (ltb max_send_queue (fragment_count len)) buffer_too_small
  fail_if
      (ltb (max_send_queue - length s.tx.send_queue) (fragment_count len)
        || ltb (send_buf_size - length s.tx.send_buf) len)
      would_block

-- nsctp_send_options; `max_retransmits` is `none` for -1, and below that it is refused.
unfoldable pub send_options : Sctp → ℕ → ℕ → List ℕ → Bool → Option ℕ → Sctp × Outcome (Unit {0})
send_options s stream_id ppid bytes unordered max_retransmits =
    elim (send_checks s (length bytes) max_retransmits) [
      | error e ↦ (s, error e)
      | fault ↦ (s, fault)
      | done u ↦ elim (stream_of s.streams stream_id) [
        | none ↦ (s, error buffer_too_small)
        | some (streams, i) ↦ (
          record s {
            streams = if unordered then streams else take_ssn streams i;
            tx =
                enqueue s.tx stream_id (if unordered then 0 else ssn_of streams i) ppid bytes
                  unordered max_retransmits;
          },
          done tt,
        )
      ]
    ]

-- nsctp_send, with ordered delivery compiled in.
unfoldable pub send : Sctp → ℕ → ℕ → List ℕ → Sctp × Outcome (Unit {0})
send s stream_id ppid bytes = send_options s stream_id ppid bytes false none

-- An entry that has not been sent, or is to be sent again.
abbrev pub is_unsent : SendEntry → Bool
is_unsent e = not e.in_flight && (not e.acked && not e.abandoned)

-- The entry that nsctp_handle_timeout sends again, and the longer timeout.
unfoldable pub retry : Tx → ℕ → ℕ → Tx
retry tx i now_ms =
    let e = entry tx i in
    record tx {
      send_queue = set tx.send_queue i (record e {
        in_flight = false;
        retransmit_count = e.retransmit_count + 1;
        sent_at_ms = now_ms;
      });
      rto_ms = if ltb rto_max_ms (tx.rto_ms * 2) then rto_max_ms else tx.rto_ms * 2;
    }

-- One round of the loop of nsctp_handle_timeout; an error is a failed association.
unfoldable pub expire_entry : Tx → ℕ → ℕ → Outcome Tx
expire_entry tx i now_ms =
    let e = entry tx i in
    if e.in_flight
      && (not e.acked && (not e.abandoned && leb tx.rto_ms (elapsed now_ms e.sent_at_ms)))
    then elim e.max_retransmits [
      | some m ↦ done (if leb m e.retransmit_count then abandon_message tx i else retry tx i now_ms)
      | none ↦
          if leb max_retransmissions e.retransmit_count
          then error protocol_error
          else done (retry tx i now_ms)
    ]
    else done tx

-- The loop from entry `i` on, `n` entries left; what was done before a failure stays.
unfoldable pub expire_from : ℕ → ℕ → ℕ → Tx → Tx × Outcome (Unit {0})
expire_from zero i now_ms tx = (tx, done tt)
expire_from (suc n) i now_ms tx = elim (expire_entry tx i now_ms) [
  | done tx' ↦ expire_from n (i + 1) now_ms tx'
  | error e ↦ (tx, error e)
  | fault ↦ (tx, fault)
]

-- An abandoned entry stands before any that is neither acknowledged nor abandoned.
unfoldable pub forward_due : List SendEntry → Bool
forward_due [] = false
forward_due (e ∷ queue) =
    let later = forward_due queue in
    if not e.acked && not e.abandoned then false else if e.abandoned then true else later

-- The FORWARD TSN timer of nsctp_handle_timeout.
unfoldable pub forward_timer : Tx → ℕ → Tx
forward_timer tx now_ms =
    if leb tx.rto_ms (elapsed now_ms tx.forward_sent_at_ms)
    then record tx { forward_pending = forward_due tx.send_queue || tx.forward_pending }
    else tx

-- `left` of nsctp_next_timeout_ms
unfoldable pub left_of : ℕ → ℕ → ℕ → ℕ
left_of interval now_ms since_ms =
    if leb interval (elapsed now_ms since_ms) then 0 else interval - elapsed now_ms since_ms

abbrev pub least : ℕ → ℕ → ℕ
least left best = if ltb left best then left else best

-- The loop of nsctp_next_timeout_ms; `head` is the first entry of the queue.
unfoldable pub retransmit_deadline : Tx → SendEntry → ℕ → List SendEntry → ℕ → ℕ
retransmit_deadline tx head now_ms [] best = best
retransmit_deadline tx head now_ms (e ∷ queue) best =
    if e.abandoned && not e.acked
    then retransmit_deadline tx head now_ms queue (
        if head.abandoned
        then least (left_of tx.rto_ms now_ms tx.forward_sent_at_ms) best
        else best)
    else retransmit_deadline tx head now_ms queue (
        if not e.in_flight || e.acked
        then best
        else least (left_of tx.rto_ms now_ms e.sent_at_ms) best)

-- nsctp_next_timeout_ms
unfoldable pub next_timeout_ms : Sctp → ℕ → ℕ
next_timeout_ms s now_ms =
    if not (is_established s.state)
    then u32_max
    else (let best = retransmit_deadline s.tx (entry s.tx 0) now_ms s.tx.send_queue u32_max in
        if s.heartbeat_pending
        then best
        else least (left_of heartbeat_interval_ms now_ms s.last_heartbeat_ms) best)
