-- ===== src/Sctp/Output.antt =====
-- What src/nano_sctp.c sends, and its timers.
use nanortc.Prelude.{
  Bool, List, Option, Outcome, [], buffer_too_small, crypto_failed, done, error, false, fault,
  if◌then◌else◌, length, ltb, no_data, none, not, set, slice, some, suc, true, write_u16be, ℕ, ◌&&◌,
  ◌*◌, ◌++◌, ◌+◌, ◌-◌, ◌==◌, ◌>>=◌, ◌||◌, ◌∷◌,
}
use nanortc.Clock.{elapsed}
use nanortc.Sctp.{
  Sctp, SendEntry, chunk_heartbeat, closed, heartbeat_interval_ms, is_established, is_unordered,
  pad4,
}
use nanortc.Sctp.Codec.{
  encode_data, encode_forward_tsn, encode_header, encode_heartbeat, finalize_checksum,
}
use nanortc.Sctp.Transmit.{entry, expire_from, forward_timer, is_unsent}
use nanortc.Sctp.Assoc.{Random, chunk_room, out_full, queue_chunk}
use nanortc.Sctp.Incoming.{queue_sack}

-- `ids` and `ssns` of nsctp_forward_output: the last number of each stream, in order of appearance.
unfoldable pub note_stream : List (ℕ × ℕ) → ℕ → ℕ → List (ℕ × ℕ)
note_stream [] sid ssn = (sid, ssn) ∷ []
note_stream (p ∷ pairs) sid ssn =
    let later = note_stream pairs sid ssn in if p.0 == sid then (sid, ssn) ∷ pairs else p ∷ later

-- What the loop of nsctp_forward_output collects.
pub record Skipped : Type 0 where
  pub advanced : ℕ
  pub skipped : Bool
  pub pairs : List (ℕ × ℕ)

unfoldable pub collect_skipped : List SendEntry → Skipped → Skipped
collect_skipped [] k = k
collect_skipped (e ∷ queue) k = elim (not e.acked && not e.abandoned) [
  | true ↦ k
  | false ↦ collect_skipped queue (
      if not e.abandoned then record k { advanced = e.tsn } else record {
        advanced = e.tsn;
        skipped = true;
        pairs = if is_unordered e.flags then k.pairs else note_stream k.pairs e.stream_id e.ssn;
      })
]

unfoldable pub encode_pairs : List (ℕ × ℕ) → List ℕ
encode_pairs [] = []
encode_pairs (p ∷ pairs) = write_u16be p.0 ++ (write_u16be p.1 ++ encode_pairs pairs)

-- nsctp_forward_output: the packet.
unfoldable pub forward_output : Sctp → ℕ → Sctp × Outcome (List ℕ)
forward_output s cap =
    let k =
      collect_skipped s.tx.send_queue (record { advanced = 0; skipped = false; pairs = [] }) in
    let len = 20 + 4 * length k.pairs in
    if not k.skipped
    then (record s { tx = record s.tx { forward_pending = false } }, error no_data)
    else if ltb cap len
    then (s, error buffer_too_small)
    else (
      record s { tx = record s.tx { forward_pending = false; forward_sent_at_ms = s.now_ms } },
      done (
          finalize_checksum (
            encode_header s.local_port s.remote_port s.remote_vtag
            ++ (encode_forward_tsn k.advanced (len - 12) ++ encode_pairs k.pairs))),
    )

-- The first entry that waits to be sent.
unfoldable pub first_unsent : List SendEntry → Option ℕ
first_unsent [] = none
first_unsent (e ∷ queue) =
    let later = first_unsent queue in
    if is_unsent e then some 0 else elim later [ none ↦ none | some i ↦ some (suc i) ]

-- The packet of a queue entry.
unfoldable pub data_packet : Sctp → SendEntry → Outcome (List ℕ)
data_packet s e = slice s.tx.send_buf e.data_offset e.data_len >>= λ payload. done (
    finalize_checksum (
      encode_header s.local_port s.remote_port s.remote_vtag
      ++ encode_data
          (record {
            tsn = e.tsn;
            stream_id = e.stream_id;
            ssn = e.ssn;
            ppid = e.ppid;
            flags = e.flags;
            payload = payload;
          })
          chunk_room))

abbrev pub mark_sent : Sctp → ℕ → Sctp
mark_sent s i = record s {
  tx = record s.tx {
    send_queue =
        set s.tx.send_queue i (record (entry s.tx i) { in_flight = true; sent_at_ms = s.now_ms });
  };
}

-- The last part of nsctp_poll_output: a chunk of the queue.
unfoldable pub poll_data : Sctp → ℕ → Sctp × Outcome (List ℕ)
poll_data s buf_len =
    if not (is_established s.state)
    then (s, error no_data)
    else elim (first_unsent s.tx.send_queue) [
      | none ↦ (s, error no_data)
      | some i ↦
          if ltb buf_len (12 + pad4 (16 + (entry s.tx i).data_len))
          then (s, error buffer_too_small)
          else elim (data_packet s (entry s.tx i)) [
            | done packet ↦ (mark_sent s i, done packet)
            | error e ↦ (s, error e)
            | fault ↦ (s, fault)
          ]
    ]

-- nsctp_poll_output from the output queue on.
unfoldable pub poll_queue : Sctp → ℕ → Sctp × Outcome (List ℕ)
poll_queue s buf_len = elim s.out_queue [
  | packet ∷ queue ↦
      if ltb buf_len (length packet)
      then (s, error buffer_too_small)
      else (record s { out_queue = queue }, done packet)
  | [] ↦
      if s.tx.forward_pending
      then (let (s', r) = forward_output s buf_len in
          elim r [
            | done packet ↦ (s', done packet)
            | error no_data ↦ poll_data s' buf_len
            | error e ↦ (s', error e)
            | fault ↦ (s', fault)
          ])
      else poll_data s buf_len
]

-- nsctp_poll_output
unfoldable pub poll_output : Sctp → ℕ → Sctp × Outcome (List ℕ)
poll_output s buf_len =
    if s.rx.sack_needed && length s.out_queue == 0
    then (let (s', r) = queue_sack s buf_len in
        elim r [ done u ↦ poll_queue s' buf_len | error e ↦ (s', error e) | fault ↦ (s', fault) ])
    else poll_queue s buf_len

-- nsctp_has_pending_output
unfoldable pub has_pending_output : Sctp → Bool
has_pending_output s =
    s.tx.forward_pending
    || (s.rx.sack_needed
        || (not (length s.out_queue == 0)
            || (is_established s.state && elim (first_unsent s.tx.send_queue) as (λ _. Bool) [
              | none ↦ false
              | some i ↦ true
            ])))

-- The heartbeat of nsctp_handle_timeout.
unfoldable pub beat : Random → Sctp → ℕ → Sctp × Outcome (Unit {0})
beat random s now_ms =
    if s.heartbeat_pending
      || (ltb (elapsed now_ms s.last_heartbeat_ms) heartbeat_interval_ms || out_full s)
    then (s, done tt)
    else elim (random 0 8) [
      | none ↦ (s, error crypto_failed)
      | some nonce ↦ (
        record (queue_chunk s s.remote_vtag (encode_heartbeat chunk_heartbeat nonce chunk_room)) {
          heartbeat_nonce = nonce;
          heartbeat_pending = true;
          last_heartbeat_ms = now_ms;
        },
        done tt,
      )
    ]

-- nsctp_handle_timeout
unfoldable pub handle_timeout : Random → Sctp → ℕ → Sctp × Outcome (Unit {0})
handle_timeout random s now_ms =
    let s' = record s { now_ms = now_ms } in
    if not (is_established s.state)
    then (s', done tt)
    else (let (tx, r) = expire_from (length s.tx.send_queue) 0 now_ms s.tx in
        elim r [
          | error e ↦ (record s' { tx = tx; state = closed; closed_due_to_failure = true }, error e)
          | fault ↦ (record s' { tx = tx }, fault)
          | done u ↦ beat random (record s' { tx = forward_timer tx now_ms }) now_ms
        ])
