-- ===== src/Sctp/Incoming.antt =====
-- The chunks that src/nano_sctp.c receives: data, FORWARD TSN, heartbeats, and the dispatch.
pub mod Sound
pub mod Handlers
pub mod Safety
use nanortc.Prelude.{
  Bool, List, Option, Outcome, [], bad_state, buffer_too_small, done, error, fail_if, false, fault,
  get_or, if◌then◌else◌, invalid_param, leb, length, ltb, none, not, parse, protocol_error, read,
  read_u16be, read_u32be, set, slice, some, suc, true, u16, u32, would_block, zero, ℕ, ◌%◌, ◌&&◌,
  ◌*◌, ◌++◌, ◌+◌, ◌-◌, ◌/◌, ◌==◌, ◌>>=◌, ◌>>◌, ◌||◌, ◌∷◌,
}
use nanortc.Sctp.{
  Rx, RxEntry, Sctp, Stream, chunk_abort, chunk_cookie_ack, chunk_cookie_echo, chunk_data,
  chunk_forward_tsn, chunk_heartbeat, chunk_heartbeat_ack, chunk_init, chunk_init_ack, chunk_sack,
  closed, is_begin, is_end, is_established, is_unordered, max_gap_blocks, max_message_size,
  max_recv_gap, pad4, recv_gap_buf_size, sctp_mtu, ssn_le, ssn_lt, stream_of, tsn_le,
}
use nanortc.Sctp.Codec.{Data, encode_heartbeat, parse_data, verify_checksum}
use nanortc.Sctp.Gaps.{encode_sack_with_gaps}
use nanortc.Sctp.Receive.{
  fragments_follow, gap_drain, holds_tsn, no_stream, reclaim, rx_merge, set_slot,
}
use nanortc.Sctp.Transmit.{handle_sack}
use nanortc.Sctp.Assoc.{
  Random, chunk_room, handle_cookie_ack, handle_cookie_echo, handle_init, handle_init_ack, out_full,
  queue_chunk,
}

-- A chunk of nsctp_handle_data_chunk as a slot.
unfoldable pub incoming_of : Data → RxEntry
incoming_of d = record {
  tsn = d.tsn;
  ppid = d.ppid;
  data_offset = 0;
  data_len = length d.payload;
  stream_id = d.stream_id;
  ssn = d.ssn;
  flags = d.flags % 8;
  delivered = false;
  valid = true;
  forwarded = false;
}

-- The last free slot, from slot `i` on.
unfoldable pub free_slot : List RxEntry → ℕ → Option ℕ → Option ℕ
free_slot [] i found = found
free_slot (e ∷ slots) i found = free_slot slots (i + 1) (if e.valid then found else some i)

-- The fragment before the incoming one, if it is there, allows it.
unfoldable pub check_previous : List RxEntry → RxEntry → Outcome (Unit {0})
check_previous [] e = done tt
check_previous (p ∷ slots) e =
    elim (p.valid && (not p.delivered && (not (is_end p.flags) && u32 (p.tsn + 1) == e.tsn))) [
      | false ↦ check_previous slots e
      | true ↦ elim (fragments_follow p e) [
        | false ↦ error protocol_error
        | true ↦ elim (ltb (max_message_size - p.data_len) e.data_len) [
          | true ↦ error buffer_too_small
          | false ↦ check_previous slots e
        ]
      ]
    ]

-- The room for the chunk: a chunk that leaves a gap leaves space for the one that fills it.
unfoldable pub has_room : Rx → Data → Bool
has_room rx d =
    let gap = not (d.tsn == u32 (rx.cumulative_tsn + 1)) in
    let reserve = if gap then sctp_mtu - 28 else 0 in
    let free = recv_gap_buf_size - length rx.recv_gap_buf in
    not (
      (gap && leb (max_recv_gap - 1) rx.recv_gap_count)
      || (ltb free reserve || ltb (free - reserve) (length d.payload)))

-- The chunk goes into slot `i`.
unfoldable pub put_chunk : Rx → ℕ → Data → Rx
put_chunk rx i d =
    gap_drain
      (record (set_slot rx i (record (incoming_of d) { data_offset = length rx.recv_gap_buf })) {
        recv_gap_buf = rx.recv_gap_buf ++ d.payload;
        recv_gap_count = rx.recv_gap_count + 1;
      })

-- nsctp_handle_data_chunk for a TSN beyond the cumulative one that no slot holds.
unfoldable pub store_chunk : Sctp → Data → Sctp × Outcome (Unit {0})
store_chunk s d =
    elim (if is_begin d.flags then done tt else check_previous s.rx.recv_gap (incoming_of d)) [
      | error e ↦ (s, error e)
      | fault ↦ (s, fault)
      | done u ↦ elim (free_slot s.rx.recv_gap 0 none) [
        | none ↦ (s, error would_block)
        | some i ↦
            if not (has_room s.rx d)
            then (s, error would_block)
            else elim (stream_of s.streams d.stream_id) [
              | none ↦ (s, error protocol_error)
              | some (streams, stream) ↦
                  (let (rx, r) = rx_merge (max_recv_gap + 1) (put_chunk s.rx i d) in
                    (record s { streams = streams; rx = rx }, r))
            ]
      ]
    ]

-- nsctp_handle_data_chunk
unfoldable pub handle_data_chunk : Sctp → List ℕ → Sctp × Outcome (Unit {0})
handle_data_chunk s chunk =
    if not (is_established s.state) then (s, error bad_state) else elim (parse_data chunk) [
      | fault ↦ (s, fault)
      | error e ↦ (s, error parse)
      | done d ↦
          if ltb max_message_size (length d.payload)
          then (s, error buffer_too_small)
          else (let s1 = record s { rx = record s.rx { sack_needed = true } } in
              if tsn_le d.tsn s1.rx.cumulative_tsn
              then (s1, done tt)
              else (let s2 = record s1 { rx = reclaim s1.rx } in
                  if holds_tsn s2.rx.recv_gap d.tsn then (s2, done tt) else store_chunk s2 d))
    ]

-- nsctp_handle_heartbeat
unfoldable pub handle_heartbeat : Sctp → List ℕ → Sctp × Outcome (Unit {0})
handle_heartbeat s chunk =
    if ltb (length chunk) 8 then (s, error parse) else elim (read_u16be chunk 6) [
      | error e ↦ (s, error e)
      | fault ↦ (s, fault)
      | done param_len ↦
          (let info_len = if leb 4 param_len then param_len - 4 else 0 in
            if ltb (length chunk) (8 + info_len)
            then (s, error parse)
            else if out_full s
            then (s, error would_block)
            else if ltb chunk_room (pad4 (8 + info_len))
            then (s, error buffer_too_small)
            else elim (slice chunk 8 info_len) [
              | error e ↦ (s, error e)
              | fault ↦ (s, fault)
              | done info ↦ (
                queue_chunk s s.remote_vtag (encode_heartbeat chunk_heartbeat_ack info chunk_room),
                done tt,
              )
            ])
    ]

-- Incomplete messages up to the new TSN count as delivered.
unfoldable pub discard_stranded : ℕ → List RxEntry → List RxEntry
discard_stranded new_tsn [] = []
discard_stranded new_tsn (e ∷ slots) =
    (if e.valid && (tsn_le e.tsn new_tsn && not (e.flags % 4 == 3))
      then record e { delivered = true }
      else e)
    ∷ discard_stranded new_tsn slots

-- The ordered messages of the stream up to `ssn` may be delivered.
unfoldable pub mark_forwarded : ℕ → ℕ → List RxEntry → List RxEntry
mark_forwarded sid ssn [] = []
mark_forwarded sid ssn (e ∷ slots) =
    (if e.valid && (e.stream_id == sid && (not (is_unordered e.flags) && ssn_le e.ssn ssn))
      then record e { forwarded = true }
      else e)
    ∷ mark_forwarded sid ssn slots

-- `recv_ssn[stream] = ssn + 1u`
unfoldable pub skip_ssn : List Stream → ℕ → ℕ → List Stream
skip_ssn streams i ssn =
    let s = get_or streams i no_stream in set streams i (record s { recv_ssn = u16 (ssn + 1) })

unfoldable pub read_pair : List ℕ → ℕ → Outcome (ℕ × ℕ)
read_pair chunk pos = do
  sid ← read_u16be chunk pos
  ssn ← read_u16be chunk (pos + 2)
  done (sid, ssn)

-- The loop over the streams of a FORWARD TSN, `n` of them left from `pos` on.
unfoldable pub skip_streams : ℕ → List ℕ → ℕ → Sctp → Sctp × Outcome (Unit {0})
skip_streams zero chunk pos s = (s, done tt)
skip_streams (suc n) chunk pos s = elim (read_pair chunk pos) [
  | error e ↦ (s, error e)
  | fault ↦ (s, fault)
  | done (sid, ssn) ↦ elim (stream_of s.streams sid) [
    | none ↦ (s, error protocol_error)
    | some (streams, i) ↦ (elim (ssn_lt ssn (get_or streams i no_stream).recv_ssn) [
      | true ↦ skip_streams n chunk (pos + 4) (record s { streams = streams })
      | false ↦ skip_streams n chunk (pos + 4) (record s {
        streams = skip_ssn streams i ssn;
        rx = record s.rx { recv_gap = mark_forwarded sid ssn s.rx.recv_gap };
      })
    ])
  ]
]

-- nsctp_handle_forward_tsn for a TSN beyond the cumulative one.
unfoldable pub forward_to : Sctp → ℕ → List ℕ → Sctp × Outcome (Unit {0})
forward_to s new_tsn chunk =
    let (rx, r) = rx_merge (max_recv_gap + 1) (record s.rx { cumulative_tsn = new_tsn }) in
    elim r [
      | error e ↦ (record s { rx = rx }, error e)
      | fault ↦ (record s { rx = rx }, fault)
      | done u ↦
          (let (s', r') =
              skip_streams ((length chunk - 8) / 4) chunk 8
                (record s { rx = record rx { recv_gap = discard_stranded new_tsn rx.recv_gap } }) in
            elim r' [
              | error e ↦ (s', error e)
              | fault ↦ (s', fault)
              | done u' ↦ (record s' { rx = gap_drain s'.rx }, done tt)
            ])
    ]

-- nsctp_handle_forward_tsn
unfoldable pub handle_forward_tsn : Sctp → List ℕ → Sctp × Outcome (Unit {0})
handle_forward_tsn s chunk =
    if ltb (length chunk) 8 || not ((length chunk - 8) % 4 == 0)
    then (s, error parse)
    else if not s.peer_forward_tsn
    then (s, error protocol_error)
    else elim (read_u32be chunk 4) [
      | error e ↦ (s, error e)
      | fault ↦ (s, fault)
      | done new_tsn ↦
          (let s' = record s { rx = record s.rx { sack_needed = true } } in
            if tsn_le new_tsn s'.rx.cumulative_tsn
            then (s', done tt)
            else forward_to s' new_tsn chunk)
    ]

-- nsctp_queue_sack
unfoldable pub queue_sack : Sctp → ℕ → Sctp × Outcome (Unit {0})
queue_sack s cap =
    let chunk =
      encode_sack_with_gaps s.rx (recv_gap_buf_size - length s.rx.recv_gap_buf)
        (16 + 4 * max_gap_blocks) in
    if out_full s
    then (s, error would_block)
    else if length chunk == 0 || ltb cap (12 + length chunk)
    then (s, error buffer_too_small)
    else (let s' = queue_chunk s s.remote_vtag chunk in
        (record s' { rx = record s'.rx { sack_needed = false } }, done tt))

-- nsctp_handle_sack_chunk on the association.
unfoldable pub handle_sack_chunk : Sctp → List ℕ → Sctp × Outcome (Unit {0})
handle_sack_chunk s chunk = elim (handle_sack s.tx chunk) [
  | done tx ↦ (record s { tx = tx }, done tt)
  | error e ↦ (s, error e)
  | fault ↦ (s, fault)
]

-- The chunks whose answer needs room in the output queue.
abbrev pub needs_room : ℕ → Bool
needs_room ctype =
    ctype == chunk_init
    || (ctype == chunk_init_ack || (ctype == chunk_cookie_echo || ctype == chunk_heartbeat))

-- The `switch` of nsctp_handle_data; `chunk` is the `clen` bytes of the chunk.
unfoldable pub dispatch : Random → Sctp → ℕ → List ℕ → Sctp × Outcome (Unit {0})
dispatch random s ctype chunk =
    if ctype == chunk_init
    then handle_init random s chunk
    else if ctype == chunk_init_ack
    then handle_init_ack s chunk
    else if ctype == chunk_cookie_echo
    then handle_cookie_echo s chunk
    else if ctype == chunk_cookie_ack
    then handle_cookie_ack s
    else if ctype == chunk_data
    then handle_data_chunk s chunk
    else if ctype == chunk_sack
    then handle_sack_chunk s chunk
    else if ctype == chunk_heartbeat
    then handle_heartbeat s chunk
    else if ctype == chunk_heartbeat_ack
    then (record s { heartbeat_pending = false }, done tt)
    else if ctype == chunk_forward_tsn
    then handle_forward_tsn s chunk
    else if ctype == chunk_abort
    then (record s { state = closed }, done tt)
    else (s, done tt)

-- `rc` lets the loop of nsctp_handle_data go on.
unfoldable pub goes_on : ℕ → Outcome (Unit {0}) → Bool
goes_on ctype (done u) = true
goes_on ctype (error would_block) = ctype == chunk_data
goes_on ctype (error _) = false
goes_on ctype fault = false

-- The chunk at `pos`: its type and bytes.
unfoldable pub chunk_at : List ℕ → ℕ → Outcome (ℕ × List ℕ)
chunk_at bytes pos = do
  ctype ← read bytes pos
  clen ← read_u16be bytes (pos + 2)
  fail_if (ltb clen 4 || ltb (length bytes) (pos + clen)) parse
  chunk ← slice bytes pos clen
  done (ctype, chunk)

-- The loop of nsctp_handle_data, with fuel: a chunk has four bytes at least.
unfoldable pub chunks_from : ℕ → Random → Sctp → List ℕ → ℕ → Sctp × Outcome (Unit {0})
chunks_from zero random s bytes pos = (s, fault)
chunks_from (suc fuel) random s bytes pos = elim (leb (pos + 4) (length bytes)) [
  | false ↦ (s, done tt)
  | true ↦ elim (chunk_at bytes pos) [
    | error e ↦ (s, error e)
    | fault ↦ (s, fault)
    | done (ctype, chunk) ↦ elim (needs_room ctype && out_full s) [
      | true ↦ (s, error would_block)
      | false ↦
          (let (s', r) = dispatch random s ctype chunk in
            elim (goes_on ctype r) [
              | true ↦ chunks_from fuel random s' bytes (pos + pad4 (length chunk))
              | false ↦ (s', r)
            ])
    ]
  ]
]

-- The end of nsctp_handle_data: a SACK is queued if one is needed and there is room.
unfoldable pub flush_sack : Sctp → Sctp × Outcome (Unit {0})
flush_sack s = if s.rx.sack_needed && not (out_full s) then queue_sack s sctp_mtu else (s, done tt)

-- nsctp_handle_data
unfoldable pub handle_data : Random → Sctp → List ℕ → Sctp × Outcome (Unit {0})
handle_data random s bytes =
    if ltb (length bytes) 12 then (s, error invalid_param) else elim (verify_checksum bytes) [
      | error e ↦ (s, error e)
      | fault ↦ (s, fault)
      | done u ↦
          (let (s', r) = chunks_from (length bytes) random s bytes 12 in
            elim r [ done u' ↦ flush_sack s' | error e ↦ (s', error e) | fault ↦ (s', fault) ])
    ]
