-- ===== src/Sctp/Receive.antt =====
-- The receive side of src/nano_sctp.c: one table of received chunks and the pool of their bytes.
pub mod Move
pub mod Merge
pub mod Table
pub mod Deliver
use nanortc.Prelude.{
  Bool, List, Option, Outcome, [], buffer_too_small, done, drop, error, false, fault, get_or,
  if◌then◌else◌, leb, length, ltb, none, not, protocol_error, set, some, suc, take, true, u16, u32,
  would_block, zero, ℕ, ◌%◌, ◌&&◌, ◌++◌, ◌+◌, ◌-◌, ◌/◌, ◌==◌, ◌>>=◌, ◌||◌, ◌∷◌,
}
use nanortc.Sctp.{
  Rx, RxEntry, Sctp, Stream, is_begin, is_end, is_unordered, max_message_size, max_recv_gap, no_rx,
  ssn_lt, stream_of, tsn_le,
}

abbrev pub slot : Rx → ℕ → RxEntry
slot rx i = get_or rx.recv_gap i no_rx

abbrev pub set_slot : Rx → ℕ → RxEntry → Rx
set_slot rx i e = record rx { recv_gap = set rx.recv_gap i e }

-- The offsets behind `off` after `n` bytes have been taken out there.
unfoldable pub close_up : ℕ → ℕ → List RxEntry → List RxEntry
close_up off n [] = []
close_up off n (e ∷ slots) =
    (if e.valid && ltb off e.data_offset then record e { data_offset = e.data_offset - n } else e)
    ∷ close_up off n slots

-- The bytes of a delivered slot leave the pool.
unfoldable pub free_bytes : Rx → ℕ → Rx
free_bytes rx i =
    let e = slot rx i in
    if e.data_len == 0 then rx else record rx {
      recv_gap_buf =
          take e.data_offset rx.recv_gap_buf ++ drop (e.data_offset + e.data_len) rx.recv_gap_buf;
      sack_needed = true;
      recv_gap = set (close_up e.data_offset e.data_len rx.recv_gap) i (record e { data_len = 0 });
    }

-- One round of nsctp_rx_reclaim.
unfoldable pub reclaim_slot : Rx → ℕ → Rx
reclaim_slot rx i =
    let rx' = free_bytes rx i in
    if (slot rx i).valid && (slot rx i).delivered
    then if tsn_le (slot rx' i).tsn rx'.cumulative_tsn
      then record (set_slot rx' i (record (slot rx' i) { valid = false })) {
        recv_gap_count = rx'.recv_gap_count - 1;
      }
      else rx'
    else rx

-- nsctp_rx_reclaim from slot `i` on, `n` slots left.
unfoldable pub reclaim_from : Rx → ℕ → ℕ → Rx
reclaim_from rx zero i = rx
reclaim_from rx (suc n) i = reclaim_from (reclaim_slot rx i) n (i + 1)

abbrev pub reclaim : Rx → Rx
reclaim rx = reclaim_from rx max_recv_gap 0

-- A valid slot holds this TSN.
unfoldable pub holds_tsn : List RxEntry → ℕ → Bool
holds_tsn [] tsn = false
holds_tsn (e ∷ slots) tsn =
    let later = holds_tsn slots tsn in if e.valid && e.tsn == tsn then true else later

-- The loop of nsctp_gap_drain. Each round passes the TSN of another slot, so one round more than
-- there are slots is enough.
unfoldable pub advance : ℕ → List RxEntry → ℕ → ℕ
advance zero slots tsn = tsn
advance (suc fuel) slots tsn = elim (holds_tsn slots (u32 (tsn + 1))) [
  | true ↦ advance fuel slots (u32 (tsn + 1))
  | false ↦ tsn
]

-- nsctp_gap_drain
unfoldable pub gap_drain : Rx → Rx
gap_drain rx =
    reclaim (record rx {
      cumulative_tsn = advance (length rx.recv_gap + 1) rx.recv_gap rx.cumulative_tsn;
    })

-- One round of nsctp_reverse, which swaps two bytes of the `n` at `p`.
unfoldable pub swap_bytes : List ℕ → ℕ → ℕ → ℕ → List ℕ
swap_bytes buf p n i =
    set (set buf (p + i) (get_or buf (p + (n - 1 - i)) 0)) (p + (n - 1 - i)) (get_or buf (p + i) 0)

-- nsctp_reverse from round `i` on, `k` rounds left.
unfoldable pub reverse_from : List ℕ → ℕ → ℕ → ℕ → ℕ → List ℕ
reverse_from buf p n zero i = buf
reverse_from buf p n (suc k) i = reverse_from (swap_bytes buf p n i) p n k (i + 1)

unfoldable pub reverse : List ℕ → ℕ → ℕ → List ℕ
reverse buf p n = reverse_from buf p n (n / 2) 0

-- The three reversals of nsctp_rx_move.
unfoldable pub move_bytes : List ℕ → ℕ → ℕ → ℕ → List ℕ
move_bytes buf pos off n = reverse (reverse (reverse buf pos (off - pos)) off n) pos (off - pos + n)

-- The offsets from `pos` up to `off` after `n` bytes have come in before them.
unfoldable pub make_room : ℕ → ℕ → ℕ → List RxEntry → List RxEntry
make_room pos off n [] = []
make_room pos off n (e ∷ slots) =
    (if e.valid && (leb pos e.data_offset && ltb e.data_offset off)
      then record e { data_offset = e.data_offset + n }
      else e)
    ∷ make_room pos off n slots

-- nsctp_rx_move. The slot that moves lies at `off`, outside the offsets that shift.
unfoldable pub rx_move : Rx → ℕ → ℕ → Rx
rx_move rx i pos =
    let e = slot rx i in
    if e.data_offset == pos || e.data_len == 0 then rx else record rx {
      recv_gap_buf = move_bytes rx.recv_gap_buf pos e.data_offset e.data_len;
      recv_gap =
          set (make_room pos e.data_offset e.data_len rx.recv_gap) i
            (record e { data_offset = pos });
    }

-- nsctp_fragments_follow
unfoldable pub fragments_follow : RxEntry → RxEntry → Bool
fragments_follow a b =
    b.tsn == u32 (a.tsn + 1)
    && (a.stream_id == b.stream_id
        && (a.ssn == b.ssn
            && (a.ppid == b.ppid
                && (a.flags / 4 % 2 == b.flags / 4 % 2
                    && (not (is_end a.flags) && not (is_begin b.flags))))))

-- The inner search of nsctp_rx_merge from slot `j` on, `n` slots left.
unfoldable pub find_next : Rx → RxEntry → ℕ → ℕ → Option ℕ
find_next rx a zero j = none
find_next rx a (suc n) j =
    let later = find_next rx a n (j + 1) in
    let b = slot rx j in
    if b.valid && (not b.delivered && (tsn_le b.tsn rx.cumulative_tsn && fragments_follow a b))
    then some j
    else later

-- The two searches: a slot and the one that follows it.
unfoldable pub find_pair : Rx → ℕ → ℕ → Option (ℕ × ℕ)
find_pair rx zero i = none
find_pair rx (suc n) i =
    let later = find_pair rx n (i + 1) in
    let a = slot rx i in
    if a.valid && not a.delivered
    then elim (find_next rx a max_recv_gap 0) [ some j ↦ some (i, j) | none ↦ later ]
    else later

-- The merge of slot `j` into slot `i`.
unfoldable pub merge_pair : Rx → ℕ → ℕ → Rx
merge_pair rx i j =
    let rx1 = rx_move rx i 0 in
    let rx2 = rx_move rx1 j (slot rx1 i).data_len in
    let a = slot rx2 i in
    let b = slot rx2 j in
    let rx3 = set_slot rx2 i (record a {
      data_len = a.data_len + b.data_len;
      tsn = b.tsn;
      flags = a.flags + (if is_end b.flags && not (is_end a.flags) then 1 else 0);
      forwarded = a.forwarded || b.forwarded;
    }) in
    record (set_slot rx3 j (record b { valid = false })) { recv_gap_count = rx3.recv_gap_count - 1 }

-- nsctp_rx_merge: each round frees a slot.
unfoldable pub rx_merge : ℕ → Rx → Rx × Outcome (Unit {0})
rx_merge zero rx = (rx, fault)
rx_merge (suc fuel) rx = elim (find_pair rx max_recv_gap 0) [
  | none ↦ (rx, done tt)
  | some (i, j) ↦ elim (ltb max_message_size ((slot rx i).data_len + (slot rx j).data_len)) [
    | true ↦ (rx, error buffer_too_small)
    | false ↦ rx_merge fuel (merge_pair rx i j)
  ]
]

-- The slot that holds a TSN and is not delivered, from slot `j` on.
unfoldable pub find_tsn : Rx → ℕ → ℕ → ℕ → Option ℕ
find_tsn rx tsn zero j = none
find_tsn rx tsn (suc n) j =
    let later = find_tsn rx tsn n (j + 1) in
    let e = slot rx j in if e.valid && (not e.delivered && e.tsn == tsn) then some j else later

-- Slot `j` goes on from the part before it, if there is one.
unfoldable pub follows_last : Rx → Option ℕ → ℕ → Bool
follows_last rx none j = true
follows_last rx (some p) j = fragments_follow (slot rx p) (slot rx j)

-- The parts of a message that nsctp_poll_delivery collects: `none` if it is not complete.
unfoldable pub collect : ℕ → Rx → ℕ → Option ℕ → ℕ → Outcome (Option (List ℕ × ℕ))
collect zero rx tsn last total = done none
collect (suc k) rx tsn last total = elim (find_tsn rx tsn max_recv_gap 0) [
  | none ↦ done none
  | some j ↦ elim (follows_last rx last j) [
    | false ↦ error protocol_error
    | true ↦ elim (ltb (max_message_size - total) (slot rx j).data_len) [
      | true ↦ error buffer_too_small
      | false ↦ elim (is_end (slot rx j).flags) [
        | true ↦ done (some (j ∷ [], total + (slot rx j).data_len))
        | false ↦ collect k rx (u32 (tsn + 1)) (some j) (total + (slot rx j).data_len) >>= λ r.
            done (elim r [ none ↦ none | some (parts, size) ↦ some (j ∷ parts, size) ])
      ]
    ]
  ]
]

-- The parts are moved to the front of the pool and marked.
unfoldable pub gather : Rx → List ℕ → ℕ → Rx
gather rx [] pos = rx
gather rx (j ∷ parts) pos =
    let rx' = rx_move rx j pos in
    let e = slot rx' j in
    gather (set_slot rx' j (record e { delivered = true })) parts (pos + e.data_len)

-- A forwarded message of the stream with an earlier number is waiting.
unfoldable pub has_earlier : List RxEntry → RxEntry → Bool
has_earlier [] e = false
has_earlier (s ∷ slots) e =
    let later = has_earlier slots e in
    if not (is_unordered e.flags)
      && (s.valid
          && (not s.delivered
              && (s.stream_id == e.stream_id && (s.forwarded && ssn_lt s.ssn e.ssn))))
    then true
    else later

-- nano_sctp_message_t
pub record Message : Type 0 where
  pub bytes : List ℕ
  pub ppid : ℕ
  pub stream_id : ℕ

abbrev pub no_stream : Stream
no_stream = record { stream_id = 0; next_ssn = 0; recv_ssn = 0 }

-- `recv_ssn[stream]++`
unfoldable pub bump_ssn : List Stream → ℕ → List Stream
bump_ssn streams i =
    let s = get_or streams i no_stream in
    set streams i (record s { recv_ssn = u16 (s.recv_ssn + 1) })

-- The message in slot `i`, whose stream is `stream`, if it is complete.
unfoldable pub deliver : Rx → List Stream → ℕ → ℕ → Outcome (Option (Rx × List Stream × Message))
deliver rx streams stream i =
    let e = slot rx i in
    collect max_recv_gap rx e.tsn none 0 >>= λ r. elim r [
      | none ↦ done none
      | some (parts, size) ↦
          (let rx' = gather rx parts 0 in
            done (
              some (
                rx',
                if not (is_unordered e.flags) && not e.forwarded
                    then bump_ssn streams stream
                    else streams,
                record {
                  bytes = take size rx'.recv_gap_buf;
                  ppid = (slot rx' i).ppid;
                  stream_id = (slot rx' i).stream_id;
                },
              )))
    ]

-- The tests of nsctp_poll_delivery that need the stream.
unfoldable pub in_turn : Rx → List Stream → ℕ → RxEntry → Bool
in_turn rx streams stream e =
    (is_unordered e.flags || (e.forwarded || e.ssn == (get_or streams stream no_stream).recv_ssn))
    && not (has_earlier rx.recv_gap e)

-- The loop of nsctp_poll_delivery from slot `i` on, `n` slots left.
unfoldable pub poll_from : Rx → List Stream → ℕ → ℕ → Rx × List Stream × Outcome Message
poll_from rx streams zero i = (rx, streams, error would_block)
poll_from rx streams (suc n) i =
    let e = slot rx i in
    elim (e.valid && (not e.delivered && is_begin e.flags)) [
      | false ↦ poll_from rx streams n (i + 1)
      | true ↦ elim (stream_of streams e.stream_id) [
        | none ↦ poll_from rx streams n (i + 1)
        | some (streams', stream) ↦ elim (in_turn rx streams' stream e) [
          | false ↦ poll_from rx streams' n (i + 1)
          | true ↦ elim (deliver rx streams' stream i) [
            | done (some (rx', streams'', m)) ↦ (rx', streams'', done m)
            | done none ↦ poll_from rx streams' n (i + 1)
            | error err ↦ (rx, streams', error err)
            | fault ↦ (rx, streams', fault)
          ]
        ]
      ]
    ]

-- nsctp_poll_delivery
unfoldable pub poll_delivery : Sctp → Sctp × Outcome Message
poll_delivery s =
    let (rx, streams, r) = poll_from (reclaim s.rx) s.streams max_recv_gap 0 in
    (record s { rx = rx; streams = streams }, r)
