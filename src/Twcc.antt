-- ===== src/Twcc.antt =====
-- src/nano_twcc.c: transport-wide congestion control feedback.
-- A byte's fields are taken by `/` and `%`.
pub mod Chunks
pub mod Feedback
mod Tests
use nanortc.Prelude.{
  List, Outcome, [], done, error, fail_if, false, fault, if◌then◌else◌, length, ltb, not, parse,
  read, read_u16be, read_u32be, suc, true, u16, zero, ℕ, ◌%◌, ◌*◌, ◌++◌, ◌+◌, ◌-◌, ◌/◌, ◌==◌, ◌>>=◌,
  ◌>>◌, ◌^◌, ◌||◌, ◌∷◌,
}

-- TWCC_FMT, NANORTC_TWCC_MAX_PACKETS_PER_FB, RTCP_RTPFB, RTCP_VERSION
abbrev pub twcc_fmt : ℕ
twcc_fmt = 15

abbrev pub max_packets : ℕ
max_packets = 128

abbrev pub rtpfb_type : ℕ
rtpfb_type = 205

abbrev pub version : ℕ
version = 2

-- The four values of nano_twcc_status_t.
abbrev pub not_received : ℕ
not_received = 0

abbrev pub small_delta : ℕ
small_delta = 1

abbrev pub large_delta : ℕ
large_delta = 2

abbrev pub reserved : ℕ
reserved = 3

-- A signed number of microseconds.
pub data Micros : Type 0 where
  plus minus : ℕ → Micros

-- nano_twcc_summary_t
pub record Summary : Type 0 where
  pub sender_ssrc : ℕ
  pub media_ssrc : ℕ
  pub base_seq : ℕ
  pub packet_status_count : ℕ
  pub reference_time_us : Micros
  pub fb_pkt_count : ℕ
  pub received_count : ℕ

-- The loop of a run-length chunk, `n` rounds left; `received` is `*received_count`.
unfoldable pub repeat_symbol : ℕ → ℕ → ℕ → List ℕ × ℕ
repeat_symbol zero symbol received = ([], received)
repeat_symbol (suc n) symbol received =
    let counted = if symbol == not_received then received else u16 (received + 1) in
    let (symbols, r) = repeat_symbol n symbol counted in (symbol ∷ symbols, r)

-- A run of one status, cut to the packets that are left: the statuses and `*received_count`.
unfoldable pub run_symbols : ℕ → ℕ → ℕ → Outcome (List ℕ × ℕ)
run_symbols chunk remaining received =
    let run = chunk % 2 ^ 13 in
    let symbol = chunk / 2 ^ 13 % 4 in
    if run == 0 || symbol == reserved
    then error parse
    else done (repeat_symbol (if ltb remaining run then remaining else run) symbol received)

-- The symbols of one bit, the highest first, `k` of them left in the chunk.
unfoldable pub bit_symbols : ℕ → ℕ → ℕ → ℕ → List ℕ × ℕ
bit_symbols chunk zero remaining received = ([], received)
bit_symbols chunk (suc k) zero received = ([], received)
bit_symbols chunk (suc k) (suc remaining) received =
    let bit = chunk / 2 ^ k % 2 in
    let symbol = if bit == 0 then not_received else small_delta in
    let counted = if bit == 0 then received else u16 (received + 1) in
    let (symbols, r) = bit_symbols chunk k remaining counted in (symbol ∷ symbols, r)

-- The symbols of two bits.
unfoldable pub pair_symbols : ℕ → ℕ → ℕ → ℕ → Outcome (List ℕ × ℕ)
pair_symbols chunk zero remaining received = done ([], received)
pair_symbols chunk (suc k) zero received = done ([], received)
pair_symbols chunk (suc k) (suc remaining) received =
    let symbol = chunk / 4 ^ k % 4 in
    let counted = if symbol == not_received then received else u16 (received + 1) in
    fail_if (symbol == reserved) parse
    >> (pair_symbols chunk k remaining counted >>= λ rest. done (symbol ∷ rest.0, rest.1))

-- The statuses of one chunk: TWCC_CHUNK_TYPE_MASK and TWCC_STATUS_VEC_SYMSZ_BIT choose the kind.
unfoldable pub chunk_symbols : ℕ → ℕ → ℕ → Outcome (List ℕ × ℕ)
chunk_symbols chunk remaining received =
    if chunk / 2 ^ 15 % 2 == 0
    then run_symbols chunk remaining received
    else if chunk / 2 ^ 14 % 2 == 0
    then done (bit_symbols chunk 14 remaining received)
    else pair_symbols chunk 7 remaining received

-- parse_chunks from `off` on, with fuel: the statuses, the new offset and `*received_count`.
unfoldable pub parse_chunks : ℕ → List ℕ → ℕ → ℕ → ℕ → ℕ → Outcome (List ℕ × ℕ × ℕ)
parse_chunks zero bytes pkt_size off remaining received = fault
parse_chunks (suc fuel) bytes pkt_size off remaining received = elim (remaining == 0) [
  | true ↦ done ([], off, received)
  | false ↦ elim (ltb pkt_size (off + 2)) [
    | true ↦ error parse
    | false ↦ read_u16be bytes off >>= λ chunk. chunk_symbols chunk remaining received >>= λ c.
        parse_chunks fuel bytes pkt_size (off + 2) (remaining - length c.0) c.1 >>= λ r.
        done (c.0 ++ r.0, r.1, r.2)
  ]
]

-- What the callback is told of a packet.
pub record Report : Type 0 where
  pub seq : ℕ
  pub status : ℕ
  pub delta_us : Micros

-- A large delta: two's complement of 16 bits, in units of 250 us.
unfoldable pub signed_delta : ℕ → Micros
signed_delta raw = if raw / 2 ^ 15 % 2 == 0 then plus (raw * 250) else minus ((2 ^ 16 - raw) * 250)

-- The delta of one status at `off`, and the new offset.
unfoldable pub read_delta : List ℕ → ℕ → ℕ → ℕ → Outcome (Micros × ℕ)
read_delta bytes pkt_size off status =
    if status == small_delta
    then (fail_if (ltb pkt_size (off + 1)) parse
        >> (read bytes off >>= λ b. done (plus (b * 250), off + 1)))
    else if status == large_delta
    then (fail_if (ltb pkt_size (off + 2)) parse
        >> (read_u16be bytes off >>= λ raw. done (signed_delta raw, off + 2)))
    else done (plus 0, off)

-- The second pass: the reports that the callback gets, even if the pass fails later, and the
-- offset that it ends at. `i` is the index of the first status of the list.
unfoldable pub read_deltas : List ℕ → ℕ → ℕ → ℕ → ℕ → List ℕ → List Report × Outcome ℕ
read_deltas bytes pkt_size base_seq off i [] = ([], done off)
read_deltas bytes pkt_size base_seq off i (status ∷ statuses) =
    elim (read_delta bytes pkt_size off status) [
      | error e ↦ ([], error e)
      | fault ↦ ([], fault)
      | done (delta, off') ↦
          (let (reports, r) = read_deltas bytes pkt_size base_seq off' (i + 1) statuses in
            (record { seq = u16 (base_seq + i); status = status; delta_us = delta } ∷ reports, r))
    ]

-- The reference time: 24 bits signed, in units of 64 ms.
unfoldable pub reference_time : ℕ → ℕ → ℕ → Micros
reference_time a b c =
    let raw = a * 2 ^ 16 + b * 2 ^ 8 + c in
    if raw / 2 ^ 23 % 2 == 0 then plus (raw * 64000) else minus ((2 ^ 24 - raw) * 64000)

-- The end of twcc_parse_feedback: at most 3 bytes are left over.
unfoldable pub finish_statuses :
    ℕ → Summary → List Report × Outcome ℕ → List Report × Outcome Summary
finish_statuses pkt_size out (reports, r) = elim r [
  | error e ↦ (reports, error e)
  | fault ↦ (reports, fault)
  | done off ↦ if ltb 3 (pkt_size - off) then (reports, error parse) else (reports, done out)
]

-- The two passes of twcc_parse_feedback.
unfoldable pub parse_statuses : List ℕ → ℕ → Summary → List Report × Outcome Summary
parse_statuses bytes pkt_size out =
    elim (parse_chunks (out.packet_status_count + 1) bytes pkt_size 20 out.packet_status_count
      out.received_count) [
        | error e ↦ ([], error e)
        | fault ↦ ([], fault)
        | done (statuses, off, received) ↦
            (finish_statuses pkt_size (record out { received_count = received })
              (read_deltas bytes pkt_size out.base_seq off 0 statuses))
      ]

-- The fields of the header; the second result is `pkt_size`.
unfoldable pub read_fields : List ℕ → ℕ → Outcome (Summary × ℕ)
read_fields bytes length_words = do
  sender ← read_u32be bytes 4
  media ← read_u32be bytes 8
  base ← read_u16be bytes 12
  count ← read_u16be bytes 14
  r0 ← read bytes 16
  r1 ← read bytes 17
  r2 ← read bytes 18
  fb ← read bytes 19
  done (
    record {
      sender_ssrc = sender;
      media_ssrc = media;
      base_seq = base;
      packet_status_count = count;
      reference_time_us = reference_time r0 r1 r2;
      fb_pkt_count = fb;
      received_count = 0;
    },
    (length_words + 1) * 4,
  )

-- The header of twcc_parse_feedback, up to the count: the summary and `pkt_size`.
unfoldable pub parse_header : List ℕ → Outcome (Summary × ℕ)
parse_header bytes = do
  fail_if (ltb (length bytes) 20) parse
  b0 ← read bytes 0
  fail_if (not (b0 / 2 ^ 6 == version)) parse
  fail_if (not (b0 % 2 ^ 5 == twcc_fmt)) parse
  b1 ← read bytes 1
  fail_if (not (b1 == rtpfb_type)) parse
  length_words ← read_u16be bytes 2
  fail_if (ltb (length bytes) ((length_words + 1) * 4) || ltb ((length_words + 1) * 4) 20) parse
  read_fields bytes length_words

-- twcc_parse_feedback: the calls of the callback and the summary.
unfoldable pub parse_feedback : List ℕ → List Report × Outcome Summary
parse_feedback bytes = elim (parse_header bytes) [
  | error e ↦ ([], error e)
  | fault ↦ ([], fault)
  | done (out, pkt_size) ↦
      if out.packet_status_count == 0
      then ([], done out)
      else if ltb max_packets out.packet_status_count
      then ([], error parse)
      else parse_statuses bytes pkt_size out
]
