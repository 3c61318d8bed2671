-- ===== src/Sctp.antt =====
-- src/nano_sctp.c: SCTP for data channels. The state and what the children share.
pub mod Codec
pub mod Receive
pub mod Transmit
pub mod Gaps
pub mod Assoc
pub mod Incoming
pub mod Output
pub mod Handshake
pub mod Calls
mod Tests
use nanortc.Prelude.{
  Bool, List, Option, [], false, if◌then◌else◌, leb, length, ltb, none, not, replicate, some, sub16,
  sub32, suc, true, ℕ, ◌%◌, ◌&&◌, ◌*◌, ◌++◌, ◌+◌, ◌/◌, ◌==◌, ◌^◌, ◌||◌, ◌∷◌,
}

-- SCTP_CHUNK_DATA and its siblings
abbrev pub chunk_data : ℕ
chunk_data = 0

abbrev pub chunk_init : ℕ
chunk_init = 1

abbrev pub chunk_init_ack : ℕ
chunk_init_ack = 2

abbrev pub chunk_sack : ℕ
chunk_sack = 3

abbrev pub chunk_heartbeat : ℕ
chunk_heartbeat = 4

abbrev pub chunk_heartbeat_ack : ℕ
chunk_heartbeat_ack = 5

abbrev pub chunk_abort : ℕ
chunk_abort = 6

abbrev pub chunk_shutdown : ℕ
chunk_shutdown = 7

abbrev pub chunk_cookie_echo : ℕ
chunk_cookie_echo = 10

abbrev pub chunk_cookie_ack : ℕ
chunk_cookie_ack = 11

abbrev pub chunk_forward_tsn : ℕ
chunk_forward_tsn = 192

-- NANORTC_SCTP_SEND_BUF_SIZE, NANORTC_SCTP_RECV_BUF_SIZE, NANORTC_SCTP_MAX_MESSAGE_SIZE,
-- NANORTC_SCTP_MTU, NANORTC_SCTP_MAX_SEND_QUEUE, NANORTC_SCTP_MAX_GAP_BLOCKS,
-- NANORTC_SCTP_MAX_RECV_GAP, NANORTC_SCTP_RECV_GAP_BUF_SIZE, NANORTC_SCTP_COOKIE_SIZE,
-- NANORTC_SCTP_RTO_INITIAL_MS, NANORTC_SCTP_RTO_MAX_MS, NANORTC_SCTP_MAX_RETRANSMITS,
-- NANORTC_SCTP_HEARTBEAT_INTERVAL_MS, NANORTC_SCTP_OUT_QUEUE_SIZE, NANORTC_MAX_DATACHANNELS
abbrev pub send_buf_size : ℕ
send_buf_size = 4096

abbrev pub recv_buf_size : ℕ
recv_buf_size = 4096

abbrev pub max_message_size : ℕ
max_message_size = 4096

abbrev pub sctp_mtu : ℕ
sctp_mtu = 1200

abbrev pub max_send_queue : ℕ
max_send_queue = 16

abbrev pub max_gap_blocks : ℕ
max_gap_blocks = 4

abbrev pub max_recv_gap : ℕ
max_recv_gap = 8

abbrev pub recv_gap_buf_size : ℕ
recv_gap_buf_size = 4096

abbrev pub cookie_size : ℕ
cookie_size = 32

abbrev pub rto_initial_ms : ℕ
rto_initial_ms = 1000

abbrev pub rto_max_ms : ℕ
rto_max_ms = 10000

abbrev pub max_retransmissions : ℕ
max_retransmissions = 10

abbrev pub heartbeat_interval_ms : ℕ
heartbeat_interval_ms = 30000

abbrev pub out_queue_size : ℕ
out_queue_size = 4

abbrev pub max_streams : ℕ
max_streams = 8

-- SCTP_PAD4
abbrev pub pad4 : ℕ → ℕ
pad4 x = (x + 3) / 4 * 4

-- `(int32_t)(a - b) > 0` and `(int32_t)(a - b) <= 0`
unfoldable pub tsn_gt : ℕ → ℕ → Bool
tsn_gt a b = ltb 0 (sub32 a b) && ltb (sub32 a b) (2 ^ 31)

unfoldable pub tsn_le : ℕ → ℕ → Bool
tsn_le a b = not (tsn_gt a b)

-- `(int16_t)(a - b) < 0` and `(int16_t)(a - b) <= 0`
unfoldable pub ssn_lt : ℕ → ℕ → Bool
ssn_lt a b = leb (2 ^ 15) (sub16 a b)

unfoldable pub ssn_le : ℕ → ℕ → Bool
ssn_le a b = sub16 a b == 0 || leb (2 ^ 15) (sub16 a b)

-- SCTP_DATA_FLAG_END, SCTP_DATA_FLAG_BEGIN, SCTP_DATA_FLAG_UNORDERED
abbrev pub is_end : ℕ → Bool
is_end flags = flags % 2 == 1

abbrev pub is_begin : ℕ → Bool
is_begin flags = flags / 2 % 2 == 1

abbrev pub is_unordered : ℕ → Bool
is_unordered flags = flags / 4 % 2 == 1

-- nano_sctp_state_t
pub data SctpState : Type 0 where
  closed cookie_wait cookie_echoed established shutdown_pending shutdown_sent : SctpState

abbrev pub is_established : SctpState → Bool
is_established established = true
is_established _ = false

-- nsctp_send_entry_t; `max_retransmits` is `none` for -1.
pub record SendEntry : Type 0 where
  pub tsn : ℕ
  pub stream_id : ℕ
  pub ssn : ℕ
  pub ppid : ℕ
  pub data_offset : ℕ
  pub data_len : ℕ
  pub sent_at_ms : ℕ
  pub retransmit_count : ℕ
  pub max_retransmits : Option ℕ
  pub abandoned : Bool
  pub flags : ℕ
  pub acked : Bool
  pub in_flight : Bool

-- nano_sctp_rx_entry_t
pub record RxEntry : Type 0 where
  pub tsn : ℕ
  pub ppid : ℕ
  pub data_offset : ℕ
  pub data_len : ℕ
  pub stream_id : ℕ
  pub ssn : ℕ
  pub flags : ℕ
  pub delivered : Bool
  pub valid : Bool
  pub forwarded : Bool

-- One index of `stream_ids`, `next_ssn` and `recv_ssn`.
pub record Stream : Type 0 where
  pub stream_id : ℕ
  pub next_ssn : ℕ
  pub recv_ssn : ℕ

-- The receive state of nano_sctp_t; `recv_gap_buf` is the first `recv_gap_buf_used` bytes.
pub record Rx : Type 0 where
  pub cumulative_tsn : ℕ
  pub sack_needed : Bool
  pub recv_gap : List RxEntry
  pub recv_gap_count : ℕ
  pub recv_gap_buf : List ℕ

-- The send state; `send_queue` is what stands from `sq_head` to `sq_tail`, and `send_buf` the first
-- `send_buf_used` bytes.
pub record Tx : Type 0 where
  pub next_tsn : ℕ
  pub send_queue : List SendEntry
  pub send_buf : List ℕ
  pub rto_ms : ℕ
  pub forward_sent_at_ms : ℕ
  pub forward_pending : Bool

-- nano_sctp_t; `streams` are the first `stream_count` ones, and `out_queue` the packets from
-- `out_head` to `out_tail`.
pub record Sctp : Type 0 where
  pub state : SctpState
  pub closed_due_to_failure : Bool
  pub local_vtag : ℕ
  pub remote_vtag : ℕ
  pub local_port : ℕ
  pub remote_port : ℕ
  pub peer_initial_tsn : ℕ
  pub streams : List Stream
  pub now_ms : ℕ
  pub peer_forward_tsn : Bool
  pub peer_max_message_size : ℕ
  pub rx : Rx
  pub tx : Tx
  pub last_heartbeat_ms : ℕ
  pub heartbeat_pending : Bool
  pub heartbeat_nonce : List ℕ
  pub cookie : List ℕ
  pub cookie_secret : List ℕ
  pub peer_a_rwnd : ℕ
  pub peer_num_istreams : ℕ
  pub peer_num_ostreams : ℕ
  pub out_queue : List (List ℕ)

abbrev pub no_rx : RxEntry
no_rx = record {
  tsn = 0;
  ppid = 0;
  data_offset = 0;
  data_len = 0;
  stream_id = 0;
  ssn = 0;
  flags = 0;
  delivered = false;
  valid = false;
  forwarded = false;
}

-- nsctp_init
unfoldable pub init : Sctp
init = record {
  state = closed;
  closed_due_to_failure = false;
  local_vtag = 0;
  remote_vtag = 0;
  local_port = 5000;
  remote_port = 5000;
  peer_initial_tsn = 0;
  streams = [];
  now_ms = 0;
  peer_forward_tsn = false;
  peer_max_message_size = 0;
  rx = record {
    cumulative_tsn = 0;
    sack_needed = false;
    recv_gap = replicate max_recv_gap no_rx;
    recv_gap_count = 0;
    recv_gap_buf = [];
  };
  tx = record {
    next_tsn = 0;
    send_queue = [];
    send_buf = [];
    rto_ms = rto_initial_ms;
    forward_sent_at_ms = 0;
    forward_pending = false;
  };
  last_heartbeat_ms = 0;
  heartbeat_pending = false;
  heartbeat_nonce = [];
  cookie = [];
  cookie_secret = [];
  peer_a_rwnd = 0;
  peer_num_istreams = 0;
  peer_num_ostreams = 0;
  out_queue = [];
}

-- The search and the addition of nsctp_stream: the streams and the index, `none` when full.
unfoldable pub find_stream : List Stream → ℕ → Option ℕ
find_stream [] sid = none
find_stream (s ∷ streams) sid =
    let later = find_stream streams sid in
    if s.stream_id == sid then some 0 else elim later [ none ↦ none | some i ↦ some (suc i) ]

unfoldable pub stream_of : List Stream → ℕ → Option (List Stream × ℕ)
stream_of streams sid = elim (find_stream streams sid) [
  | some i ↦ some (streams, i)
  | none ↦
      if length streams == max_streams
      then none
      else some
          (streams ++ record { stream_id = sid; next_ssn = 0; recv_ssn = 0 } ∷ [], length streams)
]
