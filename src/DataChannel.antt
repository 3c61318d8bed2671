-- ===== src/DataChannel.antt =====
-- src/nano_datachannel.c: data channels and their handshake (DCEP).
-- A C string is the list of its bytes before the NUL. A `label` or `protocol` array is the list of
-- the bytes that were copied to it; the rest of it is 0.
pub mod Codec
pub mod Handshake
pub mod Channels
pub mod Calls
pub mod Safety
mod Tests
use nanortc.Prelude.{
  Bool, List, Option, Outcome, [], buffer_too_small, done, error, fail_if, false, fault,
  if◌then◌else◌, leb, length, ltb, no_data, none, not, not_implemented, parse, protocol_error, read,
  read_u16be, read_u32be, slice, some, take, true, u16, u16_max, write_u16be, write_u32be, ℕ, ◌%◌,
  ◌&&◌, ◌++◌, ◌+◌, ◌-◌, ◌/◌, ◌==◌, ◌>>=◌, ◌>>◌, ◌||◌, ◌∷◌,
}

-- DCEP_DATA_CHANNEL_OPEN, DCEP_DATA_CHANNEL_ACK, DCEP_PPID_CONTROL
abbrev pub msg_open : ℕ
msg_open = 3

abbrev pub msg_ack : ℕ
msg_ack = 2

abbrev pub ppid_control : ℕ
ppid_control = 50

-- NANORTC_MAX_DATACHANNELS, NANORTC_DC_LABEL_SIZE
abbrev pub max_channels : ℕ
max_channels = 8

abbrev pub label_size : ℕ
label_size = 32

-- dcep_open_t
pub record DcepOpen : Type 0 where
  pub channel_type : ℕ
  pub priority : ℕ
  pub reliability_param : ℕ
  pub label : List ℕ
  pub protocol : List ℕ

-- The return of dcep_parse_open once the header is read: the two texts and their bounds.
unfoldable pub open_body : List ℕ → ℕ → ℕ → ℕ → ℕ → ℕ → Outcome DcepOpen
open_body bytes ct prio rel label_len protocol_len =
    if ltb (length bytes - 12) label_len || ltb (length bytes - 12 - label_len) protocol_len
    then error parse
    else (do
      label ← slice bytes 12 label_len
      protocol ← slice bytes (12 + label_len) protocol_len
      done (record {
        channel_type = ct;
        priority = prio;
        reliability_param = rel;
        label = label;
        protocol = protocol;
      }))

-- dcep_parse_open
unfoldable pub parse_open : List ℕ → Outcome DcepOpen
parse_open bytes = do
  fail_if (ltb (length bytes) 12) parse
  kind ← read bytes 0
  fail_if (not (kind == msg_open)) protocol_error
  ct ← read bytes 1
  prio ← read_u16be bytes 2
  rel ← read_u32be bytes 4
  label_len ← read_u16be bytes 8
  protocol_len ← read_u16be bytes 10
  open_body bytes ct prio rel label_len protocol_len

-- dcep_encode_open: the bytes that it writes.
unfoldable pub encode_open : ℕ → ℕ → ℕ → List ℕ → List ℕ → List ℕ
encode_open ct prio rel label protocol =
    (msg_open
      ∷ ct
      ∷ (write_u16be prio
          ++ (write_u32be rel ++ (write_u16be (length label) ++ write_u16be (length protocol)))))
    ++ (label ++ protocol)

-- nano_dc_state_t
pub data State : Type 0 where
  closed opening opened : State

-- nano_dc_channel_t
pub record Channel : Type 0 where
  pub state : State
  pub stream_id : ℕ
  pub label : List ℕ
  pub protocol : List ℕ
  pub channel_type : ℕ
  pub ordered : Bool
  pub max_retransmits : ℕ
  pub pending : ℕ

-- nano_dc_t: the channels below `channel_count`.
abbrev pub Dc : Type 0
Dc = List Channel

-- dc_init
abbrev pub init : Dc
init = []

abbrev pub is_closed : Channel → Bool
is_closed ch = elim ch.state [ closed ↦ true | opening ↦ false | opened ↦ false ]

abbrev pub is_opening : Channel → Bool
is_opening ch = elim ch.state [ closed ↦ false | opening ↦ true | opened ↦ false ]

unfoldable pub matches : Channel → ℕ → Bool
matches ch stream_id = ch.stream_id == stream_id && not (is_closed ch)

-- dc_find_channel
unfoldable pub find_channel : Dc → ℕ → Option Channel
find_channel [] stream_id = none
find_channel (ch ∷ dc) stream_id =
    let later = find_channel dc stream_id in if matches ch stream_id then some ch else later

-- A write through the pointer that dc_find_channel returns.
unfoldable pub at_channel : Dc → ℕ → (Channel → Channel) → Dc
at_channel [] stream_id f = []
at_channel (ch ∷ dc) stream_id f =
    let later = at_channel dc stream_id f in if matches ch stream_id then f ch ∷ dc else ch ∷ later

-- dc_alloc_channel and what its caller writes to the new channel.
unfoldable pub alloc_channel : Dc → Channel → Option Dc
alloc_channel dc ch = if leb max_channels (length dc) then none else some (dc ++ ch ∷ [])

-- dc_pending_channel
unfoldable pub pending_channel : Dc → Option Channel
pending_channel [] = none
pending_channel (ch ∷ dc) =
    let later = pending_channel dc in
    if not (ch.pending == 0) && not (is_closed ch) then some ch else later

-- dc_has_pending_output
unfoldable pub has_pending_output : Dc → Bool
has_pending_output dc = elim (pending_channel dc) [ none ↦ false | some ch ↦ true ]

-- The channel that dc_handle_message makes of an OPEN: the label is cut to the array.
unfoldable pub accepted : ℕ → DcepOpen → Channel
accepted stream_id o = record {
  state = opened;
  stream_id = stream_id;
  label = take (if leb label_size (length o.label) then label_size - 1 else length o.label) o.label;
  protocol = o.protocol;
  channel_type = o.channel_type;
  ordered = o.channel_type / 128 % 2 == 0;
  max_retransmits = u16 o.reliability_param;
  pending = msg_ack;
}

-- dc_handle_message on an OPEN for a stream with no live channel. The Boolean is `*opened`.
unfoldable pub open_new : Dc → ℕ → DcepOpen → Dc × Outcome Bool
open_new dc stream_id o =
    if ltb 1 (o.channel_type % 128) || ltb u16_max o.reliability_param
    then (dc, error not_implemented)
    else if leb label_size (length o.protocol)
    then (dc, error buffer_too_small)
    else elim (alloc_channel dc (accepted stream_id o)) [
      | none ↦ (dc, error buffer_too_small)
      | some dc' ↦ (dc', done true)
    ]

-- dc_handle_message once an OPEN is parsed.
unfoldable pub handle_open : Dc → ℕ → DcepOpen → Dc × Outcome Bool
handle_open dc stream_id o = elim (find_channel dc stream_id) [
  | some existing ↦ (at_channel dc stream_id (λ ch. record ch { pending = msg_ack }), done false)
  | none ↦ open_new dc stream_id o
]

unfoldable pub handle_parsed : Dc → ℕ → Outcome DcepOpen → Dc × Outcome Bool
handle_parsed dc stream_id (done o) = handle_open dc stream_id o
handle_parsed dc stream_id (error e) = (dc, error e)
handle_parsed dc stream_id fault = (dc, fault)

-- dc_handle_message on an ACK.
unfoldable pub handle_ack : Dc → ℕ → Dc × Outcome Bool
handle_ack dc stream_id = elim (find_channel dc stream_id) [
  | none ↦ (dc, done false)
  | some ch ↦
      if is_opening ch
      then (at_channel dc stream_id (λ c. record c { state = opened }), done true)
      else (dc, done false)
]

-- dc_handle_message
unfoldable pub handle_message : Dc → ℕ → ℕ → List ℕ → Dc × Outcome Bool
handle_message dc stream_id ppid [] =
    if ppid == ppid_control then (dc, error parse) else (dc, done false)
handle_message dc stream_id ppid (b ∷ bytes) =
    if not (ppid == ppid_control)
    then (dc, done false)
    else if b == msg_open
    then handle_parsed dc stream_id (parse_open (b ∷ bytes))
    else if b == msg_ack
    then handle_ack dc stream_id
    else (dc, error protocol_error)

-- The channel type that dc_open_options chooses.
unfoldable pub type_of : Bool → Bool → ℕ
type_of ordered partial_reliability =
    if not partial_reliability
    then if ordered then 0x00 else 0x80
    else if ordered
    then 0x01
    else 0x81

-- The channel that dc_open_options makes: the label is cut to the array.
unfoldable pub requested : ℕ → List ℕ → List ℕ → Bool → Bool → ℕ → Channel
requested stream_id label protocol ordered partial_reliability max_retransmits = record {
  state = opening;
  stream_id = stream_id;
  label = take (label_size - 1) label;
  protocol = protocol;
  channel_type = type_of ordered partial_reliability;
  ordered = ordered;
  max_retransmits = max_retransmits;
  pending = msg_open;
}

-- dc_open_options; a missing `protocol` is the empty one.
unfoldable pub open_options : Dc → ℕ → List ℕ → List ℕ → Bool → Bool → ℕ → Dc × Outcome (Unit {0})
open_options dc stream_id label protocol ordered partial_reliability max_retransmits =
    if leb label_size (length protocol)
    then (dc, error buffer_too_small)
    else elim (alloc_channel dc
        (requested stream_id label protocol ordered partial_reliability max_retransmits)) [
          | none ↦ (dc, error buffer_too_small)
          | some dc' ↦ (dc', done tt)
        ]

-- dc_open
unfoldable pub open_channel : Dc → ℕ → List ℕ → Bool → ℕ → Dc × Outcome (Unit {0})
open_channel dc stream_id label ordered max_retransmits =
    open_options dc stream_id label [] ordered (not (max_retransmits == 0)) max_retransmits

-- The bytes of an array up to the first NUL.
unfoldable pub c_string : List ℕ → List ℕ
c_string [] = []
c_string (b ∷ bytes) = let later = c_string bytes in if b == 0 then [] else b ∷ later

-- The message that dc_peek_output writes for a channel.
unfoldable pub message : Channel → List ℕ
message ch =
    if ch.pending == msg_ack
    then msg_ack ∷ []
    else encode_open ch.channel_type 0 ch.max_retransmits
        (if ch.pending == msg_open then c_string ch.label else [])
        (if ch.pending == msg_open then c_string ch.protocol else [])

-- dc_peek_output: the message and its stream.
unfoldable pub peek_output : Dc → ℕ → Outcome (List ℕ × ℕ)
peek_output dc buf_len = elim (pending_channel dc) [
  | none ↦ error no_data
  | some ch ↦
      if ltb buf_len (length (message ch))
      then error buffer_too_small
      else done (message ch, ch.stream_id)
]

-- dc_commit_output
unfoldable pub commit_output : Dc → ℕ → Dc
commit_output dc stream_id = at_channel dc stream_id (λ ch. record ch { pending = 0 })
