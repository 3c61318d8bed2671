-- ===== src/DataChannel/Tests.antt =====
-- Runs of src/nano_datachannel.c on small inputs.
use nanortc.Prelude.{
  List, [], arith, done, error, fail_if, false, fault, length, parse, read, read_u16be, read_u32be,
  refl, true, ℕ, ◌+◌, ◌∷◌, ◌≡◌, ◌≢◌, ◌≤◌,
}
use nanortc.DataChannel.{
  DcepOpen, alloc_channel, c_string, encode_open, find_channel, handle_message, handle_parsed, init,
  open_body, open_channel, open_options, parse_open, pending_channel,
}
use nanortc.DataChannel.Codec.{parse_open-encode_open}
use nanortc.DataChannel.Handshake.{IsReady, IsText, agreed, handshake, handshake_lem}
use nanortc.DataChannel.Calls.{IsValid, calls-IsValid, opens, receives, run}
use nanortc.DataChannel.Safety.{handle_message_safe}

abbrev chat : List ℕ
chat = 99 ∷ 104 ∷ 97 ∷ 116 ∷ []

abbrev json : List ℕ
json = 106 ∷ []

parse_open-encode_open_example :
    parse_open (encode_open 0x81 256 3 chat json)
    ≡ done (record {
      channel_type = 0x81;
      priority = 256;
      reliability_param = 3;
      label = chat;
      protocol = json;
    })
parse_open-encode_open_example =
    parse_open-encode_open 0x81 256 3 chat json (omega arith) (omega arith) (omega arith)
      (omega arith)

chat-IsText : IsText chat
unfolding c_string
chat-IsText = record { fits = omega arith; no_nul = refl }

json-IsText : IsText json
unfolding c_string
json-IsText = record { fits = omega arith; no_nul = refl }

init-IsReady : IsReady init 2
unfolding find_channel pending_channel
init-IsReady = record { room = omega arith; fresh = refl; idle = refl }

handshake_lem_example :
    handshake init init 2 chat json false true 3 64
    ≡ done (agreed 2 chat json false true 3 ∷ [], agreed 2 chat json false true 3 ∷ [])
handshake_lem_example =
    handshake_lem init init 2 chat json false true 3 64 chat-IsText json-IsText init-IsReady
      init-IsReady (omega arith) (omega arith)

calls-IsValid_example :
    IsValid (run init (opens 0 chat json true false 0 ∷ receives 0 50 (2 ∷ []) ∷ []))
calls-IsValid_example =
    calls-IsValid (opens 0 chat json true false 0 ∷ receives 0 50 (2 ∷ []) ∷ []) init
      (omega arith, tt)

-- An OPEN whose label goes past the end.
abbrev short_open : List ℕ
short_open = 3 ∷ 0 ∷ 0 ∷ 0 ∷ 0 ∷ 0 ∷ 0 ∷ 0 ∷ 0 ∷ 9 ∷ 0 ∷ 0 ∷ 65 ∷ []

handle_message_safe_example :
    ((handle_message init 1 50 short_open).1 ≢ fault)
    × ((o : DcepOpen)
        → parse_open short_open ≡ done o
        → 12 + length o.label + length o.protocol ≤ length short_open)
handle_message_safe_example = handle_message_safe init 1 50 short_open

short_open-error : (handle_message init 1 50 short_open).1 ≡ error parse
unfolding handle_message handle_parsed parse_open open_body read read_u16be read_u32be fail_if
short_open-error = refl

-- A second channel for the stream of a live one is not refused.
opens_twice : (open_channel (open_channel init 2 chat true 0).0 2 json true 0).1 ≡ done tt
unfolding open_channel open_options alloc_channel
opens_twice = refl
