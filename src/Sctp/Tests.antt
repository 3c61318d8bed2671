-- ===== src/Sctp/Tests.antt =====
-- Runs of src/nano_sctp.c.
use nanortc.Prelude.{
  Error, List, [], arith, done, drop, error, false, inl, length, none, read_u16be, refl, replicate,
  some, take, true, ℕ, ◌%◌, ◌++◌, ◌<◌, ◌∷◌, ◌≡◌, ◌≤◌, ◌⊎◌,
}
use nanortc.Sctp.{
  Rx, RxEntry, Sctp, chunk_init_ack, established, find_stream, init, no_rx, stream_of, tsn_gt,
  tsn_le,
}
use nanortc.Sctp.Codec.{
  Data, Init, encode_data, encode_header, encode_init, finalize_checksum, init_size, parse_data,
  parse_init, verify_checksum,
}
use nanortc.Sctp.Codec.RoundTrip.{IsData, parse_data-encode_data, verify_checksum-finalize_checksum}
use nanortc.Sctp.Codec.Inits.{IsInit, parse_init-encode_init}
use nanortc.Sctp.Receive.{
  find_next, find_pair, fragments_follow, make_room, merge_pair, move_bytes, reverse, reverse_from,
  rx_merge, rx_move, swap_bytes,
}
use nanortc.Sctp.Assoc.{Random}
use nanortc.Sctp.Incoming.Sound.{Sound}
use nanortc.Sctp.Handshake.{handshake}
use nanortc.Sctp.Handshake.Agreement.{Gives, IsConnected, IsFresh, handshake_established}
use nanortc.Sctp.Calls.{Call, begin, call, poll, receive, take_message}
use nanortc.Sctp.Transmit.{fragment_count, send_options}
use nanortc.Sctp.Transmit.Within.{IsTx}
use nanortc.Sctp.Transmit.Message.{CanSend, HasMessage, send_options_lem}
use nanortc.Sctp.Transmit.Refused.{Reason, send_options_settled}

-- A chunk of three bytes on stream 1, and a packet around it.
abbrev hello : Data
hello = record {
  tsn = 0xfffffffe;
  stream_id = 1;
  ssn = 7;
  ppid = 51;
  flags = 3;
  payload = 104 ∷ 105 ∷ 33 ∷ [];
}

abbrev packet : List ℕ
packet = encode_header 5000 5000 0x01020304 ++ encode_data hello 100

hello-IsData : IsData hello
hello-IsData = record {
  tsn_word = omega arith;
  stream_word = omega arith;
  ssn_word = omega arith;
  ppid_word = omega arith;
  short = omega arith;
}

packet_long : 12 ≤ length packet
unfolding encode_header
packet_long = omega arith

verify_checksum-finalize_checksum_example :
    (verify_checksum (finalize_checksum packet) ≡ done tt)
    × (length (finalize_checksum packet) ≡ length packet)
    × (take 8 (finalize_checksum packet) ≡ take 8 packet)
    × (drop 12 (finalize_checksum packet) ≡ drop 12 packet)
verify_checksum-finalize_checksum_example = verify_checksum-finalize_checksum packet packet_long

parse_data-encode_data_example :
    (20 ≤ 100
      → (parse_data (encode_data hello 100 ++ packet) ≡ done hello)
        × (length (encode_data hello 100) ≡ 20))
    × (100 < 20 → encode_data hello 100 ≡ [])
parse_data-encode_data_example = parse_data-encode_data hello 100 packet hello-IsData

abbrev offer_sent : Init
offer_sent = record {
  initiate_tag = 0xdeadbeef;
  a_rwnd = 4096;
  num_ostreams = 0xffff;
  num_istreams = 0xffff;
  initial_tsn = 1;
  cookie = 1 ∷ 2 ∷ 3 ∷ 4 ∷ 5 ∷ [];
  forward_tsn_supported = true;
}

offer_sent-IsInit : IsInit offer_sent
unfolding init_size
offer_sent-IsInit = record {
  tag_word = omega arith;
  rwnd_word = omega arith;
  ostreams_word = omega arith;
  istreams_word = omega arith;
  tsn_word = omega arith;
  short = omega arith;
  forward = refl;
}

parse_init-encode_init_example :
    (init_size offer_sent.cookie ≤ 64
      → (parse_init (encode_init chunk_init_ack offer_sent 64) ≡ done offer_sent)
        × (read_u16be (encode_init chunk_init_ack offer_sent 64) 2
            ≡ done (init_size offer_sent.cookie))
        × (length (encode_init chunk_init_ack offer_sent 64) ≡ init_size offer_sent.cookie)
        × (init_size offer_sent.cookie % 4 ≡ 0))
    × (64 < init_size offer_sent.cookie → encode_init chunk_init_ack offer_sent 64 ≡ [])
parse_init-encode_init_example =
    parse_init-encode_init chunk_init_ack offer_sent 64 offer_sent-IsInit

-- A source that gives the same byte again and again.
abbrev steady : ℕ → Random
steady byte call n = some (replicate n byte)

init-IsFresh : IsFresh init
unfolding init
init-IsFresh = record { not_started = refl; untagged = refl; idle = refl; quiet = refl }

abbrev four : ℕ → List ℕ
four byte = byte ∷ byte ∷ byte ∷ byte ∷ []

steady-Gives :
    (byte : ℕ) → byte < 256 → Gives (steady byte) (four byte) (four byte) (replicate 16 byte)
steady-Gives byte h = record {
  first = refl;
  second = refl;
  third = refl;
  tag_bytes = (h, (h, (h, (h, tt))));
  tsn_bytes = (h, (h, (h, (h, tt))));
}

handshake_established_example :
    (a b : Sctp) × (handshake (steady 17) (steady 200) init init 1200 ≡ done (a, b))
    × IsConnected a b
    × IsConnected b a
    × (0 < a.local_vtag)
    × (0 < b.local_vtag)
handshake_established_example =
    handshake_established (steady 17) (steady 200) init init 1200 (four 17) (four 17)
      (replicate 16 17) (four 200) (four 200) (replicate 16 200) init-IsFresh init-IsFresh
      (steady-Gives 17 (omega arith)) (steady-Gives 200 (omega arith)) (omega arith)

-- Two fragments of one message, in slots out of order.
abbrev part : ℕ → ℕ → ℕ → ℕ → RxEntry
part tsn flags off len = record no_rx {
  tsn = tsn;
  flags = flags;
  data_offset = off;
  data_len = len;
  valid = true;
}

abbrev torn : Rx
torn = record {
  cumulative_tsn = 11;
  sack_needed = false;
  recv_gap = part 11 1 0 2 ∷ part 10 2 2 3 ∷ replicate 6 no_rx;
  recv_gap_count = 2;
  recv_gap_buf = 4 ∷ 5 ∷ 1 ∷ 2 ∷ 3 ∷ [];
}

-- The two become one, whose bytes are in order.
torn_merged : (rx_merge 9 torn).0.recv_gap_buf ≡ 1 ∷ 2 ∷ 3 ∷ 4 ∷ 5 ∷ []
unfolding rx_merge find_pair find_next fragments_follow merge_pair rx_move move_bytes make_room
    reverse reverse_from swap_bytes tsn_le tsn_gt
torn_merged = refl

abbrev some_calls : List Call
some_calls = begin (steady 17) ∷ receive (steady 200) packet ∷ poll 1200 ∷ take_message ∷ []

-- An open association that has sent nothing, and a message of two chunks.
abbrev open_end : Sctp
open_end = record init { state = established }

abbrev long_message : List ℕ
long_message = replicate 1300 7

open_end-IsTx : IsTx open_end.tx
unfolding init
open_end-IsTx = record {
  queue_room = omega arith;
  buf_room = omega arith;
  inside = tt;
  rto_low = omega arith;
  rto_high = omega arith;
}

open_end-CanSend : CanSend open_end 1 (length long_message) none
unfolding init find_stream stream_of fragment_count
open_end-CanSend = record {
  up = refl;
  retries = refl;
  limit = omega arith;
  peer_limit = inl refl;
  room = record { queue_room = omega arith; buf_room = omega arith };
  index = (record { stream_id = 1; next_ssn = 0; recv_ssn = 0 } ∷ [], 0);
  stream = refl;
}

send_options_lem_example :
    ((send_options open_end 1 51 long_message false none).1 ≡ done tt)
    × HasMessage open_end.tx
        (send_options open_end 1 51 long_message false none).0.tx
        false
        1
        51
        long_message
send_options_lem_example =
    send_options_lem open_end 1 51 long_message false none open_end-IsTx open_end-CanSend

send_options_settled_example :
    ((send_options open_end 1 51 long_message false (some 3)).1 ≡ done tt)
    ⊎ ((e : Error) × (send_options open_end 1 51 long_message false (some 3) ≡ (open_end, error e))
        × Reason open_end 1 (length long_message) (some 3) e)
send_options_settled_example = send_options_settled open_end 1 51 long_message false (some 3)
