-- ===== src/Sctp/Assoc.antt =====
-- The handshake of src/nano_sctp.c, and what goes into the output queue.
-- `Random` stands for `crypto->random_bytes`: what its call number `i` within a function gives for
-- `n` bytes, `none` when it fails.
use nanortc.Prelude.{
  Bool, List, Option, Outcome, [], bad_state, crypto_failed, done, error, false, fault, get_or,
  if◌then◌else◌, leb, length, ltb, none, not, parse, protocol_error, slice, some, sub32, true, u16,
  u8, would_block, ℕ, ◌&&◌, ◌++◌, ◌-◌, ◌/◌, ◌==◌, ◌^◌, ◌||◌, ◌∷◌,
}
use Prim.Native.Nat.{bit_xor}
use nanortc.Sctp.{
  Sctp, SctpState, chunk_init, chunk_init_ack, closed, cookie_echoed, cookie_size, cookie_wait,
  established, out_queue_size, recv_buf_size, sctp_mtu,
}
use nanortc.Sctp.Codec.{
  Init, encode_cookie_ack, encode_cookie_echo, encode_header, encode_init, finalize_checksum,
  host_word, parse_init,
}

abbrev pub Random : Type 0
Random = ℕ → ℕ → Option (List ℕ)

-- nsctp_out_full
unfoldable pub out_full : Sctp → Bool
out_full s = leb out_queue_size (length s.out_queue)

-- nsctp_begin_packet, what an encoder has appended, and nsctp_queue_output. All encoders give
-- multiples of four bytes, so the padding there adds none.
unfoldable pub queue_chunk : Sctp → ℕ → List ℕ → Sctp
queue_chunk s vtag chunk =
    let packet = encode_header s.local_port s.remote_port vtag ++ chunk in
    if out_full s || ltb sctp_mtu (length packet)
    then s
    else record s { out_queue = s.out_queue ++ finalize_checksum packet ∷ [] }

-- The room for a chunk in a packet.
abbrev pub chunk_room : ℕ
chunk_room = sctp_mtu - 12

-- `v == 0u ? 1u : v`
abbrev pub non_zero : ℕ → ℕ
non_zero v = if v == 0 then 1 else v

-- nsctp_generate_association_seed: the tag, the first TSN and the secret.
unfoldable pub association_seed : Random → Outcome (ℕ × ℕ × List ℕ)
association_seed random = elim (random 0 4) [
  | none ↦ error crypto_failed
  | some tag ↦ elim (random 1 4) [
    | none ↦ error crypto_failed
    | some tsn ↦ elim (random 2 16) [
      | none ↦ error crypto_failed
      | some secret ↦ done (non_zero (host_word tag), non_zero (host_word tsn), secret)
    ]
  ]
]

-- The INIT and INIT-ACK that the endpoint sends.
abbrev pub own_init : Sctp → List ℕ → Init
own_init s cookie = record {
  initiate_tag = s.local_vtag;
  a_rwnd = recv_buf_size;
  num_ostreams = 0xffff;
  num_istreams = 0xffff;
  initial_tsn = s.tx.next_tsn;
  cookie = cookie;
  forward_tsn_supported = true;
}

abbrev pub with_seed : Sctp → ℕ → ℕ → List ℕ → Sctp
with_seed s tag tsn secret = record s {
  local_vtag = tag;
  tx = record s.tx { next_tsn = tsn };
  cookie_secret = secret;
}

abbrev pub is_closed : SctpState → Bool
is_closed closed = true
is_closed _ = false

-- nsctp_start
unfoldable pub start : Random → Sctp → Sctp × Outcome (Unit {0})
start random s =
    if not (is_closed s.state)
    then (s, error bad_state)
    else if out_full s
    then (s, error would_block)
    else elim (association_seed random) [
      | error e ↦ (s, error e)
      | fault ↦ (s, fault)
      | done (tag, tsn, secret) ↦
          (let s' = with_seed s tag tsn secret in
            (
              record (queue_chunk s' 0 (encode_init chunk_init (own_init s' []) chunk_room)) {
                state = cookie_wait;
              },
              done tt,
            ))
    ]

-- The cookie: the first 8 bytes of the secret, the first four mixed with the tag.
unfoldable pub make_cookie : List ℕ → ℕ → List ℕ
make_cookie secret tag =
    bit_xor (get_or secret 0 0) (u8 (tag / 2 ^ 24))
    ∷ bit_xor (get_or secret 1 0) (u8 (tag / 2 ^ 16))
    ∷ bit_xor (get_or secret 2 0) (u8 (tag / 2 ^ 8))
    ∷ bit_xor (get_or secret 3 0) (u8 tag)
    ∷ get_or secret 4 0
    ∷ get_or secret 5 0
    ∷ get_or secret 6 0
    ∷ get_or secret 7 0
    ∷ []

-- The peer's parameters.
abbrev pub with_peer : Sctp → Init → Sctp
with_peer s out = record s {
  remote_vtag = out.initiate_tag;
  peer_initial_tsn = out.initial_tsn;
  rx = record s.rx { cumulative_tsn = sub32 out.initial_tsn 1 };
  peer_a_rwnd = out.a_rwnd;
  peer_forward_tsn = out.forward_tsn_supported;
}

-- nsctp_handle_init once the INIT is parsed and the seed is there.
unfoldable pub accept_init : Sctp → Init → Sctp
accept_init s out =
    let s' = record (with_peer s out) {
      peer_num_istreams = out.num_istreams;
      peer_num_ostreams = out.num_ostreams;
    } in
    queue_chunk s' s'.remote_vtag (
      encode_init chunk_init_ack (own_init s' (make_cookie s'.cookie_secret out.initiate_tag))
        chunk_room)

-- nsctp_handle_init. Any failure of nsctp_parse_init is a parse error.
unfoldable pub handle_init : Random → Sctp → List ℕ → Sctp × Outcome (Unit {0})
handle_init random s chunk = elim (parse_init chunk) [
  | fault ↦ (s, fault)
  | error e ↦ (s, error parse)
  | done out ↦
      if s.local_vtag == 0
      then elim (association_seed random) [
        | error e ↦ (s, error e)
        | fault ↦ (s, fault)
        | done (tag, tsn, secret) ↦ (accept_init (with_seed s tag tsn secret) out, done tt)
      ]
      else (accept_init s out, done tt)
]

abbrev pub is_cookie_wait : SctpState → Bool
is_cookie_wait cookie_wait = true
is_cookie_wait _ = false

abbrev pub is_cookie_echoed : SctpState → Bool
is_cookie_echoed cookie_echoed = true
is_cookie_echoed _ = false

-- nsctp_handle_init_ack once the chunk is parsed and its cookie is taken.
unfoldable pub accept_init_ack : Sctp → Init → Sctp
accept_init_ack s out =
    let s' = record (with_peer s out) { cookie = out.cookie } in
    record (queue_chunk s' s'.remote_vtag (encode_cookie_echo out.cookie chunk_room)) {
      state = cookie_echoed;
    }

-- nsctp_handle_init_ack
unfoldable pub handle_init_ack : Sctp → List ℕ → Sctp × Outcome (Unit {0})
handle_init_ack s chunk =
    if not (is_cookie_wait s.state) then (s, error bad_state) else elim (parse_init chunk) [
      | fault ↦ (s, fault)
      | error e ↦ (s, error parse)
      | done out ↦
          if length out.cookie == 0 || ltb cookie_size (length out.cookie)
          then (s, error protocol_error)
          else (accept_init_ack s out, done tt)
    ]

-- `memcmp(a, b, 8) == 0`
unfoldable pub same_bytes : List ℕ → List ℕ → Bool
same_bytes [] [] = true
same_bytes [] (y ∷ ys) = false
same_bytes (x ∷ xs) [] = false
same_bytes (x ∷ xs) (y ∷ ys) = x == y && same_bytes xs ys

-- nsctp_handle_cookie_echo
unfoldable pub handle_cookie_echo : Sctp → List ℕ → Sctp × Outcome (Unit {0})
handle_cookie_echo s chunk =
    if ltb (u16 (length chunk - 4)) 8 then (s, error protocol_error) else elim (slice chunk 4 8) [
      | error e ↦ (s, error e)
      | fault ↦ (s, fault)
      | done received ↦
          if not (same_bytes received (make_cookie s.cookie_secret s.remote_vtag))
          then (s, error protocol_error)
          else (
            record (queue_chunk s s.remote_vtag encode_cookie_ack) { state = established },
            done tt,
          )
    ]

-- nsctp_handle_cookie_ack
unfoldable pub handle_cookie_ack : Sctp → Sctp × Outcome (Unit {0})
handle_cookie_ack s =
    if is_cookie_echoed s.state
    then (record s { state = established }, done tt)
    else (s, error bad_state)
