-- ===== src/Sctp/Handshake/Steps.antt =====
-- What each packet of the handshake of src/nano_sctp.c does.
use nanortc.Prelude.{
  List, [], ap, arith, done, length, length-append, length-replicate, le→ltb, refl, replicate,
  slice, true, u16_max, ℕ, ◌+◌, ◌-◌, ◌∷◌, ◌≡◌,
}
use nanortc.Sctp.{
  Sctp, chunk_cookie_ack, chunk_cookie_echo, chunk_init, chunk_init_ack, closed, cookie_echoed,
  cookie_wait, established, pad4,
}
use nanortc.Sctp.Codec.{
  Init, cookie_param, encode_cookie_ack, encode_cookie_echo, encode_init, init_size, padding,
  parse_init,
}
use nanortc.Sctp.Assoc.{
  Random, accept_init, accept_init_ack, association_seed, chunk_room, handle_cookie_ack,
  handle_cookie_echo, handle_init, handle_init_ack, is_closed, make_cookie, own_init, same_bytes,
  start, with_peer, with_seed,
}
use nanortc.Sctp.Incoming.{dispatch}
use nanortc.Sctp.Handshake.{out_full-empty, packet_of, queue_chunk-empty}

-- One packet waits to be sent.
abbrev pub queued : Sctp → ℕ → List ℕ → Sctp
queued s vtag chunk = record s { out_queue = packet_of s vtag chunk ∷ [] }

abbrev pub waiting : Sctp → ℕ → ℕ → List ℕ → Sctp
waiting s tag tsn secret = record (with_seed s tag tsn secret) {
  state = cookie_wait;
  out_queue = [];
}

pub start-fresh :
    (random : Random) (s : Sctp) (tag tsn : ℕ) (secret : List ℕ)
    → association_seed random ≡ done (tag, tsn, secret)
    → s.state ≡ closed
    → s.out_queue ≡ []
    → start random s ≡ (
      queued
          (waiting s tag tsn secret)
          0
          (encode_init chunk_init (own_init (waiting s tag tsn secret) []) chunk_room),
      done tt,
    )
unfolding start encode_init init_size cookie_param
start-fresh random s tag tsn secret seed c q =
    let s' = with_seed s tag tsn secret in
    let chunk = encode_init chunk_init (own_init s' []) chunk_room in
    rw (ap is_closed c, out_full-empty s q, seed)
      (ap (λ r. (record r { state = cookie_wait }, done tt))
        (queue_chunk-empty s' 0 chunk q (omega arith)))

pub length-answer :
    (s : Sctp) (secret : List ℕ) (tag : ℕ)
    → length (encode_init chunk_init_ack (own_init s (make_cookie secret tag)) chunk_room) ≡ 36
unfolding encode_init init_size cookie_param make_cookie padding
length-answer s secret tag = refl

abbrev pub answering : Sctp → ℕ → ℕ → List ℕ → Init → Sctp
answering s tag tsn secret out = record (with_peer (with_seed s tag tsn secret) out) {
  peer_num_istreams = out.num_istreams;
  peer_num_ostreams = out.num_ostreams;
  out_queue = [];
}

pub init-handled :
    (random : Random) (s : Sctp) (tag tsn : ℕ) (secret chunk : List ℕ) (out : Init)
    → association_seed random ≡ done (tag, tsn, secret)
    → parse_init chunk ≡ done out
    → s.local_vtag ≡ 0
    → s.out_queue ≡ []
    → dispatch random s chunk_init chunk ≡ (
      queued (answering s tag tsn secret out) out.initiate_tag (
          encode_init chunk_init_ack
            (own_init (answering s tag tsn secret out) (make_cookie secret out.initiate_tag))
            chunk_room),
      done tt,
    )
unfolding dispatch handle_init accept_init
init-handled random s tag tsn secret chunk out seed p z q =
    let s' = record (with_peer (with_seed s tag tsn secret) out) {
      peer_num_istreams = out.num_istreams;
      peer_num_ostreams = out.num_ostreams;
    } in
    let answer =
      encode_init chunk_init_ack (own_init s' (make_cookie secret out.initiate_tag)) chunk_room in
    ground (
      arith,
      p,
      z,
      seed,
      queue_chunk-empty s' out.initiate_tag answer q
          (omega (arith, length-answer s' secret out.initiate_tag)),
    )

pub length-echo :
    (cookie : List ℕ) → length cookie ≡ 8 → length (encode_cookie_echo cookie chunk_room) ≡ 12
unfolding encode_cookie_echo padding
length-echo cookie l =
    rw
      (
        le→ltb (u16_max - 4) (length cookie) (omega (arith, l)),
        le→ltb chunk_room (pad4 (4 + length cookie)) (omega (arith, l)),
      )
      (omega (
        arith,
        l,
        length-append cookie (replicate (pad4 (4 + length cookie) - (4 + length cookie)) 0),
        length-replicate {A = ℕ} (pad4 (4 + length cookie) - (4 + length cookie)) 0,
      ))

abbrev pub echoing : Sctp → Init → Sctp
echoing s out = record (with_peer s out) {
  cookie = out.cookie;
  state = cookie_echoed;
  out_queue = [];
}

pub init_ack-handled :
    (random : Random) (s : Sctp) (chunk : List ℕ) (out : Init)
    → s.state ≡ cookie_wait
    → parse_init chunk ≡ done out
    → length out.cookie ≡ 8
    → s.out_queue ≡ []
    → dispatch random s chunk_init_ack chunk ≡ (
      queued (echoing s out) out.initiate_tag (encode_cookie_echo out.cookie chunk_room),
      done tt,
    )
unfolding dispatch handle_init_ack accept_init_ack
init_ack-handled random s chunk out w p l q =
    let s' = record (with_peer s out) { cookie = out.cookie } in
    ground (
      arith,
      w,
      p,
      l,
      queue_chunk-empty s' out.initiate_tag (encode_cookie_echo out.cookie chunk_room) q
          (omega (arith, length-echo out.cookie l)),
    )

same_bytes_refl : (xs : List ℕ) → same_bytes xs xs ≡ true
unfolding same_bytes
same_bytes_refl [] = refl
same_bytes_refl (x ∷ xs) = ground (arith, same_bytes_refl xs)

pub cookie_echo-handled :
    (random : Random) (s : Sctp)
    → s.out_queue ≡ []
    → dispatch random s chunk_cookie_echo
        (encode_cookie_echo (make_cookie s.cookie_secret s.remote_vtag) chunk_room)
      ≡ (
        queued (record s { state = established; out_queue = [] }) s.remote_vtag encode_cookie_ack,
        done tt,
      )
unfolding dispatch handle_cookie_echo slice encode_cookie_echo make_cookie padding encode_cookie_ack
cookie_echo-handled random s q = rw (same_bytes_refl (make_cookie s.cookie_secret s.remote_vtag)) (
    ap (λ r. (record r { state = established }, done tt))
      (queue_chunk-empty s s.remote_vtag encode_cookie_ack q (omega arith)))

pub cookie_ack-handled :
    (random : Random) (s : Sctp) (chunk : List ℕ)
    → s.state ≡ cookie_echoed
    → dispatch random s chunk_cookie_ack chunk ≡ (record s { state = established }, done tt)
unfolding dispatch handle_cookie_ack
cookie_ack-handled random s chunk e = ground (arith, e)
