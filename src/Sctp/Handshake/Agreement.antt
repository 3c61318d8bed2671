-- ===== src/Sctp/Handshake/Agreement.antt =====
-- The handshake of src/nano_sctp.c brings two endpoints together.
use nanortc.Prelude.{
  IsBytes, List, [], arith, byte-lt, done, drop, false, refl, some, sub32, true, ℕ, ◌<◌, ◌^◌, ◌≡◌,
  ◌≤◌,
}
use nanortc.Sctp.{
  Sctp, chunk_cookie_ack, chunk_cookie_echo, chunk_init, chunk_init_ack, closed, established,
  sctp_mtu,
}
use nanortc.Sctp.Codec.{
  Init, cookie_param, encode_cookie_ack, encode_cookie_echo, encode_init, host_word, init_size,
  padding,
}
use nanortc.Sctp.Codec.Inits.{IsInit, parse_init-encode_init}
use nanortc.Sctp.Assoc.{Random, association_seed, chunk_room, make_cookie, non_zero, own_init}
use nanortc.Sctp.Incoming.{dispatch}
use nanortc.Sctp.Handshake.{
  IsChunk, handle_data-packet_of, handshake, packet_of, packet_of-split, pass, poll_output-queued,
}
use nanortc.Sctp.Handshake.Steps.{
  answering, cookie_ack-handled, cookie_echo-handled, echoing, init-handled, init_ack-handled,
  queued, start-fresh, waiting,
}

-- An endpoint that has not begun: closed, with nothing to send.
pub record IsFresh (s : Sctp) : Type 0 where
  pub not_started : s.state ≡ closed
  pub untagged : s.local_vtag ≡ 0
  pub idle : s.out_queue ≡ []
  pub quiet : s.rx.sack_needed ≡ false

-- The random source succeeds, and gives these bytes at the calls of
-- nsctp_generate_association_seed.
pub record Gives (random : Random) (tag tsn secret : List ℕ) : Type 0 where
  pub first : random 0 4 ≡ some tag
  pub second : random 1 4 ≡ some tsn
  pub third : random 2 16 ≡ some secret
  pub tag_bytes : IsBytes tag
  pub tsn_bytes : IsBytes tsn

host_word_fits : (bytes : List ℕ) → IsBytes bytes → non_zero (host_word bytes) < 2 ^ 32
host_word_fits bytes h =
    ground (arith, byte-lt bytes 0 h, byte-lt bytes 1 h, byte-lt bytes 2 h, byte-lt bytes 3 h)

non_zero_lem : (v : ℕ) → 0 < non_zero v
non_zero_lem v = ground arith

seed-Gives :
    (random : Random) (tag tsn secret : List ℕ)
    → Gives random tag tsn secret
    → association_seed random ≡ done (non_zero (host_word tag), non_zero (host_word tsn), secret)
unfolding association_seed
seed-Gives random tag tsn secret g = ground (arith, g.first, g.second, g.third)

-- A packet that waits at one endpoint is taken and handled by the other.
pass-queued :
    (random : Random) (s t t' : Sctp) (vtag kind : ℕ) (chunk : List ℕ) (cap : ℕ)
    → IsChunk kind chunk
    → sctp_mtu ≤ cap
    → s.rx.sack_needed ≡ false
    → t.out_queue ≡ []
    → dispatch random t kind chunk ≡ (t', done tt)
    → t'.rx.sack_needed ≡ false
    → pass random (queued s vtag chunk) t cap ≡ done (record s { out_queue = [] }, t')
unfolding pass
pass-queued random s t t' vtag kind chunk cap c room q e h k =
    let (split, twelve, v, l) = packet_of-split s vtag chunk in
    rw
      (
        poll_output-queued (queued s vtag chunk) (packet_of s vtag chunk) cap refl
            (omega (arith, l, c.small)) q,
        handle_data-packet_of random t t' s vtag chunk kind c e h k,
      )
      refl

init-IsChunk : (s : Sctp) → IsChunk chunk_init (encode_init chunk_init (own_init s []) chunk_room)
unfolding encode_init init_size cookie_param
init-IsChunk s = record {
  flags = 0;
  body = drop 4 (encode_init chunk_init (own_init s []) chunk_room);
  shape = refl;
  even = omega arith;
  whole = omega arith;
  small = omega arith;
}

answer-IsChunk :
    (s : Sctp) (secret : List ℕ) (tag : ℕ)
    → IsChunk chunk_init_ack
        (encode_init chunk_init_ack (own_init s (make_cookie secret tag)) chunk_room)
unfolding encode_init init_size cookie_param make_cookie padding
answer-IsChunk s secret tag = record {
  flags = 0;
  body = drop 4 (encode_init chunk_init_ack (own_init s (make_cookie secret tag)) chunk_room);
  shape = refl;
  even = omega arith;
  whole = omega arith;
  small = omega arith;
}

echo-IsChunk :
    (secret : List ℕ) (tag : ℕ)
    → IsChunk chunk_cookie_echo (encode_cookie_echo (make_cookie secret tag) chunk_room)
unfolding encode_cookie_echo make_cookie padding
echo-IsChunk secret tag = record {
  flags = 0;
  body = make_cookie secret tag;
  shape = refl;
  even = omega arith;
  whole = omega arith;
  small = omega arith;
}

ack-IsChunk : IsChunk chunk_cookie_ack encode_cookie_ack
unfolding encode_cookie_ack
ack-IsChunk = record {
  flags = 0;
  body = [];
  shape = refl;
  even = omega arith;
  whole = omega arith;
  small = omega arith;
}

-- `s` can send to `t`: it has the tag that `t` expects, and the last TSN before the first of `t`.
pub record IsConnected (s t : Sctp) : Type 0 where
  pub up : s.state ≡ established
  pub tag : s.remote_vtag ≡ t.local_vtag
  pub last_tsn : s.rx.cumulative_tsn ≡ sub32 t.tx.next_tsn 1
  pub can_forward : s.peer_forward_tsn ≡ true
  pub sent : s.out_queue ≡ []

-- The parameters in an INIT or INIT ACK of the endpoint are in range.
own_init-IsInit :
    (s : Sctp) (cookie : List ℕ)
    → s.local_vtag < 2 ^ 32
    → s.tx.next_tsn < 2 ^ 32
    → init_size cookie < 2 ^ 16
    → IsInit (own_init s cookie)
own_init-IsInit s cookie t n l = record {
  tag_word = t;
  rwnd_word = omega arith;
  ostreams_word = omega arith;
  istreams_word = omega arith;
  tsn_word = n;
  short = l;
  forward = refl;
}

-- The two endpoints in the course of the handshake.
module _ (a b : Sctp) (tag_a tsn_a tag_b tsn_b : ℕ) (secret_a secret_b : List ℕ) where
  abbrev asking : Sctp
  asking = waiting a tag_a tsn_a secret_a

  abbrev answered : Sctp
  answered = answering b tag_b tsn_b secret_b (own_init asking [])

  abbrev offer : Init
  offer = own_init answered (make_cookie secret_b tag_a)

  abbrev agreed : Sctp × Sctp
  agreed = (
    record (echoing asking offer) { state = established },
    record answered { state = established; out_queue = [] },
  )

  module _ (random_a random_b : Random) (cap : ℕ) (fresh_a : IsFresh a) (fresh_b : IsFresh b)
      (seed_a : association_seed random_a ≡ done (tag_a, tsn_a, secret_a))
      (seed_b : association_seed random_b ≡ done (tag_b, tsn_b, secret_b)) (ta : tag_a < 2 ^ 32)
      (na : tsn_a < 2 ^ 32) (tb : tag_b < 2 ^ 32) (nb : tsn_b < 2 ^ 32)
      (room : sctp_mtu ≤ cap) where
    asked : List ℕ
    asked = encode_init chunk_init (own_init asking []) chunk_room

    offered : List ℕ
    offered = encode_init chunk_init_ack offer chunk_room

    pass-init :
        pass random_b (queued asking 0 asked) b cap ≡ done (asking, queued answered tag_a offered)
    unfolding asked offered init_size
    pass-init =
        pass-queued random_b asking b (queued answered tag_a offered) 0 chunk_init asked cap
          (init-IsChunk asking) room fresh_a.quiet fresh_b.idle
          (init-handled random_b b tag_b tsn_b secret_b asked (own_init asking []) seed_b
            ((parse_init-encode_init chunk_init (own_init asking []) chunk_room
                (own_init-IsInit asking [] ta na (omega arith))).0
              (omega arith)).0
            fresh_b.untagged fresh_b.idle)
          fresh_b.quiet

    echo : List ℕ
    echo = encode_cookie_echo (make_cookie secret_b tag_a) chunk_room

    pass-init_ack :
        pass random_a (queued answered tag_a offered) asking cap
        ≡ done (answered, queued (echoing asking offer) tag_b echo)
    unfolding offered echo init_size make_cookie
    pass-init_ack =
        pass-queued random_a answered asking (queued (echoing asking offer) tag_b echo) tag_a
          chunk_init_ack offered cap (answer-IsChunk answered secret_b tag_a) room fresh_b.quiet
          refl
          (init_ack-handled random_a asking offered offer refl
            ((parse_init-encode_init chunk_init_ack offer chunk_room
                (own_init-IsInit answered (make_cookie secret_b tag_a) tb nb (omega arith))).0
              (omega arith)).0
            refl refl)
          fresh_a.quiet

    pass-echo :
        pass random_b (queued (echoing asking offer) tag_b echo) answered cap
        ≡ done (echoing asking offer, queued agreed.1 tag_a encode_cookie_ack)
    unfolding echo
    pass-echo =
        pass-queued random_b (echoing asking offer) answered
          (queued agreed.1 tag_a encode_cookie_ack) tag_b chunk_cookie_echo echo cap
          (echo-IsChunk secret_b tag_a) room fresh_a.quiet refl
          (cookie_echo-handled random_b answered refl) fresh_b.quiet

    pass-cookie_ack :
        pass random_a (queued agreed.1 tag_a encode_cookie_ack) (echoing asking offer) cap
        ≡ done (agreed.1, agreed.0)
    pass-cookie_ack =
        pass-queued random_a agreed.1 (echoing asking offer) agreed.0 tag_a chunk_cookie_ack
          encode_cookie_ack cap ack-IsChunk room fresh_b.quiet refl
          (cookie_ack-handled random_a (echoing asking offer) encode_cookie_ack refl) fresh_a.quiet

    handshake-agreed : handshake random_a random_b a b cap ≡ done agreed
    unfolding handshake asked
    handshake-agreed =
        rw
          (
            start-fresh random_a a tag_a tsn_a secret_a seed_a fresh_a.not_started fresh_a.idle,
            pass-init,
            pass-init_ack,
            pass-echo,
            pass-cookie_ack,
          )
          refl

-- Two closed endpoints, each with the local tag 0, an empty output queue, no SACK to send and a
-- random source that gives it bytes, complete the four-way handshake when `a` starts, the four
-- packets are passed on in order and each is polled into a buffer of NANORTC_SCTP_MTU bytes or
-- more. Both are then established with an empty output queue; each sends with the tag that the
-- other expects, takes the TSN before the first one of the other as received, and knows that the
-- other takes FORWARD TSN. No tag is zero.
pub handshake_established :
    (random_a random_b : Random) (a b : Sctp) (cap : ℕ)
    (tag_a tsn_a secret_a tag_b tsn_b secret_b : List ℕ)
    → IsFresh a
    → IsFresh b
    → Gives random_a tag_a tsn_a secret_a
    → Gives random_b tag_b tsn_b secret_b
    → sctp_mtu ≤ cap
    → (a' b' : Sctp) × (handshake random_a random_b a b cap ≡ done (a', b'))
      × IsConnected a' b'
      × IsConnected b' a'
      × (0 < a'.local_vtag)
      × (0 < b'.local_vtag)
handshake_established random_a random_b a b cap tag_a tsn_a secret_a tag_b tsn_b secret_b fresh_a
      fresh_b gives_a gives_b room =
    let ta = non_zero (host_word tag_a) in
    let na = non_zero (host_word tsn_a) in
    let tb = non_zero (host_word tag_b) in
    let nb = non_zero (host_word tsn_b) in
    let ends = agreed a b ta na tb nb secret_a secret_b in
    (
      ends.0,
      ends.1,
      handshake-agreed a b ta na tb nb secret_a secret_b random_a random_b cap fresh_a fresh_b
          (seed-Gives random_a tag_a tsn_a secret_a gives_a)
          (seed-Gives random_b tag_b tsn_b secret_b gives_b)
          (host_word_fits tag_a gives_a.tag_bytes) (host_word_fits tsn_a gives_a.tsn_bytes)
          (host_word_fits tag_b gives_b.tag_bytes) (host_word_fits tsn_b gives_b.tsn_bytes) room,
      record { up = refl; tag = refl; last_tsn = refl; can_forward = refl; sent = refl },
      record { up = refl; tag = refl; last_tsn = refl; can_forward = refl; sent = refl },
      non_zero_lem (host_word tag_a),
      non_zero_lem (host_word tag_b),
    )
