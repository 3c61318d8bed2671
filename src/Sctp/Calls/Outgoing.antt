-- ===== src/Sctp/Calls/Outgoing.antt =====
-- What src/nano_sctp.c sends stays within the bounds.
use nanortc.Prelude.{
  Bool, List, Option, Outcome, [], bad_state, buffer_too_small, crypto_failed, done, error, false,
  fault, if◌then◌else◌, invalid_param, length, ltb, no_data, not, not_implemented, parse,
  protocol_error, refl, true, would_block, ℕ, ◌&&◌, ◌*◌, ◌+◌, ◌==◌, ◌||◌, ◌∷◌,
}
use nanortc.Prelude.Ensures.{Ensures-bind, returns, slice-Ensures}
use nanortc.Clock.{elapsed}
use nanortc.Sctp.{
  Sctp, SendEntry, Tx, chunk_heartbeat, chunk_init, closed, cookie_wait, heartbeat_interval_ms,
  is_established, pad4, stream_of,
}
use nanortc.Sctp.Codec.Safety.{Safe}
use nanortc.Sctp.Codec.{encode_heartbeat, encode_init}
use nanortc.Sctp.Transmit.{entry, expire_from, forward_timer, send_checks, send_options, ssn_of}
use nanortc.Sctp.Transmit.Within.{IsTx, Within}
use nanortc.Sctp.Transmit.Bounds.{
  Expired, enqueue-IsTx, entry-Within, expire_from-Expired, forward_timer-IsTx, send_checks-HasRoom,
  set_entry-IsTx,
}
use nanortc.Sctp.Assoc.{
  Random, association_seed, chunk_room, is_closed, out_full, own_init, queue_chunk, start,
  with_seed,
}
use nanortc.Sctp.Incoming.{queue_sack}
use nanortc.Sctp.Incoming.Sound.{
  IsBounded, Sound, Sound-done, Sound-error, Sound-outcome, Sound-outcome_at, Sound-test,
  association_seed-Safe, queue_chunk-IsBounded, with_seed-IsBounded,
}
use nanortc.Sctp.Incoming.Handlers.{Sound-option, Sound-then}
use nanortc.Sctp.Incoming.Safety.{queue_sack-Sound}
use nanortc.Sctp.Output.{
  beat, collect_skipped, data_packet, first_unsent, forward_output, handle_timeout, poll_data,
  poll_output, poll_queue,
}

pub start-Sound : (random : Random) (s : Sctp) → IsBounded s → Sound (start random s)
unfolding start
start-Sound random s t =
    Sound-test (not (is_closed s.state)) _ _ (λ _. Sound-error s bad_state t)
      λ _.
        Sound-test (out_full s) _ _ (λ _. Sound-error s would_block t)
          λ _.
            Sound-outcome (association_seed random) _ _ _ (association_seed-Safe random)
              (λ seed.
                let s' = with_seed s seed.0 seed.1 seed.2 in
                let chunk = encode_init chunk_init (own_init s' []) chunk_room in
                Sound-done (record (queue_chunk s' 0 chunk) { state = cookie_wait })
                  (queue_chunk-IsBounded s' 0 chunk (with_seed-IsBounded s seed.0 seed.1 seed.2 t)))
              (λ e. Sound-error s e t)

pub send_options-Sound :
    (s : Sctp) (stream_id ppid : ℕ) (bytes : List ℕ) (unordered : Bool) (m : Option ℕ)
    → IsBounded s
    → Sound (send_options s stream_id ppid bytes unordered m)
unfolding send_options
send_options-Sound s stream_id ppid bytes unordered m t =
    Sound-outcome_at (send_checks s (length bytes) m) _ _ _
      (send_checks-HasRoom s (length bytes) m t.1)
      (λ _ room.
        Sound-option (stream_of s.streams stream_id) _ _ (Sound-error s buffer_too_small t) λ p. (
          (
            t.0,
            enqueue-IsTx s.tx stream_id (if unordered then 0 else ssn_of p.0 p.1) ppid bytes
                unordered m t.1 room,
          ),
          λ f. cc,
        ))
      (λ e. Sound-error s e t)

beat-Sound : (random : Random) (s : Sctp) (now_ms : ℕ) → IsBounded s → Sound (beat random s now_ms)
unfolding beat
beat-Sound random s now_ms t =
    Sound-test
      (s.heartbeat_pending
        || (ltb (elapsed now_ms s.last_heartbeat_ms) heartbeat_interval_ms || out_full s))
      _ _ (λ _. Sound-done s t)
      λ _. Sound-option (random 0 8) _ _ (Sound-error s crypto_failed t) λ nonce.
        let chunk = encode_heartbeat chunk_heartbeat nonce chunk_room in
        Sound-done
          (record (queue_chunk s s.remote_vtag chunk) {
            heartbeat_nonce = nonce;
            heartbeat_pending = true;
            last_heartbeat_ms = now_ms;
          })
          (queue_chunk-IsBounded s s.remote_vtag chunk t)

-- What comes after the loop over the send queue.
after_expiry-Sound :
    (s : Sctp) (x : Tx × Outcome (Unit {0})) (f : Tx → Sctp × Outcome (Unit {0}))
    → IsBounded s
    → Expired x
    → ((tx : Tx) → IsTx tx → Sound (f tx))
    → Sound {B = Unit {0}} (elim x.1 [
      | error e ↦ (record s { tx = x.0; state = closed; closed_due_to_failure = true }, error e)
      | fault ↦ (record s { tx = x.0 }, fault)
      | done u ↦ f x.0
    ])
after_expiry-Sound s (tx, done u) f t v k = k tx v.0
after_expiry-Sound s (tx, error e) f t v k = ((t.0, v.0), λ g. cc)
after_expiry-Sound s (tx, fault) f t v k = absurd (v.1 refl)

pub handle_timeout-Sound :
    (random : Random) (s : Sctp) (now_ms : ℕ) → IsBounded s → Sound (handle_timeout random s now_ms)
unfolding handle_timeout
handle_timeout-Sound random s now_ms t =
    let s' = record s { now_ms = now_ms } in
    Sound-test (not (is_established s.state)) _ _ (λ _. Sound-done s' t)
      λ _.
        after_expiry-Sound s' (expire_from (length s.tx.send_queue) 0 now_ms s.tx)
          (λ tx. beat random (record s' { tx = forward_timer tx now_ms }) now_ms) t
          (expire_from-Expired (length s.tx.send_queue) 0 now_ms s.tx t.1)
          (λ tx v.
            beat-Sound random (record s' { tx = forward_timer tx now_ms }) now_ms
              (t.0, forward_timer-IsTx tx now_ms v))

forwarded-IsTx :
    (tx : Tx) (pending : Bool) (sent : ℕ)
    → IsTx tx
    → IsTx (record tx { forward_pending = pending; forward_sent_at_ms = sent })
forwarded-IsTx tx pending sent v = record {
  queue_room = v.queue_room;
  buf_room = v.buf_room;
  inside = v.inside;
  rto_low = v.rto_low;
  rto_high = v.rto_high;
}

forward_output-Sound : (s : Sctp) (cap : ℕ) → IsBounded s → Sound (forward_output s cap)
unfolding forward_output
forward_output-Sound s cap t =
    let k =
      collect_skipped s.tx.send_queue (record { advanced = 0; skipped = false; pairs = [] }) in
    Sound-test (not k.skipped) _ _
      (λ _. ((t.0, forwarded-IsTx s.tx false s.tx.forward_sent_at_ms t.1), λ f. cc))
      λ _.
        Sound-test (ltb cap (20 + 4 * length k.pairs)) _ _ (λ _. Sound-error s buffer_too_small t)
          (λ _. ((t.0, forwarded-IsTx s.tx false s.now_ms t.1), λ f. cc))

data_packet-Safe :
    (s : Sctp) (e : SendEntry) → Within (length s.tx.send_buf) e → Safe (data_packet s e)
unfolding data_packet
data_packet-Safe s e w =
    Ensures-bind (slice-Ensures s.tx.send_buf e.data_offset e.data_len w.0) λ payload _. returns tt

poll_data-Sound : (s : Sctp) (buf_len : ℕ) → IsBounded s → Sound (poll_data s buf_len)
unfolding poll_data
poll_data-Sound s buf_len t =
    Sound-test (not (is_established s.state)) _ _ (λ _. Sound-error s no_data t)
      λ _. Sound-option (first_unsent s.tx.send_queue) _ _ (Sound-error s no_data t) λ i.
        Sound-test (ltb buf_len (12 + pad4 (16 + (entry s.tx i).data_len))) _ _
          (λ _. Sound-error s buffer_too_small t)
          λ _.
            Sound-outcome (data_packet s (entry s.tx i)) _ _ _
              (data_packet-Safe s (entry s.tx i) (entry-Within s.tx i t.1))
              (λ packet. (
                (
                  t.0,
                  set_entry-IsTx s.tx i
                      (record (entry s.tx i) { in_flight = true; sent_at_ms = s.now_ms }) t.1
                      (entry-Within s.tx i t.1),
                ),
                λ f. cc,
              ))
              (λ e. Sound-error s e t)

-- The answer of nsctp_forward_output, and the chunks if it has none.
forwarded-Sound :
    (x : Sctp × Outcome (List ℕ)) (f : Sctp → Sctp × Outcome (List ℕ))
    → Sound x
    → ((s : Sctp) → IsBounded s → Sound (f s))
    → Sound {B = List ℕ} (elim x.1 [
      | done packet ↦ (x.0, done packet)
      | error no_data ↦ f x.0
      | error e ↦ (x.0, error e)
      | fault ↦ (x.0, fault)
    ])
forwarded-Sound (s, done packet) f h k = h
forwarded-Sound (s, error no_data) f h k = k s h.0
forwarded-Sound (s, error invalid_param) f h k = h
forwarded-Sound (s, error buffer_too_small) f h k = h
forwarded-Sound (s, error parse) f h k = h
forwarded-Sound (s, error protocol_error) f h k = h
forwarded-Sound (s, error not_implemented) f h k = h
forwarded-Sound (s, error bad_state) f h k = h
forwarded-Sound (s, error would_block) f h k = h
forwarded-Sound (s, error crypto_failed) f h k = h
forwarded-Sound (s, fault) f h k = h

-- A match on a queue.
Sound-queue :
    (q : List (List ℕ)) (x : Sctp × Outcome (List ℕ))
    (f : List ℕ → List (List ℕ) → Sctp × Outcome (List ℕ))
    → Sound x
    → ((p : List ℕ) (rest : List (List ℕ)) → Sound (f p rest))
    → Sound {B = List ℕ} (elim q [ [] ↦ x | p ∷ rest ↦ f p rest ])
Sound-queue [] x f h k = h
Sound-queue (p ∷ rest) x f h k = k p rest

poll_queue-Sound : (s : Sctp) (buf_len : ℕ) → IsBounded s → Sound (poll_queue s buf_len)
unfolding poll_queue
poll_queue-Sound s buf_len t =
    Sound-queue s.out_queue _ _
      (Sound-test s.tx.forward_pending _ _
        (λ _.
          forwarded-Sound (forward_output s buf_len) (λ s'. poll_data s' buf_len)
            (forward_output-Sound s buf_len t) (λ s' t'. poll_data-Sound s' buf_len t'))
        (λ _. poll_data-Sound s buf_len t))
      (λ p rest.
        Sound-test (ltb buf_len (length p)) _ _ (λ _. Sound-error s buffer_too_small t)
          (λ _. (t, λ f. cc)))

pub poll_output-Sound : (s : Sctp) (buf_len : ℕ) → IsBounded s → Sound (poll_output s buf_len)
unfolding poll_output
poll_output-Sound s buf_len t =
    Sound-test (s.rx.sack_needed && length s.out_queue == 0) _ _
      (λ _.
        Sound-then (queue_sack s buf_len) (λ s'. poll_queue s' buf_len)
          (queue_sack-Sound s buf_len t) (λ s' t'. poll_queue-Sound s' buf_len t'))
      (λ _. poll_queue-Sound s buf_len t)
