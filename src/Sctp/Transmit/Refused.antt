-- ===== src/Sctp/Transmit/Refused.antt =====
-- What nsctp_send_options refuses, and why.
use nanortc.Prelude.{
  Bool, Error, List, Option, Outcome, arith, bad_state, buffer_too_small, done, error, false, fault,
  inl, inr, invalid_param, length, ltb, none, not, not_implemented, refl, some, true, u16_max,
  would_block, ℕ, ◌&&◌, ◌+◌, ◌<◌, ◌==◌, ◌||◌, ◌≡◌, ◌⊎◌,
}
use nanortc.Sctp.{
  Sctp, Stream, is_established, max_message_size, max_send_queue, send_buf_size, stream_of,
}
use nanortc.Sctp.Transmit.{fragment_count, send_checks, send_options}
use nanortc.Prelude.Ensures.{Ensures, Ensures-bind, Ensures-weaken, fail_if-Ensures, fails, returns}

-- What an error of nsctp_send_options tells of the call.
abbrev pub Reason : Sctp → ℕ → ℕ → Option ℕ → Error → Type 0
Reason s stream_id len m bad_state = is_established s.state ≡ false
Reason s stream_id len m invalid_param = (r : ℕ) × (m ≡ some r) × (u16_max < r)
Reason s stream_id len m not_implemented = ((r : ℕ) × (m ≡ some r)) × (s.peer_forward_tsn ≡ false)
Reason s stream_id len m would_block =
    (max_send_queue < length s.tx.send_queue + fragment_count len)
    ⊎ (send_buf_size < length s.tx.send_buf + len)
Reason s stream_id len m buffer_too_small =
    (max_message_size < len)
    ⊎ (send_buf_size < len)
    ⊎ ((0 < s.peer_max_message_size) × (s.peer_max_message_size < len))
    ⊎ (max_send_queue < fragment_count len)
    ⊎ (stream_of s.streams stream_id ≡ none)
Reason s stream_id len m e = ⊥

bound_told :
    (s : Sctp) (stream_id len : ℕ) (m : Option ℕ)
    → elim m as (λ _. Bool) [ none ↦ false | some r ↦ ltb u16_max r ] ≡ true
    → Reason s stream_id len m invalid_param
bound_told s stream_id len none t = absurd (cc)
bound_told s stream_id len (some r) t = (r, refl, ground (arith, t))

support_told :
    (s : Sctp) (stream_id len : ℕ) (m : Option ℕ)
    → elim m as (λ _. Bool) [ none ↦ false | some r ↦ not s.peer_forward_tsn ] ≡ true
    → Reason s stream_id len m not_implemented
support_told s stream_id len none t = absurd (cc)
support_told s stream_id len (some r) t = ((r, refl), ground (arith, t))

size_told :
    (s : Sctp) (stream_id len : ℕ) (m : Option ℕ)
    → (ltb max_message_size len
        || (ltb send_buf_size len
            || (not (s.peer_max_message_size == 0) && ltb s.peer_max_message_size len)))
      ≡ true
    → Reason s stream_id len m buffer_too_small
size_told s stream_id len m t = ground (arith, t)

send_checks-Ensures :
    (s : Sctp) (stream_id len : ℕ) (m : Option ℕ)
    → Ensures (Reason s stream_id len m) (λ _. Unit {0}) (send_checks s len m)
unfolding send_checks
send_checks-Ensures s stream_id len m =
    Ensures-bind (fail_if-Ensures _ bad_state (λ t. ground (arith, t))) λ _ _.
      Ensures-bind (fail_if-Ensures _ invalid_param (bound_told s stream_id len m)) λ _ _.
        Ensures-bind (fail_if-Ensures _ not_implemented (support_told s stream_id len m)) λ _ _.
          Ensures-bind (fail_if-Ensures _ buffer_too_small (size_told s stream_id len m)) λ _ _.
            Ensures-bind
              (fail_if-Ensures _ buffer_too_small (λ t. inr (inr (inr (inl (ground (arith, t)))))))
              λ _ _.
                Ensures-weaken (fail_if-Ensures _ would_block (λ t. ground (arith, t))) λ _ _. tt

-- A result that is taken, or refused with the state as it was.
abbrev Settled : Sctp → ℕ → ℕ → Option ℕ → Sctp × Outcome (Unit {0}) → Type 0
Settled s stream_id len m r =
    (r.1 ≡ done tt) ⊎ ((e : Error) × (r ≡ (s, error e)) × Reason s stream_id len m e)

after_checks :
    (s : Sctp) (stream_id len : ℕ) (m : Option ℕ) (r : Outcome (Unit {0}))
    (f : Unit {0} → Sctp × Outcome (Unit {0}))
    → Ensures (Reason s stream_id len m) (λ _. Unit {0}) r
    → Settled s stream_id len m (f tt)
    → Settled s stream_id len m
        (elim r [ done u ↦ f u | error e ↦ (s, error e) | fault ↦ (s, fault) ])
after_checks s stream_id len m r f (returns u) k = k
after_checks s stream_id len m r f (fails {e = e} h) k = inr (e, refl, h)

after_stream :
    (s : Sctp) (stream_id len : ℕ) (m : Option ℕ) (o : Option (List Stream × ℕ))
    (f : List Stream × ℕ → Sctp)
    → stream_of s.streams stream_id ≡ o
    → Settled s stream_id len m
        (elim o [ none ↦ (s, error buffer_too_small) | some c ↦ (f c, done tt) ])
after_stream s stream_id len m none f h = inr (buffer_too_small, refl, inr (inr (inr (inr h))))
after_stream s stream_id len m (some c) f h = inl refl

-- nsctp_send_options either takes the message, or returns an error and leaves the association as it
-- was, and the error tells the reason.
pub send_options_settled :
    (s : Sctp) (stream_id ppid : ℕ) (bytes : List ℕ) (unordered : Bool) (m : Option ℕ)
    → ((send_options s stream_id ppid bytes unordered m).1 ≡ done tt)
      ⊎ ((e : Error) × (send_options s stream_id ppid bytes unordered m ≡ (s, error e))
          × Reason s stream_id (length bytes) m e)
unfolding send_options
send_options_settled s stream_id ppid bytes unordered m =
    after_checks s stream_id (length bytes) m (send_checks s (length bytes) m) _
      (send_checks-Ensures s stream_id (length bytes) m)
      (after_stream s stream_id (length bytes) m (stream_of s.streams stream_id) _ refl)
