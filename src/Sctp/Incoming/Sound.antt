-- ===== src/Sctp/Incoming/Sound.antt =====
-- The handshake handlers of src/nano_sctp.c do not read outside a chunk; rules for the others.
use nanortc.Prelude.{
  Bool, Bool-cases, Error, List, Outcome, arith, bad_state, done, error, false, fault,
  if◌then◌else◌, inl, inr, length, ltb, not, parse, protocol_error, refl, slice, true, u16, ℕ, ◌++◌,
  ◌+◌, ◌-◌, ◌==◌, ◌||◌, ◌≡◌, ◌≢◌, ◌≤◌,
}
use nanortc.Prelude.Ensures.{Ensures, Ensures-option, Ensures-weaken, fails, returns, slice-Ensures}
use nanortc.Sctp.{Sctp, cookie_size, max_recv_gap, sctp_mtu}
use nanortc.Sctp.Codec.{Init, encode_cookie_ack, encode_header, parse_init}
use nanortc.Sctp.Codec.Safety.{Safe, parse_init-Safe}
use nanortc.Sctp.Transmit.{handle_sack}
use nanortc.Sctp.Assoc.{
  Random, accept_init, accept_init_ack, association_seed, handle_cookie_ack, handle_cookie_echo,
  handle_init, handle_init_ack, is_cookie_echoed, is_cookie_wait, make_cookie, out_full,
  queue_chunk, same_bytes, with_seed,
}
use nanortc.Sctp.Transmit.Bounds.{handle_sack-IsTx}
use nanortc.Sctp.Transmit.Within.{IsTx}
use nanortc.Sctp.Incoming.{handle_sack_chunk}

-- The receive table has its size, and the send queue is within its bounds.
abbrev pub IsBounded : Sctp → Type 0
IsBounded s = (length s.rx.recv_gap ≡ max_recv_gap) × IsTx s.tx

-- A step that does not fault and leaves a bounded state.
abbrev pub Sound : {B : Type 0} → Sctp × Outcome B → Type 0
Sound x = IsBounded x.0 × (x.1 ≢ fault)

pub Sound-done : (s : Sctp) → IsBounded s → Sound (s, done tt)
Sound-done s t = (t, λ f. cc)

pub Sound-error : {B : Type 0} (s : Sctp) (e : Error) → IsBounded s → Sound {B = B} (s, error e)
Sound-error s e t = (t, λ f. cc)

pub Sound-test :
    {B : Type 0} (b : Bool) (x y : Sctp × Outcome B)
    → (b ≡ true → Sound x)
    → (b ≡ false → Sound y)
    → Sound (if b then x else y)
Sound-test true x y h k = h refl
Sound-test false x y h k = k refl

pub Sound-outcome :
    {A B : Type 0} (m : Outcome A) (f : A → Sctp × Outcome B) (g : Error → Sctp × Outcome B)
    (x : Sctp × Outcome B)
    → Safe m
    → ((a : A) → Sound (f a))
    → ((e : Error) → Sound (g e))
    → Sound {B = B} (elim m [ done a ↦ f a | error e ↦ g e | fault ↦ x ])
Sound-outcome m f g x (returns {a = a} p) h k = h a
Sound-outcome m f g x (fails {e = e} p) h k = k e

pub Sound-outcome_at :
    {A B : Type 0} {P : A → Type 0} (m : Outcome A) (f : A → Sctp × Outcome B)
    (g : Error → Sctp × Outcome B) (x : Sctp × Outcome B)
    → Ensures (λ _. Unit {0}) P m
    → ((a : A) → P a → Sound (f a))
    → ((e : Error) → Sound (g e))
    → Sound {B = B} (elim m [ done a ↦ f a | error e ↦ g e | fault ↦ x ])
Sound-outcome_at m f g x (returns {a = a} p) h k = h a p
Sound-outcome_at m f g x (fails {e = e} p) h k = k e

pub queue_chunk-IsBounded :
    (s : Sctp) (vtag : ℕ) (chunk : List ℕ) → IsBounded s → IsBounded (queue_chunk s vtag chunk)
unfolding queue_chunk
queue_chunk-IsBounded s vtag chunk t =
    elim (Bool-cases (
      out_full s
      || ltb sctp_mtu (length (encode_header s.local_port s.remote_port vtag ++ chunk)))) [
        | inl h ↦ rw h t
        | inr h ↦ rw h t
      ]

pub with_seed-IsBounded :
    (s : Sctp) (tag tsn : ℕ) (secret : List ℕ)
    → IsBounded s
    → IsBounded (with_seed s tag tsn secret)
with_seed-IsBounded s tag tsn secret (size, v) = (
  size,
  record {
    queue_room = v.queue_room;
    buf_room = v.buf_room;
    inside = v.inside;
    rto_low = v.rto_low;
    rto_high = v.rto_high;
  },
)

pub association_seed-Safe : (random : Random) → Safe (association_seed random)
unfolding association_seed
association_seed-Safe random = Ensures-option (random 0 4) (fails tt) λ tag.
    Ensures-option (random 1 4) (fails tt)
      λ tsn. Ensures-option (random 2 16) (fails tt) λ secret. returns tt

accept_init-IsBounded : (s : Sctp) (out : Init) → IsBounded s → IsBounded (accept_init s out)
unfolding accept_init
accept_init-IsBounded s out t = queue_chunk-IsBounded _ _ _ t

pub handle_init-Sound :
    (random : Random) (s : Sctp) (chunk : List ℕ) → IsBounded s → Sound (handle_init random s chunk)
unfolding handle_init
handle_init-Sound random s chunk t =
    Sound-outcome (parse_init chunk) _ _ _ (parse_init-Safe chunk)
      (λ out.
        Sound-test (s.local_vtag == 0) _ _
          (λ _.
            Sound-outcome (association_seed random) _ _ _ (association_seed-Safe random)
              (λ seed. Sound-done (accept_init (with_seed s seed.0 seed.1 seed.2) out) (
                accept_init-IsBounded (with_seed s seed.0 seed.1 seed.2) out
                  (with_seed-IsBounded s seed.0 seed.1 seed.2 t)))
              (λ e. Sound-error s e t))
          (λ _. Sound-done (accept_init s out) (accept_init-IsBounded s out t)))
      (λ e. Sound-error s parse t)

pub handle_init_ack-Sound :
    (s : Sctp) (chunk : List ℕ) → IsBounded s → Sound (handle_init_ack s chunk)
unfolding handle_init_ack accept_init_ack
handle_init_ack-Sound s chunk t =
    Sound-test (not (is_cookie_wait s.state)) _ _ (λ _. Sound-error s bad_state t)
      λ _.
        Sound-outcome (parse_init chunk) _ _ _ (parse_init-Safe chunk)
          (λ out.
            Sound-test (length out.cookie == 0 || ltb cookie_size (length out.cookie)) _ _
              (λ _. Sound-error s protocol_error t) (λ _. (queue_chunk-IsBounded _ _ _ t, λ f. cc)))
          (λ e. Sound-error s parse t)

pub handle_cookie_echo-Sound :
    (s : Sctp) (chunk : List ℕ) → IsBounded s → Sound (handle_cookie_echo s chunk)
unfolding handle_cookie_echo
handle_cookie_echo-Sound s chunk t =
    Sound-test (ltb (u16 (length chunk - 4)) 8) _ _ (λ _. Sound-error s protocol_error t)
      λ ok.
        let inside : 4 + 8 ≤ length chunk = ground (arith, ok) in
        Sound-outcome (slice chunk 4 8) _ _ _
          (Ensures-weaken (slice-Ensures chunk 4 8 inside) (λ _ _. tt))
          (λ received.
            Sound-test (not (same_bytes received (make_cookie s.cookie_secret s.remote_vtag))) _ _
              (λ _. Sound-error s protocol_error t)
              (λ _. (queue_chunk-IsBounded s s.remote_vtag encode_cookie_ack t, λ f. cc)))
          (λ e. Sound-error s e t)

pub handle_cookie_ack-Sound : (s : Sctp) → IsBounded s → Sound (handle_cookie_ack s)
unfolding handle_cookie_ack
handle_cookie_ack-Sound s t =
    Sound-test (is_cookie_echoed s.state) _ _ (λ _. (t, λ f. cc)) (λ _. Sound-error s bad_state t)

pub handle_sack_chunk-Sound :
    (s : Sctp) (chunk : List ℕ) → IsBounded s → Sound (handle_sack_chunk s chunk)
unfolding handle_sack_chunk
handle_sack_chunk-Sound s chunk t =
    Sound-outcome_at (handle_sack s.tx chunk) _ _ _ (handle_sack-IsTx s.tx chunk t.1)
      (λ tx v. ((t.0, v), λ f. cc)) (λ e. Sound-error s e t)
