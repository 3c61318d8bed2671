-- ===== src/Sctp/Incoming/Handlers.antt =====
-- The handlers of data, heartbeats and FORWARD TSN in src/nano_sctp.c do not read outside a chunk.
use nanortc.Prelude.{
  Bool, Bool-cases, List, Option, Outcome, [], ap, arith, bad_state, buffer_too_small, done, error,
  false, fault, get_or, if◌then◌else◌, inl, inr, leb, length, length-set, ltb, none, not, parse,
  protocol_error, read_u16be, read_u32be, refl, slice, some, suc, true, u32, would_block, zero, ℕ,
  ◌%◌, ◌&&◌, ◌*◌, ◌+◌, ◌-◌, ◌/◌, ◌==◌, ◌||◌, ◌∙◌, ◌∷◌, ◌≡◌, ◌≤◌,
}
use nanortc.Prelude.Ensures.{
  Ensures-bind, Ensures-if, Ensures-weaken, fails, read_u16be-Ensures, read_u32be-Ensures, returns,
  slice-Ensures,
}
use nanortc.Sctp.{
  Rx, RxEntry, Sctp, chunk_heartbeat_ack, is_begin, is_end, is_established, max_message_size,
  max_recv_gap, pad4, ssn_lt, stream_of, tsn_le,
}
use nanortc.Sctp.Codec.{Data, encode_heartbeat, parse_data}
use nanortc.Sctp.Codec.Safety.{Safe, parse_data-Safe}
use nanortc.Sctp.Receive.{fragments_follow, gap_drain, holds_tsn, no_stream, reclaim, rx_merge}
use nanortc.Sctp.Receive.Merge.{rx_merge_lem}
use nanortc.Sctp.Receive.Table.{length-gap_drain, length-reclaim_from}
use nanortc.Sctp.Assoc.{chunk_room, out_full, queue_chunk}
use nanortc.Sctp.Incoming.{
  check_previous, discard_stranded, forward_to, free_slot, handle_data_chunk, handle_forward_tsn,
  handle_heartbeat, has_room, incoming_of, mark_forwarded, put_chunk, read_pair, skip_ssn,
  skip_streams, store_chunk,
}
use nanortc.Sctp.Incoming.Sound.{
  IsBounded, Sound, Sound-done, Sound-error, Sound-outcome, Sound-test, queue_chunk-IsBounded,
}

check_previous-Safe : (slots : List RxEntry) (e : RxEntry) → Safe (check_previous slots e)
unfolding check_previous
check_previous-Safe [] e = returns tt
check_previous-Safe (p ∷ slots) e =
    Ensures-if (p.valid && (not p.delivered && (not (is_end p.flags) && u32 (p.tsn + 1) == e.tsn)))
      (λ _.
        Ensures-if (fragments_follow p e)
          (λ _.
            Ensures-if (ltb (max_message_size - p.data_len) e.data_len) (λ _. fails tt)
              (λ _. check_previous-Safe slots e))
          (λ _. fails tt))
      (λ _. check_previous-Safe slots e)

pub Sound-option :
    {B C : Type 0} (o : Option C) (x : Sctp × Outcome B) (f : C → Sctp × Outcome B)
    → Sound x
    → ((c : C) → Sound (f c))
    → Sound {B = B} (elim o [ none ↦ x | some c ↦ f c ])
Sound-option none x f h k = h
Sound-option (some c) x f h k = k c

length-put_chunk :
    (rx : Rx) (i : ℕ) (d : Data) → length (put_chunk rx i d).recv_gap ≡ length rx.recv_gap
unfolding put_chunk
length-put_chunk rx i d =
    length-gap_drain _
    ∙ length-set rx.recv_gap i (record (incoming_of d) { data_offset = length rx.recv_gap_buf })

store_chunk-Sound : (s : Sctp) (d : Data) → IsBounded s → Sound (store_chunk s d)
unfolding store_chunk
store_chunk-Sound s d t =
    Sound-outcome
      (if is_begin d.flags then done tt else check_previous s.rx.recv_gap (incoming_of d)) _ _ _
      (elim (Bool-cases (is_begin d.flags)) [
        | inl h ↦ rw h (returns tt)
        | inr h ↦ rw h (check_previous-Safe s.rx.recv_gap (incoming_of d))
      ])
      (λ _. Sound-option (free_slot s.rx.recv_gap 0 none) _ _ (Sound-error s would_block t) λ i.
        Sound-test (not (has_room s.rx d)) _ _ (λ _. Sound-error s would_block t)
          λ _.
            Sound-option (stream_of s.streams d.stream_id) _ _ (Sound-error s protocol_error t) λ p.
              let (sound, complete, size) =
                rx_merge_lem (put_chunk s.rx i d) (length-put_chunk s.rx i d ∙ t.0) in
              ((size ∙ length-put_chunk s.rx i d ∙ t.0, t.1), sound))
      (λ e. Sound-error s e t)

pub handle_data_chunk-Sound :
    (s : Sctp) (chunk : List ℕ) → IsBounded s → Sound (handle_data_chunk s chunk)
unfolding handle_data_chunk
handle_data_chunk-Sound s chunk t =
    Sound-test (not (is_established s.state)) _ _ (λ _. Sound-error s bad_state t)
      λ _.
        Sound-outcome (parse_data chunk) _ _ _ (parse_data-Safe chunk)
          (λ d.
            Sound-test (ltb max_message_size (length d.payload)) _ _
              (λ _. Sound-error s buffer_too_small t)
              λ _.
                Sound-test (tsn_le d.tsn s.rx.cumulative_tsn) _ _ (λ _. (t, λ f. cc))
                  λ _.
                    let rx = record s.rx { sack_needed = true } in
                    let s2 = record s { rx = reclaim rx } in
                    let t2 : IsBounded s2 = (length-reclaim_from rx max_recv_gap 0 ∙ t.0, t.1) in
                    Sound-test (holds_tsn s2.rx.recv_gap d.tsn) _ _ (λ _. (t2, λ f. cc))
                      (λ _. store_chunk-Sound s2 d t2))
          (λ e. Sound-error s parse t)

pub handle_heartbeat-Sound :
    (s : Sctp) (chunk : List ℕ) → IsBounded s → Sound (handle_heartbeat s chunk)
unfolding handle_heartbeat
handle_heartbeat-Sound s chunk t =
    Sound-test (ltb (length chunk) 8) _ _ (λ _. Sound-error s parse t)
      λ ok.
        let long : 8 ≤ length chunk = ground (arith, ok) in
        Sound-outcome (read_u16be chunk 6) _ _ _
          (Ensures-weaken (read_u16be-Ensures chunk 6 (omega arith)) (λ _ _. tt))
          (λ param_len.
            let info_len = if leb 4 param_len then param_len - 4 else 0 in
            Sound-test (ltb (length chunk) (8 + info_len)) _ _ (λ _. Sound-error s parse t)
              λ fits.
                let inside : 8 + info_len ≤ length chunk = ground (arith, fits) in
                Sound-test (out_full s) _ _ (λ _. Sound-error s would_block t)
                  λ _.
                    Sound-test (ltb chunk_room (pad4 (8 + info_len))) _ _
                      (λ _. Sound-error s buffer_too_small t)
                      λ _.
                        Sound-outcome (slice chunk 8 info_len) _ _ _
                          (Ensures-weaken (slice-Ensures chunk 8 info_len inside) (λ _ _. tt))
                          (λ info.
                            let answer = encode_heartbeat chunk_heartbeat_ack info chunk_room in
                            Sound-done (queue_chunk s s.remote_vtag answer)
                              (queue_chunk-IsBounded s s.remote_vtag answer t))
                          (λ e. Sound-error s e t))
          (λ e. Sound-error s e t)

length-discard_stranded :
    (new_tsn : ℕ) (slots : List RxEntry) → length (discard_stranded new_tsn slots) ≡ length slots
unfolding discard_stranded
length-discard_stranded new_tsn [] = refl
length-discard_stranded new_tsn (e ∷ slots) = ap suc (length-discard_stranded new_tsn slots)

length-mark_forwarded :
    (sid ssn : ℕ) (slots : List RxEntry) → length (mark_forwarded sid ssn slots) ≡ length slots
unfolding mark_forwarded
length-mark_forwarded sid ssn [] = refl
length-mark_forwarded sid ssn (e ∷ slots) = ap suc (length-mark_forwarded sid ssn slots)

read_pair-Safe : (chunk : List ℕ) (pos : ℕ) → pos + 4 ≤ length chunk → Safe (read_pair chunk pos)
unfolding read_pair
read_pair-Safe chunk pos h =
    Ensures-bind (read_u16be-Ensures chunk pos (omega arith))
      λ sid _. Ensures-bind (read_u16be-Ensures chunk (pos + 2) (omega arith)) λ ssn _. returns tt

pub Sound-case :
    {B : Type 0} (b : Bool) (x y : Sctp × Outcome B)
    → (b ≡ true → Sound x)
    → (b ≡ false → Sound y)
    → Sound {B = B} (elim b [ true ↦ x | false ↦ y ])
Sound-case true x y h k = h refl
Sound-case false x y h k = k refl

skip_streams-Sound :
    (n : ℕ) (chunk : List ℕ) (pos : ℕ) (s : Sctp)
    → pos + 4 * n ≤ length chunk
    → IsBounded s
    → Sound (skip_streams n chunk pos s)
unfolding skip_streams
skip_streams-Sound zero chunk pos s h t = Sound-done s t
skip_streams-Sound (suc n) chunk pos s h t =
    Sound-outcome (read_pair chunk pos) _ _ _ (read_pair-Safe chunk pos (omega arith))
      (λ p. Sound-option (stream_of s.streams p.0) _ _ (Sound-error s protocol_error t) λ q.
        Sound-case (ssn_lt p.1 (get_or q.0 q.1 no_stream).recv_ssn) _ _
          (λ _. skip_streams-Sound n chunk (pos + 4) (record s { streams = q.0 }) (omega arith) t)
          (λ _.
            skip_streams-Sound n chunk (pos + 4)
              (record s {
                streams = skip_ssn q.0 q.1 p.1;
                rx = record s.rx { recv_gap = mark_forwarded p.0 p.1 s.rx.recv_gap };
              })
              (omega arith) (length-mark_forwarded p.0 p.1 s.rx.recv_gap ∙ t.0, t.1)))
      (λ e. Sound-error s e t)

-- A step goes on after another one.
pub Sound-then :
    {A B : Type 0} (x : Sctp × Outcome A) (f : Sctp → Sctp × Outcome B)
    → Sound x
    → ((s : Sctp) → IsBounded s → Sound (f s))
    → Sound {B = B} (elim x.1 [ done u ↦ f x.0 | error e ↦ (x.0, error e) | fault ↦ (x.0, fault) ])
Sound-then (s, done u) f h k = k s h.0
Sound-then (s, error e) f h k = (h.0, λ g. cc)
Sound-then (s, fault) f h k = absurd (h.1 refl)

forward_to-Sound :
    (s : Sctp) (new_tsn : ℕ) (chunk : List ℕ)
    → 8 ≤ length chunk
    → IsBounded s
    → Sound (forward_to s new_tsn chunk)
unfolding forward_to
forward_to-Sound s new_tsn chunk long t =
    let rx = record s.rx { cumulative_tsn = new_tsn } in
    let x = rx_merge (max_recv_gap + 1) rx in
    let (sound, complete, size) = rx_merge_lem rx t.0 in
    Sound-then (record s { rx = x.0 }, x.1)
      (λ s1.
        let (s', r') = skip_streams ((length chunk - 8) / 4) chunk 8 (record s1 {
          rx = record s1.rx { recv_gap = discard_stranded new_tsn s1.rx.recv_gap };
        }) in
        elim r' as (λ _. Sctp × Outcome (Unit {0})) [
          | error e ↦ (s', error e)
          | fault ↦ (s', fault)
          | done u' ↦ (record s' { rx = gap_drain s'.rx }, done tt)
        ])
      ((size ∙ t.0, t.1), sound)
      (λ s1 t1.
        Sound-then
          (skip_streams ((length chunk - 8) / 4) chunk 8 (record s1 {
            rx = record s1.rx { recv_gap = discard_stranded new_tsn s1.rx.recv_gap };
          }))
          (λ s'. (record s' { rx = gap_drain s'.rx }, done tt))
          (skip_streams-Sound ((length chunk - 8) / 4) chunk 8 _ (omega arith)
            (length-discard_stranded new_tsn s1.rx.recv_gap ∙ t1.0, t1.1))
          (λ s' t'. ((length-gap_drain s'.rx ∙ t'.0, t'.1), λ f. cc)))

pub handle_forward_tsn-Sound :
    (s : Sctp) (chunk : List ℕ) → IsBounded s → Sound (handle_forward_tsn s chunk)
unfolding handle_forward_tsn
handle_forward_tsn-Sound s chunk t =
    Sound-test (ltb (length chunk) 8 || not ((length chunk - 8) % 4 == 0)) _ _
      (λ _. Sound-error s parse t)
      λ ok.
        let long : 8 ≤ length chunk = ground (arith, ok) in
        Sound-test (not s.peer_forward_tsn) _ _ (λ _. Sound-error s protocol_error t)
          λ _.
            Sound-outcome (read_u32be chunk 4) _ _ _
              (Ensures-weaken (read_u32be-Ensures chunk 4 (omega arith)) (λ _ _. tt))
              (λ new_tsn.
                let s' = record s { rx = record s.rx { sack_needed = true } } in
                Sound-test (tsn_le new_tsn s'.rx.cumulative_tsn) _ _ (λ _. Sound-done s' t)
                  (λ _. forward_to-Sound s' new_tsn chunk long t))
              (λ e. Sound-error s e t)
