-- ===== src/Sctp/Receive/Deliver.antt =====
-- nsctp_poll_delivery of src/nano_sctp.c keeps the table.
use nanortc.Prelude.{
  Bool, List, Option, Outcome, [], done, error, false, fault, length, length-set, ltb, none, not,
  refl, some, suc, true, u32, zero, ℕ, ◌&&◌, ◌+◌, ◌-◌, ◌∙◌, ◌∷◌, ◌≡◌, ◌≢◌,
}
use nanortc.Prelude.Ensures.{
  Ensures, Ensures-bind, Ensures-if, Ensures-ne_fault, Ensures-option, fails, returns,
}
use nanortc.Sctp.{Rx, Stream, is_begin, is_end, max_message_size, max_recv_gap, stream_of}
use nanortc.Sctp.Codec.Safety.{Safe}
use nanortc.Sctp.Receive.{
  Message, collect, deliver, find_tsn, follows_last, gather, in_turn, poll_from, rx_move, set_slot,
  slot,
}
use nanortc.Sctp.Receive.Merge.{length-valids_eq, valids, valids-rx_move}

length-rx_move : (rx : Rx) (i pos : ℕ) → length (rx_move rx i pos).recv_gap ≡ length rx.recv_gap
length-rx_move rx i pos =
    length-valids_eq (rx_move rx i pos).recv_gap rx.recv_gap (valids rx.recv_gap)
      (valids-rx_move rx i pos) refl

length-gather :
    (rx : Rx) (parts : List ℕ) (pos : ℕ)
    → length (gather rx parts pos).recv_gap ≡ length rx.recv_gap
unfolding gather
length-gather rx [] pos = refl
length-gather rx (j ∷ parts) pos =
    let rx' = rx_move rx j pos in
    let e = slot rx' j in
    length-gather (set_slot rx' j (record e { delivered = true })) parts (pos + e.data_len)
    ∙ length-set rx'.recv_gap j (record e { delivered = true })
    ∙ length-rx_move rx j pos

collect-Safe :
    (k : ℕ) (rx : Rx) (tsn : ℕ) (last : Option ℕ) (total : ℕ) → Safe (collect k rx tsn last total)
unfolding collect
collect-Safe zero rx tsn last total = returns tt
collect-Safe (suc k) rx tsn last total =
    Ensures-option (find_tsn rx tsn max_recv_gap 0) (returns tt) λ j.
      Ensures-if (follows_last rx last j)
        (λ _.
          Ensures-if (ltb (max_message_size - total) (slot rx j).data_len) (λ _. fails tt)
            (λ _.
              Ensures-if (is_end (slot rx j).flags) (λ _. returns tt)
                (λ _.
                  Ensures-bind
                    (collect-Safe k rx (u32 (tsn + 1)) (some j) (total + (slot rx j).data_len))
                    λ r _. returns tt)))
        (λ _. fails tt)

-- A delivery keeps the size of the table.
abbrev pub Delivers : Rx → Option (Rx × List Stream × Message) → Type 0
Delivers rx none = Unit {0}
Delivers rx (some (rx', streams, m)) = length rx'.recv_gap ≡ length rx.recv_gap

deliver-Delivers :
    (rx : Rx) (streams : List Stream) (stream i : ℕ)
    → Ensures (λ _. Unit {0}) (Delivers rx) (deliver rx streams stream i)
unfolding deliver
deliver-Delivers rx streams stream i =
    Ensures-bind (collect-Safe max_recv_gap rx (slot rx i).tsn none 0)
      λ r _. Ensures-option r (returns tt) λ p. returns (length-gather rx p.0 0)

-- Where the search for a message ends.
abbrev pub Found : Rx → Rx × List Stream × Outcome Message → Type 0
Found rx x = (length x.0.recv_gap ≡ length rx.recv_gap) × (x.2 ≢ fault)

Found-case :
    (rx : Rx) (b : Bool) (x y : Rx × List Stream × Outcome Message)
    → Found rx x
    → Found rx y
    → Found rx (elim b [ true ↦ x | false ↦ y ])
Found-case rx true x y h k = h
Found-case rx false x y h k = k

Found-option :
    {C : Type 0} (rx : Rx) (o : Option C) (x : Rx × List Stream × Outcome Message)
    (f : C → Rx × List Stream × Outcome Message)
    → Found rx x
    → ((c : C) → Found rx (f c))
    → Found rx (elim o [ none ↦ x | some c ↦ f c ])
Found-option rx none x f h k = h
Found-option rx (some c) x f h k = k c

Found-delivered :
    (rx : Rx) (streams : List Stream) (r : Outcome (Option (Rx × List Stream × Message)))
    (x : Rx × List Stream × Outcome Message)
    → Ensures (λ _. Unit {0}) (Delivers rx) r
    → Found rx x
    → Found rx (elim r [
      | done (some (rx', streams', m)) ↦ (rx', streams', done m)
      | done none ↦ x
      | error err ↦ (rx, streams, error err)
      | fault ↦ (rx, streams, fault)
    ])
Found-delivered rx streams (done none) x h k = k
Found-delivered rx streams (done (some (rx', streams', m))) x (returns p) k = (p, λ f. cc)
Found-delivered rx streams (error err) x h k = (refl, λ f. cc)
Found-delivered rx streams fault x h k = absurd (Ensures-ne_fault h refl)

pub poll_from-Found :
    (rx : Rx) (streams : List Stream) (n i : ℕ) → Found rx (poll_from rx streams n i)
unfolding poll_from
poll_from-Found rx streams zero i = (refl, λ f. cc)
poll_from-Found rx streams (suc n) i =
    let e = slot rx i in
    Found-case rx (e.valid && (not e.delivered && is_begin e.flags)) _ _
      (Found-option rx (stream_of streams e.stream_id) _ _ (poll_from-Found rx streams n (i + 1))
        λ p.
          Found-case rx (in_turn rx p.0 p.1 e) _ _
            (Found-delivered rx p.0 (deliver rx p.0 p.1 i) _ (deliver-Delivers rx p.0 p.1 i)
              (poll_from-Found rx p.0 n (i + 1)))
            (poll_from-Found rx p.0 n (i + 1)))
      (poll_from-Found rx streams n (i + 1))
