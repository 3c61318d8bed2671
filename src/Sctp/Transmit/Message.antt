-- ===== src/Sctp/Transmit/Message.antt =====
-- A message that nsctp_send_options of src/nano_sctp.c takes, as chunks of the queue.
use mathlib.Core.Path.{subst}
use nanortc.Prelude.{
  ==_ne, Bool, Error, List, Option, Outcome, [], ap, ap₂, arith, buffer_too_small, done, drop,
  drop-append, drop-drop, error, fail_if, false, fault, if◌then◌else◌, inl, inr, leb, length, ltb,
  none, refl, some, suc, sym, take, take-add, take_all, true, u16, u16_max, u32, zero, ℕ, ◌&&◌, ◌*◌,
  ◌++◌, ◌+◌, ◌-◌, ◌<◌, ◌==◌, ◌^◌, ◌∙◌, ◌∷◌, ◌≡◌, ◌≤◌, ◌⊎◌,
}
use nanortc.Sctp.{
  Sctp, SendEntry, Stream, Tx, established, is_begin, is_end, is_established, is_unordered,
  max_message_size, stream_of,
}
use nanortc.Sctp.Transmit.{
  enqueue, fragment_count, fragments, mtu_payload, no_entry, send_checks, send_options, ssn_of,
}
use nanortc.Prelude.Ensures.{Ensures, fails, returns}
use nanortc.Sctp.Transmit.Within.{AllWithin, IsTx}
use nanortc.Sctp.Transmit.Bounds.{HasRoom, length-fragments, send_checks-HasRoom}

-- The bytes of the chunks, one after another.
unfoldable pub payloads : List ℕ → List SendEntry → List ℕ
payloads buf [] = []
payloads buf (e ∷ queue) = take e.data_len (drop e.data_offset buf) ++ payloads buf queue

-- The chunks of one message as a receiver expects them: numbers in sequence from `tsn`, the begin
-- flag on the first alone, the end flag on the last alone, one stream, one number in it, one
-- protocol, and no chunk longer than a packet takes.
abbrev pub IsMessage : Bool → ℕ → Bool → ℕ → ℕ → ℕ → List SendEntry → Type 0
IsMessage first tsn unordered stream_id ssn ppid [] = Unit {0}
IsMessage first tsn unordered stream_id ssn ppid (e ∷ queue) =
    (e.tsn ≡ tsn)
    × (is_begin e.flags ≡ first)
    × (is_end e.flags ≡ (length queue == 0))
    × (is_unordered e.flags ≡ unordered)
    × (e.stream_id ≡ stream_id)
    × (e.ssn ≡ ssn)
    × (e.ppid ≡ ppid)
    × (e.data_len ≤ mtu_payload)
    × IsMessage false (u32 (tsn + 1)) unordered stream_id ssn ppid queue

-- The flags before the loop: unordered or none.
abbrev HasKind : SendEntry → Type 0
HasKind e = (e.flags ≡ 0) ⊎ (e.flags ≡ 4)

-- The flags of a fragment.
fragment_flags :
    (first last : Bool) (flags : ℕ)
    → (flags ≡ 0) ⊎ (flags ≡ 4)
    → (is_begin ((if first then 2 else 0) + (if last then 1 else 0) + flags) ≡ first)
      × (is_end ((if first then 2 else 0) + (if last then 1 else 0) + flags) ≡ last)
      × (is_unordered ((if first then 2 else 0) + (if last then 1 else 0) + flags)
          ≡ is_unordered flags)
fragment_flags true true flags (inl e) = rw e (refl, refl, refl)
fragment_flags true true flags (inr e) = rw e (refl, refl, refl)
fragment_flags true false flags (inl e) = rw e (refl, refl, refl)
fragment_flags true false flags (inr e) = rw e (refl, refl, refl)
fragment_flags false true flags (inl e) = rw e (refl, refl, refl)
fragment_flags false true flags (inr e) = rw e (refl, refl, refl)
fragment_flags false false flags (inl e) = rw e (refl, refl, refl)
fragment_flags false false flags (inr e) = rw e (refl, refl, refl)

fragments-IsMessage :
    (n i : ℕ) (e : SendEntry) (off remaining : ℕ)
    → HasKind e
    → IsMessage
        (i == 0)
        e.tsn
        (is_unordered e.flags)
        e.stream_id
        e.ssn
        e.ppid
        (fragments n i e off remaining)
unfolding fragments
fragments-IsMessage zero i e off remaining k = tt
fragments-IsMessage (suc n) i e off remaining k =
    let (begins, ends, kind) = fragment_flags (i == 0) (n == 0) e.flags k in
    let len = if ltb mtu_payload remaining then mtu_payload else remaining in
    let e' = record e { tsn = u32 (e.tsn + 1) } in
    let rest = fragments n (i + 1) e' (u16 (off + len)) (remaining - len) in
    (
      refl,
      begins,
      ends ∙ sym (ap (λ m. m == 0) (length-fragments n (i + 1) _ _ _)),
      kind,
      refl,
      refl,
      refl,
      ground arith,
      subst (λ b. IsMessage b e'.tsn (is_unordered e.flags) e.stream_id e.ssn e.ppid rest)
          (==_ne (i + 1) 0 (omega arith))
          (fragments-IsMessage n (i + 1) e' (u16 (off + len)) (remaining - len) k),
    )

payloads-fragments :
    (n i : ℕ) (e : SendEntry) (off remaining : ℕ) (buf : List ℕ)
    → remaining ≤ n * mtu_payload
    → off + remaining < 2 ^ 16
    → payloads buf (fragments n i e off remaining) ≡ take remaining (drop off buf)
unfolding fragments payloads
payloads-fragments zero i e off remaining buf h k =
    let none_left : remaining ≡ 0 = omega (arith, h) in rw none_left refl
payloads-fragments (suc n) i e off remaining buf h k =
    let len = if ltb mtu_payload remaining then mtu_payload else remaining in
    let part : len ≤ remaining = ground arith in
    let fits : u16 (off + len) ≡ off + len = omega (arith, k, part) in
    ap
      (λ o.
        take len (drop off buf)
        ++ payloads buf
            (fragments n (i + 1) (record e { tsn = u32 (e.tsn + 1) }) o (remaining - len)))
      fits
    ∙ ap (λ l. take len (drop off buf) ++ l)
        (payloads-fragments n (i + 1) (record e { tsn = u32 (e.tsn + 1) }) (off + len)
            (remaining - len) buf (ground (arith, h)) (omega (arith, k, part))
          ∙ ap (take (remaining - len)) (sym (drop-drop off len (off + len) buf refl)))
    ∙ take-add len (remaining - len) (drop off buf)
    ∙ ap (λ m. take m (drop off buf)) (omega (arith, part))

take-drop_append :
    (off len : ℕ) (buf more : List ℕ)
    → off + len ≤ length buf
    → take len (drop off (buf ++ more)) ≡ take len (drop off buf)
take-drop_append zero zero buf more h = refl
take-drop_append zero (suc len) [] more h = absurd (omega arith)
take-drop_append zero (suc len) (x ∷ buf) more h =
    ap (λ l. x ∷ l) (take-drop_append zero len buf more (omega arith))
take-drop_append (suc off) zero [] more h = absurd (omega arith)
take-drop_append (suc off) (suc len) [] more h = absurd (omega arith)
take-drop_append (suc off) len (x ∷ buf) more h = take-drop_append off len buf more (omega arith)

-- Bytes that are added leave those of the entries alone.
payloads-append :
    (queue : List SendEntry) (buf more : List ℕ)
    → AllWithin (length buf) queue
    → payloads (buf ++ more) queue ≡ payloads buf queue
unfolding payloads
payloads-append [] buf more h = refl
payloads-append (e ∷ queue) buf more h =
    ap₂ (λ xs ys. xs ++ ys) (take-drop_append e.data_offset e.data_len buf more h.0.0)
      (payloads-append queue buf more h.1)

drop-length : (buf more : List ℕ) → take (length more) (drop (length buf) (buf ++ more)) ≡ more
drop-length buf more =
    ap (take (length more)) (drop-append buf more) ∙ take_all (length more) more (omega arith)

-- The queue has grown by the chunks of one message.
pub record HasMessage (tx tx' : Tx) (unordered : Bool) (stream_id ppid : ℕ) (bytes : List ℕ)
    : Type 0 where
  pub new : List SendEntry
  pub ssn : ℕ
  pub at_end : tx'.send_queue ≡ tx.send_queue ++ new
  pub some_chunk : 1 ≤ length new
  pub fewest : (length new ≡ 1) ⊎ ((length new - 1) * mtu_payload < length bytes)
  pub chunks : IsMessage true tx.next_tsn unordered stream_id ssn ppid new
  pub whole : payloads tx'.send_buf new ≡ bytes
  pub others : payloads tx'.send_buf tx.send_queue ≡ payloads tx.send_buf tx.send_queue
  pub next : tx'.next_tsn ≡ u32 (tx.next_tsn + length new)

enqueue-HasMessage :
    (tx : Tx) (stream_id ssn ppid : ℕ) (bytes : List ℕ) (unordered : Bool) (m : Option ℕ)
    → IsTx tx
    → HasRoom tx (length bytes)
    → HasMessage tx (enqueue tx stream_id ssn ppid bytes unordered m) unordered stream_id ppid bytes
unfolding enqueue fragment_count
enqueue-HasMessage tx stream_id ssn ppid bytes unordered m v r =
    let count = fragment_count (length bytes) in
    let e : SendEntry = record no_entry {
      tsn = tx.next_tsn;
      stream_id = stream_id;
      ssn = ssn;
      ppid = ppid;
      flags = if unordered then 4 else 0;
      max_retransmits = m;
    } in
    let l = length-fragments count 0 e (length tx.send_buf) (length bytes) in
    let enough : length bytes ≤ count * mtu_payload = ground arith in
    let positive : 1 ≤ count = ground arith in
    let no_more : (count ≡ 1) ⊎ ((count - 1) * mtu_payload < length bytes) = ground arith in
    record {
      new = fragments count 0 e (length tx.send_buf) (length bytes);
      ssn = ssn;
      at_end = refl;
      some_chunk = omega (arith, l, positive);
      fewest = elim no_more [ inl e ↦ inl (l ∙ e) | inr h ↦ inr (omega (arith, l, h)) ];
      chunks =
          subst
            (λ u.
              IsMessage true tx.next_tsn u stream_id ssn ppid
                (fragments count 0 e (length tx.send_buf) (length bytes)))
            (elim unordered as (λ b. is_unordered (if b then 4 else 0) ≡ b) [
              | true ↦ refl
              | false ↦ refl
            ])
            (fragments-IsMessage count 0 e (length tx.send_buf) (length bytes)
              (elim unordered as (λ b. ((if b then 4 else 0) ≡ 0) ⊎ ((if b then 4 else 0) ≡ 4)) [
                | true ↦ inr refl
                | false ↦ inl refl
              ]));
      whole =
          payloads-fragments count 0 e (length tx.send_buf) (length bytes) (tx.send_buf ++ bytes)
            enough (omega (arith, r.buf_room))
          ∙ drop-length tx.send_buf bytes;
      others = payloads-append tx.send_queue tx.send_buf bytes v.inside;
      next = ap (λ n. u32 (tx.next_tsn + n)) (sym l);
    }

-- What holds of the state after a success.
abbrev pub Succeeds : (Sctp → Type 0) → Sctp × Outcome (Unit {0}) → Type 0
Succeeds P x = x.1 ≡ done tt → P x.0

Succeeds-outcome :
    {Q : Type 0} (P : Sctp → Type 0) (s : Sctp) (m : Outcome (Unit {0}))
    (f : Unit {0} → Sctp × Outcome (Unit {0}))
    → Ensures (λ _. Unit {0}) (λ _. Q) m
    → (Q → Succeeds P (f tt))
    → Succeeds P (elim m [ done u ↦ f u | error e ↦ (s, error e) | fault ↦ (s, fault) ])
Succeeds-outcome P s m f (returns q) k = k q
Succeeds-outcome P s m f (fails e) k = λ h. absurd (cc)

Succeeds-option :
    {C : Type 0} (P : Sctp → Type 0) (s : Sctp) (e : Error) (o : Option C)
    (f : C → Sctp × Outcome (Unit {0}))
    → ((c : C) → Succeeds P (f c))
    → Succeeds P (elim o [ none ↦ (s, error e) | some c ↦ f c ])
Succeeds-option P s e none f k = λ h. absurd (cc)
Succeeds-option P s e (some c) f k = k c

send_options-HasMessage :
    (s : Sctp) (stream_id ppid : ℕ) (bytes : List ℕ) (unordered : Bool) (m : Option ℕ)
    → IsTx s.tx
    → Succeeds
        (λ s'. HasMessage s.tx s'.tx unordered stream_id ppid bytes)
        (send_options s stream_id ppid bytes unordered m)
unfolding send_options
send_options-HasMessage s stream_id ppid bytes unordered m v =
    Succeeds-outcome (λ s'. HasMessage s.tx s'.tx unordered stream_id ppid bytes) s
      (send_checks s (length bytes) m) _ (send_checks-HasRoom s (length bytes) m v)
      λ room.
        Succeeds-option (λ s'. HasMessage s.tx s'.tx unordered stream_id ppid bytes) s
          buffer_too_small (stream_of s.streams stream_id) _
          λ p h.
            enqueue-HasMessage s.tx stream_id (if unordered then 0 else ssn_of p.0 p.1) ppid bytes
              unordered m v room

-- The number of retries is one that can be asked for.
abbrev pub retries_allowed : Sctp → Option ℕ → Bool
retries_allowed s none = true
retries_allowed s (some m) = leb m u16_max && s.peer_forward_tsn

-- The association takes the message: it is up, the message is within the limits of both ends, there
-- is room, and its stream has or gets an index.
pub record CanSend (s : Sctp) (stream_id len : ℕ) (m : Option ℕ) : Type 0 where
  pub up : s.state ≡ established
  pub retries : retries_allowed s m ≡ true
  pub limit : len ≤ max_message_size
  pub peer_limit : (s.peer_max_message_size ≡ 0) ⊎ (len ≤ s.peer_max_message_size)
  pub room : HasRoom s.tx len
  pub index : List Stream × ℕ
  pub stream : stream_of s.streams stream_id ≡ some index

send_checks-done :
    (s : Sctp) (stream_id len : ℕ) (m : Option ℕ)
    → CanSend s stream_id len m
    → send_checks s len m ≡ done tt
unfolding send_checks fail_if
send_checks-done s stream_id len none c =
    ground
      (arith, ap is_established c.up, c.limit, c.peer_limit, c.room.queue_room, c.room.buf_room)
send_checks-done s stream_id len (some m) c = ground (
  arith,
  ap is_established c.up,
  c.retries,
  c.limit,
  c.peer_limit,
  c.room.queue_room,
  c.room.buf_room,
)

send_options-done :
    (s : Sctp) (stream_id ppid : ℕ) (bytes : List ℕ) (unordered : Bool) (m : Option ℕ)
    → CanSend s stream_id (length bytes) m
    → (send_options s stream_id ppid bytes unordered m).1 ≡ done tt
unfolding send_options
send_options-done s stream_id ppid bytes unordered m c =
    ground (arith, send_checks-done s stream_id (length bytes) m c, c.stream)

-- On an established association whose send queue is within its bounds, nsctp_send_options takes a
-- message that is within the limits of both ends, for which queue and buffer have room, whose
-- stream has or gets an index, and whose number of retries, if it is limited, has 16 bits and a
-- peer that takes FORWARD TSN: it succeeds, and the message stands at the end of the queue, whole
-- and in order: its chunks have consecutive TSNs from the next one on, the begin flag on the first
-- alone, the end flag on the last alone, the stream, the protocol and one stream sequence number
-- throughout, and no chunk is longer than a packet takes; the next TSN is the one after them. There
-- are no more chunks than the message needs, and an empty message is one chunk. The bytes of the
-- chunks that waited before are as they were.
pub send_options_lem :
    (s : Sctp) (stream_id ppid : ℕ) (bytes : List ℕ) (unordered : Bool) (m : Option ℕ)
    → IsTx s.tx
    → CanSend s stream_id (length bytes) m
    → ((send_options s stream_id ppid bytes unordered m).1 ≡ done tt)
      × HasMessage s.tx
          (send_options s stream_id ppid bytes unordered m).0.tx
          unordered
          stream_id
          ppid
          bytes
send_options_lem s stream_id ppid bytes unordered m v c =
    let ok = send_options-done s stream_id ppid bytes unordered m c in
    (ok, send_options-HasMessage s stream_id ppid bytes unordered m v ok)
