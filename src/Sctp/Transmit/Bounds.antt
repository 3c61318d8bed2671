-- ===== src/Sctp/Transmit/Bounds.antt =====
-- The send queue of src/nano_sctp.c and its buffer stay within their bounds.
use mathlib.Core.Path.{subst}
use nanortc.Clock.{elapsed}
use nanortc.Sctp.Transmit.Within.{
  AllWithin, AllWithin-abandon_rest, AllWithin-append, AllWithin-drop, AllWithin-drop_acked,
  AllWithin-get, AllWithin-le, AllWithin-mark_acked, AllWithin-set, AllWithin-take, IsTx, Within,
  length-abandon_rest, length-drop_acked, length-mark_acked,
}
use nanortc.Prelude.{
  ==_ne, Bool, Bool-cases, List, Option, Outcome, [], ap, arith, bad_state, buffer_too_small, done,
  drop, error, false, fault, if◌then◌else◌, inl, inr, invalid_param, leb, length, length-append,
  length-set, ltb, not, not_implemented, parse, refl, set, suc, sym, take, take-append-drop, true,
  u16, u32, would_block, zero, ℕ, ◌&&◌, ◌*◌, ◌++◌, ◌+◌, ◌-◌, ◌/◌, ◌<◌, ◌==◌, ◌^◌, ◌||◌, ◌∷◌, ◌≡◌,
  ◌≢◌, ◌≤◌,
}
use nanortc.Prelude.Ensures.{
  Ensures, Ensures-bind, Ensures-if, Ensures-option, Ensures-test, Ensures-weaken, fail_if-Ensures,
  fails, returns,
}
use nanortc.Sctp.{Sctp, SendEntry, Tx, max_retransmissions, max_send_queue, send_buf_size}
use nanortc.Sctp.Codec.{Sack}
use nanortc.Sctp.Codec.Safety.{parse_sack-Safe}
use nanortc.Sctp.Transmit.{
  abandon_lost, abandon_message, abandon_rest, acknowledge, drop_acked, enqueue, entry,
  expire_entry, expire_from, forward_timer, fragment_count, fragments, handle_sack, mark_acked,
  message_start, mtu_payload, retry, send_checks,
}
use nanortc.Sctp.Transmit.Safety.{check_gaps-Safe, highest_acked-Safe, is_gap_acked-Safe}

abandon_message-IsTx : (tx : Tx) (i : ℕ) → IsTx tx → IsTx (abandon_message tx i)
unfolding abandon_message
abandon_message-IsTx tx i v =
    let first = message_start tx.send_queue i in
    let used = length tx.send_buf in
    let rest = drop first tx.send_queue in
    record {
      queue_room = omega (
        arith,
        v.queue_room,
        length-append (take first tx.send_queue) (abandon_rest rest),
        length-abandon_rest rest,
        ap length (take-append-drop first tx.send_queue),
        length-append (take first tx.send_queue) rest,
      );
      buf_room = v.buf_room;
      inside =
          AllWithin-append used (take first tx.send_queue) (abandon_rest rest)
            (AllWithin-take used first tx.send_queue v.inside)
            (AllWithin-abandon_rest used rest (AllWithin-drop used first tx.send_queue v.inside));
      rto_low = v.rto_low;
      rto_high = v.rto_high;
    }

-- An empty queue leaves an empty buffer.
left_buf :
    (queue : List SendEntry) (buf : List ℕ)
    → AllWithin (length buf) queue
    → AllWithin (length (if length queue == 0 then [] else buf)) queue
      × (length (if length queue == 0 then [] else buf) ≤ length buf)
left_buf [] buf h = (tt, omega arith)
left_buf (e ∷ queue) buf h =
    subst
      (λ b.
        AllWithin (length (if b then [] else buf)) (e ∷ queue)
        × (length (if b then [] else buf) ≤ length buf))
      (sym (==_ne (length (e ∷ queue)) 0 (omega arith))) (h, omega arith)

acknowledge-IsTx : (tx : Tx) (tsn : ℕ) → IsTx tx → IsTx (acknowledge tx tsn)
unfolding acknowledge
acknowledge-IsTx tx tsn v =
    let marked = mark_acked tsn tx.send_queue in
    let queue = drop_acked marked in
    let room : length queue ≤ max_send_queue =
      omega (arith, v.queue_room, length-drop_acked marked, length-mark_acked tsn tx.send_queue) in
    let used = length tx.send_buf in
    let (within, small) =
      left_buf queue tx.send_buf
        (AllWithin-drop_acked used marked (AllWithin-mark_acked used tsn tx.send_queue v.inside)) in
    record {
      queue_room = room;
      buf_room = omega (arith, small, v.buf_room);
      inside = within;
      rto_low = v.rto_low;
      rto_high = v.rto_high;
    }

abandon_lost-IsTx :
    (chunk : List ℕ) (sack : Sack) (highest n i : ℕ) (tx : Tx)
    → 16 + 4 * sack.num_gap_blocks ≤ length chunk
    → IsTx tx
    → Ensures (λ _. Unit {0}) IsTx (abandon_lost chunk sack highest n i tx)
unfolding abandon_lost
abandon_lost-IsTx chunk sack highest zero i tx room v = returns v
abandon_lost-IsTx chunk sack highest (suc n) i tx room v =
    Ensures-if _
      (λ _. Ensures-bind (is_gap_acked-Safe chunk sack room (entry tx i)) λ acked _.
        abandon_lost-IsTx chunk sack highest n (i + 1) (if acked then tx else abandon_message tx i)
          room
          (elim acked as (λ b. IsTx (if b then tx else abandon_message tx i)) [
            | true ↦ v
            | false ↦ abandon_message-IsTx tx i v
          ]))
      (λ _. abandon_lost-IsTx chunk sack highest n (i + 1) tx room v)

pub handle_sack-IsTx :
    (tx : Tx) (chunk : List ℕ) → IsTx tx → Ensures (λ _. Unit {0}) IsTx (handle_sack tx chunk)
unfolding handle_sack
handle_sack-IsTx tx chunk v = Ensures-bind (parse_sack-Safe chunk) λ sack long.
    Ensures-bind
      (fail_if-Ensures
        (ltb ((length chunk - 16) / 4) sack.num_gap_blocks
          || ltb ((length chunk - 16) / 4 - sack.num_gap_blocks) sack.num_dup_tsns)
        parse (λ _. tt))
      λ _ fits.
        let room : 16 + 4 * sack.num_gap_blocks ≤ length chunk = ground (arith, fits, long) in
        Ensures-bind (check_gaps-Safe chunk sack.num_gap_blocks 0 0 (omega arith)) λ _ _.
          Ensures-bind (highest_acked-Safe chunk sack room sack.cumulative_tsn tx.send_queue)
            λ highest _.
              Ensures-bind (abandon_lost-IsTx chunk sack highest (length tx.send_queue) 0 tx room v)
                λ tx' v'. returns (acknowledge-IsTx tx' sack.cumulative_tsn v')

-- An entry changes, but not its place in the buffer.
pub set_entry-IsTx :
    (tx : Tx) (i : ℕ) (e : SendEntry)
    → IsTx tx
    → Within (length tx.send_buf) e
    → IsTx (record tx { send_queue = set tx.send_queue i e })
set_entry-IsTx tx i e v w = record {
  queue_room = omega (arith, v.queue_room, length-set tx.send_queue i e);
  buf_room = v.buf_room;
  inside = AllWithin-set (length tx.send_buf) tx.send_queue i e v.inside w;
  rto_low = v.rto_low;
  rto_high = v.rto_high;
}

pub entry-Within : (tx : Tx) (i : ℕ) → IsTx tx → Within (length tx.send_buf) (entry tx i)
entry-Within tx i v = AllWithin-get (length tx.send_buf) tx.send_queue i v.inside

retry-IsTx : (tx : Tx) (i now_ms : ℕ) → IsTx tx → IsTx (retry tx i now_ms)
unfolding retry
retry-IsTx tx i now_ms v =
    let e = entry tx i in
    let e' : SendEntry = record e {
      in_flight = false;
      retransmit_count = e.retransmit_count + 1;
      sent_at_ms = now_ms;
    } in
    let w = set_entry-IsTx tx i e' v (entry-Within tx i v) in
    record {
      queue_room = w.queue_room;
      buf_room = w.buf_room;
      inside = w.inside;
      rto_low = ground (arith, v.rto_low);
      rto_high = ground (arith, v.rto_high);
    }

expire_entry-IsTx :
    (tx : Tx) (i now_ms : ℕ) → IsTx tx → Ensures (λ _. Unit {0}) IsTx (expire_entry tx i now_ms)
unfolding expire_entry
expire_entry-IsTx tx i now_ms v =
    let e = entry tx i in
    let again = retry-IsTx tx i now_ms v in
    Ensures-test
      (e.in_flight
        && (not e.acked && (not e.abandoned && leb tx.rto_ms (elapsed now_ms e.sent_at_ms))))
      _ _
      (λ _.
        Ensures-option e.max_retransmits
          (Ensures-test (leb max_retransmissions e.retransmit_count) _ _ (λ _. fails tt)
            (λ _. returns again))
          (λ m.
            returns
              (elim (leb m e.retransmit_count)
                as (λ b. IsTx (if b then abandon_message tx i else retry tx i now_ms)) [
                  | true ↦ abandon_message-IsTx tx i v
                  | false ↦ again
                ])))
      (λ _. returns v)

-- A queue that is sound, and no fault.
abbrev pub Expired : Tx × Outcome (Unit {0}) → Type 0
Expired x = IsTx x.0 × (x.1 ≢ fault)

Expired-outcome :
    (tx : Tx) (r : Outcome Tx) (f : Tx → Tx × Outcome (Unit {0}))
    → IsTx tx
    → Ensures (λ _. Unit {0}) IsTx r
    → ((tx' : Tx) → IsTx tx' → Expired (f tx'))
    → Expired (elim r [ done tx' ↦ f tx' | error e ↦ (tx, error e) | fault ↦ (tx, fault) ])
Expired-outcome tx r f v (returns {a = tx'} v') k = k tx' v'
Expired-outcome tx r f v (fails e) k = (v, λ g. cc)

pub expire_from-Expired : (n i now_ms : ℕ) (tx : Tx) → IsTx tx → Expired (expire_from n i now_ms tx)
unfolding expire_from
expire_from-Expired zero i now_ms tx v = (v, λ f. cc)
expire_from-Expired (suc n) i now_ms tx v =
    Expired-outcome tx (expire_entry tx i now_ms) (expire_from n (i + 1) now_ms) v
      (expire_entry-IsTx tx i now_ms v) (λ tx' v'. expire_from-Expired n (i + 1) now_ms tx' v')

pub forward_timer-IsTx : (tx : Tx) (now_ms : ℕ) → IsTx tx → IsTx (forward_timer tx now_ms)
unfolding forward_timer
forward_timer-IsTx tx now_ms v =
    elim (Bool-cases (leb tx.rto_ms (elapsed now_ms tx.forward_sent_at_ms))) [
      | inl t ↦ rw t (record {
        queue_room = v.queue_room;
        buf_room = v.buf_room;
        inside = v.inside;
        rto_low = v.rto_low;
        rto_high = v.rto_high;
      })
      | inr t ↦ rw t v
    ]

pub length-fragments :
    (n i : ℕ) (e : SendEntry) (off remaining : ℕ) → length (fragments n i e off remaining) ≡ n
unfolding fragments
length-fragments zero i e off remaining = refl
length-fragments (suc n) i e off remaining = ap suc (length-fragments n (i + 1) _ _ _)

fragments-AllWithin :
    (n i : ℕ) (e : SendEntry) (off remaining used : ℕ)
    → off + remaining ≤ used
    → used < 2 ^ 16
    → AllWithin used (fragments n i e off remaining)
unfolding fragments
fragments-AllWithin zero i e off remaining used h k = tt
fragments-AllWithin (suc n) i e off remaining used h k =
    let len = if ltb mtu_payload remaining then mtu_payload else remaining in
    let small : len ≤ mtu_payload = ground arith in
    let part : len ≤ remaining = ground arith in
    (
      (omega (arith, h, part), small),
      fragments-AllWithin n (i + 1) (record e { tsn = u32 (e.tsn + 1) }) (u16 (off + len))
          (remaining - len) used (omega (arith, h, k, part)) k,
    )

-- There is room for the message.
pub record HasRoom (tx : Tx) (len : ℕ) : Type 0 where
  pub queue_room : fragment_count len + length tx.send_queue ≤ max_send_queue
  pub buf_room : len + length tx.send_buf ≤ send_buf_size

pub enqueue-IsTx :
    (tx : Tx) (stream_id ssn ppid : ℕ) (bytes : List ℕ) (unordered : Bool) (m : Option ℕ)
    → IsTx tx
    → HasRoom tx (length bytes)
    → IsTx (enqueue tx stream_id ssn ppid bytes unordered m)
unfolding enqueue
enqueue-IsTx tx stream_id ssn ppid bytes unordered m v r =
    let used = length (tx.send_buf ++ bytes) in
    let l = length-append tx.send_buf bytes in
    let count = fragment_count (length bytes) in
    record {
      queue_room = omega (
        arith,
        r.queue_room,
        length-append tx.send_queue (fragments count 0 _ (length tx.send_buf) (length bytes)),
        length-fragments count 0 _ (length tx.send_buf) (length bytes),
      );
      buf_room = omega (arith, r.buf_room, l);
      inside =
          AllWithin-append used tx.send_queue _
            (AllWithin-le (length tx.send_buf) used tx.send_queue (omega (arith, l)) v.inside)
            (fragments-AllWithin count 0 _ (length tx.send_buf) (length bytes) used
              (omega (arith, l)) (omega (arith, l, r.buf_room)));
      rto_low = v.rto_low;
      rto_high = v.rto_high;
    }

-- What the tests of nsctp_send_options have found out.
pub send_checks-HasRoom :
    (s : Sctp) (len : ℕ) (m : Option ℕ)
    → IsTx s.tx
    → Ensures (λ _. Unit {0}) (λ _. HasRoom s.tx len) (send_checks s len m)
unfolding send_checks
send_checks-HasRoom s len m v = Ensures-bind (fail_if-Ensures _ bad_state (λ _. tt)) λ _ _.
    Ensures-bind (fail_if-Ensures _ invalid_param (λ _. tt)) λ _ _.
      Ensures-bind (fail_if-Ensures _ not_implemented (λ _. tt)) λ _ _.
        Ensures-bind (fail_if-Ensures _ buffer_too_small (λ _. tt)) λ _ _.
          Ensures-bind (fail_if-Ensures _ buffer_too_small (λ _. tt)) λ _ few.
            Ensures-weaken (fail_if-Ensures _ would_block (λ _. tt)) λ _ fits. record {
              queue_room = ground (arith, v.queue_room, few, fits);
              buf_room = ground (arith, v.buf_room, fits);
            }
