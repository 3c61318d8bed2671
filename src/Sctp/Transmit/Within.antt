-- ===== src/Sctp/Transmit/Within.antt =====
-- The entries of the send queue of src/nano_sctp.c lie within its buffer.
use nanortc.Prelude.{
  Bool-cases, List, [], ap, arith, drop, get_or, inl, inr, length, refl, set, suc, take, zero, ℕ,
  ◌++◌, ◌+◌, ◌∷◌, ◌≡◌, ◌≤◌,
}
use nanortc.Sctp.{
  SendEntry, Tx, is_end, max_send_queue, rto_initial_ms, rto_max_ms, send_buf_size, tsn_le,
}
use nanortc.Sctp.Transmit.{abandon_rest, drop_acked, mark_acked, mtu_payload, no_entry}

-- The bytes of an entry lie in the first `used` bytes of the buffer and fit a packet.
abbrev pub Within : ℕ → SendEntry → Type 0
Within used e = (e.data_offset + e.data_len ≤ used) × (e.data_len ≤ mtu_payload)

abbrev pub AllWithin : ℕ → List SendEntry → Type 0
AllWithin used [] = Unit {0}
AllWithin used (e ∷ queue) = Within used e × AllWithin used queue

-- At most NANORTC_SCTP_MAX_SEND_QUEUE entries, whose bytes lie in the used part of a buffer of
-- NANORTC_SCTP_SEND_BUF_SIZE; the timeout lies between its first value and its cap.
pub record IsTx (tx : Tx) : Type 0 where
  pub queue_room : length tx.send_queue ≤ max_send_queue
  pub buf_room : length tx.send_buf ≤ send_buf_size
  pub inside : AllWithin (length tx.send_buf) tx.send_queue
  pub rto_low : rto_initial_ms ≤ tx.rto_ms
  pub rto_high : tx.rto_ms ≤ rto_max_ms

module _ (used : ℕ) where
  pub AllWithin-append :
      (xs ys : List SendEntry) → AllWithin used xs → AllWithin used ys → AllWithin used (xs ++ ys)
  AllWithin-append [] ys h k = k
  AllWithin-append (e ∷ xs) ys h k = (h.0, AllWithin-append xs ys h.1 k)

  pub AllWithin-take :
      (n : ℕ) (xs : List SendEntry) → AllWithin used xs → AllWithin used (take n xs)
  AllWithin-take zero xs h = tt
  AllWithin-take (suc n) [] h = tt
  AllWithin-take (suc n) (e ∷ xs) h = (h.0, AllWithin-take n xs h.1)

  pub AllWithin-drop :
      (n : ℕ) (xs : List SendEntry) → AllWithin used xs → AllWithin used (drop n xs)
  AllWithin-drop zero xs h = h
  AllWithin-drop (suc n) [] h = tt
  AllWithin-drop (suc n) (e ∷ xs) h = AllWithin-drop n xs h.1

  pub AllWithin-set :
      (xs : List SendEntry) (i : ℕ) (e : SendEntry)
      → AllWithin used xs
      → Within used e
      → AllWithin used (set xs i e)
  AllWithin-set [] i e h k = tt
  AllWithin-set (x ∷ xs) zero e h k = (k, h.1)
  AllWithin-set (x ∷ xs) (suc i) e h k = (h.0, AllWithin-set xs i e h.1 k)

  pub AllWithin-get :
      (xs : List SendEntry) (i : ℕ) → AllWithin used xs → Within used (get_or xs i no_entry)
  AllWithin-get [] i h = (omega arith, omega arith)
  AllWithin-get (x ∷ xs) zero h = h.0
  AllWithin-get (x ∷ xs) (suc i) h = AllWithin-get xs i h.1

  pub AllWithin-abandon_rest :
      (xs : List SendEntry) → AllWithin used xs → AllWithin used (abandon_rest xs)
  unfolding abandon_rest
  AllWithin-abandon_rest [] h = tt
  AllWithin-abandon_rest (e ∷ xs) h = elim (Bool-cases (is_end e.flags)) [
    | inl t ↦ rw t (h.0, h.1)
    | inr t ↦ rw t (h.0, AllWithin-abandon_rest xs h.1)
  ]

  pub AllWithin-mark_acked :
      (tsn : ℕ) (xs : List SendEntry) → AllWithin used xs → AllWithin used (mark_acked tsn xs)
  unfolding mark_acked
  AllWithin-mark_acked tsn [] h = tt
  AllWithin-mark_acked tsn (e ∷ xs) h = elim (Bool-cases (tsn_le e.tsn tsn)) [
    | inl t ↦ rw t (h.0, AllWithin-mark_acked tsn xs h.1)
    | inr t ↦ rw t (h.0, AllWithin-mark_acked tsn xs h.1)
  ]

  pub AllWithin-drop_acked :
      (xs : List SendEntry) → AllWithin used xs → AllWithin used (drop_acked xs)
  unfolding drop_acked
  AllWithin-drop_acked [] h = tt
  AllWithin-drop_acked (e ∷ xs) h = elim (Bool-cases e.acked) [
    | inl t ↦ rw t (AllWithin-drop_acked xs h.1)
    | inr t ↦ rw t h
  ]

pub AllWithin-le :
    (used more : ℕ) (xs : List SendEntry) → used ≤ more → AllWithin used xs → AllWithin more xs
AllWithin-le used more [] l h = tt
AllWithin-le used more (e ∷ xs) l h =
    ((omega (arith, l, h.0.0), h.0.1), AllWithin-le used more xs l h.1)

pub length-abandon_rest : (xs : List SendEntry) → length (abandon_rest xs) ≡ length xs
unfolding abandon_rest
length-abandon_rest [] = refl
length-abandon_rest (e ∷ xs) = elim (Bool-cases (is_end e.flags)) [
  | inl t ↦ rw t refl
  | inr t ↦ rw t (ap suc (length-abandon_rest xs))
]

pub length-mark_acked : (tsn : ℕ) (xs : List SendEntry) → length (mark_acked tsn xs) ≡ length xs
unfolding mark_acked
length-mark_acked tsn [] = refl
length-mark_acked tsn (e ∷ xs) = ap suc (length-mark_acked tsn xs)

pub length-drop_acked : (xs : List SendEntry) → length (drop_acked xs) ≤ length xs
unfolding drop_acked
length-drop_acked [] = omega arith
length-drop_acked (e ∷ xs) = elim (Bool-cases e.acked) [
  | inl t ↦ rw t (omega (arith, length-drop_acked xs))
  | inr t ↦ rw t (omega arith)
]
