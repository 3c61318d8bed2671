-- ===== src/Sctp/Receive/Table.antt =====
-- The table of src/nano_sctp.c keeps its size.
use nanortc.Prelude.{
  Bool-cases, List, [], ap, false, inl, inr, length, length-set, refl, suc, zero, ℕ, ◌&&◌, ◌+◌,
  ◌==◌, ◌∙◌, ◌∷◌, ◌≡◌,
}
use nanortc.Sctp.{Rx, RxEntry, max_recv_gap, tsn_le}
use nanortc.Sctp.Receive.{
  advance, close_up, free_bytes, gap_drain, reclaim_from, reclaim_slot, slot,
}

length-close_up : (off n : ℕ) (slots : List RxEntry) → length (close_up off n slots) ≡ length slots
unfolding close_up
length-close_up off n [] = refl
length-close_up off n (e ∷ slots) = ap suc (length-close_up off n slots)

length-free_bytes : (rx : Rx) (i : ℕ) → length (free_bytes rx i).recv_gap ≡ length rx.recv_gap
unfolding free_bytes
length-free_bytes rx i =
    let e = slot rx i in
    elim (Bool-cases (e.data_len == 0)) [
      | inl t ↦ rw t refl
      | inr t ↦ rw t (
          length-set (close_up e.data_offset e.data_len rx.recv_gap) i (record e { data_len = 0 })
          ∙ length-close_up e.data_offset e.data_len rx.recv_gap)
    ]

length-reclaim_slot : (rx : Rx) (i : ℕ) → length (reclaim_slot rx i).recv_gap ≡ length rx.recv_gap
unfolding reclaim_slot
length-reclaim_slot rx i =
    let rx' = free_bytes rx i in
    elim (Bool-cases ((slot rx i).valid && (slot rx i).delivered)) [
      | inr t ↦ rw t refl
      | inl t ↦ elim (Bool-cases (tsn_le (slot rx' i).tsn rx'.cumulative_tsn)) [
        | inl u ↦
            rw (t, u)
              (length-set rx'.recv_gap i (record (slot rx' i) { valid = false })
                ∙ length-free_bytes rx i)
        | inr u ↦ rw (t, u) (length-free_bytes rx i)
      ]
    ]

pub length-reclaim_from :
    (rx : Rx) (n i : ℕ) → length (reclaim_from rx n i).recv_gap ≡ length rx.recv_gap
unfolding reclaim_from
length-reclaim_from rx zero i = refl
length-reclaim_from rx (suc n) i =
    length-reclaim_from (reclaim_slot rx i) n (i + 1) ∙ length-reclaim_slot rx i

pub length-gap_drain : (rx : Rx) → length (gap_drain rx).recv_gap ≡ length rx.recv_gap
unfolding gap_drain
length-gap_drain rx =
    length-reclaim_from
      (record rx {
        cumulative_tsn = advance (length rx.recv_gap + 1) rx.recv_gap rx.cumulative_tsn;
      })
      max_recv_gap 0
