-- ===== src/Sctp/Transmit/Safety.antt =====
-- No bytes make nsctp_handle_sack_chunk of src/nano_sctp.c read outside the chunk.
use nanortc.Prelude.{
  Bool-cases, List, [], arith, if◌then◌else◌, inl, inr, leb, length, ltb, sub32, suc, u16_max, zero,
  ℕ, ◌&&◌, ◌*◌, ◌+◌, ◌==◌, ◌||◌, ◌∷◌, ◌≤◌,
}
use nanortc.Prelude.Ensures.{Ensures-bind, Ensures-if, fails, read_u16be-Ensures, returns}
use nanortc.Sctp.{SendEntry, tsn_gt}
use nanortc.Sctp.Codec.{Sack}
use nanortc.Sctp.Codec.Safety.{Safe}
use nanortc.Sctp.Transmit.{check_gaps, gap_acked, highest_acked, is_gap_acked}

module _ (chunk : List ℕ) where
  gap_acked-Safe :
      (n i offset : ℕ) → 16 + 4 * (i + n) ≤ length chunk → Safe (gap_acked chunk n i offset)
  unfolding gap_acked
  gap_acked-Safe zero i offset h = returns tt
  gap_acked-Safe (suc n) i offset h =
      Ensures-bind (read_u16be-Ensures chunk (16 + 4 * i) (omega arith)) λ start _.
        Ensures-bind (read_u16be-Ensures chunk (18 + 4 * i) (omega arith)) λ end_ _.
          Ensures-if (leb start offset && leb offset end_) (λ _. returns tt)
            (λ _. gap_acked-Safe n (i + 1) offset (omega arith))

  pub check_gaps-Safe :
      (n i previous_end : ℕ)
      → 16 + 4 * (i + n) ≤ length chunk
      → Safe (check_gaps chunk n i previous_end)
  unfolding check_gaps
  check_gaps-Safe zero i previous_end h = returns tt
  check_gaps-Safe (suc n) i previous_end h =
      Ensures-bind (read_u16be-Ensures chunk (16 + 4 * i) (omega arith)) λ start _.
        Ensures-bind (read_u16be-Ensures chunk (18 + 4 * i) (omega arith)) λ end_ _.
          Ensures-if (leb start previous_end || ltb end_ start) (λ _. fails tt)
            (λ _. check_gaps-Safe n (i + 1) end_ (omega arith))

  module _ (sack : Sack) (room : 16 + 4 * sack.num_gap_blocks ≤ length chunk) where
    pub is_gap_acked-Safe : (e : SendEntry) → Safe (is_gap_acked chunk sack e)
    unfolding is_gap_acked
    is_gap_acked-Safe e =
        let offset = sub32 e.tsn sack.cumulative_tsn in
        elim (Bool-cases (offset == 0 || ltb u16_max offset)) [
          | inl t ↦ rw t (returns tt)
          | inr t ↦ rw t (gap_acked-Safe sack.num_gap_blocks 0 offset (omega arith))
        ]

    pub highest_acked-Safe :
        (highest : ℕ) (queue : List SendEntry) → Safe (highest_acked chunk sack highest queue)
    unfolding highest_acked
    highest_acked-Safe highest [] = returns tt
    highest_acked-Safe highest (e ∷ queue) =
        Ensures-if (e.in_flight && tsn_gt e.tsn highest)
          (λ _.
            Ensures-bind (is_gap_acked-Safe e)
              λ acked _. highest_acked-Safe (if acked then e.tsn else highest) queue)
          (λ _. highest_acked-Safe highest queue)
