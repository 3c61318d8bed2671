-- ===== src/Sctp/Gaps.antt =====
-- nsctp_encode_sack_with_gaps of src/nano_sctp.c: the gap blocks of a SACK.
use nanortc.Prelude.{
  List, [], false, if◌then◌else◌, length, ltb, sub32, true, u16, write_u16be, write_u32be, ℕ, ◌&&◌,
  ◌*◌, ◌++◌, ◌+◌, ◌==◌, ◌∷◌,
}
use nanortc.Sctp.{Rx, RxEntry, chunk_sack, max_gap_blocks, tsn_gt}
use nanortc.Sctp.Codec.{encode_sack}

-- The TSNs of the table beyond the cumulative one.
unfoldable pub gap_tsns : ℕ → List RxEntry → List ℕ
gap_tsns cumulative_tsn [] = []
gap_tsns cumulative_tsn (e ∷ slots) =
    let later = gap_tsns cumulative_tsn slots in
    if e.valid && tsn_gt e.tsn cumulative_tsn then e.tsn ∷ later else later

-- The inner loop of the insertion sort. The sorted part is kept with its last number first.
unfoldable pub insert_key : ℕ → List ℕ → List ℕ
insert_key key [] = key ∷ []
insert_key key (x ∷ sorted) =
    let later = insert_key key sorted in if tsn_gt x key then x ∷ later else key ∷ x ∷ sorted

unfoldable pub sort_keys : List ℕ → List ℕ → List ℕ
sort_keys sorted [] = sorted
sort_keys sorted (key ∷ keys) = sort_keys (insert_key key sorted) keys

-- A block, `block_starts[i]` and `block_ends[i]`.
pub record Block : Type 0 where
  pub start : ℕ
  pub last : ℕ

-- One round of the loop that builds the blocks, the last block first.
unfoldable pub add_offset : List Block → ℕ → List Block
add_offset [] offset = record { start = offset; last = offset } ∷ []
add_offset (b ∷ blocks) offset =
    if offset == b.last + 1
    then record b { last = offset } ∷ blocks
    else record { start = offset; last = offset } ∷ b ∷ blocks

-- The loop ends at the last TSN or once there are `max_gap_blocks` blocks.
unfoldable pub build_blocks : ℕ → List ℕ → List Block → List Block
build_blocks cumulative_tsn [] blocks = blocks
build_blocks cumulative_tsn (tsn ∷ tsns) blocks = elim (ltb (length blocks) max_gap_blocks) [
  | false ↦ blocks
  | true ↦ build_blocks cumulative_tsn tsns (add_offset blocks (u16 (sub32 tsn cumulative_tsn)))
]

unfoldable pub rev : {A : Type 0} → List A → List A → List A
rev [] ys = ys
rev (x ∷ xs) ys = rev xs (x ∷ ys)

-- The blocks in the order in which they are written.
unfoldable pub gap_blocks : ℕ → List RxEntry → List Block
gap_blocks cumulative_tsn slots =
    let sorted = rev (sort_keys [] (gap_tsns cumulative_tsn slots)) [] in
    rev (build_blocks cumulative_tsn sorted []) []

unfoldable pub encode_blocks : List Block → List ℕ
encode_blocks [] = []
encode_blocks (b ∷ blocks) = write_u16be b.start ++ (write_u16be b.last ++ encode_blocks blocks)

-- nsctp_encode_sack_with_gaps
unfoldable pub encode_sack_with_gaps : Rx → ℕ → ℕ → List ℕ
encode_sack_with_gaps rx a_rwnd buf_len =
    let blocks = gap_blocks rx.cumulative_tsn rx.recv_gap in
    if ltb buf_len 16
    then []
    else if length blocks == 0
    then encode_sack rx.cumulative_tsn a_rwnd
    else if ltb buf_len (16 + length blocks * 4)
    then []
    else chunk_sack
      ∷ 0
      ∷ (write_u16be (16 + length blocks * 4)
          ++ (write_u32be rx.cumulative_tsn
              ++ (write_u32be a_rwnd
                  ++ (write_u16be (length blocks) ++ (write_u16be 0 ++ encode_blocks blocks)))))
