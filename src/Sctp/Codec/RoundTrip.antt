-- ===== src/Sctp/Codec/RoundTrip.antt =====
-- What an encoder of src/nano_sctp.c writes, its parser reads.
use mathlib.Core.List.{append_assoc}
use nanortc.Prelude.{
  List, [], ap, arith, done, drop, drop-drop, fail_if, false, join16, join32, length, length-append,
  length-drop, length-replicate, length-take, le→ltb, ltb, lt→ltb, read, read_u16be, read_u32be,
  refl, replicate, slice, slice-middle, suc, sym, take, u16_max, write_u16be, write_u32be, zero, ℕ,
  ◌++◌, ◌+◌, ◌-◌, ◌<◌, ◌^◌, ◌∙◌, ◌∷◌, ◌≡◌, ◌≤◌,
}
use nanortc.Crc.{crc32c, crc32c_table, initial, update}
use nanortc.Crc.Bitwise.{update-append}
use nanortc.Crc.Range.{crc32c_fits}
use nanortc.Sctp.{chunk_data, pad4}
use nanortc.Sctp.Codec.{
  Data, encode_data, finalize_checksum, host_bytes, host_word, padding, parse_data,
  segmented_checksum, verify_checksum,
}

-- The fields are in the ranges of their C types.
pub record IsData (d : Data) : Type 0 where
  pub tsn_word : d.tsn < 2 ^ 32
  pub stream_word : d.stream_id < 2 ^ 16
  pub ssn_word : d.ssn < 2 ^ 16
  pub ppid_word : d.ppid < 2 ^ 32
  pub short : length d.payload < 2 ^ 16 - 16

-- The 16 bytes before the payload.
data_header : Data → List ℕ
data_header d =
    chunk_data
    ∷ d.flags
    ∷ (write_u16be (16 + length d.payload)
        ++ (write_u32be d.tsn
            ++ (write_u16be d.stream_id ++ (write_u16be d.ssn ++ write_u32be d.ppid))))

parse_data-header :
    (d : Data) (rest : List ℕ)
    → IsData d
    → parse_data (data_header d ++ (d.payload ++ rest)) ≡ done d
unfolding parse_data read read_u16be read_u32be fail_if data_header
parse_data-header d rest v =
    let l : length (data_header d ++ (d.payload ++ rest)) ≡ 16 + length d.payload + length rest =
      omega (arith, length-append d.payload rest) in
    let size : 16 + length d.payload - 16 ≡ length d.payload = omega arith in
    let body : slice (data_header d ++ (d.payload ++ rest)) 16 (length d.payload) ≡ done d.payload =
      slice-middle (data_header d) d.payload rest 16 refl in
    rw
      (
        le→ltb (length (data_header d ++ (d.payload ++ rest))) 16 (omega (arith, l)),
        join16 (16 + length d.payload) (omega arith),
        le→ltb (16 + length d.payload) 16 (omega arith),
        le→ltb (length (data_header d ++ (d.payload ++ rest))) (16 + length d.payload)
            (omega (arith, l)),
        join32 d.tsn v.tsn_word,
        join16 d.stream_id v.stream_word,
        join16 d.ssn v.ssn_word,
        join32 d.ppid v.ppid_word,
        size,
        body,
      )
      refl

host_word-host_bytes : (v : ℕ) → v < 2 ^ 32 → host_word (host_bytes v) ≡ v
host_word-host_bytes v h = omega arith

take-take_prefix : (n : ℕ) (xs ys : List ℕ) → n ≤ length xs → take n (take n xs ++ ys) ≡ take n xs
take-take_prefix zero xs ys h = refl
take-take_prefix (suc n) [] ys h = absurd (omega arith)
take-take_prefix (suc n) (x ∷ xs) ys h = ap (λ l. x ∷ l) (take-take_prefix n xs ys (omega arith))

drop-take_prefix : (n : ℕ) (xs ys : List ℕ) → n ≤ length xs → drop n (take n xs ++ ys) ≡ ys
drop-take_prefix zero xs ys h = refl
drop-take_prefix (suc n) [] ys h = absurd (omega arith)
drop-take_prefix (suc n) (x ∷ xs) ys h = drop-take_prefix n xs ys (omega arith)

-- The packet with a checksum in its field.
abbrev sealed : List ℕ → ℕ → List ℕ
sealed bytes crc = take 8 bytes ++ (host_bytes crc ++ drop 12 bytes)

module _ (bytes : List ℕ) (h : 12 ≤ length bytes) where
  length-sealed : (crc : ℕ) → length (sealed bytes crc) ≡ length bytes
  length-sealed crc = omega (
    arith,
    length-append (take 8 bytes) (host_bytes crc ++ drop 12 bytes),
    length-take 8 bytes,
    length-drop 12 bytes,
  )

  drop-sealed : (crc : ℕ) → drop 12 (sealed bytes crc) ≡ drop 12 bytes
  drop-sealed crc =
      sym (drop-drop 8 4 12 (sealed bytes crc) refl)
      ∙ ap (drop 4) (drop-take_prefix 8 bytes (host_bytes crc ++ drop 12 bytes) (omega arith))

  segmented_checksum-sealed :
      (crc : ℕ)
      → segmented_checksum (sealed bytes crc)
        ≡ crc32c (take 8 bytes ++ (replicate 4 0 ++ drop 12 bytes))
  unfolding segmented_checksum crc32c
  segmented_checksum-sealed crc =
      rw
        (
          take-take_prefix 8 bytes (host_bytes crc ++ drop 12 bytes) (omega arith),
          drop-sealed crc,
          update-append crc32c_table initial (take 8 bytes) (replicate 4 0 ++ drop 12 bytes),
          update-append crc32c_table (update crc32c_table initial (take 8 bytes)) (replicate 4 0)
              (drop 12 bytes),
        )
        refl

  verify_checksum-sealed :
      verify_checksum (sealed bytes (crc32c (take 8 bytes ++ (replicate 4 0 ++ drop 12 bytes))))
      ≡ done tt
  unfolding verify_checksum fail_if
  verify_checksum-sealed =
      let crc = crc32c (take 8 bytes ++ (replicate 4 0 ++ drop 12 bytes)) in
      rw
        (
          le→ltb (length (sealed bytes crc)) 12 (omega (arith, length-sealed crc)),
          slice-middle (take 8 bytes) (host_bytes crc) (drop 12 bytes) 8
              (omega (arith, length-take 8 bytes)),
          segmented_checksum-sealed crc,
          host_word-host_bytes crc (crc32c_fits (take 8 bytes ++ (replicate 4 0 ++ drop 12 bytes))),
        )
        (ground arith)

-- What nsctp_finalize_checksum writes over a packet with a whole header, nsctp_verify_checksum
-- accepts, whatever stood in the field before; the length, the ports, the tag and the chunks stay
-- as they were.
pub verify_checksum-finalize_checksum :
    (bytes : List ℕ)
    → 12 ≤ length bytes
    → (verify_checksum (finalize_checksum bytes) ≡ done tt)
      × (length (finalize_checksum bytes) ≡ length bytes)
      × (take 8 (finalize_checksum bytes) ≡ take 8 bytes)
      × (drop 12 (finalize_checksum bytes) ≡ drop 12 bytes)
unfolding finalize_checksum
verify_checksum-finalize_checksum bytes h =
    let crc = crc32c (take 8 bytes ++ (replicate 4 0 ++ drop 12 bytes)) in
    (
      verify_checksum-sealed bytes h,
      length-sealed bytes h crc,
      take-take_prefix 8 bytes (host_bytes crc ++ drop 12 bytes) (omega arith),
      drop-sealed bytes h crc,
    )

-- The bytes that nsctp_encode_data writes into a buffer with room for them, rounded up to a
-- multiple of four, nsctp_parse_data reads back as the chunk they were made from, whatever follows
-- them; into a smaller buffer it writes nothing.
pub parse_data-encode_data :
    (d : Data) (buf_len : ℕ) (rest : List ℕ)
    → IsData d
    → (pad4 (16 + length d.payload) ≤ buf_len
        → (parse_data (encode_data d buf_len ++ rest) ≡ done d)
          × (length (encode_data d buf_len) ≡ pad4 (16 + length d.payload)))
      × (buf_len < pad4 (16 + length d.payload) → encode_data d buf_len ≡ [])
unfolding encode_data padding data_header
parse_data-encode_data d buf_len rest v =
    let fits : ltb (u16_max - 16) (length d.payload) ≡ false =
      le→ltb (u16_max - 16) (length d.payload) (omega arith) in
    (
      λ h.
          let room : ltb buf_len (pad4 (16 + length d.payload)) ≡ false =
            le→ltb buf_len (pad4 (16 + length d.payload)) h in
          (
            rw
                (
                  fits,
                  room,
                  append_assoc d.payload
                      (replicate (pad4 (16 + length d.payload) - (16 + length d.payload)) 0) rest,
                )
                (parse_data-header d
                  (replicate (pad4 (16 + length d.payload) - (16 + length d.payload)) 0 ++ rest) v),
            rw (fits, room)
                (omega (
                  arith,
                  length-append d.payload
                      (replicate (pad4 (16 + length d.payload) - (16 + length d.payload)) 0),
                  length-replicate {A = ℕ} (pad4 (16 + length d.payload) - (16 + length d.payload))
                      0,
                )),
          ),
      λ h. rw (fits, lt→ltb buf_len (pad4 (16 + length d.payload)) h),
    )
