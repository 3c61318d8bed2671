-- ===== src/Sctp/Codec.antt =====
-- The chunk formats of src/nano_sctp.c. An encoder gives the bytes that it writes, and none where
-- it returns 0.
pub mod RoundTrip
pub mod Inits
pub mod Safety
use nanortc.Prelude.{
  Bool, List, Outcome, [], done, drop, fail_if, false, fault, get_or, if◌then◌else◌, leb, length,
  ltb, not, parse, protocol_error, read, read_u16be, read_u32be, replicate, slice, suc, take, true,
  u16_max, u8, write_u16be, write_u32be, zero, ℕ, ◌&&◌, ◌*◌, ◌++◌, ◌+◌, ◌-◌, ◌/◌, ◌==◌, ◌>>=◌, ◌>>◌,
  ◌^◌, ◌||◌, ◌∷◌,
}
use nanortc.Crc.{crc32c, crc32c_table, final, initial, update}
use nanortc.Sctp.{
  chunk_cookie_ack, chunk_cookie_echo, chunk_data, chunk_forward_tsn, chunk_sack, chunk_shutdown,
  pad4,
}

-- nsctp_header_t
pub record Header : Type 0 where
  pub src_port : ℕ
  pub dst_port : ℕ
  pub vtag : ℕ

-- nsctp_parse_header
unfoldable pub parse_header : List ℕ → Outcome Header
parse_header bytes = do
  fail_if (ltb (length bytes) 12) parse
  src ← read_u16be bytes 0
  dst ← read_u16be bytes 2
  vtag ← read_u32be bytes 4
  done (record { src_port = src; dst_port = dst; vtag = vtag })

-- A `uint32_t` as it lies in the memory of a little-endian host.
abbrev pub host_bytes : ℕ → List ℕ
host_bytes v = u8 v ∷ u8 (v / 2 ^ 8) ∷ u8 (v / 2 ^ 16) ∷ u8 (v / 2 ^ 24) ∷ []

abbrev pub host_word : List ℕ → ℕ
host_word bytes =
    get_or bytes 0 0
    + get_or bytes 1 0 * 2 ^ 8
    + get_or bytes 2 0 * 2 ^ 16
    + get_or bytes 3 0 * 2 ^ 24

-- The checksum that nsctp_verify_checksum computes, in three segments.
unfoldable pub segmented_checksum : List ℕ → ℕ
segmented_checksum bytes = final (
    update crc32c_table
      (update crc32c_table (update crc32c_table initial (take 8 bytes)) (replicate 4 0))
      (drop 12 bytes))

-- nsctp_verify_checksum
unfoldable pub verify_checksum : List ℕ → Outcome (Unit {0})
verify_checksum bytes = do
  fail_if (ltb (length bytes) 12) parse
  stored ← slice bytes 8 4
  fail_if (not (segmented_checksum bytes == host_word stored)) protocol_error

-- nsctp_finalize_checksum
unfoldable pub finalize_checksum : List ℕ → List ℕ
finalize_checksum bytes =
    let zeroed = take 8 bytes ++ (replicate 4 0 ++ drop 12 bytes) in
    take 8 bytes ++ (host_bytes (crc32c zeroed) ++ drop 12 bytes)

-- nsctp_init_t; no cookie is the empty one.
pub record Init : Type 0 where
  pub initiate_tag : ℕ
  pub a_rwnd : ℕ
  pub num_ostreams : ℕ
  pub num_istreams : ℕ
  pub initial_tsn : ℕ
  pub cookie : List ℕ
  pub forward_tsn_supported : Bool

-- SCTP_PARAM_STATE_COOKIE, SCTP_PARAM_FORWARD_TSN
abbrev pub param_state_cookie : ℕ
param_state_cookie = 7

abbrev pub param_forward_tsn : ℕ
param_forward_tsn = 0xc000

-- What one parameter of type `ptype` and length `plen` at `pos` does to the result.
unfoldable pub take_param : List ℕ → ℕ → ℕ → ℕ → Init → Outcome Init
take_param chunk pos ptype plen out =
    let out' =
      if ptype == param_forward_tsn && plen == 4
      then record out { forward_tsn_supported = true }
      else out in
    if ptype == param_state_cookie && leb (pos + plen) (length chunk)
    then (slice chunk (pos + 4) (plen - 4) >>= λ cookie. done (record out' { cookie = cookie }))
    else done out'

-- The loop of nsctp_parse_init, with fuel: each round moves on by four bytes at least.
unfoldable pub scan_params : ℕ → List ℕ → ℕ → ℕ → Init → Outcome Init
scan_params zero chunk declared_len pos out = fault
scan_params (suc fuel) chunk declared_len pos out =
    elim (leb (pos + 4) declared_len && leb (pos + 4) (length chunk)) [
      | false ↦ done out
      | true ↦ read_u16be chunk pos >>= λ ptype. read_u16be chunk (pos + 2) >>= λ plen.
          elim (ltb plen 4) [
            | true ↦ done out
            | false ↦ take_param chunk pos ptype plen out >>= λ out'.
                scan_params fuel chunk declared_len (pos + pad4 plen) out'
          ]
    ]

-- nsctp_parse_init
unfoldable pub parse_init : List ℕ → Outcome Init
parse_init chunk = do
  fail_if (ltb (length chunk) 20) parse
  tag ← read_u32be chunk 4
  rwnd ← read_u32be chunk 8
  os ← read_u16be chunk 12
  is ← read_u16be chunk 14
  tsn ← read_u32be chunk 16
  declared_len ← read_u16be chunk 2
  scan_params (length chunk) chunk declared_len 20 (record {
    initiate_tag = tag;
    a_rwnd = rwnd;
    num_ostreams = os;
    num_istreams = is;
    initial_tsn = tsn;
    cookie = [];
    forward_tsn_supported = false;
  })

-- nsctp_data_t
pub record Data : Type 0 where
  pub tsn : ℕ
  pub stream_id : ℕ
  pub ssn : ℕ
  pub ppid : ℕ
  pub flags : ℕ
  pub payload : List ℕ

-- nsctp_parse_data
unfoldable pub parse_data : List ℕ → Outcome Data
parse_data chunk = do
  fail_if (ltb (length chunk) 16) parse
  flags ← read chunk 1
  clen ← read_u16be chunk 2
  fail_if (ltb clen 16 || ltb (length chunk) clen) parse
  tsn ← read_u32be chunk 4
  sid ← read_u16be chunk 8
  ssn ← read_u16be chunk 10
  ppid ← read_u32be chunk 12
  payload ← slice chunk 16 (clen - 16)
  done (record {
    tsn = tsn;
    stream_id = sid;
    ssn = ssn;
    ppid = ppid;
    flags = flags;
    payload = payload;
  })

-- nsctp_sack_t
pub record Sack : Type 0 where
  pub cumulative_tsn : ℕ
  pub a_rwnd : ℕ
  pub num_gap_blocks : ℕ
  pub num_dup_tsns : ℕ

-- nsctp_parse_sack
unfoldable pub parse_sack : List ℕ → Outcome Sack
parse_sack chunk = do
  fail_if (ltb (length chunk) 16) parse
  tsn ← read_u32be chunk 4
  rwnd ← read_u32be chunk 8
  gaps ← read_u16be chunk 12
  dups ← read_u16be chunk 14
  done (record { cumulative_tsn = tsn; a_rwnd = rwnd; num_gap_blocks = gaps; num_dup_tsns = dups })

-- nsctp_encode_header
unfoldable pub encode_header : ℕ → ℕ → ℕ → List ℕ
encode_header src_port dst_port vtag =
    write_u16be src_port ++ (write_u16be dst_port ++ (write_u32be vtag ++ write_u32be 0))

-- The zero bytes up to a multiple of four.
unfoldable pub padding : ℕ → List ℕ
padding n = replicate (pad4 n - n) 0

-- The State Cookie parameter of nsctp_encode_init.
unfoldable pub cookie_param : List ℕ → List ℕ
cookie_param [] = []
cookie_param (b ∷ cookie) =
    write_u16be param_state_cookie
    ++ (write_u16be (4 + length (b ∷ cookie)) ++ ((b ∷ cookie) ++ padding (length (b ∷ cookie))))

-- `need` of nsctp_encode_init, which is also the length that it writes.
unfoldable pub init_size : List ℕ → ℕ
init_size cookie = 24 + (if length cookie == 0 then 0 else pad4 (4 + length cookie))

-- nsctp_encode_init
unfoldable pub encode_init : ℕ → Init → ℕ → List ℕ
encode_init kind out buf_len =
    let need = init_size out.cookie in
    if ltb buf_len need || ltb u16_max need
    then []
    else kind
      ∷ 0
      ∷ (write_u16be need
          ++ (write_u32be out.initiate_tag
              ++ (write_u32be out.a_rwnd
                  ++ (write_u16be out.num_ostreams
                      ++ (write_u16be out.num_istreams
                          ++ (write_u32be out.initial_tsn
                              ++ (cookie_param out.cookie
                                  ++ (write_u16be param_forward_tsn ++ write_u16be 4))))))))

-- nsctp_encode_cookie_echo
unfoldable pub encode_cookie_echo : List ℕ → ℕ → List ℕ
encode_cookie_echo cookie buf_len =
    if ltb (u16_max - 4) (length cookie) || ltb buf_len (pad4 (4 + length cookie))
    then []
    else chunk_cookie_echo
      ∷ 0
      ∷ (write_u16be (4 + length cookie) ++ (cookie ++ padding (4 + length cookie)))

-- nsctp_encode_cookie_ack
unfoldable pub encode_cookie_ack : List ℕ
encode_cookie_ack = chunk_cookie_ack ∷ 0 ∷ write_u16be 4

-- nsctp_encode_data
unfoldable pub encode_data : Data → ℕ → List ℕ
encode_data d buf_len =
    if ltb (u16_max - 16) (length d.payload) || ltb buf_len (pad4 (16 + length d.payload))
    then []
    else chunk_data
      ∷ d.flags
      ∷ (write_u16be (16 + length d.payload)
          ++ (write_u32be d.tsn
              ++ (write_u16be d.stream_id
                  ++ (write_u16be d.ssn
                      ++ (write_u32be d.ppid ++ (d.payload ++ padding (16 + length d.payload)))))))

-- nsctp_encode_sack
unfoldable pub encode_sack : ℕ → ℕ → List ℕ
encode_sack cumulative_tsn a_rwnd =
    chunk_sack
    ∷ 0
    ∷ (write_u16be 16
        ++ (write_u32be cumulative_tsn ++ (write_u32be a_rwnd ++ (write_u16be 0 ++ write_u16be 0))))

-- nsctp_encode_heartbeat; nsctp_encode_heartbeat_ack is the same with its own type.
unfoldable pub encode_heartbeat : ℕ → List ℕ → ℕ → List ℕ
encode_heartbeat kind info buf_len =
    if ltb (u16_max - 8) (length info) || ltb buf_len (pad4 (8 + length info))
    then []
    else kind
      ∷ 0
      ∷ (write_u16be (8 + length info)
          ++ (write_u16be 1
              ++ (write_u16be (4 + length info) ++ (info ++ padding (8 + length info)))))

-- nsctp_encode_forward_tsn, with the length that nsctp_forward_output writes over its own.
unfoldable pub encode_forward_tsn : ℕ → ℕ → List ℕ
encode_forward_tsn new_cumulative_tsn clen =
    chunk_forward_tsn ∷ 0 ∷ (write_u16be clen ++ write_u32be new_cumulative_tsn)

-- nsctp_encode_shutdown
unfoldable pub encode_shutdown : ℕ → List ℕ
encode_shutdown cumulative_tsn = chunk_shutdown ∷ 0 ∷ (write_u16be 8 ++ write_u32be cumulative_tsn)
