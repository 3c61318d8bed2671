-- ===== src/H264.antt =====
-- src/nano_h264.c: H.264 units as RTP payloads (single unit, FU-A, STAP-A).
-- A byte's fields are taken by `/` and `%`, and `|` of disjoint fields is written as the sum.
pub mod Fragments
pub mod RoundTrip
pub mod Safety
mod Tests
use nanortc.Prelude.{
  Bool, List, Option, Outcome, [], buffer_too_small, done, error, false, fault, if◌then◌else◌,
  invalid_param, leb, length, ltb, none, not, parse, read, read_u16be, slice, some, suc, true, zero,
  ℕ, ◌%◌, ◌&&◌, ◌*◌, ◌++◌, ◌+◌, ◌-◌, ◌/◌, ◌==◌, ◌>>=◌, ◌||◌, ◌∷◌,
}

-- H264_NAL_IDR, H264_NAL_STAPA, H264_NAL_FUA
abbrev pub nal_idr : ℕ
nal_idr = 5

abbrev pub nal_stapa : ℕ
nal_stapa = 24

abbrev pub nal_fua : ℕ
nal_fua = 28

-- H264_FUA_HEADER_SIZE, NANORTC_VIDEO_NAL_BUF_SIZE
abbrev pub fua_header_size : ℕ
fua_header_size = 2

abbrev pub nal_buf_size : ℕ
nal_buf_size = 16384

-- `byte & H264_NAL_TYPE_MASK`, `byte & H264_NAL_REF_IDC_MASK`
abbrev pub nal_type_of : ℕ → ℕ
nal_type_of b = b % 32

abbrev pub nal_ref_idc_of : ℕ → ℕ
nal_ref_idc_of b = b / 32 % 4 * 32

-- h264_fragment_iter_t; `data_at` is `data - nalu`.
pub record FragmentIter : Type 0 where
  pub nalu : List ℕ
  pub mtu : ℕ
  pub fu_indicator : ℕ
  pub nal_type : ℕ
  pub data_at : ℕ
  pub remaining : ℕ
  pub max_frag : ℕ
  pub single_nal : Bool
  pub done_flag : Bool

-- h264_fragment_iter_init
unfoldable pub iter_init : List ℕ → ℕ → Outcome FragmentIter
iter_init nalu mtu =
    if length nalu == 0 || ltb mtu (fua_header_size + 1)
    then error invalid_param
    else if leb (length nalu) mtu
    then done (record {
      nalu = nalu;
      mtu = mtu;
      fu_indicator = 0;
      nal_type = 0;
      data_at = 0;
      remaining = 0;
      max_frag = 0;
      single_nal = true;
      done_flag = false;
    })
    else (read nalu 0 >>= λ nal_header. done (record {
      nalu = nalu;
      mtu = mtu;
      fu_indicator = nal_ref_idc_of nal_header + nal_fua;
      nal_type = nal_type_of nal_header;
      data_at = 1;
      remaining = length nalu - 1;
      max_frag = mtu - fua_header_size;
      single_nal = false;
      done_flag = false;
    }))

-- h264_fragment_iter_has_next
unfoldable pub iter_has_next : FragmentIter → Bool
iter_has_next it = if it.done_flag then false else it.single_nal || ltb 0 it.remaining

-- The FU-A branch of h264_fragment_iter_next.
unfoldable pub next_fragment : FragmentIter → ℕ → Outcome (FragmentIter × List ℕ × Bool)
next_fragment it scratch_len =
    let frag_len = if ltb it.remaining it.max_frag then it.remaining else it.max_frag in
    let is_last = it.remaining == frag_len in
    let fu_header =
      it.nal_type + (if it.data_at == 1 then 0x80 else 0) + (if is_last then 0x40 else 0) in
    if ltb scratch_len (fua_header_size + frag_len)
    then error buffer_too_small
    else (slice it.nalu it.data_at frag_len >>= λ bytes. done (
      record it {
        data_at = it.data_at + frag_len;
        remaining = it.remaining - frag_len;
        done_flag = is_last;
      },
      it.fu_indicator ∷ fu_header ∷ bytes,
      is_last,
    ))

-- h264_fragment_iter_next: the new state, the payload and `is_last`.
unfoldable pub iter_next : FragmentIter → ℕ → Outcome (FragmentIter × List ℕ × Bool)
iter_next it scratch_len =
    if it.done_flag
    then error invalid_param
    else if it.single_nal
    then done (record it { done_flag = true }, it.nalu, true)
    else if it.remaining == 0
    then error invalid_param
    else next_fragment it scratch_len

-- The callback of h264_packetize acts on a state; an error stops the loop.
abbrev pub PacketCb : Type 0 → Type 0
PacketCb S = S → List ℕ → Bool → S × Outcome (Unit {0})

-- The loop of h264_packetize, with fuel; running out of it is a fault.
unfoldable pub packetize_loop :
    {S : Type 0} → PacketCb S → ℕ → FragmentIter → ℕ → S → S × Outcome (Unit {0})
packetize_loop cb zero it scratch_len s = (s, fault)
packetize_loop cb (suc fuel) it scratch_len s = elim (iter_has_next it) [
  | false ↦ (s, done tt)
  | true ↦ elim (iter_next it scratch_len) [
    | error e ↦ (s, error e)
    | fault ↦ (s, fault)
    | done (it', payload, is_last) ↦
        (let (s', rc) = cb s payload is_last in
          elim rc [
            | done u ↦ packetize_loop cb fuel it' scratch_len s'
            | error e ↦ (s', error e)
            | fault ↦ (s', fault)
          ])
  ]
]

-- h264_packetize: each round takes a byte of the unit at least.
unfoldable pub packetize : {S : Type 0} → PacketCb S → List ℕ → ℕ → ℕ → S → S × Outcome (Unit {0})
packetize cb nalu mtu scratch_len s = elim (iter_init nalu mtu) [
  | error e ↦ (s, error e)
  | fault ↦ (s, fault)
  | done it ↦ packetize_loop cb (length nalu + 1) it scratch_len s
]

-- nano_h264_depkt_t: `bytes` are the first `len` bytes of `buf`. They are read again only while
-- `in_progress`, so what a refused STAP-A leaves in `buf` is not kept.
pub record Depkt : Type 0 where
  pub bytes : List ℕ
  pub nal_header : ℕ
  pub in_progress : Bool

-- h264_depkt_init
unfoldable pub depkt_init : Depkt
depkt_init = record { bytes = []; nal_header = 0; in_progress = false }

-- `if (in_progress) { in_progress = 0; len = 0; }`
unfoldable pub abort : Depkt → Depkt
abort d = if d.in_progress then record d { bytes = []; in_progress = false } else d

-- A unit goes out through `nalu_out`, or none.
abbrev pub Pushed : Type 0
Pushed = Depkt × Outcome (Option (List ℕ))

unfoldable pub push_single : Depkt → List ℕ → Pushed
push_single d payload =
    if ltb nal_buf_size (length payload)
    then (abort d, error buffer_too_small)
    else (record (abort d) { bytes = payload }, done (some payload))

-- The loop over the units of a STAP-A, with fuel; the result is the first unit, if any. A length
-- field is the 2 bytes at `offset`.
unfoldable pub stapa_from : ℕ → List ℕ → ℕ → Option (List ℕ) → Outcome (Option (List ℕ))
stapa_from zero payload offset first = fault
stapa_from (suc fuel) payload offset first = elim (ltb (length payload) (offset + 2)) [
  | true ↦ done first
  | false ↦ read_u16be payload offset >>= λ sub_len.
      elim (ltb (length payload - (offset + 2)) sub_len) [
        | true ↦ error parse
        | false ↦ elim (sub_len == 0) [
          | true ↦ done first
          | false ↦ elim first [
            | some unit ↦ stapa_from fuel payload (offset + 2 + sub_len) (some unit)
            | none ↦ elim (ltb nal_buf_size sub_len) [
              | true ↦ error buffer_too_small
              | false ↦ slice payload (offset + 2) sub_len >>= λ unit.
                  stapa_from fuel payload (offset + 2 + sub_len) (some unit)
            ]
          ]
        ]
      ]
]

-- The STAP-A branch of h264_depkt_push: each round moves on by three bytes at least.
unfoldable pub push_stapa : Depkt → List ℕ → Pushed
push_stapa d payload = elim (stapa_from (length payload) payload 1 none) [
  | done none ↦ (abort d, done none)
  | done (some unit) ↦ (record (abort d) { bytes = unit }, done (some unit))
  | error e ↦ (abort d, error e)
  | fault ↦ (abort d, fault)
]

-- `if (is_end)` of the FU-A branch
unfoldable pub finish : Depkt → ℕ → Pushed
finish d fu_header =
    if fu_header / 64 % 2 == 0
    then (d, done none)
    else (record d { in_progress = false }, done (some d.bytes))

-- The FU-A branch of h264_depkt_push, `b0` and `fu_header` being its first two bytes and `frag`
-- the rest.
unfoldable pub push_fua : Depkt → ℕ → ℕ → List ℕ → Pushed
push_fua d b0 fu_header frag =
    let header = nal_ref_idc_of b0 + nal_type_of fu_header in
    if not (fu_header / 128 % 2 == 0)
    then if ltb nal_buf_size (1 + length frag)
      then (record { bytes = []; nal_header = header; in_progress = false }, error buffer_too_small)
      else finish (record { bytes = header ∷ frag; nal_header = header; in_progress = true })
          fu_header
    else if d.in_progress
    then if ltb nal_buf_size (length d.bytes + length frag)
      then (record d { bytes = []; in_progress = false }, error buffer_too_small)
      else finish (record d { bytes = d.bytes ++ frag }) fu_header
    else (d, done none)

-- h264_depkt_push
unfoldable pub depkt_push : Depkt → List ℕ → Pushed
depkt_push d [] = (d, error invalid_param)
depkt_push d (b0 ∷ rest) =
    let nal_type = nal_type_of b0 in
    if leb 1 nal_type && leb nal_type 23
    then push_single d (b0 ∷ rest)
    else if nal_type == nal_stapa
    then push_stapa d (b0 ∷ rest)
    else if nal_type == nal_fua
    then elim rest [ [] ↦ (d, error parse) | fu_header ∷ frag ↦ push_fua d b0 fu_header frag ]
    else (d, done none)

-- The loop of h264_is_keyframe over the units of a STAP-A, with fuel.
unfoldable pub stapa_keyframe : ℕ → List ℕ → ℕ → Outcome Bool
stapa_keyframe zero payload offset = fault
stapa_keyframe (suc fuel) payload offset = elim (ltb (length payload) (offset + 2)) [
  | true ↦ done false
  | false ↦ read_u16be payload offset >>= λ sub_len.
      elim (sub_len == 0 || ltb (length payload - (offset + 2)) sub_len) [
        | true ↦ done false
        | false ↦ read payload (offset + 2) >>= λ b. elim (nal_type_of b == nal_idr) [
          | true ↦ done true
          | false ↦ stapa_keyframe fuel payload (offset + 2 + sub_len)
        ]
      ]
]

-- h264_is_keyframe
unfoldable pub is_keyframe : List ℕ → Outcome Bool
is_keyframe [] = done false
is_keyframe (b0 ∷ rest) =
    let nal_type = nal_type_of b0 in
    if leb 1 nal_type && leb nal_type 23
    then done (nal_type == nal_idr)
    else if nal_type == nal_stapa
    then stapa_keyframe (length (b0 ∷ rest)) (b0 ∷ rest) 1
    else if nal_type == nal_fua
    then elim rest [
      | [] ↦ done false
      | fu_header ∷ frag ↦
          done (if fu_header / 128 % 2 == 0 then false else nal_type_of fu_header == nal_idr)
    ]
    else done false
