-- ===== src/Sctp/Codec/Inits.antt =====
-- nsctp_parse_init of src/nano_sctp.c gives back what nsctp_encode_init was given.
use mathlib.Core.List.{append_assoc}
use nanortc.Prelude.{
  ==_ne, List, Outcome, [], ap, arith, done, fail_if, false, if◌then◌else◌, join16, join32, length,
  length-append, length-replicate, le→leb, le→ltb, ltb, lt→leb, lt→ltb, read, read_u16be,
  read_u16be-append, read_u32be, refl, slice, slice-middle, suc, sym, true, u16_max, write_u16be,
  write_u32be, ℕ, ◌%◌, ◌++◌, ◌+◌, ◌-◌, ◌<◌, ◌==◌, ◌>>=◌, ◌^◌, ◌∙◌, ◌∷◌, ◌≡◌, ◌≤◌,
}
use nanortc.Sctp.{pad4}
use nanortc.Sctp.Codec.{
  Init, cookie_param, encode_init, init_size, padding, param_forward_tsn, param_state_cookie,
  parse_init, scan_params, take_param,
}

-- One parameter, whatever it is, and the end of the parameters.
scan_params-step :
    (fuel : ℕ) (chunk : List ℕ) (declared_len pos ptype plen : ℕ) (out : Init)
    → read_u16be chunk pos ≡ done ptype
    → read_u16be chunk (pos + 2) ≡ done plen
    → pos + 4 ≤ declared_len
    → pos + 4 ≤ length chunk
    → 4 ≤ plen
    → scan_params (suc fuel) chunk declared_len pos out ≡ (
        take_param chunk pos ptype plen out >>= λ out'.
        scan_params fuel chunk declared_len (pos + pad4 plen) out')
unfolding scan_params
scan_params-step fuel chunk declared_len pos ptype plen out a b h k p =
    simp (scan_params, le→leb (pos + 4) declared_len h, le→leb (pos + 4) (length chunk) k, a, b)
      (ap
        (λ b. elim b as (λ _. Outcome Init) [
          | true ↦ done out
          | false ↦ take_param chunk pos ptype plen out >>= λ out'.
              scan_params fuel chunk declared_len (pos + pad4 plen) out'
        ])
        (le→ltb plen 4 p))

scan_params-end :
    (fuel : ℕ) (chunk : List ℕ) (declared_len pos : ℕ) (out : Init)
    → declared_len < pos + 4
    → scan_params (suc fuel) chunk declared_len pos out ≡ done out
unfolding scan_params
scan_params-end fuel chunk declared_len pos out h =
    simp (scan_params, lt→leb (pos + 4) declared_len h) refl

-- The fields are in the ranges of their C types, and the chunk has a length that its field holds.
pub record IsInit (out : Init) : Type 0 where
  pub tag_word : out.initiate_tag < 2 ^ 32
  pub rwnd_word : out.a_rwnd < 2 ^ 32
  pub ostreams_word : out.num_ostreams < 2 ^ 16
  pub istreams_word : out.num_istreams < 2 ^ 16
  pub tsn_word : out.initial_tsn < 2 ^ 32
  pub short : init_size out.cookie < 2 ^ 16
  pub forward : out.forward_tsn_supported ≡ true

-- The 20 bytes before the parameters.
fixed_part : ℕ → Init → List ℕ
fixed_part kind out =
    kind
    ∷ 0
    ∷ (write_u16be (init_size out.cookie)
        ++ (write_u32be out.initiate_tag
            ++ (write_u32be out.a_rwnd
                ++ (write_u16be out.num_ostreams
                    ++ (write_u16be out.num_istreams ++ write_u32be out.initial_tsn)))))

-- What the fixed part says, before any parameter.
abbrev bare : Init → Init
bare out = record out { cookie = []; forward_tsn_supported = false }

parse_init-fixed_part :
    (kind : ℕ) (out : Init) (params : List ℕ)
    → IsInit out
    → parse_init (fixed_part kind out ++ params)
      ≡ scan_params
          (20 + length params)
          (fixed_part kind out ++ params)
          (init_size out.cookie)
          20
          (bare out)
unfolding parse_init read read_u16be read_u32be fail_if fixed_part
parse_init-fixed_part kind out params v =
    rw
      (
        le→ltb (length (fixed_part kind out ++ params)) 20 (omega arith),
        join32 out.initiate_tag v.tag_word,
        join32 out.a_rwnd v.rwnd_word,
        join16 out.num_ostreams v.ostreams_word,
        join16 out.num_istreams v.istreams_word,
        join32 out.initial_tsn v.tsn_word,
        join16 (init_size out.cookie) v.short,
      )
      (ap (λ n. scan_params n (fixed_part kind out ++ params) (init_size out.cookie) 20 (bare out))
        (omega arith))

-- The Forward TSN parameter at the end.
abbrev forward_param : List ℕ
forward_param = write_u16be param_forward_tsn ++ write_u16be 4

scan_params-forward_param :
    (fuel : ℕ) (pre : List ℕ) (pos declared_len : ℕ) (out : Init)
    → length pre ≡ pos
    → declared_len ≡ pos + 4
    → scan_params (suc (suc fuel)) (pre ++ forward_param) declared_len pos out
      ≡ done (record out { forward_tsn_supported = true })
unfolding take_param
scan_params-forward_param fuel pre pos declared_len out e d =
    scan_params-step (suc fuel) (pre ++ forward_param) declared_len pos param_forward_tsn 4 out
      (read_u16be-append pre (write_u16be 4) pos param_forward_tsn e (omega arith))
      (ap (λ bytes. read_u16be bytes (pos + 2))
          (sym (append_assoc pre (write_u16be param_forward_tsn) (write_u16be 4)))
        ∙ read_u16be-append (pre ++ write_u16be param_forward_tsn) [] (pos + 2) 4
            (omega (arith, e, length-append pre (write_u16be param_forward_tsn))) (omega arith))
      (omega (arith, d)) (omega (arith, e, length-append pre forward_param)) (omega arith)
    ∙ scan_params-end fuel (pre ++ forward_param) declared_len (pos + pad4 4)
        (record out { forward_tsn_supported = true }) (omega (arith, d))

-- The cookie and what follows it.
with_cookie : List ℕ → List ℕ → List ℕ → List ℕ
with_cookie pre cookie rest =
    pre ++ (write_u16be param_state_cookie ++ (write_u16be (4 + length cookie) ++ (cookie ++ rest)))

module _ (pre cookie rest : List ℕ) (pos : ℕ) (e : length pre ≡ pos)
    (short : 4 + length cookie < 2 ^ 16) where
  read-cookie_type : read_u16be (with_cookie pre cookie rest) pos ≡ done param_state_cookie
  unfolding with_cookie
  read-cookie_type =
      read_u16be-append pre (write_u16be (4 + length cookie) ++ (cookie ++ rest)) pos
        param_state_cookie e (omega arith)

  read-cookie_length : read_u16be (with_cookie pre cookie rest) (pos + 2) ≡ done (4 + length cookie)
  unfolding with_cookie
  read-cookie_length =
      ap (λ bytes. read_u16be bytes (pos + 2))
        (sym (
          append_assoc pre (write_u16be param_state_cookie)
            (write_u16be (4 + length cookie) ++ (cookie ++ rest))))
      ∙ read_u16be-append (pre ++ write_u16be param_state_cookie) (cookie ++ rest) (pos + 2)
          (4 + length cookie) (omega (arith, e, length-append pre (write_u16be param_state_cookie)))
          short

  length-with_cookie : length (with_cookie pre cookie rest) ≡ pos + 4 + length cookie + length rest
  unfolding with_cookie
  length-with_cookie = omega (
    arith,
    e,
    length-append pre
        (write_u16be param_state_cookie ++ (write_u16be (4 + length cookie) ++ (cookie ++ rest))),
    length-append cookie rest,
  )

  take_param-with_cookie :
      (out : Init)
      → take_param (with_cookie pre cookie rest) pos param_state_cookie (4 + length cookie) out
        ≡ done (record out { cookie = cookie })
  unfolding take_param with_cookie
  take_param-with_cookie out =
      let here : slice (with_cookie pre cookie rest) (pos + 4) (length cookie) ≡ done cookie =
        ap (λ bytes. slice bytes (pos + 4) (length cookie))
          (sym (
            append_assoc pre (write_u16be param_state_cookie ++ write_u16be (4 + length cookie))
              (cookie ++ rest)))
        ∙ slice-middle (pre ++ (write_u16be param_state_cookie ++ write_u16be (4 + length cookie)))
            cookie rest (pos + 4)
            (omega (
              arith,
              e,
              length-append pre (write_u16be param_state_cookie ++ write_u16be (4 + length cookie)),
            )) in
      let size : 4 + length cookie - 4 ≡ length cookie = omega arith in
      rw
        (
          le→leb (pos + (4 + length cookie)) (length (with_cookie pre cookie rest))
              (omega (arith, length-with_cookie)),
          size,
          here,
        )
        refl

scan_params-with_cookie :
    (fuel : ℕ) (pre cookie : List ℕ) (pos declared_len : ℕ) (out : Init)
    → length pre ≡ pos
    → 4 + length cookie < 2 ^ 16
    → declared_len ≡ pos + pad4 (4 + length cookie) + 4
    → scan_params
        (suc (suc (suc fuel)))
        (with_cookie pre cookie (padding (length cookie) ++ forward_param))
        declared_len
        pos
        out
      ≡ done (record out { cookie = cookie; forward_tsn_supported = true })
unfolding with_cookie padding
scan_params-with_cookie fuel pre cookie pos declared_len out e short d =
    let n = length cookie in
    let rest = padding n ++ forward_param in
    let bytes = with_cookie pre cookie rest in
    let front =
      pre ++ (write_u16be param_state_cookie ++ (write_u16be (4 + n) ++ (cookie ++ padding n))) in
    let pads : length (padding n) ≡ pad4 n - n = length-replicate {A = ℕ} (pad4 n - n) 0 in
    let split : bytes ≡ front ++ forward_param =
      ap (λ l. pre ++ (write_u16be param_state_cookie ++ (write_u16be (4 + n) ++ l)))
        (sym (append_assoc cookie (padding n) forward_param))
      ∙ sym (
          append_assoc pre
            (write_u16be param_state_cookie ++ (write_u16be (4 + n) ++ (cookie ++ padding n)))
            forward_param) in
    let size : length front ≡ pos + pad4 (4 + n) = omega (
      arith,
      e,
      pads,
      length-append pre
          (write_u16be param_state_cookie ++ (write_u16be (4 + n) ++ (cookie ++ padding n))),
      length-append cookie (padding n),
    ) in
    scan_params-step (suc (suc fuel)) bytes declared_len pos param_state_cookie (4 + n) out
      (read-cookie_type pre cookie rest pos e short)
      (read-cookie_length pre cookie rest pos e short) (omega (arith, d))
      (omega (arith, length-with_cookie pre cookie rest pos e short)) (omega arith)
    ∙ ap
        (λ r.
          r >>= λ out'. scan_params (suc (suc fuel)) bytes declared_len (pos + pad4 (4 + n)) out')
        (take_param-with_cookie pre cookie rest pos e short out)
    ∙ ap
        (λ l.
          scan_params (suc (suc fuel)) l declared_len (pos + pad4 (4 + n))
            (record out { cookie = cookie }))
        split
    ∙ scan_params-forward_param fuel front (pos + pad4 (4 + n)) declared_len
        (record out { cookie = cookie }) size d

-- The parameters of nsctp_encode_init.
abbrev params : List ℕ → List ℕ
params cookie = cookie_param cookie ++ forward_param

length-params : (cookie : List ℕ) → 20 + length (params cookie) ≡ init_size cookie
unfolding cookie_param init_size padding
length-params [] = refl
length-params (b ∷ cookie) =
    let n = length (b ∷ cookie) in
    let size : init_size (b ∷ cookie) ≡ 24 + pad4 (4 + n) = ground arith in
    omega (
      arith,
      size,
      length-append cookie (padding n),
      length-append (cookie ++ padding n) forward_param,
      length-replicate {A = ℕ} (pad4 n - n) 0,
    )

scan_params-params :
    (fuel : ℕ) (pre cookie : List ℕ) (out : Init)
    → length pre ≡ 20
    → init_size cookie < 2 ^ 16
    → scan_params (suc (suc (suc fuel))) (pre ++ params cookie) (init_size cookie) 20 out
      ≡ done (record out {
        cookie = if length cookie == 0 then out.cookie else cookie;
        forward_tsn_supported = true;
      })
unfolding cookie_param init_size with_cookie
scan_params-params fuel pre [] out e short =
    scan_params-forward_param (suc fuel) pre 20 24 out e refl
scan_params-params fuel pre (b ∷ cookie) out e short =
    let n = length (b ∷ cookie) in
    let size : init_size (b ∷ cookie) ≡ 24 + pad4 (4 + n) = ground arith in
    let filled : (n == 0) ≡ false = ==_ne n 0 (omega arith) in
    ap
      (λ l.
        scan_params (suc (suc (suc fuel)))
          (pre ++ (write_u16be param_state_cookie ++ (write_u16be (4 + n) ++ (b ∷ l))))
          (init_size (b ∷ cookie)) 20 out)
      (append_assoc cookie (padding n) forward_param)
    ∙ scan_params-with_cookie fuel pre (b ∷ cookie) 20 (init_size (b ∷ cookie)) out e
        (omega (arith, size)) (omega (arith, size))
    ∙ rw filled refl

same_cookie : (cookie : List ℕ) → (if length cookie == 0 then [] else cookie) ≡ cookie
same_cookie [] = refl
same_cookie (b ∷ cookie) = rw (==_ne (length (b ∷ cookie)) 0 (omega arith)) refl

parsed :
    (kind : ℕ) (out : Init)
    → IsInit out
    → parse_init (fixed_part kind out ++ params out.cookie) ≡ done out
unfolding fixed_part
parsed kind out v =
    let bytes = fixed_part kind out ++ params out.cookie in
    parse_init-fixed_part kind out (params out.cookie) v
    ∙ ap (λ n. scan_params n bytes (init_size out.cookie) 20 (bare out)) (omega arith)
    ∙ scan_params-params (17 + length (params out.cookie)) (fixed_part kind out) out.cookie
        (bare out) refl v.short
    ∙ ap (λ c. done (record out { cookie = c; forward_tsn_supported = true }))
        (same_cookie out.cookie)
    ∙ ap (λ f. done (record out { forward_tsn_supported = f })) (sym v.forward)

-- The length field.
declared :
    (kind : ℕ) (out : Init)
    → IsInit out
    → read_u16be (fixed_part kind out ++ params out.cookie) 2 ≡ done (init_size out.cookie)
unfolding fixed_part read_u16be read
declared kind out v = rw (join16 (init_size out.cookie) v.short) refl

-- The bytes that nsctp_encode_init writes into a buffer with room for them, nsctp_parse_init reads
-- back as the parameters that they were made from, where these are in the ranges of their C types,
-- say that Forward TSN is supported, and have a cookie, or none, with which the length of the chunk
-- fits its 16-bit field. The length that the chunk declares is the number of bytes written, a
-- multiple of four. Into a smaller buffer it writes nothing.
pub parse_init-encode_init :
    (kind : ℕ) (out : Init) (buf_len : ℕ)
    → IsInit out
    → (init_size out.cookie ≤ buf_len
        → (parse_init (encode_init kind out buf_len) ≡ done out)
          × (read_u16be (encode_init kind out buf_len) 2 ≡ done (init_size out.cookie))
          × (length (encode_init kind out buf_len) ≡ init_size out.cookie)
          × (init_size out.cookie % 4 ≡ 0))
      × (buf_len < init_size out.cookie → encode_init kind out buf_len ≡ [])
unfolding encode_init fixed_part init_size
parse_init-encode_init kind out buf_len v =
    let fits : ltb u16_max (init_size out.cookie) ≡ false =
      le→ltb u16_max (init_size out.cookie) (omega (arith, v.short)) in
    (
      λ h.
          let room : ltb buf_len (init_size out.cookie) ≡ false =
            le→ltb buf_len (init_size out.cookie) h in
          (
            rw (fits, room) (parsed kind out v),
            rw (fits, room) (declared kind out v),
            rw (fits, room) (omega (arith, length-params out.cookie)),
            ground arith,
          ),
      λ h. rw (fits, lt→ltb buf_len (init_size out.cookie) h),
    )
