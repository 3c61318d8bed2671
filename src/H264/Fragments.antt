-- ===== src/H264/Fragments.antt =====
-- The fragments of h264_fragment_iter_next and the FU-A branch of h264_depkt_push, step by step
-- (src/nano_h264.c).
use nanortc.Prelude.{
  ==_iff, ==_ne, Bool, Bool-cases, List, [], arith, done, drop, error, false, fault, if◌then◌else◌,
  inl, inr, length, length-take, le→ltb, ltb, lt→ltb, none, not, refl, slice-in_range, some, suc,
  take, take-add, take_all, true, zero, ℕ, ◌++◌, ◌+◌, ◌-◌, ◌<◌, ◌==◌, ◌∙◌, ◌∷◌, ◌≡◌, ◌≤◌,
}
use nanortc.H264.{
  Depkt, FragmentIter, PacketCb, depkt_push, finish, fua_header_size, iter_has_next, iter_next,
  nal_buf_size, nal_fua, nal_ref_idc_of, nal_type_of, next_fragment, packetize_loop, push_fua,
}

-- A receiver as a callback: each payload is pushed, and the units that come out are listed.
abbrev pub Receiver : Type 0
Receiver = Depkt × List (List ℕ)

abbrev pub receive : PacketCb Receiver
receive (d, units) payload is_last =
    let (d', r) = depkt_push d payload in
    elim r [
      | done none ↦ ((d', units), done tt)
      | done (some unit) ↦ ((d', units ++ unit ∷ []), done tt)
      | error e ↦ ((d', units), error e)
      | fault ↦ ((d', units), fault)
    ]

-- The state of the depacketizer once the first `n` bytes of a unit have come in.
abbrev pub assembled : ℕ → List ℕ → Bool → Depkt
assembled header bytes going = record { bytes = bytes; nal_header = header; in_progress = going }

abbrev pub indicator : ℕ → ℕ
indicator header = nal_ref_idc_of header + nal_fua

abbrev pub fu : ℕ → Bool → Bool → ℕ
fu header first last = nal_type_of header + (if first then 0x80 else 0) + (if last then 0x40 else 0)

module _ (header : ℕ) (small : header < 128) where
  fua_type :
      (payload : List ℕ) (d : Depkt) (b : ℕ)
      → depkt_push d (indicator header ∷ b ∷ payload) ≡ push_fua d (indicator header) b payload
  unfolding depkt_push
  fua_type payload d b = ground arith

  pub push_first :
      (d : Depkt) (frag : List ℕ) (last : Bool)
      → length frag < nal_buf_size
      → depkt_push d (indicator header ∷ fu header true last ∷ frag) ≡ (
        assembled header (header ∷ frag) (not last),
        done (if last then some (header ∷ frag) else none),
      )
  push_first d frag true h =
      fua_type frag d (fu header true true) ∙ unfold push_fua finish in ground arith
  push_first d frag false h =
      fua_type frag d (fu header true false) ∙ unfold push_fua finish in ground arith

  push_next :
      (bytes frag : List ℕ) (last : Bool)
      → length bytes + length frag ≤ nal_buf_size
      → depkt_push (assembled header bytes true) (indicator header ∷ fu header false last ∷ frag)
        ≡ (
          assembled header (bytes ++ frag) (not last),
          done (if last then some (bytes ++ frag) else none),
        )
  push_next bytes frag true h =
      fua_type frag (assembled header bytes true) (fu header false true)
      ∙ unfold push_fua finish in ground arith
  push_next bytes frag false h =
      fua_type frag (assembled header bytes true) (fu header false false)
      ∙ unfold push_fua finish in ground arith

-- The iterator in the FU-A mode, with `rem` bytes left from `o` on.
abbrev pub fragments : List ℕ → ℕ → ℕ → ℕ → ℕ → Bool → FragmentIter
fragments nalu mtu header o rem over = record {
  nalu = nalu;
  mtu = mtu;
  fu_indicator = indicator header;
  nal_type = nal_type_of header;
  data_at = o;
  remaining = rem;
  max_frag = mtu - fua_header_size;
  single_nal = false;
  done_flag = over;
}

pub loop-step :
    {S : Type 0} (cb : PacketCb S) (fuel : ℕ) (it it' : FragmentIter) (scratch_len : ℕ) (s s' : S)
    (payload : List ℕ) (is_last : Bool)
    → iter_has_next it ≡ true
    → iter_next it scratch_len ≡ done (it', payload, is_last)
    → cb s payload is_last ≡ (s', done tt)
    → packetize_loop cb (suc fuel) it scratch_len s ≡ packetize_loop cb fuel it' scratch_len s'
unfolding packetize_loop
loop-step cb fuel it it' scratch_len s s' payload is_last h n c = ground arith

pub loop-over :
    {S : Type 0} (cb : PacketCb S) (fuel : ℕ) (it : FragmentIter) (scratch_len : ℕ) (s : S)
    → 0 < fuel
    → iter_has_next it ≡ false
    → packetize_loop cb fuel it scratch_len s ≡ (s, done tt)
unfolding packetize_loop
loop-over cb zero it scratch_len s p h = absurd (omega arith)
loop-over cb (suc fuel) it scratch_len s p h = ground arith

receive-none :
    (d d' : Depkt) (units : List (List ℕ)) (payload : List ℕ) (is_last : Bool)
    → depkt_push d payload ≡ (d', done none)
    → receive (d, units) payload is_last ≡ ((d', units), done tt)
receive-none d d' units payload is_last h = ground arith

pub receive-some :
    (d d' : Depkt) (units : List (List ℕ)) (payload unit : List ℕ) (is_last : Bool)
    → depkt_push d payload ≡ (d', done (some unit))
    → receive (d, units) payload is_last ≡ ((d', units ++ unit ∷ []), done tt)
receive-some d d' units payload unit is_last h = ground arith

module _ (nalu : List ℕ) (mtu header scratch_len : ℕ) (room : fua_header_size < mtu)
    (scratch : mtu ≤ scratch_len) where
  abbrev pub frag_len : ℕ → ℕ
  frag_len rem = if ltb rem (mtu - fua_header_size) then rem else mtu - fua_header_size

  pub frag_len-le :
      (rem : ℕ) → 0 < rem → (0 < frag_len rem) × (frag_len rem ≤ rem) × (frag_len rem + 2 ≤ mtu)
  frag_len-le rem p = ground arith

  next-fragments :
      (o rem : ℕ) (last : Bool)
      → 0 < rem
      → o + rem ≡ length nalu
      → (rem == frag_len rem) ≡ last
      → iter_next (fragments nalu mtu header o rem false) scratch_len
        ≡ done (
          fragments nalu mtu header (o + frag_len rem) (rem - frag_len rem) last,
          indicator header ∷ fu header (o == 1) last ∷ take (frag_len rem) (drop o nalu),
          last,
        )
  unfolding iter_next next_fragment
  next-fragments o rem last p e is_last =
      let (a, b, c) = frag_len-le rem p in
      rw (
        slice-in_range nalu o (frag_len rem) (omega (arith, e)),
        ==_ne rem 0 (omega arith),
        le→ltb scratch_len (fua_header_size + frag_len rem) (omega arith),
        is_last,
      )

  -- The depacketizer `d` takes the fragment at `o` and has then the first `o + n` bytes.
  unfoldable pub Ready : Depkt → ℕ → ℕ → Type 0
  Ready d o n =
      (last : Bool)
      → depkt_push d (indicator header ∷ fu header (o == 1) last ∷ take n (drop o nalu)) ≡ (
        assembled header (take (o + n) nalu) (not last),
        done (if last then some (take (o + n) nalu) else none),
      )

  module _ (small : header < 128) (fits : length nalu ≤ nal_buf_size) where
    assembled-Ready :
        (o n : ℕ) → 1 < o → o + n ≤ length nalu → Ready (assembled header (take o nalu) true) o n
    unfolding Ready
    assembled-Ready o n b e last = rw (
      ==_ne o 1 (omega arith),
      push_next header small (take o nalu) (take n (drop o nalu)) last
          (omega (arith, length-take o nalu, length-take n (drop o nalu))),
      take-add o n nalu,
    )

    -- The rest of the unit goes out, and the receiver has put the unit together.
    pub loop-receive :
        (fuel o rem : ℕ) (d : Depkt) (units : List (List ℕ))
        → 0 < o
        → 0 < rem
        → rem < fuel
        → o + rem ≡ length nalu
        → Ready d o (frag_len rem)
        → packetize_loop receive fuel (fragments nalu mtu header o rem false) scratch_len (d, units)
          ≡ ((assembled header nalu false, units ++ nalu ∷ []), done tt)
    unfolding iter_has_next Ready
    loop-receive zero o rem d units b p f e ready = absurd (omega arith)
    loop-receive (suc fuel) o rem d units b p f e ready =
        let (x, y, z) = frag_len-le rem p in
        let n = frag_len rem in
        let it = fragments nalu mtu header o rem false in
        let it' = λ (over : Bool). fragments nalu mtu header (o + n) (rem - n) over in
        let payload =
          λ (last : Bool). indicator header ∷ fu header (o == 1) last ∷ take n (drop o nalu) in
        let left : (rem == n) ≡ false → 0 < rem - n = λ h. ground arith in
        let has_next = lt→ltb 0 rem p in
        elim (Bool-cases (rem == n)) [
          | inl last ↦
              (let whole : take (o + n) nalu ≡ nalu =
                  take_all (o + n) nalu (omega (arith, e, (==_iff rem n).0 last)) in
                loop-step receive fuel it (it' true) scratch_len (d, units)
                  (assembled header nalu false, units ++ nalu ∷ []) (payload true) true has_next
                  (next-fragments o rem true p e last)
                  (receive-some d (assembled header nalu false) units (payload true) nalu true
                    (ready true ∙ rw whole))
                ∙ loop-over receive fuel (it' true) scratch_len
                    (assembled header nalu false, units ++ nalu ∷ []) (omega arith) refl)
          | inr more ↦
              loop-step receive fuel it (it' false) scratch_len (d, units)
                (assembled header (take (o + n) nalu) true, units) (payload false) false has_next
                (next-fragments o rem false p e more)
                (receive-none d (assembled header (take (o + n) nalu) true) units (payload false)
                  false (ready false))
              ∙ loop-receive fuel (o + n) (rem - n) (assembled header (take (o + n) nalu) true)
                  units (omega arith) (left more) (omega arith) (omega (arith, e))
                  (assembled-Ready (o + n) (frag_len (rem - n)) (omega arith)
                    (omega (arith, e, (frag_len-le (rem - n) (left more)).1)))
        ]
