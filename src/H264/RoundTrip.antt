-- ===== src/H264/RoundTrip.antt =====
-- What h264_packetize sends, h264_depkt_push puts together again (src/nano_h264.c).
use nanortc.Prelude.{
  Bool, Bool-cases, List, Outcome, [], arith, done, false, if◌then◌else◌, inl, inr, leb, length,
  length-take, none, not, read, refl, some, suc, take, true, ℕ, ◌++◌, ◌+◌, ◌<◌, ◌∙◌, ◌∷◌, ◌≡◌, ◌≤◌,
}
use nanortc.H264.{
  Depkt, FragmentIter, PacketCb, abort, depkt_push, fua_header_size, iter_has_next, iter_init,
  iter_next, nal_buf_size, nal_type_of, packetize, packetize_loop, push_single,
}
use nanortc.H264.Fragments.{
  Ready, Receiver, assembled, frag_len, frag_len-le, fragments, fu, indicator, loop-receive,
  push_first, receive,
}

-- A receiver after a whole unit: it has one unit more and assembles none.
abbrev pub Received : List (List ℕ) → List ℕ → Receiver × Outcome (Unit {0}) → Type 0
Received units nalu (((d, received), r)) =
    (r ≡ done tt) × (received ≡ units ++ nalu ∷ []) × (d.in_progress ≡ false)

-- A unit that fits one payload goes out as it is.
single-receive :
    (header : ℕ) (tl : List ℕ) (mtu scratch_len : ℕ) (d : Depkt) (units : List (List ℕ))
    → 1 ≤ nal_type_of header
    → nal_type_of header ≤ 23
    → length (header ∷ tl) ≤ nal_buf_size
    → fua_header_size < mtu
    → length (header ∷ tl) ≤ mtu
    → Received units (header ∷ tl) (packetize receive (header ∷ tl) mtu scratch_len (d, units))
unfolding packetize iter_init packetize_loop iter_has_next iter_next depkt_push push_single abort
single-receive header tl mtu scratch_len d units a b l room short = ground arith

init-fragments :
    (header : ℕ) (tl : List ℕ) (mtu : ℕ)
    → fua_header_size < mtu
    → mtu < length (header ∷ tl)
    → iter_init (header ∷ tl) mtu ≡ done (fragments (header ∷ tl) mtu header 1 (length tl) false)
unfolding iter_init read
init-fragments header tl mtu room long = ground arith

packetize-init :
    {S : Type 0} (cb : PacketCb S) (nalu : List ℕ) (mtu scratch_len : ℕ) (s : S) (it : FragmentIter)
    → iter_init nalu mtu ≡ done it
    → packetize cb nalu mtu scratch_len s ≡ packetize_loop cb (length nalu + 1) it scratch_len s
unfolding packetize
packetize-init cb nalu mtu scratch_len s it h = ground arith

-- The first fragment finds the depacketizer in any state.
first-Ready :
    (header : ℕ) (tl : List ℕ) (mtu n : ℕ) (d : Depkt)
    → header < 128
    → n < nal_buf_size
    → n ≤ length tl
    → (last : Bool)
    → depkt_push d (indicator header ∷ fu header true last ∷ take n tl) ≡ (
      assembled header (take (1 + n) (header ∷ tl)) (not last),
      done (if last then some (take (1 + n) (header ∷ tl)) else none),
    )
first-Ready header tl mtu n d small l h last =
    let e : 1 + n ≡ suc n = omega arith in
    rw (e, push_first header small d (take n tl) last (omega (arith, length-take n tl)))

first-receive :
    (header : ℕ) (tl : List ℕ) (mtu scratch_len : ℕ) (d : Depkt) (units : List (List ℕ))
    → header < 128
    → length (header ∷ tl) ≤ nal_buf_size
    → fua_header_size < mtu
    → mtu ≤ scratch_len
    → mtu < length (header ∷ tl)
    → packetize receive (header ∷ tl) mtu scratch_len (d, units)
      ≡ ((assembled header (header ∷ tl) false, units ++ (header ∷ tl) ∷ []), done tt)
unfolding Ready
first-receive header tl mtu scratch_len d units small l room scratch long =
    let nalu = header ∷ tl in
    let first = frag_len nalu mtu header scratch_len room scratch (length tl) in
    let n = frag_len-le nalu mtu header scratch_len room scratch (length tl) (omega arith) in
    packetize-init receive nalu mtu scratch_len (d, units)
      (fragments nalu mtu header 1 (length tl) false) (init-fragments header tl mtu room long)
    ∙ loop-receive nalu mtu header scratch_len room scratch small l (length nalu + 1) 1 (length tl)
        d units (omega arith) (omega arith) (omega arith) (omega arith)
        (first-Ready header tl mtu first d small (omega arith) n.1)

-- h264_packetize hands its payloads to a receiver that pushes each into h264_depkt_push, whatever
-- the depacketizer holds at first. If the unit has a type from 1 to 23 and the forbidden bit clear,
-- fits the reassembly buffer, a payload holds three bytes at least and the scratch buffer a whole
-- payload, then packetizing succeeds, exactly this unit comes out, unchanged, and the depacketizer
-- is assembling nothing.
pub packetize-receive :
    (header : ℕ) (tl : List ℕ) (mtu scratch_len : ℕ) (d : Depkt) (units : List (List ℕ))
    → header < 128
    → 1 ≤ nal_type_of header
    → nal_type_of header ≤ 23
    → length (header ∷ tl) ≤ nal_buf_size
    → fua_header_size < mtu
    → mtu ≤ scratch_len
    → Received units (header ∷ tl) (packetize receive (header ∷ tl) mtu scratch_len (d, units))
packetize-receive header tl mtu scratch_len d units small a b l room scratch =
    elim (Bool-cases (leb (length (header ∷ tl)) mtu)) [
      | inl short ↦ single-receive header tl mtu scratch_len d units a b l room (ground arith)
      | inr long ↦
          rw (first-receive header tl mtu scratch_len d units small l room scratch (ground arith))
            (refl, refl, refl)
    ]
