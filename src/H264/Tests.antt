-- ===== src/H264/Tests.antt =====
-- Runs of src/nano_h264.c on small inputs.
use nanortc.Prelude.{
  List, [], arith, done, error, fault, parse, read, read_u16be, refl, slice, some, true, ℕ, ◌∷◌,
  ◌≡◌, ◌≢◌,
}
use nanortc.H264.{
  depkt_init, depkt_push, finish, is_keyframe, packetize, push_fua, push_stapa, stapa_from,
  stapa_keyframe,
}
use nanortc.H264.Fragments.{receive}
use nanortc.H264.RoundTrip.{Received, packetize-receive}
use nanortc.H264.Safety.{depkt_push_safe}

abbrev idr_tail : List ℕ
idr_tail = 1 ∷ 2 ∷ 3 ∷ 4 ∷ 5 ∷ 6 ∷ 7 ∷ []

-- An IDR unit of eight bytes in payloads of five: three fragments.
packetize-receive_example :
    Received [] (0x65 ∷ idr_tail) (packetize receive (0x65 ∷ idr_tail) 5 5 (depkt_init, []))
packetize-receive_example =
    packetize-receive 0x65 idr_tail 5 5 depkt_init [] (omega arith) (omega arith) (omega arith)
      (omega arith) (omega arith) (omega arith)

-- A STAP-A whose second length goes past the end.
abbrev bad_stapa : List ℕ
bad_stapa = 24 ∷ 0 ∷ 1 ∷ 0x41 ∷ 0 ∷ 9 ∷ 0 ∷ []

depkt_push_safe_example :
    ((depkt_push depkt_init bad_stapa).1 ≢ fault) × (is_keyframe bad_stapa ≢ fault)
depkt_push_safe_example = depkt_push_safe depkt_init bad_stapa

bad_stapa-error : (depkt_push depkt_init bad_stapa).1 ≡ error parse
unfolding depkt_push push_stapa stapa_from read_u16be read slice
bad_stapa-error = refl

-- Of the units of a STAP-A only the first comes out; the others are lost.
stapa_first_only :
    (depkt_push depkt_init (24 ∷ 0 ∷ 1 ∷ 0x41 ∷ 0 ∷ 1 ∷ 0x65 ∷ [])).1 ≡ done (some (0x41 ∷ []))
unfolding depkt_push push_stapa stapa_from read_u16be read slice
stapa_first_only = refl

-- A start fragment for which there is no end keeps the depacketizer waiting.
start_only : (depkt_push depkt_init (0x7c ∷ 0x85 ∷ 9 ∷ [])).0.in_progress ≡ true
unfolding depkt_push push_fua finish
start_only = refl

keyframes : is_keyframe (24 ∷ 0 ∷ 1 ∷ 0x41 ∷ 0 ∷ 1 ∷ 0x65 ∷ []) ≡ done true
unfolding is_keyframe stapa_keyframe read_u16be read
keyframes = refl
