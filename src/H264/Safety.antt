-- ===== src/H264/Safety.antt =====
-- No byte string makes the H.264 depacketizer read outside its input (src/nano_h264.c).
use nanortc.Prelude.{
  List, Option, Outcome, [], arith, fault, length, ltb, none, some, suc, zero, ℕ, ◌+◌, ◌-◌, ◌<◌,
  ◌==◌, ◌||◌, ◌∷◌, ◌≢◌,
}
use nanortc.Prelude.Ensures.{
  Ensures, Ensures-bind, Ensures-if, Ensures-ne_fault, Ensures-option, fails, read-Ensures,
  read_u16be-Ensures, returns, slice-Ensures,
}
use nanortc.H264.{
  Depkt, depkt_push, finish, is_keyframe, nal_buf_size, nal_idr, nal_type_of, push_fua, push_single,
  push_stapa, stapa_from, stapa_keyframe,
}

-- Some error or some result, and no fault.
abbrev Safe : {A : Type 0} → Outcome A → Type 0
Safe m = Ensures (λ _. Unit {0}) (λ _. Unit {0}) m

stapa_from-Safe :
    (fuel : ℕ) (payload : List ℕ) (offset : ℕ) (first : Option (List ℕ))
    → length payload < fuel + offset
    → 0 < fuel
    → Safe (stapa_from fuel payload offset first)
unfolding stapa_from
stapa_from-Safe zero payload offset first h p = absurd (omega arith)
stapa_from-Safe (suc fuel) payload offset first h p =
    Ensures-if (ltb (length payload) (offset + 2)) (λ _. returns tt)
      λ room. Ensures-bind (read_u16be-Ensures payload offset (ground arith)) λ sub_len _.
        Ensures-if (ltb (length payload - (offset + 2)) sub_len) (λ _. fails tt)
          λ inside.
            Ensures-if (sub_len == 0) (λ _. returns tt)
              λ _.
                Ensures-option first
                  (Ensures-if (ltb nal_buf_size sub_len) (λ _. fails tt)
                    λ _.
                      Ensures-bind (slice-Ensures payload (offset + 2) sub_len (ground arith))
                        λ unit _.
                          stapa_from-Safe fuel payload (offset + 2 + sub_len) (some unit)
                            (omega arith) (ground arith))
                  λ unit.
                    stapa_from-Safe fuel payload (offset + 2 + sub_len) (some unit) (omega arith)
                      (ground arith)

stapa_keyframe-Safe :
    (fuel : ℕ) (payload : List ℕ) (offset : ℕ)
    → length payload < fuel + offset
    → 0 < fuel
    → Safe (stapa_keyframe fuel payload offset)
unfolding stapa_keyframe
stapa_keyframe-Safe zero payload offset h p = absurd (omega arith)
stapa_keyframe-Safe (suc fuel) payload offset h p =
    Ensures-if (ltb (length payload) (offset + 2)) (λ _. returns tt)
      λ room. Ensures-bind (read_u16be-Ensures payload offset (ground arith)) λ sub_len _.
        Ensures-if (sub_len == 0 || ltb (length payload - (offset + 2)) sub_len) (λ _. returns tt)
          λ inside. Ensures-bind (read-Ensures payload (offset + 2) (ground arith)) λ b _.
            Ensures-if (nal_type_of b == nal_idr) (λ _. returns tt)
              λ _.
                stapa_keyframe-Safe fuel payload (offset + 2 + sub_len) (omega arith) (ground arith)

push_stapa_safe : (d : Depkt) (b0 : ℕ) (rest : List ℕ) → (push_stapa d (b0 ∷ rest)).1 ≢ fault
unfolding push_stapa
push_stapa_safe d b0 rest h =
    let safe =
      stapa_from-Safe (length (b0 ∷ rest)) (b0 ∷ rest) 1 none (omega arith) (omega arith) in
    Ensures-ne_fault safe (ground arith)

-- h264_depkt_push reads within its payload and its loop ends, for any bytes in any state, and the
-- same holds of h264_is_keyframe.
pub depkt_push_safe :
    (d : Depkt) (payload : List ℕ)
    → ((depkt_push d payload).1 ≢ fault) × (is_keyframe payload ≢ fault)
unfolding depkt_push push_single push_fua finish is_keyframe
depkt_push_safe d [] = (λ h. cc, λ h. cc)
depkt_push_safe d (b0 ∷ rest) = (
  λ h. push_stapa_safe d b0 rest (ground arith),
  λ h.
      Ensures-ne_fault
        (stapa_keyframe-Safe (length (b0 ∷ rest)) (b0 ∷ rest) 1 (omega arith) (omega arith))
        (ground arith),
)
