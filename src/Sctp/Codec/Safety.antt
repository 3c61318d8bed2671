-- ===== src/Sctp/Codec/Safety.antt =====
-- No bytes make a parser of src/nano_sctp.c read outside the chunk.
use nanortc.Prelude.{
  Bool-cases, List, Outcome, arith, inl, inr, leb, length, ltb, not, parse, protocol_error, suc,
  zero, ℕ, ◌&&◌, ◌+◌, ◌-◌, ◌==◌, ◌||◌, ◌≤◌,
}
use nanortc.Prelude.Ensures.{
  Ensures, Ensures-bind, Ensures-if, Ensures-weaken, fail_if-Ensures, read-Ensures,
  read_u16be-Ensures, read_u32be-Ensures, returns, slice-Ensures,
}
use nanortc.Sctp.{pad4}
use nanortc.Sctp.Codec.{
  Init, Sack, host_word, param_state_cookie, parse_data, parse_init, parse_sack, scan_params,
  segmented_checksum, take_param, verify_checksum,
}

-- No fault: any error, any result.
abbrev pub Safe : {A : Type 0} → Outcome A → Type 0
Safe {A} r = Ensures (λ _. Unit {0}) (λ (_ : A). Unit {0}) r

take_param-Safe :
    (chunk : List ℕ) (pos ptype plen : ℕ) (out : Init)
    → 4 ≤ plen
    → Safe (take_param chunk pos ptype plen out)
unfolding take_param
take_param-Safe chunk pos ptype plen out p =
    elim (Bool-cases (ptype == param_state_cookie && leb (pos + plen) (length chunk))) [
      | inl t ↦ rw t (
          Ensures-bind (slice-Ensures chunk (pos + 4) (plen - 4) (ground (arith, t, p)))
            λ cookie _. returns tt)
      | inr t ↦ rw t (returns tt)
    ]

-- Each round of nsctp_parse_init moves on by four bytes at least, so as many rounds as there are
-- bytes are enough.
scan_params-Safe :
    (fuel : ℕ) (chunk : List ℕ) (declared_len pos : ℕ) (out : Init)
    → 1 ≤ fuel
    → length chunk + 4 ≤ pos + fuel
    → Safe (scan_params fuel chunk declared_len pos out)
unfolding scan_params
scan_params-Safe zero chunk declared_len pos out some_fuel h = absurd (omega arith)
scan_params-Safe (suc fuel) chunk declared_len pos out some_fuel h =
    Ensures-if (leb (pos + 4) declared_len && leb (pos + 4) (length chunk))
      (λ t.
        let inside : pos + 4 ≤ length chunk = ground (arith, t) in
        Ensures-bind (read_u16be-Ensures chunk pos (omega arith)) λ ptype _.
          Ensures-bind (read_u16be-Ensures chunk (pos + 2) (omega arith)) λ plen _.
            Ensures-if (ltb plen 4) (λ _. returns tt)
              λ big.
                let long : 4 ≤ plen = ground (arith, big) in
                Ensures-bind (take_param-Safe chunk pos ptype plen out long) λ out' _.
                  scan_params-Safe fuel chunk declared_len (pos + pad4 plen) out' (omega arith)
                    (omega arith))
      (λ _. returns tt)

pub parse_init-Safe : (chunk : List ℕ) → Safe (parse_init chunk)
unfolding parse_init
parse_init-Safe chunk =
    Ensures-bind (fail_if-Ensures (ltb (length chunk) 20) parse (λ _. tt)) λ _ ok.
      let long : 20 ≤ length chunk = ground (arith, ok) in
      Ensures-bind (read_u32be-Ensures chunk 4 (omega arith)) λ tag _.
        Ensures-bind (read_u32be-Ensures chunk 8 (omega arith)) λ rwnd _.
          Ensures-bind (read_u16be-Ensures chunk 12 (omega arith)) λ os _.
            Ensures-bind (read_u16be-Ensures chunk 14 (omega arith)) λ is _.
              Ensures-bind (read_u32be-Ensures chunk 16 (omega arith)) λ tsn _.
                Ensures-bind (read_u16be-Ensures chunk 2 (omega arith)) λ declared_len _.
                  scan_params-Safe (length chunk) chunk declared_len 20 _ (omega arith)
                    (omega arith)

pub parse_data-Safe : (chunk : List ℕ) → Safe (parse_data chunk)
unfolding parse_data
parse_data-Safe chunk =
    Ensures-bind (fail_if-Ensures (ltb (length chunk) 16) parse (λ _. tt)) λ _ ok.
      let long : 16 ≤ length chunk = ground (arith, ok) in
      Ensures-bind (read-Ensures chunk 1 (omega arith)) λ flags _.
        Ensures-bind (read_u16be-Ensures chunk 2 (omega arith)) λ clen _.
          Ensures-bind (fail_if-Ensures (ltb clen 16 || ltb (length chunk) clen) parse (λ _. tt))
            λ _ fits. Ensures-bind (read_u32be-Ensures chunk 4 (omega arith)) λ tsn _.
              Ensures-bind (read_u16be-Ensures chunk 8 (omega arith)) λ sid _.
                Ensures-bind (read_u16be-Ensures chunk 10 (omega arith)) λ ssn _.
                  Ensures-bind (read_u32be-Ensures chunk 12 (omega arith)) λ ppid _.
                    Ensures-bind (slice-Ensures chunk 16 (clen - 16) (ground (arith, fits)))
                      λ payload _. returns tt

pub parse_sack-Safe :
    (chunk : List ℕ) → Ensures (λ _. Unit {0}) (λ (_ : Sack). 16 ≤ length chunk) (parse_sack chunk)
unfolding parse_sack
parse_sack-Safe chunk =
    Ensures-bind (fail_if-Ensures (ltb (length chunk) 16) parse (λ _. tt)) λ _ ok.
      let long : 16 ≤ length chunk = ground (arith, ok) in
      Ensures-bind (read_u32be-Ensures chunk 4 (omega arith)) λ tsn _.
        Ensures-bind (read_u32be-Ensures chunk 8 (omega arith)) λ rwnd _.
          Ensures-bind (read_u16be-Ensures chunk 12 (omega arith)) λ gaps _.
            Ensures-bind (read_u16be-Ensures chunk 14 (omega arith)) λ dups _. returns long

pub verify_checksum-Safe : (bytes : List ℕ) → Safe (verify_checksum bytes)
unfolding verify_checksum
verify_checksum-Safe bytes =
    Ensures-bind (fail_if-Ensures (ltb (length bytes) 12) parse (λ _. tt)) λ _ ok.
      let long : 12 ≤ length bytes = ground (arith, ok) in
      Ensures-bind (slice-Ensures bytes 8 4 (omega arith)) λ stored _.
        Ensures-weaken
          (fail_if-Ensures (not (segmented_checksum bytes == host_word stored)) protocol_error
            (λ _. tt))
          (λ _ _. tt)
