-- ===== src/Twcc/Chunks.antt =====
-- The chunks of src/nano_twcc.c: as many statuses as packets are announced, and their count.
use nanortc.Prelude.{
  Bool-cases, List, [], ap, arith, if◌then◌else◌, inl, inr, length, length-append, ltb, parse, refl,
  suc, u16, zero, ℕ, ◌%◌, ◌++◌, ◌+◌, ◌-◌, ◌/◌, ◌<◌, ◌==◌, ◌^◌, ◌||◌, ◌∙◌, ◌∷◌, ◌≡◌, ◌≤◌,
}
use nanortc.Prelude.Ensures.{
  Ensures, Ensures-bind, Ensures-if, Ensures-weaken, fail_if-Ensures, fails, read_u16be-Ensures,
  returns,
}
use nanortc.Twcc.{
  bit_symbols, chunk_symbols, not_received, pair_symbols, parse_chunks, repeat_symbol, reserved,
  run_symbols,
}

-- The number of statuses other than NANO_TWCC_STATUS_NOT_RECEIVED.
unfoldable pub count_received : List ℕ → ℕ
count_received [] = 0
count_received (s ∷ statuses) =
    let rest = count_received statuses in if s == not_received then rest else suc rest

count_received-append :
    (xs ys : List ℕ) → count_received (xs ++ ys) ≡ count_received xs + count_received ys
unfolding count_received
count_received-append [] ys = omega arith
count_received-append (x ∷ xs) ys = ground (arith, count_received-append xs ys)

-- The counter has gone up by the statuses that count, modulo 2^16.
abbrev Counted : ℕ → List ℕ × ℕ → Type 0
Counted received p = p.1 ≡ u16 (received + count_received p.0)

-- One status more, with its increment.
count_step :
    (symbol received rest : ℕ)
    → u16 ((if symbol == not_received then received else u16 (received + 1)) + rest)
      ≡ u16 (received + (if symbol == not_received then rest else suc rest))
count_step symbol received rest = ground arith

-- The statuses of a chunk: one at least, and no more than the packets that are left.
abbrev Fits : ℕ → ℕ → List ℕ × ℕ → Type 0
Fits remaining received p = (0 < length p.0) × (length p.0 ≤ remaining) × Counted received p

repeat_symbol_lem :
    (n symbol received : ℕ)
    → received < 2 ^ 16
    → (length (repeat_symbol n symbol received).0 ≡ n)
      × Counted received (repeat_symbol n symbol received)
unfolding repeat_symbol count_received
repeat_symbol_lem zero symbol received w = (refl, omega arith)
repeat_symbol_lem (suc n) symbol received w =
    let next = if symbol == not_received then received else u16 (received + 1) in
    let (l, c) = repeat_symbol_lem n symbol next (ground arith) in
    (ap suc l, c ∙ count_step symbol received (count_received (repeat_symbol n symbol next).0))

bit_symbols_lem :
    (chunk k remaining received : ℕ)
    → received < 2 ^ 16
    → (length (bit_symbols chunk k remaining received).0 ≤ remaining)
      × (0 < k → 0 < remaining → 0 < length (bit_symbols chunk k remaining received).0)
      × Counted received (bit_symbols chunk k remaining received)
unfolding bit_symbols count_received
bit_symbols_lem chunk zero remaining received w =
    (omega arith, (λ p. absurd (omega arith)), omega arith)
bit_symbols_lem chunk (suc k) zero received w =
    (omega arith, (λ p q. absurd (omega arith)), omega arith)
bit_symbols_lem chunk (suc k) (suc remaining) received w =
    let bit = chunk / 2 ^ k % 2 in
    let next = if bit == 0 then received else u16 (received + 1) in
    let (a, b, c) = bit_symbols_lem chunk k remaining next (ground arith) in
    (omega (arith, a), (λ p q. omega arith), ground (arith, c))

pair_symbols-Ensures :
    (chunk k remaining received : ℕ)
    → received < 2 ^ 16
    → Ensures
        (λ _. Unit {0})
        (λ p.
          (length p.0 ≤ remaining) × (0 < k → 0 < remaining → 0 < length p.0) × Counted received p)
        (pair_symbols chunk k remaining received)
unfolding pair_symbols count_received
pair_symbols-Ensures chunk zero remaining received w =
    returns (omega arith, (λ p. absurd (omega arith)), omega arith)
pair_symbols-Ensures chunk (suc k) zero received w =
    returns (omega arith, (λ p q. absurd (omega arith)), omega arith)
pair_symbols-Ensures chunk (suc k) (suc remaining) received w =
    let symbol = chunk / 4 ^ k % 4 in
    let next = if symbol == not_received then received else u16 (received + 1) in
    Ensures-bind (fail_if-Ensures (symbol == reserved) parse (λ _. tt)) λ _ _.
      Ensures-bind (pair_symbols-Ensures chunk k remaining next (ground arith)) λ rest h. returns (
        omega (arith, h.0),
        (λ p q. omega arith),
        h.2 ∙ count_step symbol received (count_received rest.0),
      )

run_symbols-Ensures :
    (chunk remaining received : ℕ)
    → 0 < remaining
    → received < 2 ^ 16
    → Ensures (λ _. Unit {0}) (Fits remaining received) (run_symbols chunk remaining received)
unfolding run_symbols
run_symbols-Ensures chunk remaining received p w =
    let run = chunk % 2 ^ 13 in
    let symbol = chunk / 2 ^ 13 % 4 in
    let n = if ltb remaining run then remaining else run in
    elim (Bool-cases (run == 0 || symbol == reserved)) [
      | inl bad ↦ rw bad (fails tt)
      | inr ok ↦
          (let some_left : (0 < n) × (n ≤ remaining) = ground arith in
            let (l, c) = repeat_symbol_lem n symbol received w in
            rw ok (returns (omega (arith, some_left, l), omega (arith, some_left, l), c)))
    ]

chunk_symbols-Ensures :
    (chunk remaining received : ℕ)
    → 0 < remaining
    → received < 2 ^ 16
    → Ensures (λ _. Unit {0}) (Fits remaining received) (chunk_symbols chunk remaining received)
unfolding chunk_symbols
chunk_symbols-Ensures chunk remaining received p w = elim (Bool-cases (chunk / 2 ^ 15 % 2 == 0)) [
  | inl run ↦ rw run (run_symbols-Ensures chunk remaining received p w)
  | inr vector ↦ elim (Bool-cases (chunk / 2 ^ 14 % 2 == 0)) [
    | inl bits ↦
        (let (a, b, c) = bit_symbols_lem chunk 14 remaining received w in
          rw (vector, bits) (returns (b (omega arith) p, a, c)))
    | inr pairs ↦
        rw (vector, pairs)
          (Ensures-weaken (pair_symbols-Ensures chunk 7 remaining received w)
            λ l h. (h.1 (omega arith) p, h.0, h.2))
  ]
]

pub parse_chunks-Ensures :
    (fuel : ℕ) (bytes : List ℕ) (pkt_size off remaining received : ℕ)
    → remaining < fuel
    → off ≤ pkt_size
    → pkt_size ≤ length bytes
    → received < 2 ^ 16
    → Ensures
        (λ _. Unit {0})
        (λ r.
          (length r.0 ≡ remaining) × (r.1 ≤ pkt_size) × (r.2 ≡ u16 (received + count_received r.0)))
        (parse_chunks fuel bytes pkt_size off remaining received)
unfolding parse_chunks count_received
parse_chunks-Ensures zero bytes pkt_size off remaining received f o p w = absurd (omega arith)
parse_chunks-Ensures (suc fuel) bytes pkt_size off remaining received f o p w =
    Ensures-if (remaining == 0) (λ z. returns (ground arith, o, omega arith))
      λ nz.
        let more : 0 < remaining = ground arith in
        Ensures-if (ltb pkt_size (off + 2)) (λ _. fails tt)
          λ room.
            let inside : off + 2 ≤ pkt_size = ground arith in
            Ensures-bind (read_u16be-Ensures bytes off (omega arith)) λ chunk _.
              Ensures-bind (chunk_symbols-Ensures chunk remaining received more w) λ c h.
                Ensures-bind
                  (parse_chunks-Ensures fuel bytes pkt_size (off + 2) (remaining - length c.0) c.1
                    (omega (arith, h.0, h.1)) inside p (omega (arith, h.2)))
                  λ r g. returns (
                    omega (arith, h.1, g.0, length-append c.0 r.0),
                    g.1,
                    omega (arith, h.2, g.2, count_received-append c.0 r.0),
                  )

-- Among a few statuses no more than these count.
pub count_received-le : (statuses : List ℕ) → count_received statuses ≤ length statuses
unfolding count_received
count_received-le [] = omega arith
count_received-le (s ∷ statuses) = ground (arith, count_received-le statuses)
