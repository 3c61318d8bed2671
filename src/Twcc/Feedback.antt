-- ===== src/Twcc/Feedback.antt =====
-- What twcc_parse_feedback reads and tells (src/nano_twcc.c).
use nanortc.Prelude.{
  Bool-cases, List, Outcome, Outcome-cases, [], ap, arith, done, error, false, fault, inl, inr,
  length, ltb, not, parse, refl, suc, sym, u16, ℕ, ◌%◌, ◌*◌, ◌+◌, ◌-◌, ◌/◌, ◌==◌, ◌^◌, ◌||◌, ◌∙◌,
  ◌∷◌, ◌≡◌, ◌≤◌,
}
use nanortc.Prelude.Ensures.{
  Ensures, Ensures-bind, Ensures-done, Ensures-ne_fault, fail_if-Ensures, read-Ensures,
  read_u16be-Ensures, read_u32be-Ensures, returns,
}
use nanortc.Twcc.{
  Micros, Report, Summary, finish_statuses, large_delta, max_packets, parse_chunks, parse_feedback,
  parse_header, parse_statuses, read_delta, read_deltas, read_fields, rtpfb_type, small_delta,
  twcc_fmt, version,
}
use nanortc.Twcc.Chunks.{count_received, count_received-le, parse_chunks-Ensures}

-- The sequence numbers of the reports count up from that of index `i`.
abbrev pub Consecutive : ℕ → ℕ → List Report → Type 0
Consecutive base_seq i [] = Unit
Consecutive base_seq i (r ∷ reports) =
    (r.seq ≡ u16 (base_seq + i)) × Consecutive base_seq (i + 1) reports

abbrev pub statuses_of : List Report → List ℕ
statuses_of [] = []
statuses_of (r ∷ reports) = r.status ∷ statuses_of reports

-- What the second pass leaves behind.
abbrev Deltas : ℕ → ℕ → ℕ → List ℕ → List Report × Outcome ℕ → Type 0
Deltas base_seq i pkt_size statuses ((reports, done off)) =
    Consecutive base_seq i reports × (statuses_of reports ≡ statuses)
Deltas base_seq i pkt_size statuses ((reports, error e)) =
    Consecutive base_seq i reports × (length reports ≤ length statuses)
Deltas base_seq i pkt_size statuses ((reports, fault)) = ⊥

read_delta-Ensures :
    (bytes : List ℕ) (pkt_size off status : ℕ)
    → off ≤ pkt_size
    → pkt_size ≤ length bytes
    → Ensures (λ _. Unit {0}) (λ r. r.1 ≤ pkt_size) (read_delta bytes pkt_size off status)
unfolding read_delta
read_delta-Ensures bytes pkt_size off status o p = elim (Bool-cases (status == small_delta)) [
  | inl small ↦ rw small (
      Ensures-bind (fail_if-Ensures (ltb pkt_size (off + 1)) parse (λ _. tt)) λ _ ok.
        let inside : off + 1 ≤ pkt_size = ground arith in
        Ensures-bind (read-Ensures bytes off (omega arith)) λ b _. returns inside)
  | inr not_small ↦ elim (Bool-cases (status == large_delta)) [
    | inl large ↦
        rw (not_small, large)
          (Ensures-bind (fail_if-Ensures (ltb pkt_size (off + 2)) parse (λ _. tt)) λ _ ok.
            let inside : off + 2 ≤ pkt_size = ground arith in
            Ensures-bind (read_u16be-Ensures bytes off (omega arith)) λ b _. returns inside)
    | inr neither ↦ rw (not_small, neither) (returns o)
  ]
]

cons-Deltas :
    (base_seq i pkt_size status : ℕ) (statuses : List ℕ) (delta : Micros)
    (rest : List Report × Outcome ℕ)
    → Deltas base_seq (i + 1) pkt_size statuses rest
    → Deltas base_seq i pkt_size
        (status ∷ statuses)
        (record { seq = u16 (base_seq + i); status = status; delta_us = delta } ∷ rest.0, rest.1)
cons-Deltas base_seq i pkt_size status statuses delta ((reports, done off)) (c, e) =
    ((refl, c), ap (λ l. status ∷ l) e)
cons-Deltas base_seq i pkt_size status statuses delta ((reports, error e)) (c, l) =
    ((refl, c), omega (arith, l))
cons-Deltas base_seq i pkt_size status statuses delta ((reports, fault)) h = absurd h

read_deltas-Deltas :
    (bytes : List ℕ) (pkt_size base_seq off i : ℕ) (statuses : List ℕ)
    → off ≤ pkt_size
    → pkt_size ≤ length bytes
    → Deltas base_seq i pkt_size statuses (read_deltas bytes pkt_size base_seq off i statuses)
unfolding read_deltas
read_deltas-Deltas bytes pkt_size base_seq off i [] o p = (tt, refl)
read_deltas-Deltas bytes pkt_size base_seq off i (status ∷ statuses) o p =
    let safe = read_delta-Ensures bytes pkt_size off status o p in
    elim (Outcome-cases (read_delta bytes pkt_size off status)) [
      | inr (inr h) ↦ absurd (Ensures-ne_fault safe h)
      | inr (inl (e, h)) ↦ rw (read_deltas, h) (tt, omega arith)
      | inl (r, h) ↦
          rw (read_deltas, h)
            (cons-Deltas base_seq i pkt_size status statuses r.0 _ (
              read_deltas-Deltas bytes pkt_size base_seq r.1 (i + 1) statuses (Ensures-done safe h)
                p))
    ]

read_fields-Ensures :
    (bytes : List ℕ) (words : ℕ)
    → 20 ≤ length bytes
    → (ltb (length bytes) ((words + 1) * 4) || ltb ((words + 1) * 4) 20) ≡ false
    → Ensures
        (λ _. Unit {0})
        (λ r. (20 ≤ r.1) × (r.1 ≤ length bytes) × (r.0.received_count ≡ 0))
        (read_fields bytes words)
unfolding read_fields
read_fields-Ensures bytes words long inside =
    Ensures-bind (read_u32be-Ensures bytes 4 (omega arith)) λ sender _.
      Ensures-bind (read_u32be-Ensures bytes 8 (omega arith)) λ media _.
        Ensures-bind (read_u16be-Ensures bytes 12 (omega arith)) λ base _.
          Ensures-bind (read_u16be-Ensures bytes 14 (omega arith)) λ count _.
            Ensures-bind (read-Ensures bytes 16 (omega arith)) λ r0 _.
              Ensures-bind (read-Ensures bytes 17 (omega arith)) λ r1 _.
                Ensures-bind (read-Ensures bytes 18 (omega arith)) λ r2 _.
                  Ensures-bind (read-Ensures bytes 19 (omega arith))
                    λ fb _. returns (ground arith, ground arith, refl)

parse_header-Ensures :
    (bytes : List ℕ)
    → Ensures
        (λ _. Unit {0})
        (λ r. (20 ≤ r.1) × (r.1 ≤ length bytes) × (r.0.received_count ≡ 0))
        (parse_header bytes)
unfolding parse_header
parse_header-Ensures bytes =
    Ensures-bind (fail_if-Ensures (ltb (length bytes) 20) parse (λ _. tt)) λ _ ok.
      let long : 20 ≤ length bytes = ground arith in
      Ensures-bind (read-Ensures bytes 0 (omega arith)) λ b0 _.
        Ensures-bind (fail_if-Ensures (not (b0 / 2 ^ 6 == version)) parse (λ _. tt)) λ _ _.
          Ensures-bind (fail_if-Ensures (not (b0 % 2 ^ 5 == twcc_fmt)) parse (λ _. tt)) λ _ _.
            Ensures-bind (read-Ensures bytes 1 (omega arith)) λ b1 _.
              Ensures-bind (fail_if-Ensures (not (b1 == rtpfb_type)) parse (λ _. tt)) λ _ _.
                Ensures-bind (read_u16be-Ensures bytes 2 (omega arith)) λ words _.
                  Ensures-bind
                    (fail_if-Ensures
                      (ltb (length bytes) ((words + 1) * 4) || ltb ((words + 1) * 4) 20) parse
                      (λ _. tt))
                    λ _ inside. read_fields-Ensures bytes words long inside

-- What the callback has been told, and the summary.
abbrev pub Told : List Report × Outcome Summary → Type 0
Told ((reports, done out)) =
    Consecutive out.base_seq 0 reports
    × (length reports ≡ out.packet_status_count)
    × (out.received_count ≡ count_received (statuses_of reports))
    × (out.packet_status_count ≤ max_packets)
Told ((reports, error e)) = length reports ≤ max_packets
Told ((reports, fault)) = ⊥

length-statuses_of : (reports : List Report) → length (statuses_of reports) ≡ length reports
length-statuses_of [] = refl
length-statuses_of (r ∷ reports) = ap suc (length-statuses_of reports)

finish_statuses-Told :
    (pkt_size : ℕ) (out : Summary) (statuses : List ℕ) (rest : List Report × Outcome ℕ)
    → out.packet_status_count ≤ max_packets
    → length statuses ≡ out.packet_status_count
    → out.received_count ≡ count_received statuses
    → Deltas out.base_seq 0 pkt_size statuses rest
    → Told (finish_statuses pkt_size out rest)
unfolding finish_statuses
finish_statuses-Told pkt_size out statuses ((reports, done off)) few n counted (c, e) =
    let l : length reports ≡ length statuses = sym (length-statuses_of reports) ∙ ap length e in
    elim (Bool-cases (ltb 3 (pkt_size - off))) [
      | inl far ↦ rw (finish_statuses, far) (omega (arith, l, n, few))
      | inr near ↦ rw (finish_statuses, near) (c, l ∙ n, counted ∙ ap count_received (sym e), few)
    ]
finish_statuses-Told pkt_size out statuses ((reports, error e)) few n counted (c, l) =
    omega (arith, l, n, few)
finish_statuses-Told pkt_size out statuses ((reports, fault)) few n counted h = h

parse_statuses-Told :
    (bytes : List ℕ) (pkt_size : ℕ) (out : Summary)
    → 20 ≤ pkt_size
    → pkt_size ≤ length bytes
    → out.packet_status_count ≤ max_packets
    → out.received_count ≡ 0
    → Told (parse_statuses bytes pkt_size out)
unfolding parse_statuses
parse_statuses-Told bytes pkt_size out a b few unset =
    let n = out.packet_status_count in
    let safe =
      parse_chunks-Ensures (n + 1) bytes pkt_size 20 n out.received_count (omega arith) a b
        (omega (arith, unset)) in
    elim (Outcome-cases (parse_chunks (n + 1) bytes pkt_size 20 n out.received_count)) [
      | inr (inr h) ↦ absurd (Ensures-ne_fault safe h)
      | inr (inl (e, h)) ↦ rw (parse_statuses, h) (omega arith)
      | inl (r, h) ↦
          (let (l, o, c) = Ensures-done safe h in
            rw (parse_statuses, h)
              (finish_statuses-Told pkt_size (record out { received_count = r.2 }) r.0
                (read_deltas bytes pkt_size out.base_seq r.1 0 r.0) few l
                (omega (arith, c, unset, l, few, count_received-le r.0))
                (read_deltas-Deltas bytes pkt_size out.base_seq r.1 0 r.0 o b)))
    ]

-- twcc_parse_feedback on any bytes reads within them and its loops end. On an error the callback
-- has been called 128 times at most. On success it has been called once for each packet that the
-- header announces, 128 at most, with sequence numbers that count up from the base, and
-- `received_count` is the number of reports with a status other than "not received".
pub parse_feedback-Told : (bytes : List ℕ) → Told (parse_feedback bytes)
unfolding parse_feedback count_received
parse_feedback-Told bytes =
    let safe = parse_header-Ensures bytes in
    elim (Outcome-cases (parse_header bytes)) [
      | inr (inr h) ↦ absurd (Ensures-ne_fault safe h)
      | inr (inl (e, h)) ↦ rw (parse_feedback, h) (omega arith)
      | inl (r, h) ↦
          (let (a, b, c) = Ensures-done safe h in
            elim (Bool-cases (r.0.packet_status_count == 0)) [
              | inl none_told ↦
                  rw (parse_feedback, h, none_told) (tt, ground arith, c, ground arith)
              | inr some_told ↦ elim (Bool-cases (ltb max_packets r.0.packet_status_count)) [
                | inl many ↦ rw (parse_feedback, h, some_told, many) (omega arith)
                | inr few ↦
                    rw (parse_feedback, h, some_told, few)
                      (parse_statuses-Told bytes r.1 r.0 a b (ground arith) c)
              ]
            ])
    ]
