-- ===== src/Twcc/Tests.antt =====
-- Runs of src/nano_twcc.c on a small feedback packet.
use nanortc.Prelude.{
  List, [], error, fail_if, parse, read, read_u16be, read_u32be, refl, ℕ, ◌∷◌, ◌≡◌,
}
use nanortc.Twcc.{
  bit_symbols, chunk_symbols, finish_statuses, parse_chunks, parse_feedback, parse_header,
  parse_statuses, plus, read_delta, read_deltas, read_fields, run_symbols,
}
use nanortc.Twcc.Feedback.{Told, parse_feedback-Told}

-- Of the packets 100 and 101 the first was received, 1 ms after the reference time.
abbrev feedback : List ℕ
feedback =
    0x8f ∷ 205 ∷ 0 ∷ 5 ∷ 0 ∷ 0 ∷ 0 ∷ 1 ∷ 0 ∷ 0 ∷ 0 ∷ 2 ∷ 0 ∷ 100 ∷ 0 ∷ 2 ∷ 0 ∷ 0 ∷ 1 ∷ 7 ∷ 0xa0 ∷ 0
    ∷ 4 ∷ 0 ∷ []

parse_feedback-Told_example : Told (parse_feedback feedback)
parse_feedback-Told_example = parse_feedback-Told feedback

reports :
    (parse_feedback feedback).0
    ≡ record { seq = 100; status = 1; delta_us = plus 1000 }
      ∷ record { seq = 101; status = 0; delta_us = plus 0 }
      ∷ []
unfolding parse_feedback parse_header read_fields parse_statuses finish_statuses parse_chunks
    chunk_symbols bit_symbols read_deltas read_delta read read_u16be read_u32be fail_if
reports = refl

reserved_refused : chunk_symbols 0x6001 5 0 ≡ error parse
unfolding chunk_symbols run_symbols
reserved_refused = refl
