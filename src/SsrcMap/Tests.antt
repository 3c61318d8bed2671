-- ===== src/SsrcMap/Tests.antt =====
-- A run of src/nano_media.c's SSRC map.
use nanortc.Prelude.{List, [], buffer_too_small, done, error, false, none, true, ◌∷◌, ◌≡◌, ◌⊎◌}
use nanortc.SsrcMap.{Entry, lookup, register}
use nanortc.SsrcMap.Laws.{Registered, lookup-register}

abbrev empty : Entry
empty = record { ssrc = 0; mid = 0; occupied = false }

abbrev two : List Entry
two = record { ssrc = 7; mid = 1; occupied = true } ∷ empty ∷ []

lookup-register_example :
    (((register two 9 2).1 ≡ done tt) × Registered two (register two 9 2).0 9 2 7)
    ⊎ ((register two 9 2 ≡ (two, error buffer_too_small)) × (lookup two 9 ≡ none))
lookup-register_example = lookup-register two 9 2 7
