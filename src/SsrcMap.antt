-- ===== src/SsrcMap.antt =====
-- src/nano_media.c: the map from the SSRC of a stream to the media section it belongs to.
pub mod Laws
mod Tests
use nanortc.Prelude.{
  Bool, List, Option, Outcome, [], buffer_too_small, done, error, if◌then◌else◌, map, none, not,
  some, true, ℕ, ◌&&◌, ◌==◌, ◌∷◌,
}

-- nanortc_ssrc_entry_t
pub record Entry : Type 0 where
  pub ssrc : ℕ
  pub mid : ℕ
  pub occupied : Bool

abbrev pub is_for : Entry → ℕ → Bool
is_for e ssrc = e.occupied && e.ssrc == ssrc

-- ssrc_map_lookup; `none` is -1.
unfoldable pub lookup : List Entry → ℕ → Option ℕ
lookup [] ssrc = none
lookup (e ∷ map) ssrc = let later = lookup map ssrc in if is_for e ssrc then some e.mid else later

-- The first loop of ssrc_map_register: `none` if it finds no entry.
unfoldable pub update_entry : List Entry → ℕ → ℕ → Option (List Entry)
update_entry [] ssrc mid = none
update_entry (e ∷ map) ssrc mid =
    let later = update_entry map ssrc mid in
    if is_for e ssrc
    then some (record e { mid = mid } ∷ map)
    else elim later [ none ↦ none | some map' ↦ some (e ∷ map') ]

-- The second loop: `none` if no entry is free.
unfoldable pub fill_free : List Entry → ℕ → ℕ → Option (List Entry)
fill_free [] ssrc mid = none
fill_free (e ∷ map) ssrc mid =
    let later = fill_free map ssrc mid in
    if not e.occupied
    then some (record { ssrc = ssrc; mid = mid; occupied = true } ∷ map)
    else elim later [ none ↦ none | some map' ↦ some (e ∷ map') ]

-- ssrc_map_register
unfoldable pub register : List Entry → ℕ → ℕ → List Entry × Outcome (Unit {0})
register map ssrc mid = elim (update_entry map ssrc mid) [
  | some map' ↦ (map', done tt)
  | none ↦ elim (fill_free map ssrc mid) [
    | some map' ↦ (map', done tt)
    | none ↦ (map, error buffer_too_small)
  ]
]
