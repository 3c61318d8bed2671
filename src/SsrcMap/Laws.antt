-- ===== src/SsrcMap/Laws.antt =====
-- What ssrc_map_register changes for ssrc_map_lookup (src/nano_media.c).
use nanortc.Prelude.{
  Bool-cases, List, Option-cases, [], arith, buffer_too_small, done, error, inl, inr, length, map,
  none, not, refl, some, ℕ, ◌∷◌, ◌≡◌, ◌≢◌, ◌⊎◌,
}
use nanortc.SsrcMap.{Entry, fill_free, is_for, lookup, register, update_entry}

-- The map answers `mid` for `ssrc` and what it did for the others, and has its size.
abbrev pub Registered : List Entry → List Entry → ℕ → ℕ → ℕ → Type 0
Registered map map' ssrc mid other =
    (lookup map' ssrc ≡ some mid)
    × (other ≢ ssrc → lookup map' other ≡ lookup map other)
    × (length map' ≡ length map)

update_entry-Registered :
    (map map' : List Entry) (ssrc mid other : ℕ)
    → update_entry map ssrc mid ≡ some map'
    → Registered map map' ssrc mid other
unfolding update_entry lookup
update_entry-Registered [] map' ssrc mid other h = absurd (cc)
update_entry-Registered (e ∷ map) map' ssrc mid other h = elim (Bool-cases (is_for e ssrc)) [
  | inl this ↦ ground arith
  | inr not_this ↦ elim (Option-cases (update_entry map ssrc mid)) [
    | inl missing ↦ absurd (ground arith)
    | inr (m, found) ↦
        (let (a, b, c) = update_entry-Registered map m ssrc mid other found in ground arith)
  ]
]

fill_free-Registered :
    (map map' : List Entry) (ssrc mid other : ℕ)
    → lookup map ssrc ≡ none
    → fill_free map ssrc mid ≡ some map'
    → Registered map map' ssrc mid other
unfolding fill_free lookup
fill_free-Registered [] map' ssrc mid other n h = absurd (cc)
fill_free-Registered (e ∷ map) map' ssrc mid other n h = elim (Bool-cases (not e.occupied)) [
  | inl free ↦ ground arith
  | inr taken ↦ elim (Option-cases (fill_free map ssrc mid)) [
    | inl missing ↦ absurd (ground arith)
    | inr (m, found) ↦
        (let (a, b, c) = fill_free-Registered map m ssrc mid other (ground arith) found in
          ground arith)
  ]
]

lookup_missing :
    (map : List Entry) (ssrc mid : ℕ) → update_entry map ssrc mid ≡ none → lookup map ssrc ≡ none
unfolding update_entry lookup
lookup_missing [] ssrc mid h = refl
lookup_missing (e ∷ map) ssrc mid h = elim (Option-cases (update_entry map ssrc mid)) [
  | inl missing ↦ (let n = lookup_missing map ssrc mid missing in ground arith)
  | inr (m, found) ↦ absurd (ground arith)
]

-- When ssrc_map_register succeeds, ssrc_map_lookup then gives the section for the stream, its
-- answer for every other stream is what it was, and the map has its size; when it fails, the map is
-- unchanged and knows no section for the stream.
pub lookup-register :
    (map : List Entry) (ssrc mid other : ℕ)
    → (((register map ssrc mid).1 ≡ done tt)
        × Registered map (register map ssrc mid).0 ssrc mid other)
      ⊎ ((register map ssrc mid ≡ (map, error buffer_too_small)) × (lookup map ssrc ≡ none))
unfolding register
lookup-register map ssrc mid other = elim (Option-cases (update_entry map ssrc mid)) [
  | inr (m, found) ↦
      rw (register, found) (inl (refl, update_entry-Registered map m ssrc mid other found))
  | inl missing ↦
      (let n = lookup_missing map ssrc mid missing in
        elim (Option-cases (fill_free map ssrc mid)) [
          | inr (m, found) ↦
              rw (register, missing, found)
                (inl (refl, fill_free-Registered map m ssrc mid other n found))
          | inl full ↦ rw (register, missing, full) (inr (refl, n))
        ])
]
