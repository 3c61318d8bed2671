-- ===== src/DataChannel/Channels.antt =====
-- The channel list of src/nano_datachannel.c when a channel is added at its end, and what every
-- call keeps.
use nanortc.Prelude.{
  Bool-cases, [], arith, inl, inr, none, not, some, true, ℕ, ◌&&◌, ◌++◌, ◌==◌, ◌∷◌, ◌≡◌,
}
use nanortc.DataChannel.{Channel, Dc, at_channel, find_channel, is_closed, matches, pending_channel}

pub find_channel-append :
    (dc : Dc) (ch : Channel) (stream_id : ℕ)
    → find_channel dc stream_id ≡ none
    → matches ch stream_id ≡ true
    → find_channel (dc ++ ch ∷ []) stream_id ≡ some ch
unfolding find_channel
find_channel-append [] ch stream_id h m = simp m
find_channel-append (c ∷ dc) ch stream_id h m = elim (Bool-cases (matches c stream_id)) [
  | inl this ↦ absurd (ground arith)
  | inr other ↦ simp (other, find_channel-append dc ch stream_id (ground arith) m)
]

pub at_channel-append :
    (dc : Dc) (ch : Channel) (stream_id : ℕ) (f : Channel → Channel)
    → find_channel dc stream_id ≡ none
    → matches ch stream_id ≡ true
    → at_channel (dc ++ ch ∷ []) stream_id f ≡ dc ++ f ch ∷ []
unfolding find_channel at_channel
at_channel-append [] ch stream_id f h m = simp m
at_channel-append (c ∷ dc) ch stream_id f h m = elim (Bool-cases (matches c stream_id)) [
  | inl this ↦ absurd (ground arith)
  | inr other ↦ simp (other, at_channel-append dc ch stream_id f (ground arith) m)
]

pub pending_channel-append :
    (dc : Dc) (ch : Channel)
    → pending_channel dc ≡ none
    → (not (ch.pending == 0) && not (is_closed ch)) ≡ true
    → pending_channel (dc ++ ch ∷ []) ≡ some ch
unfolding pending_channel
pending_channel-append [] ch h m = simp m
pending_channel-append (c ∷ dc) ch h m =
    elim (Bool-cases (not (c.pending == 0) && not (is_closed c))) [
      | inl this ↦ absurd (ground arith)
      | inr other ↦ simp (other, pending_channel-append dc ch (ground arith) m)
    ]
