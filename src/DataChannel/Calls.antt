-- ===== src/DataChannel/Calls.antt =====
-- What all calls of src/nano_datachannel.c keep, and that a message cannot make it read outside.
use nanortc.Prelude.{
  Bool, Bool-cases, List, Option, Option-cases, Outcome, [], arith, buffer_too_small, done, error,
  fault, if◌then◌else◌, inl, inr, leb, length, length-append, length-take, ltb, none, some, suc,
  take, true, u16_max, zero, ℕ, ◌%◌, ◌++◌, ◌-◌, ◌<◌, ◌||◌, ◌∷◌, ◌≤◌,
}
use nanortc.DataChannel.{
  Channel, Dc, DcepOpen, accepted, alloc_channel, at_channel, commit_output, find_channel,
  handle_ack, handle_message, handle_open, handle_parsed, is_opening, label_size, matches,
  max_channels, msg_ack, open_new, open_options, opened, parse_open, requested,
}

-- The texts of a channel leave room for the NUL.
abbrev pub IsShort : Channel → Type 0
IsShort ch = (length ch.label < label_size) × (length ch.protocol < label_size)

abbrev pub AllShort : Dc → Type 0
AllShort [] = Unit
AllShort (ch ∷ dc) = IsShort ch × AllShort dc

-- The channels fit their array, and so do their texts.
abbrev pub IsValid : Dc → Type 0
IsValid dc = (length dc ≤ max_channels) × AllShort dc

AllShort-append : (dc : Dc) (ch : Channel) → AllShort dc → IsShort ch → AllShort (dc ++ ch ∷ [])
AllShort-append [] ch v h = (h, tt)
AllShort-append (c ∷ dc) ch v h = (v.0, AllShort-append dc ch v.1 h)

at_channel-IsValid :
    (dc : Dc) (stream_id n : ℕ) (f : Channel → Channel)
    → ((ch : Channel) → IsShort ch → IsShort (f ch))
    → (length dc ≤ n) × AllShort dc
    → (length (at_channel dc stream_id f) ≤ n) × AllShort (at_channel dc stream_id f)
unfolding at_channel
at_channel-IsValid [] stream_id n f k v = v
at_channel-IsValid (ch ∷ dc) stream_id zero f k v = absurd (omega (arith, v))
at_channel-IsValid (ch ∷ dc) stream_id (suc n) f k (l, (v, w)) =
    elim (Bool-cases (matches ch stream_id)) [
      | inl this ↦ simp this (l, (k ch v, w))
      | inr other ↦
          (let (x, y) = at_channel-IsValid dc stream_id n f k (omega (arith, l), w) in
            simp other (omega (arith, x), (v, y)))
    ]

abbrev Fits : Option Dc → Type 0
Fits none = Unit
Fits (some dc) = IsValid dc

alloc_channel-IsValid :
    (dc : Dc) (ch : Channel) → IsValid dc → IsShort ch → Fits (alloc_channel dc ch)
unfolding alloc_channel
alloc_channel-IsValid dc ch v s = elim (Bool-cases (leb max_channels (length dc))) [
  | inl full ↦ simp full tt
  | inr room ↦ simp room (ground (arith, length-append dc (ch ∷ [])), AllShort-append dc ch v.1 s)
]

cut :
    (label : List ℕ)
    → length (take (if leb label_size (length label) then label_size - 1 else length label) label)
      < label_size
cut label = elim (Bool-cases (leb label_size (length label))) [
  | inl long ↦ rw long (omega (arith, length-take (label_size - 1) label))
  | inr short ↦ rw short (ground (arith, length-take (length label) label))
]

accepted-IsShort :
    (stream_id : ℕ) (o : DcepOpen) → length o.protocol < label_size → IsShort (accepted stream_id o)
unfolding accepted
accepted-IsShort stream_id o h = (cut o.label, h)

-- Where a channel is added, if there is room, the result is valid.
added-IsValid :
    (dc : Dc) (added : Option Dc) {R : Type 0} (refused : R) (taken : R)
    → IsValid dc
    → Fits added
    → IsValid (elim added as (λ _. Dc × R) [ none ↦ (dc, refused) | some dc' ↦ (dc', taken) ]).0
added-IsValid dc none refused taken v f = v
added-IsValid dc (some dc') refused taken v f = f

open_new-IsValid :
    (dc : Dc) (stream_id : ℕ) (o : DcepOpen) → IsValid dc → IsValid (open_new dc stream_id o).0
unfolding open_new
open_new-IsValid dc stream_id o v = elim (Bool-cases (leb label_size (length o.protocol))) [
  | inl long ↦ ground (arith, v)
  | inr short ↦
      (let added =
          added-IsValid dc (alloc_channel dc (accepted stream_id o)) (error buffer_too_small)
            (done true) v
            (alloc_channel-IsValid dc (accepted stream_id o) v
              (accepted-IsShort stream_id o (ground arith))) in
        elim (Bool-cases (ltb 1 (o.channel_type % 128) || ltb u16_max o.reliability_param)) [
          | inl unknown ↦ simp (open_new, unknown) v
          | inr known ↦ simp (open_new, known, short) added
        ])
]

handle_open-IsValid :
    (dc : Dc) (stream_id : ℕ) (o : DcepOpen) → IsValid dc → IsValid (handle_open dc stream_id o).0
unfolding handle_open
handle_open-IsValid dc stream_id o v = elim (Option-cases (find_channel dc stream_id)) [
  | inr (ch, found) ↦
      simp (handle_open, found)
        (at_channel-IsValid dc stream_id max_channels (λ c. record c { pending = msg_ack })
          (λ c h. h) v)
  | inl new ↦ simp (handle_open, new) (open_new-IsValid dc stream_id o v)
]

open_options-IsValid :
    (dc : Dc) (stream_id : ℕ) (label protocol : List ℕ) (ordered partial_reliability : Bool)
    (max_retransmits : ℕ)
    → IsValid dc
    → IsValid
        (open_options dc stream_id label protocol ordered partial_reliability max_retransmits).0
unfolding open_options requested
open_options-IsValid dc stream_id label protocol ordered partial_reliability max_retransmits v =
    elim (Bool-cases (leb label_size (length protocol))) [
      | inl long ↦ simp long v
      | inr short ↦
          (let ch =
              requested stream_id label protocol ordered partial_reliability max_retransmits in
            simp short (
              added-IsValid dc (alloc_channel dc ch) (error buffer_too_small) (done tt) v (
                alloc_channel-IsValid dc ch v
                  (omega (arith, length-take (label_size - 1) label), ground arith))))
    ]

handle_ack-IsValid : (dc : Dc) (stream_id : ℕ) → IsValid dc → IsValid (handle_ack dc stream_id).0
unfolding handle_ack
handle_ack-IsValid dc stream_id v = elim (Option-cases (find_channel dc stream_id)) [
  | inl gone ↦ simp (handle_ack, gone) v
  | inr (ch, found) ↦ elim (Bool-cases (is_opening ch)) [
    | inl on ↦
        simp (handle_ack, found, on)
          (at_channel-IsValid dc stream_id max_channels (λ c. record c { state = opened })
            (λ c h. h) v)
    | inr off ↦ simp (handle_ack, found, off) v
  ]
]

handle_parsed-IsValid :
    (dc : Dc) (stream_id : ℕ) (o : Outcome DcepOpen)
    → IsValid dc
    → IsValid (handle_parsed dc stream_id o).0
unfolding handle_parsed
handle_parsed-IsValid dc stream_id (done o) v = handle_open-IsValid dc stream_id o v
handle_parsed-IsValid dc stream_id (error e) v = v
handle_parsed-IsValid dc stream_id fault v = v

handle_message-IsValid :
    (dc : Dc) (stream_id ppid : ℕ) (bytes : List ℕ)
    → IsValid dc
    → IsValid (handle_message dc stream_id ppid bytes).0
unfolding handle_message
handle_message-IsValid dc stream_id ppid [] v = ground (arith, v)
handle_message-IsValid dc stream_id ppid (b ∷ bytes) v = ground (
  arith,
  v,
  handle_ack-IsValid dc stream_id v,
  handle_parsed-IsValid dc stream_id (parse_open (b ∷ bytes)) v,
)

-- The calls of the connection.
pub data Call : Type 0 where
  opens : ℕ → List ℕ → List ℕ → Bool → Bool → ℕ → Call
  receives : ℕ → ℕ → List ℕ → Call
  commits : ℕ → Call

unfoldable pub step : Dc → Call → Dc
step dc (opens stream_id label protocol ordered partial_reliability max_retransmits) =
    (open_options dc stream_id label protocol ordered partial_reliability max_retransmits).0
step dc (receives stream_id ppid bytes) = (handle_message dc stream_id ppid bytes).0
step dc (commits stream_id) = commit_output dc stream_id

unfoldable pub run : Dc → List Call → Dc
run dc [] = dc
run dc (c ∷ cs) = run (step dc c) cs

step-IsValid : (dc : Dc) (c : Call) → IsValid dc → IsValid (step dc c)
unfolding step commit_output
step-IsValid dc (opens s l p o r m) v = open_options-IsValid dc s l p o r m v
step-IsValid dc (receives s p b) v = handle_message-IsValid dc s p b v
step-IsValid dc (commits s) v =
    at_channel-IsValid dc s max_channels (λ ch. record ch { pending = 0 }) (λ c h. h) v

-- Any calls of dc_open_options, dc_handle_message (with any bytes) and dc_commit_output, in any
-- order, on a valid manager leave a valid one: at most NANORTC_MAX_DATACHANNELS channels, and each
-- label and protocol leaves room for its NUL.
pub calls-IsValid : (cs : List Call) (dc : Dc) → IsValid dc → IsValid (run dc cs)
unfolding run
calls-IsValid [] dc v = v
calls-IsValid (c ∷ cs) dc v = calls-IsValid cs (step dc c) (step-IsValid dc c v)
