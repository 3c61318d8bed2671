-- ===== src/DataChannel/Handshake.antt =====
-- The DCEP handshake between two peers that run src/nano_datachannel.c.
use nanortc.Prelude.{
  Bool, List, Outcome, [], ap, arith, done, drop, false, leb, length, length-append, none, not,
  refl, some, take_all, true, ℕ, ◌%◌, ◌&&◌, ◌++◌, ◌+◌, ◌-◌, ◌/◌, ◌<◌, ◌==◌, ◌>>=◌, ◌^◌, ◌∙◌, ◌∷◌,
  ◌≡◌, ◌≤◌,
}
use nanortc.DataChannel.{
  Channel, Dc, DcepOpen, accepted, alloc_channel, at_channel, c_string, commit_output, encode_open,
  find_channel, handle_ack, handle_message, handle_open, handle_parsed, is_closed, is_opening,
  label_size, matches, max_channels, message, msg_ack, msg_open, open_new, open_options, opened,
  parse_open, peek_output, pending_channel, ppid_control, requested, type_of,
}
use nanortc.DataChannel.Codec.{parse_open-encode_open}
use nanortc.DataChannel.Channels.{at_channel-append, find_channel-append, pending_channel-append}

-- `a` opens a channel; its message goes to `b` once SCTP has taken it, and the answer of `b` goes
-- back to `a`.
unfoldable pub handshake : Dc → Dc → ℕ → List ℕ → List ℕ → Bool → Bool → ℕ → ℕ → Outcome (Dc × Dc)
handshake a b stream_id label protocol ordered partial_reliability max_retransmits buf_len =
    let (a1, asked) =
      open_options a stream_id label protocol ordered partial_reliability max_retransmits in
    asked >>= λ _. peek_output a1 buf_len >>= λ m.
    (let (b1, answered) = handle_message b m.1 ppid_control m.0 in
      answered >>= λ _. peek_output b1 buf_len >>= λ k.
      (let (a2, acknowledged) = handle_message (commit_output a1 m.1) k.1 ppid_control k.0 in
        acknowledged >>= λ _. done (a2, commit_output b1 k.1)))

-- The channel that both ends should hold.
abbrev pub agreed : ℕ → List ℕ → List ℕ → Bool → Bool → ℕ → Channel
agreed stream_id label protocol ordered partial_reliability max_retransmits = record {
  state = opened;
  stream_id = stream_id;
  label = label;
  protocol = protocol;
  channel_type = type_of ordered partial_reliability;
  ordered = ordered;
  max_retransmits = max_retransmits;
  pending = 0;
}

-- A text that fits the array and has no NUL.
pub record IsText (text : List ℕ) : Type 0 where
  pub fits : length text < label_size
  pub no_nul : c_string text ≡ text

-- A peer that can take a channel for a stream: there is room, the stream has no live channel and no
-- other message waits.
pub record IsReady (dc : Dc) (stream_id : ℕ) : Type 0 where
  pub room : length dc < max_channels
  pub fresh : find_channel dc stream_id ≡ none
  pub idle : pending_channel dc ≡ none

peek-pending :
    (dc : Dc) (ch : Channel) (buf_len : ℕ)
    → pending_channel dc ≡ some ch
    → length (message ch) ≤ buf_len
    → peek_output dc buf_len ≡ done (message ch, ch.stream_id)
unfolding peek_output
peek-pending dc ch buf_len h l = ground arith

handle-open :
    (dc : Dc) (stream_id : ℕ) (bytes : List ℕ) (o : DcepOpen)
    → parse_open (msg_open ∷ bytes) ≡ done o
    → handle_message dc stream_id ppid_control (msg_open ∷ bytes) ≡ handle_open dc stream_id o
unfolding handle_message handle_parsed
handle-open dc stream_id bytes o h = simp h

handle_open-new :
    (dc : Dc) (stream_id : ℕ) (o : DcepOpen)
    → IsReady dc stream_id
    → o.channel_type % 128 ≤ 1
    → o.reliability_param < 2 ^ 16
    → length o.protocol < label_size
    → handle_open dc stream_id o ≡ (dc ++ accepted stream_id o ∷ [], done true)
unfolding handle_open open_new alloc_channel
handle_open-new dc stream_id o r t n p = ground (arith, r)

handle_ack-opening :
    (dc : Dc) (stream_id : ℕ) (ch : Channel)
    → find_channel dc stream_id ≡ some ch
    → is_opening ch ≡ true
    → handle_message dc stream_id ppid_control (msg_ack ∷ [])
      ≡ (at_channel dc stream_id (λ c. record c { state = opened }), done true)
unfolding handle_message handle_ack
handle_ack-opening dc stream_id ch h o = ground arith

type_of-lem :
    (ordered partial_reliability : Bool)
    → (type_of ordered partial_reliability % 128 ≤ 1)
      × ((type_of ordered partial_reliability / 128 % 2 == 0) ≡ ordered)
unfolding type_of
type_of-lem true true = (omega arith, refl)
type_of-lem true false = (omega arith, refl)
type_of-lem false true = (omega arith, refl)
type_of-lem false false = (omega arith, refl)

module _ (a b : Dc) (stream_id : ℕ) (label protocol : List ℕ) (ordered partial_reliability : Bool)
    (max_retransmits buf_len : ℕ) (l : IsText label) (p : IsText protocol)
    (ra : IsReady a stream_id) (rb : IsReady b stream_id) (small : max_retransmits < 2 ^ 16)
    (buf : 12 + length label + length protocol ≤ buf_len) where
  abbrev asking : Channel
  asking = requested stream_id label protocol ordered partial_reliability max_retransmits

  abbrev asked_for : DcepOpen
  asked_for = record {
    channel_type = type_of ordered partial_reliability;
    priority = 0;
    reliability_param = max_retransmits;
    label = label;
    protocol = protocol;
  }

  open_options-done :
      open_options a stream_id label protocol ordered partial_reliability max_retransmits
      ≡ (a ++ asking ∷ [], done tt)
  unfolding open_options alloc_channel
  open_options-done = ground (arith, ra, p)

  message-asking :
      message asking
      ≡ encode_open (type_of ordered partial_reliability) 0 max_retransmits label protocol
  unfolding message requested
  message-asking = rw (take_all (label_size - 1) label (omega (arith, l.fits)), l.no_nul, p.no_nul)

  abbrev answering : Channel
  answering = record (agreed stream_id label protocol ordered partial_reliability max_retransmits) {
    pending = msg_ack;
  }

  accepted-agreed : accepted stream_id asked_for ≡ answering
  unfolding accepted
  accepted-agreed =
      let e : max_retransmits % 2 ^ 16 ≡ max_retransmits = omega arith in
      let short : leb label_size (length label) ≡ false = ground (arith, l) in
      rw (
        e,
        (type_of-lem ordered partial_reliability).1,
        short,
        take_all (length label) label (omega arith),
      )

  abbrev offer : List ℕ
  offer = encode_open (type_of ordered partial_reliability) 0 max_retransmits label protocol

  offer-length : length offer ≡ 12 + length label + length protocol
  unfolding encode_open
  offer-length = omega (arith, length-append label protocol)

  asking-pending : (not (asking.pending == 0) && not (is_closed asking)) ≡ true
  unfolding requested
  asking-pending = refl

  asking-matches : matches asking stream_id ≡ true
  unfolding requested matches
  asking-matches = ground arith

  peek-offer : peek_output (a ++ asking ∷ []) buf_len ≡ done (offer, stream_id)
  unfolding requested
  peek-offer =
      peek-pending (a ++ asking ∷ []) asking buf_len
        (pending_channel-append a asking ra.idle asking-pending)
        (omega (arith, ap length message-asking, offer-length, buf))
      ∙ ap (λ m. done (m, stream_id)) message-asking

  handle-offer : handle_message b stream_id ppid_control offer ≡ (b ++ answering ∷ [], done true)
  unfolding encode_open
  handle-offer =
      let (t, u) = type_of-lem ordered partial_reliability in
      handle-open b stream_id (drop 1 offer) asked_for (
        parse_open-encode_open (type_of ordered partial_reliability) 0 max_retransmits label
          protocol (omega arith) (omega arith) (omega (arith, l.fits)) (omega (arith, p.fits)))
      ∙ handle_open-new b stream_id asked_for rb t small p.fits
      ∙ ap (λ ch. (b ++ ch ∷ [], done true)) accepted-agreed

  answering-matches : matches answering stream_id ≡ true
  unfolding matches
  answering-matches = ground arith

  peek-answer : peek_output (b ++ answering ∷ []) buf_len ≡ done (msg_ack ∷ [], stream_id)
  unfolding message
  peek-answer =
      peek-pending (b ++ answering ∷ []) answering buf_len
        (pending_channel-append b answering rb.idle refl) (omega (arith, buf))

  -- The opener once its message is taken.
  abbrev waiting : Channel
  waiting = record asking { pending = 0 }

  commit-offer : commit_output (a ++ asking ∷ []) stream_id ≡ a ++ waiting ∷ []
  unfolding commit_output
  commit-offer =
      at_channel-append a asking stream_id (λ ch. record ch { pending = 0 }) ra.fresh asking-matches

  commit-answer :
      commit_output (b ++ answering ∷ []) stream_id
      ≡ b ++ agreed stream_id label protocol ordered partial_reliability max_retransmits ∷ []
  unfolding commit_output
  commit-answer =
      at_channel-append b answering stream_id (λ ch. record ch { pending = 0 }) rb.fresh
        answering-matches

  waiting-agreed :
      record waiting { state = opened }
      ≡ agreed stream_id label protocol ordered partial_reliability max_retransmits
  unfolding requested
  waiting-agreed = rw (take_all (label_size - 1) label (omega (arith, l.fits)))

  handle-answer : handle_message (a ++ waiting ∷ []) stream_id ppid_control (msg_ack ∷ []) ≡ (
    a ++ agreed stream_id label protocol ordered partial_reliability max_retransmits ∷ [],
    done true,
  )
  unfolding requested matches
  handle-answer =
      handle_ack-opening (a ++ waiting ∷ []) stream_id waiting
        (find_channel-append a waiting stream_id ra.fresh (ground arith)) refl
      ∙ ap (λ dc. (dc, done true))
          (at_channel-append a waiting stream_id (λ c. record c { state = opened }) ra.fresh
              (ground arith)
            ∙ ap (λ ch. a ++ ch ∷ []) waiting-agreed)

  -- When both peers are ready for a stream, the texts fit and have no NUL, the retransmission limit
  -- has 16 bits and the buffer holds the message, opening a channel and exchanging the two messages
  -- succeeds, and each end has got one channel more, the same at both: open, with the label, the
  -- protocol, the order and the limit that were asked for, and no message waiting.
  pub handshake_lem :
      let ch = agreed stream_id label protocol ordered partial_reliability max_retransmits in
      handshake a b stream_id label protocol ordered partial_reliability max_retransmits buf_len
      ≡ done (a ++ ch ∷ [], b ++ ch ∷ [])
  unfolding handshake
  handshake_lem = rw (
    open_options-done, peek-offer, handle-offer, peek-answer, commit-offer, handle-answer,
    commit-answer,
  )
