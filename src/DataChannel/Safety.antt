-- ===== src/DataChannel/Safety.antt =====
-- No message makes src/nano_datachannel.c read outside it.
use nanortc.Prelude.{
  Bool-cases, List, Option-cases, Outcome, [], ap, arith, done, drop, error, fault, inl, inr,
  length, length-take, ltb, not, parse, protocol_error, refl, ℕ, ◌+◌, ◌-◌, ◌==◌, ◌||◌, ◌∷◌, ◌≡◌,
  ◌≢◌, ◌≤◌,
}
use nanortc.Prelude.Ensures.{
  Ensures, Ensures-bind, Ensures-done, Ensures-ne_fault, fail_if-Ensures, fails, read-Ensures,
  read_u16be-Ensures, read_u32be-Ensures, returns, slice-Ensures,
}
use nanortc.DataChannel.{
  Dc, DcepOpen, find_channel, handle_ack, handle_message, handle_open, handle_parsed, msg_open,
  open_body, open_new, parse_open,
}

-- What the parser promises: an OPEN of 12 bytes and the two texts at least.
abbrev Parsed : List ℕ → DcepOpen → Type 0
Parsed bytes o = 12 + length o.label + length o.protocol ≤ length bytes

open_body-Ensures :
    (bytes : List ℕ) (ct prio rel label_len protocol_len : ℕ)
    → 12 ≤ length bytes
    → Ensures
        (λ _. Unit {0})
        (λ o. Parsed bytes o)
        (open_body bytes ct prio rel label_len protocol_len)
unfolding open_body
open_body-Ensures bytes ct prio rel label_len protocol_len long =
    elim (Bool-cases
      (ltb (length bytes - 12) label_len || ltb (length bytes - 12 - label_len) protocol_len)) [
        | inl bad ↦ simp (open_body, bad) (fails tt)
        | inr ok ↦
            (let fits : 12 + label_len + protocol_len ≤ length bytes = ground arith in
              simp (open_body, ok)
                (Ensures-bind (slice-Ensures bytes 12 label_len (omega (arith, fits))) λ label e.
                  Ensures-bind
                    (slice-Ensures bytes (12 + label_len) protocol_len (omega (arith, fits)))
                    λ proto e'. returns (
                      omega (
                        arith,
                        fits,
                        ap length e,
                        ap length e',
                        length-take label_len (drop 12 bytes),
                        length-take protocol_len (drop (12 + label_len) bytes),
                      ))))
      ]

parse_open-Ensures :
    (bytes : List ℕ) → Ensures (λ _. Unit {0}) (λ o. Parsed bytes o) (parse_open bytes)
unfolding parse_open
parse_open-Ensures bytes =
    Ensures-bind (fail_if-Ensures (ltb (length bytes) 12) parse (λ _. tt)) λ _ ok.
      let long : 12 ≤ length bytes = ground arith in
      Ensures-bind (read-Ensures bytes 0 (omega arith)) λ kind _.
        Ensures-bind (fail_if-Ensures (not (kind == msg_open)) protocol_error (λ _. tt)) λ _ _.
          Ensures-bind (read-Ensures bytes 1 (omega arith)) λ ct _.
            Ensures-bind (read_u16be-Ensures bytes 2 (omega arith)) λ prio _.
              Ensures-bind (read_u32be-Ensures bytes 4 (omega arith)) λ rel _.
                Ensures-bind (read_u16be-Ensures bytes 8 (omega arith)) λ label_len _.
                  Ensures-bind (read_u16be-Ensures bytes 10 (omega arith)) λ protocol_len _.
                    open_body-Ensures bytes ct prio rel label_len protocol_len long

open_new-safe : (dc : Dc) (stream_id : ℕ) (o : DcepOpen) → (open_new dc stream_id o).1 ≢ fault
unfolding open_new
open_new-safe dc stream_id o h = ground arith

handle_open-safe : (dc : Dc) (stream_id : ℕ) (o : DcepOpen) → (handle_open dc stream_id o).1 ≢ fault
unfolding handle_open
handle_open-safe dc stream_id o h = elim (Option-cases (find_channel dc stream_id)) [
  | inl new ↦ open_new-safe dc stream_id o (ground arith)
  | inr (ch, found) ↦ absurd (ground arith)
]

handle_ack-safe : (dc : Dc) (stream_id : ℕ) → (handle_ack dc stream_id).1 ≢ fault
unfolding handle_ack
handle_ack-safe dc stream_id h = ground arith

handle_parsed-safe :
    (dc : Dc) (stream_id : ℕ) (o : Outcome DcepOpen)
    → o ≢ fault
    → (handle_parsed dc stream_id o).1 ≢ fault
unfolding handle_parsed
handle_parsed-safe dc stream_id (done o) n h = handle_open-safe dc stream_id o h
handle_parsed-safe dc stream_id (error e) n h = cc
handle_parsed-safe dc stream_id fault n h = n refl

-- dc_handle_message, for any bytes on any stream with any PPID and any channels, stays within the
-- message; and an OPEN that dcep_parse_open takes holds its header and both texts.
pub handle_message_safe :
    (dc : Dc) (stream_id ppid : ℕ) (bytes : List ℕ)
    → ((handle_message dc stream_id ppid bytes).1 ≢ fault)
      × ((o : DcepOpen)
          → parse_open bytes ≡ done o
          → 12 + length o.label + length o.protocol ≤ length bytes)
unfolding handle_message
handle_message_safe dc stream_id ppid [] =
    (λ h. ground arith, λ o h. Ensures-done (parse_open-Ensures []) h)
handle_message_safe dc stream_id ppid (b ∷ bytes) = (
  λ h.
      (let parsed =
          handle_parsed-safe dc stream_id (parse_open (b ∷ bytes))
            (Ensures-ne_fault (parse_open-Ensures (b ∷ bytes))) in
        let ack = handle_ack-safe dc stream_id in ground arith),
  λ o h. Ensures-done (parse_open-Ensures (b ∷ bytes)) h,
)
