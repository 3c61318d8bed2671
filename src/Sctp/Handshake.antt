-- ===== src/Sctp/Handshake.antt =====
-- The four-way handshake between two endpoints that run src/nano_sctp.c.
pub mod Steps
pub mod Agreement
use mathlib.Core.List.{append-nil, append_assoc}
use nanortc.Prelude.{
  List, Outcome, [], ap, arith, done, fail_if, false, leb, length, length-append, length-take,
  le→leb, le→ltb, ltb, lt→leb, read, read-append, read_u16be, read_u16be-append, refl, slice,
  slice-middle, suc, sym, take, take-append-drop, true, write_u16be, ℕ, ◌%◌, ◌++◌, ◌+◌, ◌-◌, ◌>>=◌,
  ◌∙◌, ◌∷◌, ◌≡◌, ◌≤◌,
}
use nanortc.Sctp.{Sctp, out_queue_size, pad4, sctp_mtu}
use nanortc.Sctp.Codec.{encode_header, finalize_checksum, verify_checksum}
use nanortc.Sctp.Codec.RoundTrip.{verify_checksum-finalize_checksum}
use nanortc.Sctp.Assoc.{Random, chunk_room, out_full, queue_chunk, start}
use nanortc.Sctp.Incoming.{chunk_at, chunks_from, dispatch, flush_sack, goes_on, handle_data}
use nanortc.Sctp.Output.{poll_output, poll_queue}

-- One packet goes from one endpoint to the other.
unfoldable pub pass : Random → Sctp → Sctp → ℕ → Outcome (Sctp × Sctp)
pass random sender receiver cap =
    let (sender', polled) = poll_output sender cap in
    polled >>= λ packet.
    (let (receiver', handled) = handle_data random receiver packet in
      handled >>= λ _. done (sender', receiver'))

-- `a` starts; INIT, INIT ACK, COOKIE ECHO and COOKIE ACK go to and fro.
unfoldable pub handshake : Random → Random → Sctp → Sctp → ℕ → Outcome (Sctp × Sctp)
handshake random_a random_b a b cap =
    let (a0, started) = start random_a a in
    started >>= λ _.
    (pass random_b a0 b cap >>= λ p.
    (pass random_a p.1 p.0 cap >>= λ q.
    (pass random_b q.1 q.0 cap >>= λ r. (pass random_a r.1 r.0 cap >>= λ t. done (t.1, t.0)))))

-- A chunk as it lies in a packet: its type and the length that it declares.
pub record IsChunk (kind : ℕ) (chunk : List ℕ) : Type 0 where
  pub flags : ℕ
  pub body : List ℕ
  pub shape : chunk ≡ kind ∷ flags ∷ (write_u16be (length chunk) ++ body)
  pub even : length chunk % 4 ≡ 0
  pub whole : 4 ≤ length chunk
  pub small : length chunk ≤ chunk_room

-- The packet that nsctp_queue_output queues.
abbrev pub packet_of : Sctp → ℕ → List ℕ → List ℕ
packet_of s vtag chunk = finalize_checksum (encode_header s.local_port s.remote_port vtag ++ chunk)

pub out_full-empty : (s : Sctp) → s.out_queue ≡ [] → out_full s ≡ false
unfolding out_full
out_full-empty s e = ap (λ q. leb out_queue_size (length q)) e

pub queue_chunk-empty :
    (s : Sctp) (vtag : ℕ) (chunk : List ℕ)
    → s.out_queue ≡ []
    → length chunk ≤ chunk_room
    → queue_chunk s vtag chunk ≡ record s { out_queue = packet_of s vtag chunk ∷ [] }
unfolding queue_chunk encode_header
queue_chunk-empty s vtag chunk e h =
    let packet = encode_header s.local_port s.remote_port vtag ++ chunk in
    let fits : ltb sctp_mtu (length packet) ≡ false =
      le→ltb sctp_mtu (length packet) (omega arith) in
    rw (out_full-empty s e, fits)
      (ap (λ q. record s { out_queue = q ++ packet_of s vtag chunk ∷ [] }) e)

module _ (pre chunk : List ℕ) (kind : ℕ) (e : length pre ≡ 12) (c : IsChunk kind chunk) where
  read-kind : read (pre ++ chunk) 12 ≡ done kind
  unfolding read
  read-kind = read-append pre chunk 12 0 e ∙ ap (λ l. read l 0) c.shape

  read-length : read_u16be (pre ++ chunk) 14 ≡ done (length chunk)
  read-length =
      ap (λ l. read_u16be (pre ++ l) 14) c.shape
      ∙ ap (λ l. read_u16be l 14)
          (sym (append_assoc pre (kind ∷ c.flags ∷ []) (write_u16be (length chunk) ++ c.body)))
      ∙ read_u16be-append (pre ++ (kind ∷ c.flags ∷ [])) c.body 14 (length chunk)
          (omega (arith, e, length-append pre (kind ∷ c.flags ∷ []))) (omega (arith, c.small))

  slice-chunk : slice (pre ++ chunk) 12 (length chunk) ≡ done chunk
  slice-chunk =
      ap (λ l. slice (pre ++ l) 12 (length chunk)) (sym (append-nil chunk))
      ∙ slice-middle pre chunk [] 12 e

  chunk_at-behind : chunk_at (pre ++ chunk) 12 ≡ done (kind, chunk)
  unfolding chunk_at fail_if
  chunk_at-behind =
      simp (read-kind, read-length)
        (rw
          (
            le→ltb (length chunk) 4 c.whole,
            le→ltb (length (pre ++ chunk)) (12 + length chunk)
                (omega (arith, e, length-append pre chunk)),
            slice-chunk,
          )
          refl)

-- One round of the loop of nsctp_handle_data.
chunks_from-step :
    (fuel : ℕ) (random : Random) (s s' : Sctp) (bytes : List ℕ) (pos kind : ℕ) (chunk : List ℕ)
    → leb (pos + 4) (length bytes) ≡ true
    → chunk_at bytes pos ≡ done (kind, chunk)
    → out_full s ≡ false
    → dispatch random s kind chunk ≡ (s', done tt)
    → chunks_from (suc fuel) random s bytes pos
      ≡ chunks_from fuel random s' bytes (pos + pad4 (length chunk))
unfolding chunks_from goes_on
chunks_from-step fuel random s s' bytes pos kind chunk a b f h = ground (arith, a, b, f, h)

chunks_from-end :
    (fuel : ℕ) (random : Random) (s : Sctp) (bytes : List ℕ) (pos : ℕ)
    → leb (pos + 4) (length bytes) ≡ false
    → chunks_from (suc fuel) random s bytes pos ≡ (s, done tt)
unfolding chunks_from
chunks_from-end fuel random s bytes pos a = ground (arith, a)

-- A packet with one chunk.
module _ (random : Random) (s s' : Sctp) (pre chunk : List ℕ) (kind : ℕ) (e : length pre ≡ 12)
    (c : IsChunk kind chunk) (room : s.out_queue ≡ [])
    (handled : dispatch random s kind chunk ≡ (s', done tt)) where
  chunks_from-single :
      (fuel : ℕ) → chunks_from (suc (suc fuel)) random s (pre ++ chunk) 12 ≡ (s', done tt)
  chunks_from-single fuel =
      let l = length-append pre chunk in
      chunks_from-step (suc fuel) random s s' (pre ++ chunk) 12 kind chunk
        (le→leb (12 + 4) (length (pre ++ chunk)) (omega (arith, e, l, c.whole)))
        (chunk_at-behind pre chunk kind e c) (out_full-empty s room) handled
      ∙ chunks_from-end fuel random s' (pre ++ chunk) (12 + pad4 (length chunk)) (
          lt→leb (12 + pad4 (length chunk) + 4) (length (pre ++ chunk))
            (omega (arith, e, l, c.even)))

  handle_data-single :
      verify_checksum (pre ++ chunk) ≡ done tt
      → s'.rx.sack_needed ≡ false
      → handle_data random s (pre ++ chunk) ≡ (s', done tt)
  unfolding handle_data flush_sack
  handle_data-single v quiet =
      let l = length-append pre chunk in
      let fuel : length (pre ++ chunk) ≡ suc (suc (length (pre ++ chunk) - 2)) =
        omega (arith, e, l) in
      let run : chunks_from (length (pre ++ chunk)) random s (pre ++ chunk) 12 ≡ (s', done tt) =
        ap (λ n. chunks_from n random s (pre ++ chunk) 12) fuel
        ∙ chunks_from-single (length (pre ++ chunk) - 2) in
      ground (arith, e, l, v, run, quiet)

pub packet_of-split :
    (s : Sctp) (vtag : ℕ) (chunk : List ℕ)
    → (packet_of s vtag chunk ≡ take 12 (packet_of s vtag chunk) ++ chunk)
      × (length (take 12 (packet_of s vtag chunk)) ≡ 12)
      × (verify_checksum (packet_of s vtag chunk) ≡ done tt)
      × (length (packet_of s vtag chunk) ≡ 12 + length chunk)
unfolding encode_header
packet_of-split s vtag chunk =
    let packet = packet_of s vtag chunk in
    let header = encode_header s.local_port s.remote_port vtag in
    let (v, l, t, d) = verify_checksum-finalize_checksum (header ++ chunk) (omega arith) in
    (
      sym (take-append-drop 12 packet) ∙ ap (λ r. take 12 packet ++ r) d,
      omega (arith, l, length-take 12 packet),
      v,
      omega (arith, l),
    )

pub handle_data-packet_of :
    (random : Random) (s s' sender : Sctp) (vtag : ℕ) (chunk : List ℕ) (kind : ℕ)
    → IsChunk kind chunk
    → s.out_queue ≡ []
    → dispatch random s kind chunk ≡ (s', done tt)
    → s'.rx.sack_needed ≡ false
    → handle_data random s (packet_of sender vtag chunk) ≡ (s', done tt)
handle_data-packet_of random s s' sender vtag chunk kind c room handled quiet =
    let (split, twelve, v, l) = packet_of-split sender vtag chunk in
    let pre = take 12 (packet_of sender vtag chunk) in
    ap (handle_data random s) split
    ∙ handle_data-single random s s' pre chunk kind twelve c room handled
        (ap verify_checksum (sym split) ∙ v) quiet

pub poll_output-queued :
    (s : Sctp) (packet : List ℕ) (cap : ℕ)
    → s.out_queue ≡ packet ∷ []
    → length packet ≤ cap
    → s.rx.sack_needed ≡ false
    → poll_output s cap ≡ (record s { out_queue = [] }, done packet)
unfolding poll_output poll_queue
poll_output-queued s packet cap q h quiet = ground (arith, q, h, quiet)
