-- ===== src/Rtcp/Safety.antt =====
-- No bytes make rtcp_parse read outside the packet (src/nano_rtcp.c).
use nanortc.Prelude.{
  Bool-cases, Error, List, arith, done, error, false, fault, inl, inr, invalid_param, leb, length,
  ltb, ltb→lt, not, parse, refl, true, ℕ, ◌%◌, ◌&&◌, ◌*◌, ◌+◌, ◌/◌, ◌<◌, ◌==◌, ◌^◌, ◌≡◌, ◌≢◌, ◌≤◌,
}
use nanortc.Prelude.Ensures.{
  Ensures, Ensures-bind, Ensures-done, Ensures-error, Ensures-ne_fault, fail_if-Ensures,
  read-Ensures, read_u16be-Ensures, read_u32be-Ensures, returns,
}
use nanortc.Rtcp.{
  Info, blank, header_size, nack_size, parse_body, parse_packet, parse_psfb, parse_rtpfb, parse_sr,
  psfb_type, report_block, rr_size, rr_type, rtpfb_type, sr_size, sr_type, sr_with_rb_size, version,
}

-- A refusal, and a result.
abbrev pub Refused : List ℕ → Error → Type 0
Refused bytes e = e ≡ invalid_param → length bytes < header_size

abbrev pub Read : List ℕ → Info → Type 0
Read bytes info = (header_size ≤ length bytes) × (info.rb_valid ≡ true → rr_size ≤ length bytes)

report_block-Ensures :
    (bytes : List ℕ) (info : Info) (rc_count pkt_size least i : ℕ)
    → info.rb_valid ≡ false
    → i + 24 ≤ least
    → rr_size ≤ least
    → header_size ≤ length bytes
    → pkt_size ≤ length bytes
    → Ensures
        (λ e. Refused bytes e)
        (λ o. Read bytes o)
        (report_block bytes info rc_count pkt_size least i)
unfolding report_block
report_block-Ensures bytes info rc_count pkt_size least i none_yet h r l p =
    elim (Bool-cases (leb 1 rc_count && leb least pkt_size)) [
      | inr small ↦ simp (report_block, small) (returns (omega arith, λ t. absurd (cc)))
      | inl block ↦
          (let fits : least ≤ pkt_size = ground arith in
            simp (report_block, block)
              (Ensures-bind (read_u32be-Ensures bytes i (omega (arith, fits))) λ source _.
                Ensures-bind (read-Ensures bytes (i + 4) (omega (arith, fits)))
                  λ fraction _. returns (omega arith, λ _. omega (arith, fits))))
    ]

parse_sr-Ensures :
    (bytes : List ℕ) (info : Info) (rc_count pkt_size : ℕ)
    → info.rb_valid ≡ false
    → header_size ≤ length bytes
    → pkt_size ≤ length bytes
    → Ensures (λ e. Refused bytes e) (λ o. Read bytes o) (parse_sr bytes info rc_count pkt_size)
unfolding parse_sr
parse_sr-Ensures bytes info rc_count pkt_size n l p =
    Ensures-bind (fail_if-Ensures (ltb pkt_size sr_size) parse (λ _ e. absurd (cc))) λ _ ok.
      let long : sr_size ≤ length bytes = ground arith in
      Ensures-bind (read_u32be-Ensures bytes 8 (omega arith)) λ sec _.
        Ensures-bind (read_u32be-Ensures bytes 12 (omega arith)) λ frac _.
          Ensures-bind (read_u32be-Ensures bytes 16 (omega arith)) λ ts _.
            Ensures-bind (read_u32be-Ensures bytes 20 (omega arith)) λ packets _.
              Ensures-bind (read_u32be-Ensures bytes 24 (omega arith)) λ octets _.
                report_block-Ensures bytes _ rc_count pkt_size sr_with_rb_size 28 n (omega arith)
                  (omega arith) l p

parse_rtpfb-Ensures :
    (bytes : List ℕ) (info : Info) (fmt pkt_size : ℕ)
    → info.rb_valid ≡ false
    → header_size ≤ length bytes
    → pkt_size ≤ length bytes
    → Ensures (λ e. Refused bytes e) (λ o. Read bytes o) (parse_rtpfb bytes info fmt pkt_size)
unfolding parse_rtpfb
parse_rtpfb-Ensures bytes info fmt pkt_size n l p =
    Ensures-bind (fail_if-Ensures (ltb pkt_size nack_size) parse (λ _ e. absurd (cc))) λ _ ok.
      let long : nack_size ≤ length bytes = ground arith in
      elim (Bool-cases (fmt == 1)) [
        | inr other ↦ rw other (returns (omega arith, λ t. absurd (cc)))
        | inl nack ↦ rw nack (
            Ensures-bind (read_u32be-Ensures bytes 8 (omega arith)) λ media _.
              Ensures-bind (read_u16be-Ensures bytes 12 (omega arith)) λ pid _.
                Ensures-bind (read_u16be-Ensures bytes 14 (omega arith))
                  λ blp _. returns (omega arith, λ t. absurd (cc)))
      ]

parse_psfb-Ensures :
    (bytes : List ℕ) (info : Info) (pkt_size : ℕ)
    → info.rb_valid ≡ false
    → header_size ≤ length bytes
    → pkt_size ≤ length bytes
    → Ensures (λ e. Refused bytes e) (λ o. Read bytes o) (parse_psfb bytes info pkt_size)
unfolding parse_psfb
parse_psfb-Ensures bytes info pkt_size n l p = elim (Bool-cases (leb 12 pkt_size)) [
  | inr short ↦ simp (parse_psfb, short) (returns (omega arith, λ t. absurd (cc)))
  | inl long ↦
      (let fits : 12 ≤ pkt_size = ground arith in
        simp (parse_psfb, long)
          (Ensures-bind (read_u32be-Ensures bytes 8 (omega (arith, fits)))
            λ media _. returns (omega arith, λ t. absurd (cc))))
]

parse_body-Ensures :
    (bytes : List ℕ) (kind ssrc low pkt_size : ℕ)
    → header_size ≤ length bytes
    → pkt_size ≤ length bytes
    → Ensures
        (λ e. Refused bytes e)
        (λ o. Read bytes o)
        (parse_body bytes (blank kind ssrc) low pkt_size)
unfolding parse_body
parse_body-Ensures bytes kind ssrc low pkt_size l p = elim (Bool-cases (kind == sr_type)) [
  | inl sr ↦ rw sr (parse_sr-Ensures bytes (blank kind ssrc) low pkt_size refl l p)
  | inr not_sr ↦ elim (Bool-cases (kind == rr_type)) [
    | inl rr ↦
        rw (not_sr, rr)
          (report_block-Ensures bytes (blank kind ssrc) low pkt_size rr_size 8 refl (omega arith)
            (omega arith) l p)
    | inr not_rr ↦ elim (Bool-cases (kind == rtpfb_type)) [
      | inl fb ↦
          rw (not_sr, not_rr, fb)
            (parse_rtpfb-Ensures bytes (blank kind ssrc) low pkt_size refl l p)
      | inr not_fb ↦ elim (Bool-cases (kind == psfb_type)) [
        | inl ps ↦
            rw (not_sr, not_rr, not_fb, ps)
              (parse_psfb-Ensures bytes (blank kind ssrc) pkt_size refl l p)
        | inr unknown ↦ rw (not_sr, not_rr, not_fb, unknown) (returns (l, λ t. absurd (cc)))
      ]
    ]
  ]
]

parse_packet-Ensures :
    (bytes : List ℕ) → Ensures (λ e. Refused bytes e) (λ o. Read bytes o) (parse_packet bytes)
unfolding parse_packet
parse_packet-Ensures bytes =
    Ensures-bind
      (fail_if-Ensures (ltb (length bytes) header_size) invalid_param
        (λ short _. ltb→lt (length bytes) header_size short))
      λ _ ok.
        let long : header_size ≤ length bytes = ground arith in
        Ensures-bind (read-Ensures bytes 0 (omega arith)) λ b0 _.
          Ensures-bind
            (fail_if-Ensures (not (b0 / 2 ^ 6 % 4 == version)) parse (λ _ e. absurd (cc)))
            λ _ _. Ensures-bind (read-Ensures bytes 1 (omega arith)) λ kind _.
              Ensures-bind (read_u16be-Ensures bytes 2 (omega arith)) λ length_words _.
                Ensures-bind
                  (fail_if-Ensures (ltb (length bytes) ((length_words + 1) * 4)) parse
                    (λ _ e. absurd (cc)))
                  λ _ inside. Ensures-bind (read_u32be-Ensures bytes 4 (omega arith)) λ ssrc _.
                    parse_body-Ensures bytes kind ssrc (b0 % 32) ((length_words + 1) * 4) long
                      (ground arith)

-- Whatever the input, rtcp_parse stays within it; what it refuses with NANORTC_ERR_INVALID_PARAM
-- is shorter than a header, and a report block is only reported of a packet of at least 32 bytes.
pub parse_packet_safe :
    (bytes : List ℕ)
    → (parse_packet bytes ≢ fault)
      × (parse_packet bytes ≡ error invalid_param → length bytes < header_size)
      × ((info : Info) → parse_packet bytes ≡ done info → Read bytes info)
parse_packet_safe bytes = (
  Ensures-ne_fault (parse_packet-Ensures bytes),
  λ h. Ensures-error (parse_packet-Ensures bytes) h refl,
  λ info h. Ensures-done (parse_packet-Ensures bytes) h,
)
