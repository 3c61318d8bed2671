-- ===== src/Rtp/Tests.antt =====
-- RTP packets at concrete inputs.
use nanortc.Prelude.{
  Error, List, [], arith, buffer_too_small, done, drop, error, fail_if, false, fault, invalid_param,
  length, parse, read, read_u16be, read_u32be, refl, true, ℕ, ◌+◌, ◌<◌, ◌∷◌, ◌≡◌, ◌≢◌, ◌≤◌,
}
use nanortc.Rtp.{Header, Rtp, header_size, pack, skip_extension, strip_padding, unpack}
use nanortc.Rtp.Unpack.{unpack_safe}
use nanortc.Rtp.RoundTrip.{after, sent, total_size, unpack-pack}

abbrev sender : Rtp
sender = record {
  seq = 65535;
  ssrc = 0x11223344;
  payload_type = 111;
  marker = true;
  twcc_ext_id = 3;
  twcc_seq = 513;
}

packs :
    pack sender 960 (7 ∷ 8 ∷ 9 ∷ []) 64
    ≡ done (
      record {
        seq = 0;
        ssrc = 0x11223344;
        payload_type = 111;
        marker = false;
        twcc_ext_id = 3;
        twcc_seq = 514;
      },
      0x90 ∷ 0xEF ∷ 0xFF ∷ 0xFF ∷ 0 ∷ 0 ∷ 3 ∷ 0xC0 ∷ 0x11 ∷ 0x22 ∷ 0x33 ∷ 0x44 ∷ 0xBE ∷ 0xDE ∷ 0 ∷ 1
          ∷ 0x31 ∷ 2 ∷ 1 ∷ 0 ∷ 7 ∷ 8 ∷ 9 ∷ [],
    )
unfolding pack
packs = refl

-- One CSRC, and padding of two bytes that is not part of the payload.
padded : List ℕ
padded = 0xA1 ∷ 96 ∷ 0 ∷ 1 ∷ 0 ∷ 0 ∷ 0 ∷ 2 ∷ 0 ∷ 0 ∷ 0 ∷ 3 ∷ 0 ∷ 0 ∷ 0 ∷ 4 ∷ 55 ∷ 0 ∷ 2 ∷ []

unpacks_padded :
    unpack padded
    ≡ done (record { pt = 96; seq = 1; ts = 2; ssrc = 3; payload_at = 16; payload_len = 1 })
unfolding padded unpack skip_extension strip_padding read read_u16be read_u32be fail_if
unpacks_padded = refl

unpack_safe_example :
    (unpack padded ≢ fault)
    × (length padded < header_size → unpack padded ≡ error invalid_param)
    × (header_size ≤ length padded → (e : Error) → unpack padded ≡ error e → e ≡ parse)
    × ((h : Header)
        → unpack padded ≡ done h
        → (header_size ≤ h.payload_at) × (h.payload_at + h.payload_len ≤ length padded))
unpack_safe_example = unpack_safe padded

unpack-pack_example :
    (64 < total_size sender (7 ∷ []) → pack sender 960 (7 ∷ []) 64 ≡ error buffer_too_small)
    × (total_size sender (7 ∷ []) ≤ 64
        → (pkt : List ℕ) × (pack sender 960 (7 ∷ []) 64 ≡ done (after sender, pkt))
          × (length pkt ≡ total_size sender (7 ∷ []))
          × (unpack pkt ≡ done (sent sender 960 (7 ∷ [])))
          × (drop (sent sender 960 (7 ∷ [])).payload_at pkt ≡ 7 ∷ []))
unpack-pack_example = unpack-pack sender 960 (7 ∷ []) 64 (omega arith) (omega arith)
