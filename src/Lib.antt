-- ===== src/Lib.antt =====
-- Verification library of nanortc, a WebRTC stack in C without I/O of its own: the application hands
-- in datagrams, media units and the time, and takes out datagrams and events.
--
-- The parts that are modelled are the ones between the network and the application, without
-- encryption. src/nano_rtc.c and its two companions call them and keep their state. Outgoing: a
-- video unit is split by src/nano_h264.c into payloads, which src/nano_rtp.c frames. Incoming: RTP
-- packets are parsed by src/nano_rtp.c, put in order by src/nano_jitter.c (audio) or
-- src/nano_reorder.c (video) and assembled by src/nano_h264.c. Feedback: src/nano_rtcp.c writes
-- and reads reports, src/nano_twcc.c reads which packets arrived, src/nano_bwe.c turns REMB and
-- loss into a bitrate, and src/nano_rate_control.c chooses an encoder setting. Data:
-- src/nano_datachannel.c opens channels over SCTP, and src/nano_sctp.c carries their messages:
-- handshake, chunks with acknowledgement, retransmission and abandonment, reassembly. Its checksum is
-- in src/nano_crc32c.c. Time is a 32-bit millisecond counter that wraps
-- around (src/nano_time.h).
--
-- The files, each a component with child modules for its proofs and its runs:
--   Prelude      shared notation: lists as buffers, machine words, results of C functions, the
--                big-endian accessors of include/nanortc.h, and rules for chains of fallible steps
--   Clock        src/nano_time.h: `elapsed` is nano_time_elapsed, and so on
--   Bwe          src/nano_bwe.c: `Bwe` is nano_bwe_t, `on_twcc_loss` is bwe_on_twcc_loss, and so on
--   RateControl  src/nano_rate_control.c: `update` is rate_control_update; the ladder is a list
--   Jitter       src/nano_jitter.c: `push`, `pop`, `next_timeout_ms` are the jitter_ functions
--   Rtp          src/nano_rtp.c: `pack` is rtp_pack, `unpack` is rtp_unpack
--   Reorder      src/nano_reorder.c: `push`, `pop`, `next_timeout_ms` are the reorder_ functions
--   DataChannel  src/nano_datachannel.c: `open_options` is dc_open_options, `handle_message` is
--                dc_handle_message; a C string is the list of its bytes before the NUL
--   Rtcp         src/nano_rtcp.c: `generate_sr` is rtcp_generate_sr, `parse_packet` is rtcp_parse
--   Twcc         src/nano_twcc.c: `parse_feedback` is twcc_parse_feedback; the calls of its callback
--                are a list
--   SsrcMap      src/nano_media.c, the SSRC map only: `register` is ssrc_map_register
--   Base64       src/nano_base64.c: `encode` is nano_base64_encode
--   Crc          src/nano_crc32.c and src/nano_crc32c.c, with the tables
--   Sctp         src/nano_sctp.c: the types, the constants and the streams (nsctp_stream)
--     Codec      the chunk formats: `parse_init` is nsctp_parse_init, and so on
--     Receive    the receive table and its pool: reclaim, drain, merge, nsctp_poll_delivery
--     Gaps       nsctp_encode_sack_with_gaps
--     Transmit   the send queue: nsctp_send_options, nsctp_handle_sack_chunk, the timers
--     Assoc      the handshake and the output queue
--     Incoming   data and control chunks, and `handle_data`, which is nsctp_handle_data
--     Output     `poll_output` is nsctp_poll_output, `handle_timeout` is nsctp_handle_timeout
--     Handshake  two endpoints that pass packets to each other
--     Calls      any sequence of calls of the interface
--   H264         src/nano_h264.c: `packetize` is h264_packetize, `depkt_push` is h264_depkt_push
--
-- How C is rendered. A struct is a record and a function takes the state and returns the new one. A
-- function with an `int` status returns an Outcome: `done` with what it writes through its pointers,
-- `error` with the status, or `fault` for an access outside a buffer or a division by 0. A pointer
-- argument is a valid object, so the NULL tests are not modelled. Numbers are natural numbers with
-- the wrap-around of the C type written out; the fields of a byte are taken by division and remainder,
-- and `|` of disjoint fields is a sum. An array of slots is a function of the index. The compile-time
-- constants have their default values of include/nanortc_config.h.
--
-- Of SCTP: a ring is the list of what stands between its head and its tail, and a buffer with a fill
-- count the list of the bytes in use; a pool offset is a number into that list. Reliable and ordered
-- delivery are compiled in. The host is little-endian, as the checksum word is stored in its order.
-- What the crypto provider's random_bytes gives is a parameter, `Random`, with the number of the call
-- within a function; where a theorem needs it to succeed, the record `Gives` says what it gives. A
-- read outside a packet or outside the used part of the send buffer is the result `fault`; writes into
-- the pool are not checked so.
--
-- Loops are structural recursion or take fuel. jitter_push skips at most 2 ^ 16 numbers, the
-- number of sequence numbers; reorder_pop makes at most 8 rounds, the number of slots;
-- parse_chunks makes at most a round for each packet; the loops of src/nano_h264.c consume their
-- input, so its length is enough. In src/nano_sctp.c, nsctp_rx_merge makes a round for each slot at
-- most, nsctp_gap_drain one for each slot and one more, and the loops over parameters and chunks move
-- on by four bytes at least, so the length of the packet is enough.
--
-- Not modelled: STUN, ICE, TURN and SDP, H.265, FEC, the rest of src/nano_media.c, addresses,
-- the replay window of SRTP and the connection that calls all parts; nor DTLS, SRTP's ciphers and the
-- crypto providers, which call libraries outside the repository, and logging.
pub mod Prelude
pub mod Clock
pub mod Base64
pub mod Bwe
pub mod RateControl
pub mod Jitter
pub mod Rtp
pub mod Reorder
pub mod DataChannel
pub mod Rtcp
pub mod Twcc
pub mod SsrcMap
pub mod Crc
pub mod Sctp
pub mod H264
