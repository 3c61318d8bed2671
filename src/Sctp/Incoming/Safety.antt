-- ===== src/Sctp/Incoming/Safety.antt =====
-- No packet makes nsctp_handle_data of src/nano_sctp.c read outside it.
use nanortc.Prelude.{
  buffer_too_small, false, length, ltb, would_block, ℕ, ◌*◌, ◌+◌, ◌-◌, ◌==◌, ◌||◌,
}
use nanortc.Prelude.Ensures.{Ensures}
use nanortc.Sctp.{Sctp, max_gap_blocks, recv_gap_buf_size}
use nanortc.Sctp.Gaps.{encode_sack_with_gaps}
use nanortc.Sctp.Assoc.{out_full, queue_chunk}
use nanortc.Sctp.Incoming.{queue_sack}
use nanortc.Sctp.Incoming.Sound.{
  IsBounded, Sound, Sound-done, Sound-error, Sound-test, queue_chunk-IsBounded,
}

pub queue_sack-Sound : (s : Sctp) (cap : ℕ) → IsBounded s → Sound (queue_sack s cap)
unfolding queue_sack
queue_sack-Sound s cap t =
    let chunk =
      encode_sack_with_gaps s.rx (recv_gap_buf_size - length s.rx.recv_gap_buf)
        (16 + 4 * max_gap_blocks) in
    let s' = queue_chunk s s.remote_vtag chunk in
    Sound-test (out_full s) _ _ (λ _. Sound-error s would_block t)
      λ _.
        Sound-test (length chunk == 0 || ltb cap (12 + length chunk)) _ _
          (λ _. Sound-error s buffer_too_small t)
          (λ _.
            Sound-done (record s' { rx = record s'.rx { sack_needed = false } })
              (queue_chunk-IsBounded s s.remote_vtag chunk t))
