-- ===== src/Audio/Packet/Cut.antt =====
-- What the two packet functions do to a mono context that holds some waiting bytes.
use server_side_custom_video.Prelude.{
  ◌+◌, ◌%◌, ◌^◌, ◌≤◌, ◌<◌, ◌≡◌, refl, ap, sym, [], ◌++◌, none, some, Bytes, arith, length, drop,
  length-append, append_assoc, length-drop,
}
use server_side_custom_video.Audio.Memory.{
  read_at, ◌>>=◌, read_at_lem, read_front, write_at_lem, minus_lem,
}
use server_side_custom_video.Audio.Packet.{
  AudioContext, get_next_packet, encode_opus, flush_encode_opus,
}

-- the context of `agora_init_audio`, which is mono, with some bytes waiting and others left over
abbrev pub holding : Bytes → Bytes → AudioContext
holding pending stale = record {
  channel_count = 1;
  remaining_count = length pending;
  remaining_bytes = pending ++ stale;
}

-- A frame of 1024 samples fills the packet up to 960, and what it has more waits.
module _ (pending stale head rest tail out : Bytes) (full : length pending + length head ≡ 1920)
    (whole : length head + length rest ≡ 2048) (kept : length rest ≤ length pending + length stale)
    (space : length out ≡ 3840) where
  next_packet_lem :
      get_next_packet (holding pending stale) (some (head ++ (rest ++ tail))) 2048 out
      ≡ some (
        pending ++ (head ++ drop (length head) (drop (length pending) out)),
        holding rest (drop (length rest) (pending ++ stale)),
      )
  unfolding get_next_packet
  next_packet_lem =
      rw
        (
          read_at_lem [] pending stale,
          write_at_lem [] pending out (omega (arith, full, space)),
          minus_lem 1920 (length pending) (length head) full,
          read_at_lem [] head (rest ++ tail),
          write_at_lem pending head (drop (length pending) out)
              (omega (arith, full, space, length-drop (length pending) out)),
          minus_lem 2048 (length head) (length rest) whole,
          same_count,
          read_at_lem head rest tail,
          write_at_lem [] rest (pending ++ stale)
              (omega (arith, kept, length-append pending stale)),
        )
        refl
    where
      same_count : length rest % 2 ^ 32 ≡ length rest
      same_count = omega (arith, whole)

  pub encode_opus_lem :
      encode_opus (holding pending stale) (head ++ (rest ++ tail)) out
      ≡ some (pending ++ head, holding rest (drop (length rest) (pending ++ stale)))
  unfolding encode_opus
  encode_opus_lem =
      rw (next_packet_lem, encode_opus) (ap (λ r. ◌>>=◌ r (λ pcm. some (pcm, later))) first_frame)
    where
      later : AudioContext
      later = holding rest (drop (length rest) (pending ++ stale))

      behind : Bytes
      behind = drop (length head) (drop (length pending) out)

      first_frame : read_at (pending ++ (head ++ behind)) 0 1920 ≡ some (pending ++ head)
      first_frame = rw (sym (append_assoc pending head behind)) (
          read_front (pending ++ head) behind 1920
            (omega (arith, full, length-append pending head)))

-- A whole frame that waits is taken, and nothing waits behind it.
pub flush_encode_opus-full :
    (pending stale out : Bytes)
    → length pending ≡ 1920
    → length out ≡ 3840
    → flush_encode_opus (holding pending stale) out
      ≡ some (some pending, holding [] (pending ++ stale))
unfolding flush_encode_opus get_next_packet
flush_encode_opus-full pending stale out h space =
    rw
      (
        h,
        read_front pending stale 1920 h,
        write_at_lem [] pending out (omega (arith, h, space)),
        read_front pending (drop (length pending) out) 1920 h,
      )
      refl

-- With less than a frame waiting nothing is done.
pub flush_encode_opus-short :
    (pending stale out : Bytes)
    → length pending < 1920
    → flush_encode_opus (holding pending stale) out ≡ some (none, holding pending stale)
unfolding flush_encode_opus
flush_encode_opus-short pending stale out h = ground arith
