-- ===== src/Audio/Packet.antt =====
-- ngx_agora_helper.c: `get_next_packet`, `encode_opus` and `flush_encode_opus`.
pub mod Cut
use server_side_custom_video.Prelude.{
  ℕ, ◌+◌, ◌-◌, ◌*◌, ◌%◌, ◌^◌, Bool, true, false, not, List, [], ◌∷◌, ◌++◌, Option, none, some,
  Bytes, ltb, leb, if◌then◌else◌, length,
}
use server_side_custom_video.Audio.Memory.{read_at, write_at, minus, ◌>>=◌}

abbrev pub input_sample_count : ℕ
input_sample_count = 1024

abbrev pub opus_sample_count : ℕ
opus_sample_count = 960

-- The fields of `agora_audio_context_t` that the packets are cut with. `remaining_bytes` is the
-- whole array, of which the first `remaining_count` bytes are waiting.
pub record AudioContext : Type 0 where
  pub channel_count : ℕ
  pub remaining_count : ℕ
  pub remaining_bytes : Bytes

-- the bytes in an Opus frame, as a `uint32_t`
abbrev pub packet_size : AudioContext → ℕ
packet_size audio_ctx = opus_sample_count * audio_ctx.channel_count * 2 % 2 ^ 32

-- `get_next_packet(audio_ctx, in, in_length, out)`: what `out` and the context are afterwards; none
-- is an access past the end of an array. `in` is none for NULL.
unfoldable pub get_next_packet :
    AudioContext → Option Bytes → ℕ → Bytes → Option (Bytes × AudioContext)
get_next_packet audio_ctx none in_length out =
    if ltb audio_ctx.remaining_count (packet_size audio_ctx) then some (out, audio_ctx) else do
      waiting ← read_at audio_ctx.remaining_bytes 0 (packet_size audio_ctx)
      filled ← write_at out 0 waiting
      some (
        filled,
        record {
          channel_count = audio_ctx.channel_count;
          remaining_count = audio_ctx.remaining_count - packet_size audio_ctx;
          remaining_bytes = audio_ctx.remaining_bytes;
        },
      )
get_next_packet audio_ctx (some in_bytes) in_length out = do
  waiting ← read_at audio_ctx.remaining_bytes 0 audio_ctx.remaining_count
  begun ← write_at out 0 waiting
  free_bytes ← minus (packet_size audio_ctx) audio_ctx.remaining_count
  head ← read_at in_bytes 0 free_bytes
  filled ← write_at begun audio_ctx.remaining_count head
  left ← minus in_length free_bytes
  rest ← read_at in_bytes free_bytes (left % 2 ^ 32)
  remaining ← write_at audio_ctx.remaining_bytes 0 rest
  some (
    filled,
    record {
      channel_count = audio_ctx.channel_count;
      remaining_count = left % 2 ^ 32;
      remaining_bytes = remaining;
    },
  )

-- The samples that `opus_encode` reads from `temp`. `temp` is what the local array holds before.
abbrev pub samples_of : AudioContext → Bytes × AudioContext → Option (Bytes × AudioContext)
samples_of audio_ctx (filled, later) = do
  pcm ← read_at filled 0 (opus_sample_count * audio_ctx.channel_count * 2)
  some (pcm, later)

-- `encode_opus` up to the call of `opus_encode`: the samples that are encoded
unfoldable pub encode_opus : AudioContext → Bytes → Bytes → Option (Bytes × AudioContext)
encode_opus audio_ctx in_bytes temp = do
  r ←
      get_next_packet audio_ctx (some in_bytes)
        (input_sample_count * audio_ctx.channel_count * 2 % 2 ^ 16) temp
  samples_of audio_ctx r

abbrev pub emptied : Bytes × AudioContext → Option (Option Bytes × AudioContext)
emptied (pcm, later) = some (
  some pcm,
  record {
    channel_count = later.channel_count;
    remaining_count = 0;
    remaining_bytes = later.remaining_bytes;
  },
)

-- `flush_encode_opus` up to the call of `opus_encode`, which is made when a whole frame waits
unfoldable pub flush_encode_opus : AudioContext → Bytes → Option (Option Bytes × AudioContext)
flush_encode_opus audio_ctx temp =
    if not
      (leb (opus_sample_count * audio_ctx.channel_count * 2 % 2 ^ 16) audio_ctx.remaining_count)
    then some (none, audio_ctx)
    else do r ← get_next_packet audio_ctx none 0 temp; s ← samples_of audio_ctx r; emptied s
