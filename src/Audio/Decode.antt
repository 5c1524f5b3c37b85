-- ===== src/Audio/Decode.antt =====
-- ngx_agora_helper.c: `convert_audio_sample_f32_s16` and `decode_acc_audio`. libavcodec, libopus and
-- the arithmetic of `float` are an interface.
use server_side_custom_video.Prelude.{
  ℕ, zero, suc, ◌*◌, ◌%◌, ◌^◌, Bool, List, [], ◌∷◌, ◌++◌, Option, none, some, Bytes, ltb,
  if◌then◌else◌, length,
}
use server_side_custom_video.Words.{little_endian}
use server_side_custom_video.Audio.Memory.{write_at, ◌>>=◌}
use server_side_custom_video.Audio.Packet.{AudioContext, encode_opus, flush_encode_opus}

-- what `opus_encode` returns: its output, or a negative number
pub data Encoded : Type 0 where
  encoded : Bytes → Encoded
  failed : Encoded

pub record Codecs : Type 1 where
  -- the state of the AAC decoder, `avcodec_send_packet` with `avcodec_receive_frame`, and the
  -- samples of the frame's first plane; none if one of the calls fails
  pub Decoder : Type 0
  pub Sample : Type 0
  pub decode : Decoder → Bytes → Option (List Sample)
  pub decoder_next : Decoder → Bytes → Decoder
  -- the state of the Opus encoder and `opus_encode`, with room for 1000 bytes
  pub Opus : Type 0
  pub encode : Opus → Bytes → Encoded
  pub opus_next : Opus → Bytes → Opus
  -- `x >= 1`, `x <= -1`, and `(x * 32768) - 1` as an `int16_t`, as the number of its 16 bits
  pub ge_one : Sample → Bool
  pub le_minus_one : Sample → Bool
  pub scaled : Sample → ℕ

pub record AudioCall : Type 0 where
  pub out : Encoded
  pub timestamp : ℕ

module _ (lib : Codecs) where
  -- one sample; -32768 has the bits of 32768
  unfoldable pub convert_sample : lib.Sample → ℕ
  convert_sample x =
      if lib.ge_one x then 32767 else if lib.le_minus_one x then 32768 else lib.scaled x

  -- the loop over `count` samples; none is a read past the end of the plane
  unfoldable pub convert_samples : ℕ → List lib.Sample → Option Bytes
  convert_samples zero xs = some []
  convert_samples (suc n) [] = none
  convert_samples (suc n) (x ∷ xs) = do
    rest ← convert_samples n xs
    some (little_endian 2 (convert_sample x) ++ rest)

  -- `convert_audio_sample_f32_s16(in, out, count)`: the array `out` afterwards
  unfoldable pub convert_audio_sample_f32_s16 : List lib.Sample → Bytes → ℕ → Option Bytes
  convert_audio_sample_f32_s16 xs out count = do bs ← convert_samples count xs; write_at out 0 bs

  pub record AudioState : Type 0 where
    pub context : AudioContext
    pub decoder : lib.Decoder
    pub opus : lib.Opus

  -- `if(encoded_bytes>0)`
  abbrev pub flushed : ℕ → Encoded → List AudioCall
  flushed timestamp (encoded bs) =
      if ltb 0 (length bs) then record { out = encoded bs; timestamp = timestamp } ∷ [] else []
  flushed timestamp failed = []

  -- the calls of `opus_encode` and `agora_send_audio`, and the state behind them
  abbrev pub sent :
      lib.Decoder → lib.Opus → ℕ → Bytes → Option Bytes × AudioContext → List AudioCall × AudioState
  sent decoder opus timestamp pcm (none, context) = (
    record { out = lib.encode opus pcm; timestamp = timestamp } ∷ [],
    record { context = context; decoder = decoder; opus = lib.opus_next opus pcm },
  )
  sent decoder opus timestamp pcm (some more, context) = (
    record { out = lib.encode opus pcm; timestamp = timestamp }
        ∷ flushed timestamp (lib.encode (lib.opus_next opus pcm) more),
    record {
      context = context;
      decoder = decoder;
      opus = lib.opus_next (lib.opus_next opus pcm) more;
    },
  )

  -- `decode_acc_audio` behind the decoder. `buffer` and `temp` are what its local array, and that
  -- of the functions it calls, hold before.
  abbrev pub encode_decoded :
      lib.Decoder
      → AudioState
      → List lib.Sample
      → ℕ
      → Bytes
      → Bytes
      → Option (List AudioCall × AudioState)
  encode_decoded decoder st samples timestamp buffer temp = do
    filled ←
        convert_audio_sample_f32_s16 samples buffer
          (length samples % 2 ^ 16 * st.context.channel_count % 2 ^ 16)
    first ← encode_opus st.context filled temp
    later ← flush_encode_opus first.1 temp
    some (sent decoder st.opus timestamp first.0 later)

  -- `decode_acc_audio`: the calls of `agora_send_audio` and the state; none is an access past an
  -- array. What it returns is dropped by its callers.
  unfoldable pub decode_acc_audio :
      AudioState → Bytes → ℕ → Bytes → Bytes → Option (List AudioCall × AudioState)
  decode_acc_audio st data_bytes timestamp buffer temp = elim (lib.decode st.decoder data_bytes) [
    | none ↦ some (
      [],
      record {
        context = st.context;
        decoder = lib.decoder_next st.decoder data_bytes;
        opus = st.opus;
      },
    )
    | some samples ↦
        encode_decoded (lib.decoder_next st.decoder data_bytes) st samples timestamp buffer temp
  ]
