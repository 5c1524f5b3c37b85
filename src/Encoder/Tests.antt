-- ===== src/Encoder/Tests.antt =====
-- An encoder that holds frames back.
use server_side_custom_video.Decoder.Lifecycle.{InitCalls, wild, destroy}
use server_side_custom_video.Encoder.Lifecycle.{
  wild_encoder, init_codecs, destroy_encoder, codecs-destroyed,
}
use server_side_custom_video.Prelude.{
  ℕ, ◌-◌, ◌≡◌, refl, true, false, Bool, List, [], ◌∷◌, Option, some, none, Bytes, length, take,
  arith,
}
use server_side_custom_video.Audio.Memory.{write_at}
use server_side_custom_video.Encoder.{
  Library, AgoraEncoder, returned, encode, scale_frame, flush, copy_units,
}
use server_side_custom_video.Encoder.Output.{joined, outputs, last_of, encode-last_output}

-- a picture is its byte; the encoder is the number of frames it holds back
abbrev coded : ℕ → Bool → Option ℕ → ℕ × Bool × List Bytes
coded held key (some picture) = (held, false, (1 ∷ picture ∷ []) ∷ (picture ∷ []) ∷ [])
coded held key none = (held - 1, false, (held ∷ 9 ∷ []) ∷ [])

abbrev library : Library
library = record {
  Frame = ℕ;
  Scaler = ℕ;
  X264 = ℕ;
  width = λ f. f;
  height = λ f. f;
  get_context = λ a b c d. some c;
  sws_scale = λ s f n. some f;
  x264_encode = coded;
  delayed_frames = λ held. held;
}

abbrev encoder : ℕ → AgoraEncoder library
encoder held = record {
  codec = some held;
  src_width = 7;
  src_height = 7;
  target_width = 4;
  target_height = 4;
  scale_context = none;
}

abbrev room : Bytes
room = 0 ∷ 0 ∷ 0 ∷ 0 ∷ []

encode-last_output_example :
    let last = last_of library ((1 ∷ 5 ∷ []) ∷ (5 ∷ []) ∷ []) (outputs library 0 0) in
    (out : Bytes) × (size : ℕ) × (e : AgoraEncoder library) × (encode library true 5 room 0 true
        (encoder 0)
      ≡ returned true out size e)
    × (size ≡ length (joined last))
    × (take size out ≡ joined last)
    × (length out ≡ length room)
unfolding scale_frame
encode-last_output_example =
    encode-last_output library true true 5 5 0 0 ((1 ∷ 5 ∷ []) ∷ (5 ∷ []) ∷ []) room (encoder 0)
      (λ held h. omega arith) refl refl refl (omega arith) tt

-- With two frames held back, what the frame itself gave is lost.
overwritten :
    encode library true 5 room 0 false (encoder 2)
    ≡ returned true
        (1 ∷ 9 ∷ 5 ∷ 0 ∷ [])
        2
        (record (encoder 0) { src_width = 5; src_height = 5; scale_context = some 4 })
unfolding encode scale_frame flush copy_units write_at
overwritten = refl

-- the decoder cannot be opened
abbrev unopened : InitCalls
unopened = record {
  finds_decoder = true;
  allocates_context = true;
  opens = false;
  allocates_frame = true;
}

codecs-destroyed_example :
    let (ok, decoder, encoder) = init_codecs unopened true true in
    (ok ≡ false) × (destroy decoder ≡ wild) × (destroy_encoder encoder ≡ wild_encoder)
codecs-destroyed_example = codecs-destroyed unopened true true
