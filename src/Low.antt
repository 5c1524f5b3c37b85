-- ===== src/Low.antt =====
-- libagorac/agorac.cpp: `doSendLowVideo`, which decodes a frame, decides whether the low stream gets
-- it, and encodes it again. `Single` is `float`; the two libraries are those of Decoder and Encoder,
-- with the same frames.
pub mod Laws
mod Tests
use server_side_custom_video.Prelude.{
  ℕ, ◌+◌, ◌*◌, ◌%◌, ◌^◌, Bool, true, false, ◌||◌, List, [], ◌∷◌, ◌++◌, Option, none, some, Bytes,
  if◌then◌else◌, take,
}
use server_side_custom_video.Text.{ℤ, pos}
use server_side_custom_video.Long.{Float}
use server_side_custom_video.Decoder
use server_side_custom_video.Decoder.{AgoraDecoder, decode}
use server_side_custom_video.Encoder
use server_side_custom_video.Encoder.{
  AgoraEncoder, Outcome, returned, overrun, no_context, no_fuel, encode,
}

-- the two libraries
pub record Codecs : Type 1 where
  pub encoding : Encoder.Library
  pub decoding : Decoder.Library
  -- the frame that the decoder fills is the one that the encoder takes
  pub same_frame : decoding.Frame → encoding.Frame

-- `MAX_FRAME_SIZE`
abbrev pub max_frame_size : ℕ
max_frame_size = 1024 * 1020

-- what is handed to `sendEncodedVideoImage` for the low stream, besides `dfps`
pub record LowFrame : Type 0 where
  pub bytes : Bytes
  pub is_key_frame : Bool

module _ (Single : Float) (C : Codecs) where
  pub record LowStream : Type 0 where
    pub decoder : AgoraDecoder C.decoding
    pub encoder : AgoraEncoder C.encoding
    pub encode_next_frame : Bool
    pub high_video_frame_count : ℕ
    pub low_video_frame_count : ℕ

  -- `(ctx->lowVideoFrameCount*lowHeighRatio)<ctx->highVideoFrameCount`
  abbrev pub is_behind : (predicted_fps : Single.Number) → (dfps : ℕ) → LowStream → Bool
  is_behind predicted_fps dfps s =
      Single.less_float
        (Single.times_float (Single.from_long (pos s.low_video_frame_count))
          (Single.over predicted_fps (Single.from_long (pos dfps))))
        (Single.from_long (pos s.high_video_frame_count))

  -- what `encode` returns is not looked at; none is a fault of it
  abbrev pub sent_low : Bool → Outcome C.encoding → LowStream → Option (LowStream × List LowFrame)
  sent_low is_key (returned ok out size encoder) s = some (
    record s { encoder = encoder; low_video_frame_count = (s.low_video_frame_count + 1) % 2 ^ 8 },
    record { bytes = take size out; is_key_frame = is_key } ∷ [],
  )
  sent_low is_key overrun s = none
  sent_low is_key no_context s = none
  sent_low is_key no_fuel s = none

  -- `avcodec` has put the frame into `out_frame`, or has not: the result of `decode` is not looked at
  abbrev pub decode_low : Bytes → LowStream → LowStream
  decode_low packet s = record s { decoder = (decode C.decoding packet s.decoder).1 }

  abbrev pub decide : (predicted_fps : Single.Number) → (dfps : ℕ) → LowStream → LowStream
  decide predicted_fps dfps s = record s { encode_next_frame = is_behind predicted_fps dfps s }

  abbrev pub encode_low :
      (memory : Bytes) → (has_memory is_key : Bool) → LowStream → Option (LowStream × List LowFrame)
  encode_low memory has_memory is_key s =
      if s.encode_next_frame || is_key
      then sent_low is_key
          (encode C.encoding has_memory (C.same_frame s.decoder.out_frame) memory 0 is_key
            s.encoder)
          s
      else some (s, [])

  -- `doSendLowVideo`; `memory` is what the new output buffer holds
  unfoldable pub do_send_low_video :
      (memory : Bytes)
      → (has_memory : Bool) → (predicted_fps : Single.Number) → (dfps : ℕ) → Bytes
      → (is_key : Bool) → LowStream
      → Option (LowStream × List LowFrame)
  do_send_low_video memory has_memory predicted_fps dfps packet is_key s =
      encode_low memory has_memory is_key (decide predicted_fps dfps (decode_low packet s))
