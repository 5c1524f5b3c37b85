-- ===== src/Encoder.antt =====
-- libagorac/helpers/agoraencoder.cpp: `AgoraEncoder`, over libswscale and libx264 as an interface.
pub mod Output
pub mod Params
pub mod Lifecycle
mod Tests
use server_side_custom_video.Prelude.{
  ℕ, zero, suc, ◌+◌, ◌%◌, ◌^◌, Bool, true, false, not, ◌&&◌, List, [], ◌∷◌, Option, none, some,
  Bytes, ◌==◌, if◌then◌else◌, length,
}
use server_side_custom_video.Audio.Memory.{write_at, ◌>>=◌}

-- What the class uses of the two libraries.
pub record Library : Type 1 where
  pub Frame : Type 0
  pub Scaler : Type 0
  pub X264 : Type 0
  pub width : Frame → ℕ
  pub height : Frame → ℕ
  -- `sws_getContext`, from the source size to the target size
  pub get_context : (src_width src_height width height : ℕ) → Option Scaler
  -- `sws_scale` of so many lines; none is an error
  pub sws_scale : Scaler → Frame → ℕ → Option Frame
  -- `x264_encoder_encode`, with `X264_TYPE_IDR` or without, of a picture or of none: the encoder
  -- behind it, whether the result is negative, and the payloads of the NAL units
  pub x264_encode : X264 → Bool → Option Frame → X264 × Bool × List Bytes
  -- `x264_encoder_delayed_frames`
  pub delayed_frames : X264 → ℕ

-- `handlePostEncoding` from the unit it has come to, with `totalBytes`; none is a write past `out`
unfoldable pub copy_units : List Bytes → Bytes → (total : ℕ) → Option (Bytes × ℕ)
copy_units [] out total = some (out, total)
copy_units (nal ∷ nals) out total =
    write_at out total nal >>= λ next. copy_units nals next (total + length nal)

-- the offset is not used
abbrev pub handle_post_encoding : Bytes → List Bytes → (offset : ℕ) → Option (Bytes × ℕ)
handle_post_encoding out nals offset = copy_units nals out 0

module _ (L : Library) where
  pub record AgoraEncoder : Type 0 where
    pub codec : Option L.X264
    pub src_width : ℕ
    pub src_height : ℕ
    pub target_width : ℕ
    pub target_height : ℕ
    pub scale_context : Option L.Scaler

  -- the constructor, for a target size in 16 bits; `m_avCodec`, which it does not set, is none until
  -- `init` sets it, and Lifecycle has what reading it before comes to
  abbrev pub new_encoder : (target_width target_height : ℕ) → AgoraEncoder
  new_encoder target_width target_height = record {
    codec = none;
    src_width = target_width;
    src_height = target_height;
    target_width = target_width;
    target_height = target_height;
    scale_context = none;
  }

  -- what `scaleFrame` comes to; the last is a call of `sws_scale` with no context
  pub data Scaled : Type 0 where
    refused : Scaled
    scaled : L.Frame → Scaled
    null_context : Scaled

  -- what `encode` comes to: the result with `out`, `outSize` and the encoder, or a fault
  pub data Outcome : Type 0 where
    returned : Bool → Bytes → ℕ → AgoraEncoder → Outcome
    overrun : Outcome
    no_context : Outcome
    no_fuel : Outcome

  abbrev pub create_video_scale_context : AgoraEncoder → AgoraEncoder
  create_video_scale_context e = record e {
    scale_context = L.get_context e.src_width e.src_height e.target_width e.target_height;
  }

  abbrev pub init_with : Option L.X264 → AgoraEncoder → Bool × AgoraEncoder
  init_with none e = (false, e)
  init_with (some x264) e = (true, create_video_scale_context (record e { codec = some x264 }))

  -- `init`, with what `x264_encoder_open` returns
  unfoldable pub init : Option L.X264 → AgoraEncoder → Bool × AgoraEncoder
  init opened e = init_with opened e

  abbrev pub on_resolution_change : (new_width new_height : ℕ) → AgoraEncoder → AgoraEncoder
  on_resolution_change new_width new_height e =
      create_video_scale_context
        (record e { src_width = new_width % 2 ^ 16; src_height = new_height % 2 ^ 16 })

  abbrev pub adapt : L.Frame → AgoraEncoder → AgoraEncoder
  adapt frame e =
      if L.width frame == e.src_width && L.height frame == e.src_height
      then e
      else on_resolution_change (L.width frame) (L.height frame) e

  abbrev pub scaled_or : Option L.Frame → Scaled
  scaled_or none = refused
  scaled_or (some out) = scaled out

  abbrev pub scaled_with : Option L.Scaler → L.Frame → ℕ → Scaled
  scaled_with none frame lines = null_context
  scaled_with (some scaler) frame lines = scaled_or (L.sws_scale scaler frame lines)

  -- `scaleFrame`; `has_memory` is that both allocations succeed
  unfoldable pub scale_frame : (has_memory : Bool) → L.Frame → AgoraEncoder → Scaled
  scale_frame has_memory frame e =
      if has_memory then scaled_with e.scale_context frame e.src_height else refused

  abbrev pub with_output : Option (Bytes × ℕ) → (Bytes → ℕ → Outcome) → Outcome
  with_output none rest = overrun
  with_output (some (out, size)) rest = rest out size

  -- the loop over delayed frames, for at most so many rounds
  unfoldable pub flush : ℕ → L.X264 → Bytes → ℕ → AgoraEncoder → Outcome
  flush zero x264 out size e =
      if L.delayed_frames x264 == 0
      then returned true out size (record e { codec = some x264 })
      else no_fuel
  flush (suc n) x264 out size e =
      let (next, failed, nals) = L.x264_encode x264 false none in
      let later =
        with_output (handle_post_encoding out nals size)
          (λ out' size'. flush n next out' size' e) in
      if L.delayed_frames x264 == 0
      then returned true out size (record e { codec = some x264 })
      else later

  -- behind the first call of x264: a negative result leaves `outSize` as it was
  abbrev pub encoded : L.X264 × Bool × List Bytes → Bytes → ℕ → AgoraEncoder → Outcome
  encoded (x264, failed, nals) out size e =
      if failed
      then flush (L.delayed_frames x264) x264 out size e
      else with_output (handle_post_encoding out nals 0)
          (λ out' size'. flush (L.delayed_frames x264) x264 out' size' e)

  abbrev pub encode_scaled :
      Scaled → L.X264 → Bytes → ℕ → (request_key_frame : Bool) → AgoraEncoder → Outcome
  encode_scaled refused x264 out size key e = returned false out size e
  encode_scaled null_context x264 out size key e = no_context
  encode_scaled (scaled frame) x264 out size key e =
      encoded (L.x264_encode x264 key (some frame)) out size e

  abbrev pub encode_with :
      Option L.X264 → (has_memory : Bool) → L.Frame → Bytes → ℕ → Bool → AgoraEncoder → Outcome
  encode_with none has_memory frame out size key e = returned false out size e
  encode_with (some x264) has_memory frame out size key e =
      encode_scaled (scale_frame has_memory frame (adapt frame e)) x264 out size key (adapt frame e)

  -- `AgoraEncoder::encode`
  unfoldable pub encode :
      (has_memory : Bool)
      → L.Frame
      → (out : Bytes) → (out_size : ℕ) → (request_key_frame : Bool) → AgoraEncoder
      → Outcome
  encode has_memory frame out out_size key e =
      encode_with e.codec has_memory frame out out_size key e
