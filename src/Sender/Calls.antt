-- ===== src/Sender/Calls.antt =====
-- libagorac/agorac.cpp: `doSendHighVideo` and `doSendAudio`, the calls of the Agora SDK.
use server_side_custom_video.Prelude.{ℕ, Bool, true, false, Bytes}

pub data Stream : Type 0 where
  stream_high stream_low : Stream

pub data FrameType : Type 0 where
  key_frame delta_frame : FrameType

-- a call of `sendEncodedVideoImage`; the rotation is 0 and the codec H.264
pub record VideoImage : Type 0 where
  pub bytes : Bytes
  pub frames_per_second : ℕ
  pub frame_type : FrameType
  pub stream_type : Stream

-- a call of `sendEncodedAudioFrame`; the codec is Opus
pub record AudioFrame : Type 0 where
  pub bytes : Bytes
  pub number_of_channels : ℕ
  pub sample_rate_hz : ℕ

abbrev pub frame_type_of : Bool → FrameType
frame_type_of true = key_frame
frame_type_of false = delta_frame

abbrev pub do_send_high_video : Bytes → (is_key_frame : Bool) → VideoImage
do_send_high_video buffer is_key_frame = record {
  bytes = buffer;
  frames_per_second = 30;
  frame_type = frame_type_of is_key_frame;
  stream_type = stream_high;
}

abbrev pub do_send_audio : Bytes → AudioFrame
do_send_audio buffer = record { bytes = buffer; number_of_channels = 1; sample_rate_hz = 48000 }
