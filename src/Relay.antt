-- ===== src/Relay.antt =====
-- From ngx_agora_helper.c to the Agora SDK: the calls of `agora_send_video` that
-- `ngx_agora_send_video` makes are events of the sending threads (libagorac/agorac.cpp).
pub mod Frames
pub mod Sound
mod Tests
use server_side_custom_video.Prelude.{
  ℕ, Bool, true, false, List, [], ◌∷◌, ◌++◌, Option, none, some, Bytes, take,
}
use server_side_custom_video.Text.{ℤ, pos}
use server_side_custom_video.Chain.{Chain}
use server_side_custom_video.Nginx.{Nginx, CodecCtx}
use server_side_custom_video.Video.Send.{VideoCall, send_video}
use server_side_custom_video.Sender
use server_side_custom_video.Sender.{Event}

-- a call of `ngx_agora_send_video`
pub record Message : Type 0 where
  pub codec : CodecCtx
  pub mlen : ℕ
  pub timestamp : ℕ
  pub chain : Chain

-- What happens while a stream is connected: a video message, a packet of audio, a step of a thread.
pub data Happening : Type 0 where
  video : Message → Happening
  audio : Bytes → ℤ → Happening
  high_step : (late short : Bool) → Happening
  low_step : Happening
  audio_step : Happening
  spurious : Happening

-- `agora_send_video` copies `len` bytes of the buffer
abbrev pub called : Option (Option VideoCall × ℕ) → List Event
called none = []
called (some (none, n)) = []
called (some (some call, n)) =
    Event.send_video (take call.len call.buffer) call.is_key_frame (pos call.timestamp) ∷ []

unfoldable pub events_of : Nginx → Happening → List Event
events_of ngx (video m) = called (send_video ngx true (some m.codec) m.mlen m.timestamp m.chain)
events_of ngx (audio bytes timestamp) = Event.send_audio bytes timestamp ∷ []
events_of ngx (high_step late short) = Event.high_step late short ∷ []
events_of ngx low_step = Event.low_step ∷ []
events_of ngx audio_step = Event.audio_step ∷ []
events_of ngx spurious = Event.spurious ∷ []

unfoldable pub relay : Nginx → List Happening → List Event
relay ngx [] = []
relay ngx (h ∷ hs) = events_of ngx h ++ relay ngx hs
