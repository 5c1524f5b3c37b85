-- ===== src/Relay/Sound.antt =====
-- From `decode_acc_audio` of ngx_agora_helper.c to the audio thread of libagorac/agorac.cpp: the
-- calls of `agora_send_audio` among the other events.
pub mod Works
pub mod Packets
use server_side_custom_video.Prelude.{
  ℕ, ◌≡◌, refl, sym, ap, ◌∙◌, Bool, true, false, ◌&&◌, List, [], ◌∷◌, ◌++◌, Option, none, some,
  Bytes, map, arith, append-nil, append_assoc, if◌then◌else◌,
}
use server_side_custom_video.Text.{ℤ, pos}
use server_side_custom_video.Audio.Memory.{◌>>=◌}
use server_side_custom_video.Audio.Decode.{
  Encoded, encoded, failed, Codecs, AudioCall, AudioState, decode_acc_audio,
}
use server_side_custom_video.Audio.Stream
use server_side_custom_video.Queue.{get}
use server_side_custom_video.Context.{Work, new_work}
use server_side_custom_video.Sender.{
  Event, send_video, send_audio, disconnect, high_step, low_step, audio_step, spurious, System,
  connected, happen, run, add_video, add_audio, add_low, high_turn, low_turn, audio_turn,
}

-- What happens while a stream is connected: a frame for `decode_acc_audio`, or another event.
pub data Sound : Type 0 where
  frame : Bytes → (timestamp : ℕ) → Sound
  event : Event → Sound

-- A call of `agora_send_audio`. A negative number from `opus_encode` is passed on as a length, far
-- more than the array has, which is none.
abbrev pub call_event : AudioCall → Option Event
call_event c = elim c.out [
  | encoded bytes ↦ some (send_audio bytes (pos c.timestamp))
  | failed ↦ none
]

unfoldable pub call_events : List AudioCall → Option (List Event)
call_events [] = some []
call_events (c ∷ cs) = do e ← call_event c; es ← call_events cs; some (e ∷ es)

module _ (lib : Codecs) (buffer temp : Bytes) where
  -- the events, and the state of the audio behind them
  unfoldable pub relay_sound : AudioState lib → List Sound → Option (List Event × AudioState lib)
  relay_sound st [] = some ([], st)
  relay_sound st (frame bytes timestamp ∷ sounds) = do
    r ← decode_acc_audio lib st bytes timestamp buffer temp
    now ← call_events r.0
    later ← relay_sound r.1 sounds
    some (now ++ later.0, later.1)
  relay_sound st (event e ∷ sounds) = do later ← relay_sound st sounds; some (e ∷ later.0, later.1)

-- the frames among what happens
abbrev pub frames_of : List Sound → List (Bytes × ℕ)
frames_of [] = []
frames_of (frame bytes timestamp ∷ sounds) = (bytes, timestamp) ∷ frames_of sounds
frames_of (event e ∷ sounds) = frames_of sounds
