-- ===== src/Relay/Tests.antt =====
-- Two key frames, and two frames of audio, while the threads run.
use server_side_custom_video.Audio.Packet.Cut.{holding}
use server_side_custom_video.Audio.Stream.{concat, pcm}
use server_side_custom_video.Audio.Sample.{
  repeated, length-repeated, counting, counting-Encodes, two_frames-Decodes,
}
use server_side_custom_video.Relay.Sound.{Sound, frame, event}
use server_side_custom_video.Relay.Sound.Packets.{Sends, relay-packets}
use server_side_custom_video.Prelude.{ℕ, ◌≡◌, refl, true, false, List, [], ◌∷◌, ◌++◌, map, arith}
use server_side_custom_video.Text.{pos}
use server_side_custom_video.Words.{big_endian, little_endian}
use server_side_custom_video.Context.{finish_work}
use server_side_custom_video.Video.AnnexB.{pieces}
use server_side_custom_video.Video.Sample.{
  nginx, nginx-Reverses, sps_set, pps_set, h264_codec, units, keyframe_chain, h264_codec-IsH264,
}
use server_side_custom_video.Sender.{Event, started, run}
use server_side_custom_video.Sender.Serves.{held}
use server_side_custom_video.Relay.{
  Message, Happening, video, audio, high_step, low_step, audio_step, spurious, relay,
}
use server_side_custom_video.Relay.Frames.{Codes, AllCode, all_described, relay-frames}

abbrev key_message : ℕ → Message
key_message timestamp = record {
  codec = h264_codec;
  mlen = 28;
  timestamp = timestamp;
  chain = keyframe_chain;
}

key_message-Codes : (timestamp : ℕ) → Codes nginx (key_message timestamp)
unfolding big_endian little_endian pieces
key_message-Codes timestamp = record {
  sps = sps_set ∷ [];
  pps = pps_set ∷ [];
  items = units;
  fmt = 0x17;
  delay = 0 ∷ 0 ∷ 0 ∷ [];
  h264 = h264_codec-IsH264;
  some_length = omega arith;
  coded = omega arith;
  three = refl;
  bytes = refl;
  fits = omega arith;
}

abbrev stream : List Happening
stream =
    high_step false false
    ∷ video (key_message 0)
    ∷ high_step false false
    ∷ high_step false false
    ∷ audio (1 ∷ []) (pos 20)
    ∷ high_step false false
    ∷ video (key_message 40)
    ∷ high_step false false
    ∷ low_step
    ∷ audio_step
    ∷ spurious
    ∷ []

stream-AllCode : AllCode nginx stream
stream-AllCode = (key_message-Codes 0, (key_message-Codes 40, tt))

relay-frames_example :
    let s = run true (finish_work false (pos 0)) (relay nginx stream) started in
    s.high_sent ++ held s.high ++ s.video_jb ≡ all_described nginx stream stream-AllCode
relay-frames_example =
    relay-frames nginx true (finish_work false (pos 0)) stream stream-AllCode nginx-Reverses

-- two frames of audio, with a frame of video and steps of the threads between them
abbrev sounds : List Sound
sounds =
    frame (0xde ∷ []) 0
    ∷ event (Event.send_video (b'v' ∷ []) true (pos 3))
    ∷ event Event.audio_step
    ∷ event Event.audio_step
    ∷ event Event.audio_step
    ∷ frame (0xad ∷ []) 21
    ∷ event Event.audio_step
    ∷ event Event.audio_step
    ∷ []

relay-packets_example :
    Sends counting
      (repeated 4096 0)
      (repeated 3840 0)
      (record { context = holding [] (repeated 4096 0); decoder = 7; opus = 0 })
      true
      (finish_work false (pos 0))
      sounds
      (concat (map (pcm counting) (repeated 1024 7 ∷ repeated 1024 8 ∷ [])))
relay-packets_example =
    relay-packets counting (repeated 4096 0) (repeated 3840 0) true (finish_work false (pos 0)) 7 0
      (repeated 4096 0) sounds (repeated 1024 7 ∷ repeated 1024 8 ∷ []) (length-repeated 4096 0)
      (length-repeated 3840 0) (length-repeated 4096 0) counting-Encodes two_frames-Decodes refl
