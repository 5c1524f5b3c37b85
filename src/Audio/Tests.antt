-- ===== src/Audio/Tests.antt =====
-- The audio path with a decoder and an encoder that are easy to follow.
use server_side_custom_video.Prelude.{
  ℕ, ◌+◌, ◌*◌, ◌≤◌, ◌<◌, ◌≡◌, refl, true, false, [], ◌∷◌, ◌++◌, some, Bytes, arith, length, map,
}
use server_side_custom_video.Text.{ℤ, pos, negsuc}
use server_side_custom_video.Audio.Volume.{Among, calc_vol, get_max, none_above, volume-and-max}
use server_side_custom_video.Audio.Packet.Cut.{holding}
use server_side_custom_video.Audio.Stream.{pcm, decoded, run, Cuts, concat}
use server_side_custom_video.Audio.Stream.Whole.{run-Cuts}
use server_side_custom_video.Chain.{Chain, custom_copy, skip_drained}
use server_side_custom_video.Nginx.{Nginx, CodecCtx}
use server_side_custom_video.Audio.Memory.{◌>>=◌}
use server_side_custom_video.Audio.Adts.{AacConfig, audio_config, parse_aac_header, adts_header}
use server_side_custom_video.Audio.Adts.Laws.{adts_fields, adts_header-fields}
use server_side_custom_video.Audio.Send.{waiting, send_audio}
use server_side_custom_video.Audio.Send.Whole.{at_rest, decode_waiting, hand_back, send_audio_lem}
use server_side_custom_video.Audio.Sample.{
  repeated, length-repeated, counting, counting-Encodes, two_frames, two_frames-Decodes,
}

run-Cuts_example :
    Cuts counting
      (decoded counting 7 two_frames)
      0
      []
      (concat (map (pcm counting) (repeated 1024 7 ∷ repeated 1024 8 ∷ [])))
      (run counting
        (repeated 4096 0)
        (repeated 3840 0)
        (record { context = holding [] (repeated 4096 0); decoder = 7; opus = 0 })
        two_frames)
run-Cuts_example =
    run-Cuts counting (repeated 4096 0) (repeated 3840 0) (length-repeated 4096 0)
      (length-repeated 3840 0) counting-Encodes 7 0 two_frames
      (repeated 1024 7 ∷ repeated 1024 8 ∷ []) [] (repeated 4096 0) 0 two_frames-Decodes refl
      (omega arith) (length-repeated 4096 0)

-- AAC-LC, 44.1 kHz, stereo
abbrev stereo : AacConfig
stereo = record { objtype = 2; srindex = 4; chconf = 2 }

adts_header-fields_example :
    adts_fields (adts_header stereo 300)
    ≡ some (record {
      syncword = 0xfff;
      profile = 1;
      sampling_frequency_index = 4;
      channel_configuration = 2;
      frame_length = 300;
    })
unfolding audio_config
adts_header-fields_example = adts_header-fields 0x12 0x10 300 stereo refl (omega arith)

abbrev audio_nginx : Nginx
audio_nginx = record {
  rmemcpy = λ bs. bs;
  get_video_frame_type = λ c. 1;
  video_key_frame = 1;
  is_codec_header = λ c. false;
  video_h264 = 7;
  audio_aac = 10;
}

abbrev aac_codec : CodecCtx
aac_codec = record {
  avc_header = [];
  video_codec_id = 7;
  avc_nal_bytes = 4;
  aac_header = (0xaf ∷ 0 ∷ 0x12 ∷ 0x10 ∷ []) ∷ [];
  audio_codec_id = 10;
  sample_rate = 44100;
}

abbrev raw_frame : Chain
raw_frame = (0xaf ∷ 1 ∷ []) ∷ (0x21 ∷ 0x22 ∷ []) ∷ []

send_audio_lem_example :
    (memory' : Bytes) × (length memory' ≡ 2048)
    × (waiting (at_rest memory' 9) ≡ adts_header stereo 9 ++ 0x21 ∷ 0x22 ∷ [])
    × (send_audio counting 40
          (repeated 4096 0)
          (repeated 3840 0)
          audio_nginx
          true
          (some aac_codec)
          4
          raw_frame
          (repeated 2048 1)
          (some (at_rest (repeated 2048 0) 0))
          (record { context = holding [] (repeated 4096 0); decoder = 7; opus = 0 })
        ≡ (decode_waiting counting 40
              (repeated 4096 0)
              (repeated 3840 0)
              (at_rest (repeated 2048 0) 0)
              (record { context = holding [] (repeated 4096 0); decoder = 7; opus = 0 })
            >>= hand_back counting 40 (repeated 4096 0) (repeated 3840 0) (at_rest memory' 9)))
unfolding parse_aac_header audio_config custom_copy skip_drained
send_audio_lem_example =
    send_audio_lem counting 40 (repeated 4096 0) (repeated 3840 0) audio_nginx aac_codec stereo 4 0
      raw_frame (repeated 2048 1) (repeated 2048 0)
      (record { context = holding [] (repeated 4096 0); decoder = 7; opus = 0 }) refl refl refl refl
      (omega arith) (omega arith) (length-repeated 2048 0) (omega arith)

-- the samples 3, -5 and 4
volume-and-max_example :
    let xs = negsuc 4 ∷ pos 4 ∷ [] in
    ((v : ℕ) × (calc_vol (pos 3 ∷ xs) 3 ≡ some v) × (v * 3 ≤ 12) × (12 < (v + 1) * 3) × (v ≤ 32768))
    × ((m : ℤ) × (get_max (pos 3 ∷ xs) 3 ≡ some m)
        × (none_above m (pos 3 ∷ xs) ≡ true)
        × Among m (pos 3 ∷ xs))
volume-and-max_example = volume-and-max (pos 3) (negsuc 4 ∷ pos 4 ∷ []) (omega arith) refl
