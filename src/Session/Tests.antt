-- ===== src/Session/Tests.antt =====
-- A session on concrete argument strings.
use server_side_custom_video.Prelude.{
  ◌≡◌, ◌⊎◌, ◌↔◌, refl, Bool, true, false, List, [], ◌∷◌, ◌++◌, none, some, Bytes, arith,
}
use server_side_custom_video.Text.{pos, strstr, starts_with, upto, atoi, signed, digits_from}
use server_side_custom_video.Args.{
  missing, found, get_arg_value, until_arg_end, copy_value, value_at, replace_forward_slash,
}
use server_side_custom_video.Session.Settings.{
  Settings, accepted, refused, faulted, parse_settings, parse_options, key_appid, key_channel,
  key_enc, param_max_len, agora_args,
}
use server_side_custom_video.Session.Settings.Laws.{parse_settings-refused, parse_settings-enc}
use server_side_custom_video.Session.Settings.Read.{Describes, parse_settings-accepted}
use server_side_custom_video.Args.Values.{at_end}
use server_side_custom_video.Text.Search.{strstr-Occurs}
use server_side_custom_video.Context.{Work, finish_work}
use server_side_custom_video.Config.{default_config}
use server_side_custom_video.Jitter.Fixed.{fixed}
use server_side_custom_video.Sender.{Event, disconnect, high_step, audio_step}
use server_side_custom_video.Agora.{
  Context, video_high, audio, agora_init, open_session, create_tracks, start_threads,
}
use server_side_custom_video.Session.Init
use server_side_custom_video.Session.Init.{
  Env, Held, aac_context, audio_memory, opus_encoder, init_audio, start,
}

abbrev app : Bytes
app = key_appid ++ b'=' ∷ b'a' ∷ b'%' ∷ b'2' ∷ b'F' ∷ []

-- `appid=a%2F&channel=c&jb=12`
abbrev plain_args : Bytes
plain_args = app ++ b'&' ∷ key_channel ++ b'=' ∷ b'c' ∷ b'&' ∷ b'j' ∷ b'b' ∷ b'=' ∷ b'1' ∷ b'2' ∷ []

-- `appid=a%2F&channel=french`
abbrev french_args : Bytes
french_args =
    app ++ b'&' ∷ key_channel ++ b'=' ∷ b'f' ∷ b'r' ∷ b'e' ∷ b'n' ∷ b'c' ∷ b'h' ∷ b'x' ∷ b'y' ∷ []

abbrev plain_settings : Settings
plain_settings = record {
  appid = b'a' ∷ b'/' ∷ [];
  channel = b'c' ∷ [];
  user_id = [];
  audio_bitrate = pos 50000;
  enable_enc = pos 0;
  dual_video_bitrate = pos 80000;
  dual_video_width = pos 360;
  dual_video_height = pos 180;
  dual_fps = pos 15;
  enable_dual = false;
  video_jb = pos 12;
}

plain_parse : parse_settings plain_args ≡ accepted plain_settings
unfolding parse_settings parse_options get_arg_value value_at strstr starts_with until_arg_end
    copy_value upto replace_forward_slash atoi signed digits_from
plain_parse = refl

parse_settings-refused_example : (parse_settings app ≡ refused) ↔ (
    (get_arg_value app key_appid param_max_len ≡ missing)
    ⊎ ((escaped : Bytes) × (get_arg_value app key_appid param_max_len ≡ found escaped)
        × (get_arg_value app key_channel param_max_len ≡ missing)))
parse_settings-refused_example = parse_settings-refused app

-- the channel's name holds the key
parse_settings-enc_example : parse_settings french_args ≡ faulted
unfolding get_arg_value value_at strstr starts_with until_arg_end copy_value upto
parse_settings-enc_example =
    parse_settings-enc (app ++ b'&' ∷ key_channel ++ b'=' ∷ b'f' ∷ b'r' ∷ []) (b'x' ∷ b'y' ∷ []) []
      b'h' (b'a' ∷ b'%' ∷ b'2' ∷ b'F' ∷ [])
      (b'f' ∷ b'r' ∷ b'e' ∷ b'n' ∷ b'c' ∷ b'h' ∷ b'x' ∷ b'y' ∷ [])
      (strstr-Occurs french_args key_enc (app ++ b'&' ∷ key_channel ++ b'=' ∷ b'f' ∷ b'r' ∷ [])
        (b'e' ∷ b'n' ∷ b'c' ∷ b'h' ∷ b'x' ∷ b'y' ∷ []) refl).first
      (omega arith) at_end (omega arith) refl refl

parse_settings-accepted_example : Describes plain_args plain_settings
parse_settings-accepted_example = parse_settings-accepted plain_args plain_settings plain_parse

-- a run in which every call succeeds, but perhaps that which sets the encoder's bit rate
abbrev env : Bool → Env
env bitrate = record {
  memory = true;
  key_file = record { app_id = []; key = [] };
  config = default_config;
  calls = record {
    initialize = λ s. true;
    create_rtc_connection = true;
    enable_encryption = λ k. true;
    connect = λ a c u. true;
    create_media_node_factory = true;
    create_audio_sender = true;
    create_audio_track = true;
    create_video_sender = true;
    create_video_track = true;
    decoder_init = true;
    encoder_init = λ w h v f. true;
  };
  now = 7;
  find_decoder = true;
  alloc_context = true;
  open_codec = true;
  opus_create = true;
  opus_bitrate = λ b. bitrate;
}

-- nginx disconnects at once, and the threads have their turns
abbrev leaving : List Event
leaving = disconnect ∷ disconnect ∷ disconnect ∷ disconnect ∷ []

abbrev turn : List Event → List Event
turn es = high_step false false ∷ audio_step ∷ es

abbrev turns : List Event
turns = turn (turn (turn (turn (turn (turn [])))))

abbrev finish : Work
finish = finish_work false (pos 0)

abbrev leak : Held
leak = record {
  helper = opus_encoder ∷ audio_memory ∷ aac_context ∷ [];
  agora = record {
    service = true;
    context = true;
    is_connected = true;
    threads = video_high ∷ audio ∷ [];
  };
}

no_bitrate_leak : start fixed (env false) plain_settings ≡ some (none, leak)
unfolding start init_audio agora_args agora_init open_session create_tracks start_threads
no_bitrate_leak = refl
