-- ===== src/Agora/Tests.antt =====
-- A dual session, and one whose encoder cannot be opened.
use server_side_custom_video.Prelude.{
  ℕ, ◌*◌, ◌≤◌, ◌<◌, ◌^◌, ◌≡◌, ◌⊎◌, refl, Bool, true, false, List, [], ◌∷◌, ◌++◌, some, none, Bytes,
  arith,
}
use server_side_custom_video.Text.{pos, starts_with, strstr, atoi, signed, digits_from, to_unsigned}
use server_side_custom_video.Session.Settings.{AgoraArgs}
use server_side_custom_video.Config.{
  LocalConfig, default_config, read_config, key_max_jb, remove_spaces, prepare_line, get_key_value,
  equals,
}
use server_side_custom_video.Config.Laws.{Parses, no_lines, setting_line}
use server_side_custom_video.Jitter.{refill}
use server_side_custom_video.Jitter.Fixed.{fixed}
use server_side_custom_video.Agora.{
  KeyFile, Calls, video_high, audio, null, new_context, agora_init, service_config, is_number,
}
use server_side_custom_video.Queue.{add, get, clear}
use server_side_custom_video.Context.{Work, finish_work}
use server_side_custom_video.Sender.{
  Event, disconnect, high_step, low_step, audio_step, started, run, happen, high_turn, low_turn,
  audio_turn, disconnect_turn, add_video, add_audio, add_low,
}
use server_side_custom_video.Audio.Memory.{read_at}
use server_side_custom_video.Agora.Debug.{log_function_set, agora_log, agora_dump_audio_to_file}
use server_side_custom_video.Agora.Close.{returned, close, opened, running}
use server_side_custom_video.Agora.Close.Safe.{close-releases}
use server_side_custom_video.Agora.Outcome.{agora_init-outcome, agora_init-jb_size}

abbrev args : AgoraArgs
args = record {
  in_app_id = b'a' ∷ [];
  in_ch_id = b'c' ∷ [];
  in_user_id = b'4' ∷ b'2' ∷ [];
  enable_enc = true;
  enable_dual = true;
  dual_vbr = 300000;
  dual_width = 320;
  dual_height = 180;
  min_video_jb = 0;
  dfps = 15;
}

abbrev file : KeyFile
file = record { app_id = b'p' ∷ []; key = b'k' ∷ b'e' ∷ b'y' ∷ [] }

abbrev calls : Bool → Calls
calls encoder = record {
  initialize = λ s. true;
  create_rtc_connection = true;
  enable_encryption = λ k. true;
  connect = λ a c u. true;
  create_media_node_factory = true;
  create_audio_sender = true;
  create_audio_track = true;
  create_video_sender = true;
  create_video_track = true;
  decoder_init = true;
  encoder_init = λ w h v f. encoder;
}

agora_init-outcome_example :
    agora_init fixed args file default_config (calls false) 7
    ≡ null (record {
      service = true;
      context = true;
      is_connected = true;
      threads = video_high ∷ audio ∷ [];
    })
agora_init-outcome_example =
    agora_init-outcome fixed args file default_config (calls false) 7 (λ e. omega arith)

numeric :
    service_config (b'4' ∷ b'2' ∷ []) [] false ≡ record { use_string_uid = false; app_id = none }
unfolding service_config is_number
numeric = refl

named : service_config (b'4' ∷ b'x' ∷ []) [] false ≡ record { use_string_uid = true; app_id = none }
unfolding service_config is_number
named = refl

-- `jb-max-size-ms=900`
abbrev max_line : Bytes
max_line = key_max_jb ++ b'=' ∷ b'9' ∷ b'0' ∷ b'0' ∷ []

abbrev settings : List (Bytes × Bytes)
settings = (key_max_jb, b'9' ∷ b'0' ∷ b'0' ∷ []) ∷ []

max_line-Parses : Parses (max_line ∷ []) settings
unfolding remove_spaces prepare_line strstr starts_with get_key_value
max_line-Parses =
    setting_line max_line [] key_max_jb (b'9' ∷ b'0' ∷ b'0' ∷ []) [] (omega arith) refl refl
      no_lines

abbrev clock : List (ℕ × ℕ)
clock = (3000000000, 3000000000) ∷ (5000000000, 5000000000) ∷ []

agora_init-jb_size_example :
    (config : LocalConfig) × (read_config (max_line ∷ []) default_config ≡ some (true, config))
    × (let start = (new_context fixed args config 7).buffering in
        let size =
          (refill config.max_jb_size config.time_to_increase_jb_size clock start).jb_size in
        ((size ≤ 8000) ⊎ (size < 2 * config.max_jb_size)) × (size < 2 ^ 16))
unfolding equals atoi signed digits_from to_unsigned
agora_init-jb_size_example =
    agora_init-jb_size fixed args (max_line ∷ []) settings default_config 7 clock max_line-Parses
      (omega arith)

-- nginx disconnects at once, and the threads have their turns
abbrev leaving : List Event
leaving = disconnect ∷ disconnect ∷ disconnect ∷ disconnect ∷ disconnect ∷ []

abbrev turn : List Event → List Event
turn es = high_step false false ∷ low_step ∷ audio_step ∷ es

abbrev turns : List Event
turns = turn (turn (turn (turn (turn (turn [])))))

abbrev finish : Work
finish = finish_work false (pos 0)

close-releases_example :
    let s = run true finish turns (run true finish leaving started) in
    (running s (opened true s).joinable ≡ [])
    × (close true false (opened true s)
        ≡ returned (record {
          system = s;
          members = [];
          joinable = [];
          publishes_audio = false;
          publishes_video = false;
          is_connected = false;
          has_service = false;
          has_context = false;
        }))
    × (close true true (opened true s)
        ≡ returned (record (opened true s) { publishes_audio = false; publishes_video = false }))
unfolding run happen high_turn low_turn audio_turn disconnect_turn add_video add_audio add_low add
    get clear
close-releases_example =
    close-releases true finish leaving turns refl (omega arith) (λ e. omega arith) (omega arith)

-- what `ngx_agora_init` sets as the function is none
not_a_function : agora_log log_function_set (b'x' ∷ []) ≡ none
not_a_function = refl

dumped :
    agora_dump_audio_to_file
      (record default_config { dump_audio_to_file = true })
      (9 ∷ [])
      (1 ∷ 2 ∷ 3 ∷ 4 ∷ 5 ∷ [])
      1
    ≡ some (9 ∷ 1 ∷ 2 ∷ 3 ∷ 4 ∷ [])
unfolding agora_dump_audio_to_file read_at
dumped = refl
