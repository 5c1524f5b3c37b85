-- ===== src/Config/Load.antt =====
-- libagorac/helpers/localconfig.cpp: `loadConfig`, `print` and `getStringfromBool`. `to_string` is
-- that of the standard library.
use server_side_custom_video.Prelude.{
  ℕ, Bool, false, List, [], ◌∷◌, ◌++◌, Option, none, some, Bytes, if◌then◌else◌,
}
use server_side_custom_video.Config.{LocalConfig, read_config, text_yes}

-- `loadConfig`, for the lines of the file, or none if it cannot be opened
unfoldable pub load_config : Option (List Bytes) → LocalConfig → Option (Bool × LocalConfig)
load_config none cfg = some (false, cfg)
load_config (some lines) cfg = read_config lines cfg

abbrev pub get_string_from_bool : Bool → Bytes
get_string_from_bool flag = if flag then text_yes else b'n' ∷ b'o' ∷ []

abbrev intro : Bytes
intro =
    b'W' ∷ b'i' ∷ b'l' ∷ b'l' ∷ b' ' ∷ b'u' ∷ b's' ∷ b'e' ∷ b' ' ∷ b't' ∷ b'h' ∷ b'e' ∷ b' ' ∷ b'f'
    ∷ b'o' ∷ b'l' ∷ b'l' ∷ b'o' ∷ b'w' ∷ b'i' ∷ b'n' ∷ b'g' ∷ b' ' ∷ b'c' ∷ b'o' ∷ b'n' ∷ b'f'
    ∷ b'i' ∷ b'g' ∷ b' ' ∷ b'f' ∷ b'o' ∷ b'r' ∷ b' ' ∷ b't' ∷ b'h' ∷ b'i' ∷ b's' ∷ b' ' ∷ b'c'
    ∷ b'a' ∷ b'l' ∷ b'l' ∷ b':' ∷ b' ' ∷ []

abbrev video_label : Bytes
video_label =
    b'D' ∷ b'e' ∷ b't' ∷ b'a' ∷ b'i' ∷ b'l' ∷ b'e' ∷ b'd' ∷ b' ' ∷ b'v' ∷ b'i' ∷ b'd' ∷ b'e' ∷ b'o'
    ∷ b' ' ∷ b'l' ∷ b'o' ∷ b'g' ∷ b':' ∷ b' ' ∷ []

abbrev audio_label : Bytes
audio_label =
    b'D' ∷ b'e' ∷ b't' ∷ b'a' ∷ b'i' ∷ b'l' ∷ b'e' ∷ b'd' ∷ b' ' ∷ b'a' ∷ b'u' ∷ b'd' ∷ b'i' ∷ b'o'
    ∷ b' ' ∷ b'l' ∷ b'o' ∷ b'g' ∷ b':' ∷ b' ' ∷ []

abbrev fps_label : Bytes
fps_label = b'F' ∷ b'P' ∷ b'S' ∷ b' ' ∷ b'l' ∷ b'o' ∷ b'g' ∷ b':' ∷ b' ' ∷ []

abbrev initial_label : Bytes
initial_label =
    b'j' ∷ b'b' ∷ b'-' ∷ b'i' ∷ b'n' ∷ b'i' ∷ b't' ∷ b'i' ∷ b'a' ∷ b'l' ∷ b'-' ∷ b's' ∷ b'i' ∷ b'z'
    ∷ b'e' ∷ b'-' ∷ b'm' ∷ b's' ∷ b':' ∷ b' ' ∷ []

abbrev max_label : Bytes
max_label =
    b'j' ∷ b'b' ∷ b'-' ∷ b'm' ∷ b'a' ∷ b'x' ∷ b'-' ∷ b's' ∷ b'i' ∷ b'z' ∷ b'e' ∷ b'-' ∷ b'm' ∷ b's'
    ∷ b':' ∷ b' ' ∷ []

abbrev doubling_label : Bytes
doubling_label =
    b'J' ∷ b'b' ∷ b'-' ∷ b'm' ∷ b'a' ∷ b'x' ∷ b'-' ∷ b'd' ∷ b'o' ∷ b'u' ∷ b'b' ∷ b'l' ∷ b'e' ∷ b's'
    ∷ b'-' ∷ b'i' ∷ b'f' ∷ b'-' ∷ b'e' ∷ b'm' ∷ b'p' ∷ b't' ∷ b'i' ∷ b'e' ∷ b'd' ∷ b'-' ∷ b'w'
    ∷ b'i' ∷ b't' ∷ b'h' ∷ b'i' ∷ b'n' ∷ b'-' ∷ b's' ∷ b'e' ∷ b'c' ∷ b'o' ∷ b'n' ∷ b'd' ∷ b's'
    ∷ b':' ∷ b' ' ∷ []

-- the messages that `print` logs
unfoldable pub print : (to_string : ℕ → Bytes) → LocalConfig → List Bytes
print to_string cfg =
    intro
    ∷ (video_label ++ get_string_from_bool cfg.use_detailed_video_log)
    ∷ (audio_label ++ get_string_from_bool cfg.use_detailed_audio_log)
    ∷ (fps_label ++ get_string_from_bool cfg.use_fps_log)
    ∷ (initial_label ++ to_string cfg.initial_jb_size)
    ∷ (max_label ++ to_string cfg.max_jb_size)
    ∷ (doubling_label ++ to_string cfg.time_to_increase_jb_size)
    ∷ []
