-- ===== src/Config/Tests.antt =====
-- A configuration file.
use server_side_custom_video.Prelude.{
  ℕ, zero, suc, ◌≡◌, refl, true, false, List, [], ◌∷◌, ◌++◌, some, none, Bytes, arith,
}
use server_side_custom_video.Text.{pos, atoi, signed, digits_from, strstr, starts_with, to_unsigned}
use server_side_custom_video.Config.{
  LocalConfig, default_config, get_key_value, prepare_line, remove_spaces, read_config, equals,
  set_value, key_initial_jb, key_max_jb, key_qmin, key_qmax,
}
use server_side_custom_video.Config.Fields.{last_value}
use server_side_custom_video.Config.Laws.{
  Parses, no_lines, blank_line, setting_line, Configured, read_config-Parses,
}

-- ` // jb`
abbrev comment : Bytes
comment = b' ' ∷ b'/' ∷ b'/' ∷ b'j' ∷ b'b' ∷ []

-- `jb-initial-size-ms = 9000`
abbrev too_large : Bytes
too_large = key_initial_jb ++ b' ' ∷ b'=' ∷ b' ' ∷ b'9' ∷ b'0' ∷ b'0' ∷ b'0' ∷ []

abbrev settings : List (Bytes × Bytes)
settings = (key_initial_jb, b'9' ∷ b'0' ∷ b'0' ∷ b'0' ∷ []) ∷ []

file-Parses : Parses (comment ∷ too_large ∷ []) settings
unfolding remove_spaces prepare_line strstr starts_with get_key_value
file-Parses = blank_line comment (too_large ∷ []) settings (omega arith) refl (
    setting_line too_large [] key_initial_jb (b'9' ∷ b'0' ∷ b'0' ∷ b'0' ∷ []) [] (omega arith) refl
      refl no_lines)

-- A line with no `=` ends the reading before the validation.
not_validated :
    read_config (too_large ∷ key_max_jb ∷ []) default_config
    ≡ some (false, record default_config { initial_jb_size = 9000 })
unfolding read_config remove_spaces prepare_line strstr starts_with get_key_value set_value equals
    atoi to_unsigned signed digits_from
not_validated = refl

-- of a long line the part in the buffer is looked at
abbrev repeat : ℕ → Bytes
repeat zero = []
repeat (suc n) = b'x' ∷ repeat n

abbrev long_line : Bytes
long_line = repeat 1023

too_long_no_setting :
    read_config ((long_line ++ b'=' ∷ []) ∷ []) default_config ≡ some (false, default_config)
unfolding read_config remove_spaces prepare_line strstr starts_with get_key_value
too_long_no_setting = refl

too_long_setting : read_config ((b'k' ∷ b'=' ∷ long_line) ∷ []) default_config ≡ none
unfolding read_config remove_spaces prepare_line strstr starts_with get_key_value
too_long_setting = refl

read_config-Parses_example :
    (result : LocalConfig) × (read_config (comment ∷ too_large ∷ []) default_config
      ≡ some (true, result))
    × Configured default_config result settings
read_config-Parses_example =
    read_config-Parses (comment ∷ too_large ∷ []) settings default_config file-Parses

-- the last of two settings counts
abbrev file_of_two : List (Bytes × Bytes)
file_of_two = (key_qmin, b'2' ∷ []) ∷ (key_qmax, b'9' ∷ []) ∷ (key_qmin, b'4' ∷ []) ∷ []

last_counts : last_value atoi key_qmin (pos 0) file_of_two ≡ pos 4
unfolding equals atoi signed digits_from
last_counts = refl
