-- ===== src/Config.antt =====
-- libagorac/helpers/localconfig.cpp: `LocalConfig::readConfig` and what it calls.
pub mod Fields
pub mod Laws
pub mod Load
mod Tests
use server_side_custom_video.Prelude.{
  ℕ, suc, Bool, true, false, not, ◌&&◌, ◌||◌, List, [], ◌∷◌, Option, none, some, Bytes, ltb, leb,
  ◌==◌, if◌then◌else◌, length, drop, take,
}
use server_side_custom_video.Text.{ℤ, pos, atoi, to_unsigned, strstr, is_space}

-- The fields of `LocalConfig`.
pub record LocalConfig : Type 0 where
  pub use_detailed_video_log : Bool
  pub use_detailed_audio_log : Bool
  pub use_speedup_log : Bool
  pub use_fps_log : Bool
  pub initial_jb_size : ℕ
  pub max_jb_size : ℕ
  pub time_to_increase_jb_size : ℕ
  pub dump_audio_to_file : Bool
  pub q_min : ℤ
  pub q_max : ℤ

-- the constructor
abbrev pub default_config : LocalConfig
default_config = record {
  use_detailed_video_log = false;
  use_detailed_audio_log = false;
  use_speedup_log = false;
  use_fps_log = false;
  initial_jb_size = 120;
  max_jb_size = 8000;
  time_to_increase_jb_size = 15;
  dump_audio_to_file = false;
  q_min = pos 0;
  q_max = pos 0;
}

-- `==` of strings
unfoldable pub equals : Bytes → Bytes → Bool
equals [] [] = true
equals [] (y ∷ ys) = false
equals (x ∷ xs) [] = false
equals (x ∷ xs) (y ∷ ys) = x == y && equals xs ys

-- `line.erase(remove_if(line.begin(), line.end(), isspace), line.end())`
unfoldable pub remove_spaces : Bytes → Bytes
remove_spaces [] = []
remove_spaces (c ∷ s) = let rest = remove_spaces s in if is_space c then rest else c ∷ rest

-- `prepareLine`: comments are cut off
unfoldable pub prepare_line : Bytes → Bytes
prepare_line s = elim (strstr s (b'/' ∷ b'/' ∷ [])) [ none ↦ s | some (before, _) ↦ before ]

-- `getKeyValue`: split at the first `=`
unfoldable pub get_key_value : Bytes → Option (Bytes × Bytes)
get_key_value line = elim (strstr line (b'=' ∷ [])) [
  | none ↦ none
  | some (key, at) ↦ some (key, drop 1 at)
]

abbrev pub key_video_log : Bytes
key_video_log =
    b'd' ∷ b'e' ∷ b't' ∷ b'a' ∷ b'i' ∷ b'l' ∷ b'e' ∷ b'd' ∷ b'-' ∷ b'v' ∷ b'i' ∷ b'd' ∷ b'e' ∷ b'o'
    ∷ b'-' ∷ b'l' ∷ b'o' ∷ b'g' ∷ []

abbrev pub key_audio_log : Bytes
key_audio_log =
    b'd' ∷ b'e' ∷ b't' ∷ b'a' ∷ b'i' ∷ b'l' ∷ b'e' ∷ b'd' ∷ b'-' ∷ b'a' ∷ b'u' ∷ b'd' ∷ b'i' ∷ b'o'
    ∷ b'-' ∷ b'l' ∷ b'o' ∷ b'g' ∷ []

abbrev pub key_fps_log : Bytes
key_fps_log = b'f' ∷ b'p' ∷ b's' ∷ b'-' ∷ b'l' ∷ b'o' ∷ b'g' ∷ []

abbrev pub key_speedup_log : Bytes
key_speedup_log = b's' ∷ b'p' ∷ b'e' ∷ b'e' ∷ b'd' ∷ b'u' ∷ b'p' ∷ b'-' ∷ b'l' ∷ b'o' ∷ b'g' ∷ []

abbrev pub key_initial_jb : Bytes
key_initial_jb =
    b'j' ∷ b'b' ∷ b'-' ∷ b'i' ∷ b'n' ∷ b'i' ∷ b't' ∷ b'i' ∷ b'a' ∷ b'l' ∷ b'-' ∷ b's' ∷ b'i' ∷ b'z'
    ∷ b'e' ∷ b'-' ∷ b'm' ∷ b's' ∷ []

abbrev pub key_max_jb : Bytes
key_max_jb =
    b'j' ∷ b'b' ∷ b'-' ∷ b'm' ∷ b'a' ∷ b'x' ∷ b'-' ∷ b's' ∷ b'i' ∷ b'z' ∷ b'e' ∷ b'-' ∷ b'm' ∷ b's'
    ∷ []

abbrev pub key_doubling : Bytes
key_doubling =
    b'J' ∷ b'b' ∷ b'-' ∷ b'm' ∷ b'a' ∷ b'x' ∷ b'-' ∷ b'd' ∷ b'o' ∷ b'u' ∷ b'b' ∷ b'l' ∷ b'e' ∷ b's'
    ∷ b'-' ∷ b'i' ∷ b'f' ∷ b'-' ∷ b'e' ∷ b'm' ∷ b'p' ∷ b't' ∷ b'i' ∷ b'e' ∷ b'd' ∷ b'-' ∷ b'w'
    ∷ b'i' ∷ b't' ∷ b'h' ∷ b'i' ∷ b'n' ∷ b'-' ∷ b's' ∷ b'e' ∷ b'c' ∷ b'o' ∷ b'n' ∷ b'd' ∷ b's' ∷ []

abbrev pub key_dump : Bytes
key_dump =
    b'd' ∷ b'u' ∷ b'm' ∷ b'p' ∷ b'-' ∷ b'r' ∷ b'a' ∷ b'w' ∷ b'-' ∷ b'a' ∷ b'u' ∷ b'd' ∷ b'i' ∷ b'o'
    ∷ b'-' ∷ b't' ∷ b'o' ∷ b'-' ∷ b'f' ∷ b'i' ∷ b'l' ∷ b'e' ∷ []

abbrev pub key_qmin : Bytes
key_qmin = b'q' ∷ b'm' ∷ b'i' ∷ b'n' ∷ []

abbrev pub key_qmax : Bytes
key_qmax = b'q' ∷ b'm' ∷ b'a' ∷ b'x' ∷ []

abbrev pub text_yes : Bytes
text_yes = b'y' ∷ b'e' ∷ b's' ∷ []

-- the chain of `else if`
unfoldable pub set_value : Bytes → Bytes → LocalConfig → LocalConfig
set_value key value cfg =
    if equals key key_video_log && equals value text_yes
    then record cfg { use_detailed_video_log = true }
    else if equals key key_audio_log && equals value text_yes
    then record cfg { use_detailed_audio_log = true }
    else if equals key key_fps_log && equals value text_yes
    then record cfg { use_fps_log = true }
    else if equals key key_speedup_log && equals value text_yes
    then record cfg { use_speedup_log = true }
    else if equals key key_initial_jb
    then record cfg { initial_jb_size = to_unsigned 16 (atoi value) }
    else if equals key key_max_jb
    then record cfg { max_jb_size = to_unsigned 16 (atoi value) }
    else if equals key key_doubling
    then record cfg { time_to_increase_jb_size = to_unsigned 16 (atoi value) }
    else if equals key key_dump && equals value text_yes
    then record cfg { dump_audio_to_file = true }
    else if equals key key_qmin
    then record cfg { q_min = atoi value }
    else if equals key key_qmax
    then record cfg { q_max = atoi value }
    else cfg

-- `_initialJbSize<0 || _initialJbSize>8000`, on a `uint16_t`: the first test is never true.
abbrev pub is_out_of_range : ℕ → Bool
is_out_of_range n = ltb 8000 n

-- behind the loop
unfoldable pub validate : LocalConfig → LocalConfig
validate cfg =
    if is_out_of_range cfg.initial_jb_size then record cfg { initial_jb_size = 120 } else cfg

-- a line without its spaces and its comment
abbrev pub prepared : Bytes → Bytes
prepared l = prepare_line (remove_spaces l)

abbrev pub is_empty : Bytes → Bool
is_empty [] = true
is_empty (_ ∷ _) = false

-- what a call of `getline` leaves in the 1024 bytes of `buffer`
abbrev pub buffered : Bytes → Bytes
buffered l = take 1023 l

-- A line that `getline` has no room for sets failbit: every later call leaves the buffer empty, the
-- end of the file is never reached, and the loop goes on for ever, which is none.
abbrev pub unless_long : Bytes → Option (Bool × LocalConfig) → Option (Bool × LocalConfig)
unless_long l next = elim (ltb 1023 (length l)) [ true ↦ none | false ↦ next ]

-- `readConfig` on the lines of a file: what it returns, and the configuration then. Of a line that
-- is too long, the part that is in the buffer is still looked at.
unfoldable pub read_config : List Bytes → LocalConfig → Option (Bool × LocalConfig)
read_config [] cfg = some (true, validate cfg)
read_config (l ∷ ls) cfg = elim (is_empty (prepared (buffered l))) [
  | true ↦ unless_long l (read_config ls cfg)
  | false ↦ elim (get_key_value (prepared (buffered l))) [
    | none ↦ some (false, cfg)
    | some (key, value) ↦ unless_long l (read_config ls (set_value key value cfg))
  ]
]
