-- ===== src/Log.antt =====
-- libagorac/helpers/agoralog.cpp: `logMessage` and `CheckAndRollLogFile`, with DEBUG_MODE as it is
-- defined there. The mutex makes each call one step.
pub mod Kept
mod Tests
use server_side_custom_video.Prelude.{
  ℕ, ◌+◌, ◌*◌, ◌/◌, ◌%◌, Bool, true, false, not, ◌&&◌, List, [], ◌∷◌, ◌++◌, Bytes, ltb, take,
  if◌then◌else◌,
}
use server_side_custom_video.Config.{equals}

-- What the two functions use of the system: `strftime` of a format in local time, what `tellp`
-- returns for a file that was opened to append, and what a file's name stands for.
pub record LogSystem : Type 0 where
  pub strftime : (format : Bytes) → (seconds : ℕ) → Bytes
  pub tellp : Bytes → ℕ

-- /tmp/agora.log, and the files it was copied to, by their names
pub record Files : Type 0 where
  pub log : Bytes
  pub archives : List (Bytes × Bytes)

-- MAX_LOG_FILE_SIZE
abbrev pub max_log_file_size : ℕ
max_log_file_size = 1024 * 1024 * 250

-- "%m-%d-%Y  %T."
abbrev pub line_format : Bytes
line_format =
    b'%' ∷ b'm' ∷ b'-' ∷ b'%' ∷ b'd' ∷ b'-' ∷ b'%' ∷ b'Y' ∷ b' ' ∷ b' ' ∷ b'%' ∷ b'T' ∷ b'.' ∷ []

-- "%m-%d-%Y-%I_%M_%S"
abbrev pub name_format : Bytes
name_format =
    b'%' ∷ b'm' ∷ b'-' ∷ b'%' ∷ b'd' ∷ b'-' ∷ b'%' ∷ b'Y' ∷ b'-' ∷ b'%' ∷ b'I' ∷ b'_' ∷ b'%' ∷ b'M'
    ∷ b'_' ∷ b'%' ∷ b'S' ∷ []

abbrev digit : ℕ → ℕ
digit n = b'0' + n % 10

-- "%3d" of a number below 1000
abbrev pub three_digits : ℕ → Bytes
three_digits n =
    if ltb n 10
    then b' ' ∷ b' ' ∷ digit n ∷ []
    else if ltb n 100
    then b' ' ∷ digit (n / 10) ∷ digit n ∷ []
    else digit (n / 100) ∷ digit (n / 10) ∷ digit n ∷ []

-- "/tmp/agora-%s.log", in 256 bytes
abbrev pub old_file_name : Bytes → Bytes
old_file_name time = take 255 (
    b'/'
    ∷ b't'
    ∷ b'm'
    ∷ b'p'
    ∷ b'/'
    ∷ b'a'
    ∷ b'g'
    ∷ b'o'
    ∷ b'r'
    ∷ b'a'
    ∷ b'-'
    ∷ (time ++ (b'.' ∷ b'l' ∷ b'o' ∷ b'g' ∷ [])))

-- a file that `cp` writes: a new one, or one of that name that is there
unfoldable pub put_archive : Bytes → Bytes → List (Bytes × Bytes) → List (Bytes × Bytes)
put_archive name bytes [] = (name, bytes) ∷ []
put_archive name bytes ((other, old) ∷ rest) =
    let behind = put_archive name bytes rest in
    if equals name other then (name, bytes) ∷ rest else (other, old) ∷ behind

-- A call, with what `gettimeofday` gives it and which of its accesses to files succeed.
pub data LogCall : Type 0 where
  log_message : (is_open : Bool) (seconds microseconds : ℕ) (message : Bytes) → LogCall
  check_and_roll : (is_open copies truncates : Bool) (seconds : ℕ) → LogCall

module _ (S : LogSystem) where
  -- the line that `logMessage` writes; the time has 40 bytes
  abbrev pub line : (seconds microseconds : ℕ) → (message : Bytes) → Bytes
  line seconds microseconds message =
      take 39 (S.strftime line_format seconds ++ three_digits (microseconds / 1000))
      ++ (b':' ∷ b' ' ∷ [])
      ++ message
      ++ 10 ∷ []

  abbrev pub archive_name : ℕ → Bytes
  archive_name seconds = old_file_name (S.strftime name_format seconds)

  -- `system("cp ...")`, whose result is not looked at, and the truncation
  abbrev pub roll : (copies truncates : Bool) → ℕ → Files → Files
  roll copies truncates seconds f = record {
    log = if truncates then [] else f.log;
    archives = if copies then put_archive (archive_name seconds) f.log f.archives else f.archives;
  }

  -- a call of `logMessage` or `CheckAndRollLogFile`
  unfoldable pub log_call : LogCall → Files → Files
  log_call (log_message is_open seconds microseconds message) f =
      if is_open then record f { log = f.log ++ line seconds microseconds message } else f
  log_call (check_and_roll is_open copies truncates seconds) f =
      if is_open && ltb max_log_file_size (S.tellp f.log)
      then roll copies truncates seconds f
      else f

  unfoldable pub log_run : List LogCall → Files → Files
  log_run [] f = f
  log_run (c ∷ cs) f = log_run cs (log_call c f)
