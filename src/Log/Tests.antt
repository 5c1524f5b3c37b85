-- ===== src/Log/Tests.antt =====
-- A log that is copied, and one that is copied again twelve hours later.
use server_side_custom_video.Prelude.{
  ◌+◌, ◌≡◌, refl, true, List, [], ◌∷◌, ◌++◌, if◌then◌else◌, ◌%◌, ◌/◌,
}
use server_side_custom_video.Config.{equals}
use server_side_custom_video.Log.{
  LogSystem, LogCall, log_message, check_and_roll, max_log_file_size, name_format, put_archive,
  log_run, log_call,
}
use server_side_custom_video.Log.Kept.{contents, lines, log-keeps}

-- of the times only the hour is told here, out of twelve for the format of a name; every log is too
-- long
abbrev hours : LogSystem
hours = record {
  strftime = λ format seconds.
      if equals format name_format
      then (b'0' + seconds / 3600 % 12) ∷ []
      else (b'0' + seconds / 3600) ∷ [];
  tellp = λ bytes. max_log_file_size + 1;
}

abbrev first : LogCall
first = log_message true 0 5000 (b'a' ∷ [])

abbrev second : LogCall
second = log_message true 3600 120000 (b'b' ∷ [])

abbrev day : List LogCall
day = first ∷ check_and_roll true true true 0 ∷ second ∷ check_and_roll true true true 3600 ∷ []

log-keeps_example :
    contents (log_run hours day (record { log = []; archives = [] })) ≡ [] ++ lines hours day
unfolding equals
log-keeps_example = log-keeps hours day [] refl refl

-- the copy of the morning is overwritten in the evening
overwritten :
    contents (
      log_run hours
        (first
          ∷ check_and_roll true true true 0
          ∷ second
          ∷ check_and_roll true true true 43200
          ∷ [])
        (record { log = []; archives = [] }))
    ≡ lines hours (second ∷ [])
unfolding log_run log_call put_archive equals
overwritten = refl
