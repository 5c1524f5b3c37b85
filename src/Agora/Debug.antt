-- ===== src/Agora/Debug.antt =====
-- libagorac/agorac.cpp: `agora_set_log_function`, `agora_log`, `agora_log_message` and
-- `agora_dump_audio_to_file`, with the call of the first in `ngx_agora_init` of ngx_agora_helper.c.
use server_side_custom_video.Prelude.{
  ℕ, ◌*◌, not, List, [], ◌∷◌, ◌++◌, Option, none, some, Bytes, if◌then◌else◌,
}
use server_side_custom_video.Audio.Memory.{read_at, ◌>>=◌}
use server_side_custom_video.Config.{LocalConfig}

-- what nginx hands over: its session, and a function that ignores what it is given
pub data Address : Type 0 where
  nginx_session log_wrapper : Address

pub record LogFunction : Type 0 where
  pub log_func : Address
  pub log_ctx : Address

abbrev pub agora_set_log_function : (f log_ctx : Address) → LogFunction
agora_set_log_function f log_ctx = record { log_func = f; log_ctx = log_ctx }

-- the call of `ngx_agora_init`, which takes the two the other way round
abbrev pub log_function_set : LogFunction
log_function_set = agora_set_log_function nginx_session log_wrapper

-- `ctx->log_func(ctx->log_ctx, message)`: what the function logs, or none for a call of something
-- that is no function
abbrev pub agora_log : LogFunction → Bytes → Option (List Bytes)
agora_log f message = elim f.log_func [ log_wrapper ↦ some [] | nginx_session ↦ none ]

-- the messages it logs
abbrev pub agora_log_message : LocalConfig → Bytes → List Bytes
agora_log_message cfg message = if cfg.use_detailed_audio_log then message ∷ [] else []

-- `agora_dump_audio_to_file`, for a count in the range of `short`: the file afterwards, where a
-- `float` has four bytes; none is a read past the data
unfoldable pub agora_dump_audio_to_file :
    LocalConfig → (file data_bytes : Bytes) → (sample_count : ℕ) → Option Bytes
agora_dump_audio_to_file cfg file data_bytes sample_count =
    if not cfg.dump_audio_to_file
    then some file
    else do written ← read_at data_bytes 0 (sample_count * 4); some (file ++ written)
