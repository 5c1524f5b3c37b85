-- ===== src/Session/Init/Life.antt =====
-- A session from `ngx_agora_init` to `ngx_agora_disconnect`.
use server_side_custom_video.Prelude.{Bool, true, not, ◌&&◌, List, [], if◌then◌else◌}
use server_side_custom_video.Agora.{Context, Remains}
use server_side_custom_video.Agora.Outcome.{opens, has_tracks, has_codecs, threads_of}
use server_side_custom_video.Session.Settings.{Settings, AgoraArgs, agora_args}
use server_side_custom_video.Session.Init.{Env, Resource, init_audio, Held, nothing}

-- what `agora_init` leaves, for a run of its calls
abbrev pub agora_left : Env → AgoraArgs → Remains
agora_left env a = record {
  service = true;
  context = opens a env.key_file env.calls;
  is_connected = opens a env.key_file env.calls;
  threads =
      threads_of (opens a env.key_file env.calls && has_tracks env.calls) a.enable_dual
        (has_codecs a env.calls);
}

-- whether `agora_init` returns a session
abbrev pub agora_succeeds : Env → AgoraArgs → Bool
agora_succeeds env a =
    opens a env.key_file env.calls && (has_tracks env.calls && has_codecs a env.calls)

-- what is left of a session that `agora_init` made, with `remains` then
abbrev pub left_of : (isdisconnected : Bool) → Remains → Bool × List Resource → Held
left_of isdisconnected remains audio =
    if not audio.0
    then record { helper = audio.1; agora = remains }
    else if isdisconnected
    then record {
      helper = [];
      agora = record { service = true; context = true; is_connected = true; threads = [] };
    }
    else nothing

-- What is left in the end, of whatever `ngx_agora_init` came to.
abbrev pub left : Env → Settings → (isdisconnected : Bool) → Held
left env s isdisconnected =
    if not env.memory
    then nothing
    else if not (agora_succeeds env (agora_args s))
    then record { helper = []; agora = agora_left env (agora_args s) }
    else left_of isdisconnected (agora_left env (agora_args s)) (init_audio env s.audio_bitrate)
