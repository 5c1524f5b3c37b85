-- ===== src/Session/Init.antt =====
-- The second part of `ngx_agora_init`, with `agora_init_audio`, and `ngx_agora_disconnect`: what is
-- allocated and what is given back, with what `agora_init` and `agora_disconnect` leave.
pub mod Life
use server_side_custom_video.Prelude.{
  ℕ, ◌≡◌, Bool, true, false, not, List, [], ◌∷◌, Option, none, some, Bytes, ◌==◌, if◌then◌else◌,
}
use server_side_custom_video.Text.{ℤ, to_unsigned}
use server_side_custom_video.Long.{Float}
use server_side_custom_video.Context.{Work}
use server_side_custom_video.Config.{LocalConfig}
use server_side_custom_video.Sender.{System, Event, run}
use server_side_custom_video.Agora.{
  KeyFile, Calls, Context, Remains, session, null, overrun, agora_init,
}
use server_side_custom_video.Agora.Close.{
  Closed, returned, terminated, null_thread, close, opened, running,
}
use server_side_custom_video.Session.Settings.{
  Settings, accepted, refused, faulted, parse_settings, agora_args,
}

-- What the calls that can fail do in a run: `malloc`, those of `agora_init` with what it reads,
-- `avcodec_find_decoder`, `avcodec_alloc_context3`, `avcodec_open2`, `opus_encoder_create` and its
-- `OPUS_SET_BITRATE`.
pub record Env : Type 0 where
  pub memory : Bool
  pub key_file : KeyFile
  pub config : LocalConfig
  pub calls : Calls
  pub now : ℕ
  pub find_decoder : Bool
  pub alloc_context : Bool
  pub open_codec : Bool
  pub opus_create : Bool
  pub opus_bitrate : ℕ → Bool

-- what the helper itself has to give back
pub data Resource : Type 0 where
  session_memory aac_context audio_memory opus_encoder : Resource

-- `agora_init_audio`: whether it returns a context, and what it holds then
unfoldable pub init_audio : Env → ℤ → Bool × List Resource
init_audio env bitrate =
    if not env.find_decoder
    then (false, [])
    else if not env.alloc_context
    then (false, [])
    else if not env.open_codec
    then (false, aac_context ∷ [])
    else if not env.opus_create
    then (false, audio_memory ∷ aac_context ∷ [])
    else if not (env.opus_bitrate (to_unsigned 32 bitrate))
    then (false, opus_encoder ∷ audio_memory ∷ aac_context ∷ [])
    else (true, opus_encoder ∷ audio_memory ∷ aac_context ∷ [])

-- All that there is: of the helper, and of libagorac and the SDK.
pub record Held : Type 0 where
  pub helper : List Resource
  pub agora : Remains

abbrev pub nothing : Held
nothing = record {
  helper = [];
  agora = record { service = false; context = false; is_connected = false; threads = [] };
}

abbrev pub index : Resource → ℕ
index session_memory = 0
index aac_context = 1
index audio_memory = 2
index opus_encoder = 3

-- one release; what is not held stays so
unfoldable pub release : Resource → List Resource → List Resource
release r [] = []
release r (h ∷ held) = if index r == index h then held else h ∷ release r held

module _ (Single : Float) where
  -- What `agora_init` returned is kept, or lost by `free(ctx)` behind a failure of
  -- `agora_init_audio`, which gives back the session's own memory only.
  abbrev pub with_audio :
      Context Single → Remains → Bool × List Resource → Option (Context Single) × Held
  with_audio ctx remains (true, held) =
      (some ctx, record { helper = session_memory ∷ held; agora = remains })
  with_audio ctx remains (false, held) = (none, record { helper = held; agora = remains })

  -- From `malloc` on: the context that is returned, if any, and what there is when the function
  -- returns. None is a run past the buffer for the encryption key.
  unfoldable pub start : Env → Settings → Option (Option (Context Single) × Held)
  start env s =
      if not env.memory
      then some (none, nothing)
      else elim (agora_init Single (agora_args s) env.key_file env.config env.calls env.now) [
        | session ctx remains ↦ some (with_audio ctx remains (init_audio env s.audio_bitrate))
        | null remains ↦ some (none, record { helper = []; agora = remains })
        | overrun ↦ none
      ]

  -- `ngx_agora_init`; none is a run past a buffer
  unfoldable pub init : Env → Bytes → Option (Option (Context Single) × Held)
  init env args = elim (parse_settings args) [
    | accepted s ↦ start env s
    | refused ↦ some (none, nothing)
    | faulted ↦ none
  ]

  -- behind `agora_disconnect`, for how it ended: none is the end of the process
  abbrev pub after_close : Held → Closed → Option (Option (Context Single) × Held)
  after_close held (returned c) = some (
    none,
    record {
      helper =
          release session_memory
            (release audio_memory (release aac_context (release opus_encoder held.helper)));
      agora = record {
        service = c.has_service;
        context = c.has_context;
        is_connected = c.is_connected;
        threads = running c.system held.agora.threads;
      };
    },
  )
  after_close held terminated = none
  after_close held null_thread = none

  -- `ngx_agora_disconnect(&ctx)`, of a session in which `events` have happened when the sleep of
  -- `agora_disconnect` is over: what `ctx` is afterwards, and what there is
  unfoldable pub disconnect :
      (finish : Work) (isdisconnected : Bool)
      → List Event
      → Option (Context Single) × Held
      → Option (Option (Context Single) × Held)
  disconnect finish isdisconnected events (none, held) = some (none, held)
  disconnect finish isdisconnected events (some ctx, held) =
      let s = run ctx.enable_dual finish events ctx.system in
      after_close held (close ctx.enable_dual isdisconnected (opened ctx.enable_dual s))
