-- ===== src/Agora.antt =====
-- libagorac/agorac.cpp: `agora_init` and `createAndInitAgoraService`, with `isNumber` of
-- libagorac/helpers/utilities.cpp: what is created in which order, and what is left when a call
-- fails.
pub mod Outcome
pub mod Close
pub mod Debug
mod Tests
use server_side_custom_video.Prelude.{
  ℕ, ◌*◌, Bool, true, false, not, ◌&&◌, ◌||◌, List, [], ◌∷◌, ◌++◌, Option, none, some, Bytes, leb,
  if◌then◌else◌, length,
}
use server_side_custom_video.Text.{is_digit}
use server_side_custom_video.Session.Settings.{AgoraArgs}
use server_side_custom_video.Config.{LocalConfig}
use server_side_custom_video.Long.{Float}
use server_side_custom_video.Jitter.{Buffering, start_buffering}
use server_side_custom_video.Fps.{Rates, start_rates}
use server_side_custom_video.Sender.{System, started}

abbrev pub all_digits : Bytes → Bool
all_digits [] = true
all_digits (c ∷ s) = is_digit c && all_digits s

-- `isNumber`
unfoldable pub is_number : Bytes → Bool
is_number [] = false
is_number (c ∷ s) = all_digits (c ∷ s)

-- what the service is configured with, besides constants: `useStringUid` and `appId`
pub record ServiceConfig : Type 0 where
  pub use_string_uid : Bool
  pub app_id : Option Bytes

-- the user id decides between the two calls of `createAndInitAgoraService`
unfoldable pub service_config : (user_id proj_appid : Bytes) → (enable_enc : Bool) → ServiceConfig
service_config [] proj_appid enable_enc = record {
  use_string_uid = false;
  app_id = if enable_enc then some proj_appid else none;
}
service_config (c ∷ s) proj_appid enable_enc = record {
  use_string_uid = not (is_number (c ∷ s));
  app_id = if enable_enc then some proj_appid else none;
}

-- `proj_appid` and `temp_str`, as the two `getline` of /tmp/nginx_agora_appid.txt leave them.
pub record KeyFile : Type 0 where
  pub app_id : Bytes
  pub key : Bytes

-- Which calls succeed in a run; `initialize` for a configuration.
pub record Calls : Type 0 where
  pub initialize : ServiceConfig → Bool
  pub create_rtc_connection : Bool
  pub enable_encryption : Bytes → Bool
  pub connect : (app_id channel_id user_id : Bytes) → Bool
  pub create_media_node_factory : Bool
  pub create_audio_sender : Bool
  pub create_audio_track : Bool
  pub create_video_sender : Bool
  pub create_video_track : Bool
  pub decoder_init : Bool
  pub encoder_init : (width height vbr fps : ℕ) → Bool

pub data Thread : Type 0 where
  video_high video_low audio : Thread

-- What exists when the call returns: a service, the context with what it owns, a connection to the
-- channel, threads that run.
pub record Remains : Type 0 where
  pub service : Bool
  pub context : Bool
  pub is_connected : Bool
  pub threads : List Thread

abbrev pub enc_key_length : ℕ
enc_key_length = 128

module _ (Single : Float) where
  -- the context that is returned, in the parts that the other modules are about
  pub record Context : Type 0 where
    pub system : System
    pub rates : Rates Single
    pub buffering : Buffering
    pub enable_dual : Bool
    pub dfps : ℕ

  -- `overrun` is a write past `encryptionKey`
  pub data Result : Type 0 where
    session : Context → Remains → Result
    null : Remains → Result
    overrun : Result

  -- the fields that are set behind the start of the threads
  abbrev pub new_context : AgoraArgs → LocalConfig → (now : ℕ) → Context
  new_context a config now = record {
    system = started;
    rates = start_rates Single now;
    buffering = start_buffering config.initial_jb_size now;
    enable_dual = a.enable_dual;
    dfps = a.dfps;
  }

  -- from the start of the threads on
  unfoldable pub start_threads : AgoraArgs → LocalConfig → Calls → (now : ℕ) → Result
  start_threads a config c now =
      if not a.enable_dual
      then session (new_context a config now) (record {
        service = true;
        context = true;
        is_connected = true;
        threads = video_high ∷ audio ∷ [];
      })
      else if not c.decoder_init
          || not (c.encoder_init a.dual_width a.dual_height a.dual_vbr a.dfps)
      then null (record {
        service = true;
        context = true;
        is_connected = true;
        threads = video_high ∷ audio ∷ [];
      })
      else session (new_context a config now) (record {
        service = true;
        context = true;
        is_connected = true;
        threads = video_high ∷ audio ∷ video_low ∷ [];
      })

  -- from `createMediaNodeFactory` on: the context is not deleted any more
  unfoldable pub create_tracks : AgoraArgs → LocalConfig → Calls → (now : ℕ) → Result
  create_tracks a config c now =
      if not c.create_media_node_factory
        || (not c.create_audio_sender
            || (not c.create_audio_track
                || (not c.create_video_sender || not c.create_video_track)))
      then null (record { service = true; context = true; is_connected = true; threads = [] })
      else start_threads a config c now

  -- from `createAndInitAgoraService` on; what it created is not released when it fails
  unfoldable pub open_session : AgoraArgs → KeyFile → LocalConfig → Calls → (now : ℕ) → Result
  open_session a file config c now =
      if not (c.initialize (service_config a.in_user_id file.app_id a.enable_enc))
        || (not c.create_rtc_connection
            || (a.enable_enc && not (c.enable_encryption file.key)
                || not (c.connect a.in_app_id a.in_ch_id a.in_user_id)))
      then null (record { service = true; context = false; is_connected = false; threads = [] })
      else create_tracks a config c now

  -- `agora_init`, with the configuration that was loaded
  unfoldable pub agora_init : AgoraArgs → KeyFile → LocalConfig → Calls → (now : ℕ) → Result
  agora_init a file config c now =
      if a.enable_enc && leb enc_key_length (length file.key)
      then overrun
      else open_session a file config c now
