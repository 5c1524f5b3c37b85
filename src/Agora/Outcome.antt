-- ===== src/Agora/Outcome.antt =====
-- What `agora_init` returns, and what it leaves behind.
use server_side_custom_video.Prelude.{
  ℕ, ◌*◌, ◌≤◌, ◌<◌, ◌≡◌, ◌⊎◌, inl, inr, refl, ap, ◌∙◌, Bool, true, false, not, ◌&&◌, ◌||◌, List, [],
  ◌∷◌, some, Bytes, leb, if◌then◌else◌, length, arith, lt→leb, ◌^◌,
}
use server_side_custom_video.Session.Settings.{AgoraArgs}
use server_side_custom_video.Config.{LocalConfig, read_config, key_max_jb}
use server_side_custom_video.Config.Fields.{last_number}
use server_side_custom_video.Config.Laws.{Parses, read_config-Parses}
use server_side_custom_video.Long.{Float}
use server_side_custom_video.Jitter.{refill}
use server_side_custom_video.Jitter.Size.{jb_size-doublings}
use server_side_custom_video.Agora.{
  KeyFile, Calls, service_config, Thread, video_high, video_low, audio, Remains, session, null,
  overrun, new_context, start_threads, create_tracks, open_session, agora_init, enc_key_length,
}

-- the calls up to `connect`
abbrev pub opens : AgoraArgs → KeyFile → Calls → Bool
opens a file c =
    c.initialize (service_config a.in_user_id file.app_id a.enable_enc)
    && (c.create_rtc_connection
        && ((not a.enable_enc || c.enable_encryption file.key)
            && c.connect a.in_app_id a.in_ch_id a.in_user_id))

-- the senders and tracks
abbrev pub has_tracks : Calls → Bool
has_tracks c =
    c.create_media_node_factory
    && (c.create_audio_sender
        && (c.create_audio_track && (c.create_video_sender && c.create_video_track)))

-- the codecs of the low stream
abbrev pub has_codecs : AgoraArgs → Calls → Bool
has_codecs a c =
    not a.enable_dual
    || (c.decoder_init && c.encoder_init a.dual_width a.dual_height a.dual_vbr a.dfps)

abbrev pub threads_of : (tracks dual codecs : Bool) → List Thread
threads_of false dual codecs = []
threads_of true false codecs = video_high ∷ audio ∷ []
threads_of true true false = video_high ∷ audio ∷ []
threads_of true true true = video_high ∷ audio ∷ video_low ∷ []

module _ (Single : Float) where
  remains : (opened tracks dual codecs : Bool) → Remains
  remains opened tracks dual codecs = record {
    service = true;
    context = opened;
    is_connected = opened;
    threads = threads_of tracks dual codecs;
  }

  start_threads-outcome :
      (a : AgoraArgs) (config : LocalConfig) (c : Calls) (now : ℕ)
      → start_threads Single a config c now ≡ (
          if has_codecs a c
          then session
              (new_context Single a config now)
              (remains true true a.enable_dual (has_codecs a c))
          else null (remains true true a.enable_dual (has_codecs a c)))
  unfolding start_threads remains
  start_threads-outcome a config c now = ground arith

  create_tracks-outcome :
      (a : AgoraArgs) (config : LocalConfig) (c : Calls) (now : ℕ)
      → create_tracks Single a config c now ≡ (
          if has_tracks c && has_codecs a c
          then session
              (new_context Single a config now)
              (remains true (has_tracks c) a.enable_dual (has_codecs a c))
          else null (remains true (has_tracks c) a.enable_dual (has_codecs a c)))
  unfolding create_tracks remains
  create_tracks-outcome a config c now = ground (arith, start_threads-outcome a config c now)

  open_session-outcome :
      (a : AgoraArgs) (file : KeyFile) (config : LocalConfig) (c : Calls) (now : ℕ)
      → open_session Single a file config c now ≡ (
          if opens a file c && (has_tracks c && has_codecs a c)
          then session (new_context Single a config now) (
              remains
                (opens a file c)
                (opens a file c && has_tracks c)
                a.enable_dual
                (has_codecs a c))
          else null (
              remains
                (opens a file c)
                (opens a file c && has_tracks c)
                a.enable_dual
                (has_codecs a c)))
  unfolding open_session remains
  open_session-outcome a file config c now = ground (arith, create_tracks-outcome a config c now)

  -- With room for the encryption key, `agora_init` returns a session exactly if every call succeeds,
  -- with the context as it is set up and a thread for each stream. Else it returns NULL, and then
  -- the service has not been released; the context is deleted only if no connection was made; and
  -- if it is a codec of the low stream that fails, two threads run on with that context.
  pub agora_init-outcome :
      (a : AgoraArgs) (file : KeyFile) (config : LocalConfig) (c : Calls) (now : ℕ)
      → (a.enable_enc ≡ true → length file.key < enc_key_length)
      → let is_ok = opens a file c && (has_tracks c && has_codecs a c) in
        let remains : Remains = record {
          service = true;
          context = opens a file c;
          is_connected = opens a file c;
          threads = threads_of (opens a file c && has_tracks c) a.enable_dual (has_codecs a c);
        } in
        agora_init Single a file config c now
        ≡ (if is_ok then session (new_context Single a config now) remains else null remains)
  unfolding agora_init remains
  agora_init-outcome a file config c now room =
      ap (λ b. if b then overrun else open_session Single a file config c now)
        (fits a.enable_enc room)
      ∙ open_session-outcome a file config c now
    where
      fits :
          (b : Bool)
          → (b ≡ true → length file.key < enc_key_length)
          → (b && leb enc_key_length (length file.key)) ≡ false
      fits true h = lt→leb enc_key_length (length file.key) (h refl)
      fits false h = refl

-- A stream whose configuration file is read to its end and sets a maximum of at most 32768, however
-- often its buffer runs empty: the size of its jitter buffer, which `agora_init` takes from the
-- file, is at most 8000 or less than twice the maximum, and fits its 16 bits.
pub agora_init-jb_size :
    (Single : Float) (a : AgoraArgs) (ls : List Bytes) (settings : List (Bytes × Bytes))
    (before : LocalConfig) (now : ℕ) (clock : List (ℕ × ℕ))
    → Parses ls settings
    → last_number key_max_jb before.max_jb_size settings ≤ 2 ^ 15
    → (config : LocalConfig) × (read_config ls before ≡ some (true, config))
      × (let start = (new_context Single a config now).buffering in
          let size =
            (refill config.max_jb_size config.time_to_increase_jb_size clock start).jb_size in
          ((size ≤ 8000) ⊎ (size < 2 * config.max_jb_size)) × (size < 2 ^ 16))
agora_init-jb_size Single a ls settings before now clock p m =
    let (config, reads, made) = read_config-Parses ls settings before p in
    (
      config,
      reads,
      let (_, bound) =
            jb_size-doublings config.max_jb_size config.time_to_increase_jb_size
              config.initial_jb_size now clock (omega (arith, made.max_jb)) in
          elim bound [
            | inl same ↦ (inl (omega (arith, made.valid)), omega (arith, made.valid))
            | inr less ↦ (inr less, omega arith)
          ],
    )
