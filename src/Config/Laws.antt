-- ===== src/Config/Laws.antt =====
-- What `readConfig` makes of a file.
use server_side_custom_video.Prelude.{
  ℕ, zero, suc, ◌≤◌, ◌≡◌, refl, ap, ◌∙◌, true, false, List, [], ◌∷◌, some, Bytes, arith,
  if◌then◌else◌, length, take, le→ltb,
}
use server_side_custom_video.Text.{atoi}
use server_side_custom_video.Config.{
  LocalConfig, get_key_value, set_value, validate, is_out_of_range, prepared, is_empty, unless_long,
  read_config, key_initial_jb, key_max_jb, key_doubling, key_qmin, key_qmax, key_video_log,
  key_audio_log, key_fps_log, key_speedup_log, key_dump,
}
use server_side_custom_video.Config.Fields.{last_value, last_number, ever_yes, Holds, Holds-step}

-- After the validation the jitter buffer's initial size is at most 8000.
abbrev pub IsValid : LocalConfig → Type 0
IsValid cfg = cfg.initial_jb_size ≤ 8000

validate-IsValid : (cfg : LocalConfig) → IsValid (validate cfg)
unfolding validate
validate-IsValid cfg = ground arith

-- The settings in some lines, in order: lines that are empty but for spaces and a comment count for
-- nothing, and each other one has a `=`.
pub data Parses : List Bytes → List (Bytes × Bytes) → Type 0 where
  no_lines : Parses [] []
  blank_line :
      (l : Bytes) (ls : List Bytes) (settings : List (Bytes × Bytes))
      → length l ≤ 1023
      → is_empty (prepared l) ≡ true
      → Parses ls settings
      → Parses (l ∷ ls) settings
  setting_line :
      (l : Bytes) (ls : List Bytes) (key value : Bytes) (settings : List (Bytes × Bytes))
      → length l ≤ 1023
      → is_empty (prepared l) ≡ false
      → get_key_value (prepared l) ≡ some (key, value)
      → Parses ls settings
      → Parses (l ∷ ls) ((key, value) ∷ settings)

-- a line that `getline` has room for is in the buffer whole
take-all : (n : ℕ) (l : Bytes) → length l ≤ n → take n l ≡ l
take-all zero [] h = refl
take-all zero (c ∷ l) h = absurd (omega arith)
take-all (suc n) [] h = refl
take-all (suc n) (c ∷ l) h = ap (λ z. c ∷ z) (take-all n l (omega arith))

reads :
    (ls : List Bytes) (settings : List (Bytes × Bytes)) (cfg : LocalConfig)
    → Parses ls settings
    → (after : LocalConfig) × (read_config ls cfg ≡ some (true, validate after))
      × Holds cfg after settings
unfolding read_config
reads _ _ cfg no_lines = (
  cfg,
  refl,
  record {
    initial_jb = refl;
    max_jb = refl;
    doubling = refl;
    qmin = refl;
    qmax = refl;
    video_log = refl;
    audio_log = refl;
    fps_log = refl;
    speedup_log = refl;
    dump = refl;
  },
)
reads _ _ cfg (blank_line l ls settings short empty later) =
    let (after, e, h) = reads ls settings cfg later in
    (
      after,
      rw (take-all 1023 l short, read_config, empty, unless_long, le→ltb 1023 (length l) short, e)
          refl,
      h,
    )
reads _ _ cfg (setting_line l ls key value settings short full q later) =
    let (after, e, h) = reads ls settings (set_value key value cfg) later in
    (
      after,
      rw
          (
            take-all 1023 l short,
            read_config,
            full,
            take-all 1023 l short,
            q,
            unless_long,
            le→ltb 1023 (length l) short,
            e,
          )
          refl,
      Holds-step key value cfg after settings h,
    )

-- The configuration after some settings: of the numbers the last setting counts, for the sizes and
-- the time of the jitter buffer its low 16 bits; an initial size over 8000 becomes 120; a flag is on
-- if it was, or if any setting of it says yes.
pub record Configured (before result : LocalConfig) (settings : List (Bytes × Bytes)) : Type 0 where
  pub valid : IsValid result
  pub initial_jb : result.initial_jb_size ≡ (
      if is_out_of_range (last_number key_initial_jb before.initial_jb_size settings)
      then 120
      else last_number key_initial_jb before.initial_jb_size settings)
  pub max_jb : result.max_jb_size ≡ last_number key_max_jb before.max_jb_size settings
  pub doubling :
      result.time_to_increase_jb_size
      ≡ last_number key_doubling before.time_to_increase_jb_size settings
  pub qmin : result.q_min ≡ last_value atoi key_qmin before.q_min settings
  pub qmax : result.q_max ≡ last_value atoi key_qmax before.q_max settings
  pub video_log :
      result.use_detailed_video_log ≡ ever_yes key_video_log before.use_detailed_video_log settings
  pub audio_log :
      result.use_detailed_audio_log ≡ ever_yes key_audio_log before.use_detailed_audio_log settings
  pub fps_log : result.use_fps_log ≡ ever_yes key_fps_log before.use_fps_log settings
  pub speedup_log :
      result.use_speedup_log ≡ ever_yes key_speedup_log before.use_speedup_log settings
  pub dump : result.dump_audio_to_file ≡ ever_yes key_dump before.dump_audio_to_file settings

jb-validate :
    (cfg : LocalConfig)
    → (validate cfg).initial_jb_size
      ≡ (if is_out_of_range cfg.initial_jb_size then 120 else cfg.initial_jb_size)
unfolding validate
jb-validate cfg = ground arith

-- the validation leaves the other fields alone
validate_others :
    (cfg : LocalConfig)
    → validate cfg ≡ record cfg { initial_jb_size = (validate cfg).initial_jb_size }
unfolding validate
validate_others cfg = ground arith

validate-Configured :
    (before after : LocalConfig) (settings : List (Bytes × Bytes))
    → Holds before after settings
    → Configured before (validate after) settings
validate-Configured before after settings h =
    let same = validate_others after in
    record {
      valid = validate-IsValid after;
      initial_jb = jb-validate after ∙ ap (λ j. if is_out_of_range j then 120 else j) h.initial_jb;
      max_jb = ap (λ (c : LocalConfig). c.max_jb_size) same ∙ h.max_jb;
      doubling = ap (λ (c : LocalConfig). c.time_to_increase_jb_size) same ∙ h.doubling;
      qmin = ap (λ (c : LocalConfig). c.q_min) same ∙ h.qmin;
      qmax = ap (λ (c : LocalConfig). c.q_max) same ∙ h.qmax;
      video_log = ap (λ (c : LocalConfig). c.use_detailed_video_log) same ∙ h.video_log;
      audio_log = ap (λ (c : LocalConfig). c.use_detailed_audio_log) same ∙ h.audio_log;
      fps_log = ap (λ (c : LocalConfig). c.use_fps_log) same ∙ h.fps_log;
      speedup_log = ap (λ (c : LocalConfig). c.use_speedup_log) same ∙ h.speedup_log;
      dump = ap (λ (c : LocalConfig). c.dump_audio_to_file) same ∙ h.dump;
    }

-- A file whose lines are empty but for comments, or settings with a `=`, none of them longer than
-- 1023 bytes, is read to its end, and the result is what `Configured` says of its settings, for each
-- of the ten fields.
pub read_config-Parses :
    (ls : List Bytes) (settings : List (Bytes × Bytes)) (cfg : LocalConfig)
    → Parses ls settings
    → (result : LocalConfig) × (read_config ls cfg ≡ some (true, result))
      × Configured cfg result settings
read_config-Parses ls settings cfg p =
    let (after, e, h) = reads ls settings cfg p in
    (validate after, e, validate-Configured cfg after settings h)
