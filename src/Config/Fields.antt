-- ===== src/Config/Fields.antt =====
-- What the settings of a configuration file do to each field of `LocalConfig`.
use server_side_custom_video.Prelude.{
  ℕ, ◌≡◌, inl, inr, refl, ap, ap₂, ◌∙◌, Bool, true, false, ◌&&◌, ◌||◌, List, [], ◌∷◌, Bytes, arith,
  ◌==◌, ==_iff, if◌then◌else◌, Bool-cases,
}
use server_side_custom_video.Text.{atoi, to_unsigned}
use server_side_custom_video.Config.{
  LocalConfig, equals, set_value, key_initial_jb, key_max_jb, key_doubling, key_qmin, key_qmax,
  key_video_log, key_audio_log, key_fps_log, key_speedup_log, key_dump, text_yes,
}

both : (a b : Bool) → (a && b) ≡ true → (a ≡ true) × (b ≡ true)
both true true e = (refl, refl)
both true false e = cc
both false b e = cc

equals_sound : (xs ys : Bytes) → equals xs ys ≡ true → xs ≡ ys
unfolding equals
equals_sound [] [] e = refl
equals_sound [] (y ∷ ys) e = cc
equals_sound (x ∷ xs) [] e = cc
equals_sound (x ∷ xs) (y ∷ ys) e =
    let (p, q) = both (x == y) (equals xs ys) e in
    ap₂ (λ z zs. z ∷ zs) ((==_iff x y).0 p) (equals_sound xs ys q)

-- what the last setting of a key gives, or what was there before
abbrev pub last_value : {A : Type 0} → (read : Bytes → A) → Bytes → A → List (Bytes × Bytes) → A
last_value read key before [] = before
last_value read key before ((k, v) ∷ settings) =
    last_value read key (if equals k key then read v else before) settings

-- a number of 16 bits
abbrev pub last_number : Bytes → ℕ → List (Bytes × Bytes) → ℕ
last_number = last_value (λ v. to_unsigned 16 (atoi v))

-- whether a flag was set before or some setting says yes
abbrev pub ever_yes : Bytes → Bool → List (Bytes × Bytes) → Bool
ever_yes key before [] = before
ever_yes key before ((k, v) ∷ settings) =
    ever_yes key (before || equals k key && equals v text_yes) settings

-- one setting, seen from each field
module _ (k v : Bytes) (cfg : LocalConfig) where
  set_value-initial_jb_size :
      (set_value k v cfg).initial_jb_size
      ≡ (if equals k key_initial_jb then to_unsigned 16 (atoi v) else cfg.initial_jb_size)
  unfolding set_value equals
  set_value-initial_jb_size = elim (Bool-cases (equals k key_initial_jb)) [
    | inl e ↦ rw (equals_sound k key_initial_jb e) (ground arith)
    | inr e ↦ rw e (ground arith)
  ]

  set_value-max_jb_size :
      (set_value k v cfg).max_jb_size
      ≡ (if equals k key_max_jb then to_unsigned 16 (atoi v) else cfg.max_jb_size)
  unfolding set_value equals
  set_value-max_jb_size = elim (Bool-cases (equals k key_max_jb)) [
    | inl e ↦ rw (equals_sound k key_max_jb e) (ground arith)
    | inr e ↦ rw e (ground arith)
  ]

  set_value-time_to_increase_jb_size :
      (set_value k v cfg).time_to_increase_jb_size
      ≡ (if equals k key_doubling then to_unsigned 16 (atoi v) else cfg.time_to_increase_jb_size)
  unfolding set_value equals
  set_value-time_to_increase_jb_size = elim (Bool-cases (equals k key_doubling)) [
    | inl e ↦ rw (equals_sound k key_doubling e) (ground arith)
    | inr e ↦ rw e (ground arith)
  ]

  set_value-q_min : (set_value k v cfg).q_min ≡ (if equals k key_qmin then atoi v else cfg.q_min)
  unfolding set_value equals
  set_value-q_min = elim (Bool-cases (equals k key_qmin)) [
    | inl e ↦ rw (equals_sound k key_qmin e) (ground arith)
    | inr e ↦ rw e (ground arith)
  ]

  set_value-q_max : (set_value k v cfg).q_max ≡ (if equals k key_qmax then atoi v else cfg.q_max)
  unfolding set_value equals
  set_value-q_max = elim (Bool-cases (equals k key_qmax)) [
    | inl e ↦ rw (equals_sound k key_qmax e) (ground arith)
    | inr e ↦ rw e (ground arith)
  ]

  set_value-use_detailed_video_log :
      (set_value k v cfg).use_detailed_video_log
      ≡ (cfg.use_detailed_video_log || equals k key_video_log && equals v text_yes)
  unfolding set_value equals
  set_value-use_detailed_video_log = elim (Bool-cases (equals k key_video_log)) [
    | inl e ↦ rw (equals_sound k key_video_log e) (ground arith)
    | inr e ↦ rw e (ground arith)
  ]

  set_value-use_detailed_audio_log :
      (set_value k v cfg).use_detailed_audio_log
      ≡ (cfg.use_detailed_audio_log || equals k key_audio_log && equals v text_yes)
  unfolding set_value equals
  set_value-use_detailed_audio_log = elim (Bool-cases (equals k key_audio_log)) [
    | inl e ↦ rw (equals_sound k key_audio_log e) (ground arith)
    | inr e ↦ rw e (ground arith)
  ]

  set_value-use_fps_log :
      (set_value k v cfg).use_fps_log
      ≡ (cfg.use_fps_log || equals k key_fps_log && equals v text_yes)
  unfolding set_value equals
  set_value-use_fps_log = elim (Bool-cases (equals k key_fps_log)) [
    | inl e ↦ rw (equals_sound k key_fps_log e) (ground arith)
    | inr e ↦ rw e (ground arith)
  ]

  set_value-use_speedup_log :
      (set_value k v cfg).use_speedup_log
      ≡ (cfg.use_speedup_log || equals k key_speedup_log && equals v text_yes)
  unfolding set_value equals
  set_value-use_speedup_log = elim (Bool-cases (equals k key_speedup_log)) [
    | inl e ↦ rw (equals_sound k key_speedup_log e) (ground arith)
    | inr e ↦ rw e (ground arith)
  ]

  set_value-dump_audio_to_file :
      (set_value k v cfg).dump_audio_to_file
      ≡ (cfg.dump_audio_to_file || equals k key_dump && equals v text_yes)
  unfolding set_value equals
  set_value-dump_audio_to_file = elim (Bool-cases (equals k key_dump)) [
    | inl e ↦ rw (equals_sound k key_dump e) (ground arith)
    | inr e ↦ rw e (ground arith)
  ]

-- what a configuration holds after some settings, before the validation
pub record Holds (before after : LocalConfig) (settings : List (Bytes × Bytes)) : Type 0 where
  pub initial_jb :
      after.initial_jb_size ≡ last_number key_initial_jb before.initial_jb_size settings
  pub max_jb : after.max_jb_size ≡ last_number key_max_jb before.max_jb_size settings
  pub doubling :
      after.time_to_increase_jb_size
      ≡ last_number key_doubling before.time_to_increase_jb_size settings
  pub qmin : after.q_min ≡ last_value atoi key_qmin before.q_min settings
  pub qmax : after.q_max ≡ last_value atoi key_qmax before.q_max settings
  pub video_log :
      after.use_detailed_video_log ≡ ever_yes key_video_log before.use_detailed_video_log settings
  pub audio_log :
      after.use_detailed_audio_log ≡ ever_yes key_audio_log before.use_detailed_audio_log settings
  pub fps_log : after.use_fps_log ≡ ever_yes key_fps_log before.use_fps_log settings
  pub speedup_log : after.use_speedup_log ≡ ever_yes key_speedup_log before.use_speedup_log settings
  pub dump : after.dump_audio_to_file ≡ ever_yes key_dump before.dump_audio_to_file settings

pub Holds-step :
    (k v : Bytes) (cfg after : LocalConfig) (settings : List (Bytes × Bytes))
    → Holds (set_value k v cfg) after settings
    → Holds cfg after ((k, v) ∷ settings)
Holds-step k v cfg after settings h = record {
  initial_jb =
      h.initial_jb
      ∙ ap (λ z. last_number key_initial_jb z settings) (set_value-initial_jb_size k v cfg);
  max_jb = h.max_jb ∙ ap (λ z. last_number key_max_jb z settings) (set_value-max_jb_size k v cfg);
  doubling =
      h.doubling
      ∙ ap (λ z. last_number key_doubling z settings) (set_value-time_to_increase_jb_size k v cfg);
  qmin = h.qmin ∙ ap (λ z. last_value atoi key_qmin z settings) (set_value-q_min k v cfg);
  qmax = h.qmax ∙ ap (λ z. last_value atoi key_qmax z settings) (set_value-q_max k v cfg);
  video_log =
      h.video_log
      ∙ ap (λ z. ever_yes key_video_log z settings) (set_value-use_detailed_video_log k v cfg);
  audio_log =
      h.audio_log
      ∙ ap (λ z. ever_yes key_audio_log z settings) (set_value-use_detailed_audio_log k v cfg);
  fps_log = h.fps_log ∙ ap (λ z. ever_yes key_fps_log z settings) (set_value-use_fps_log k v cfg);
  speedup_log =
      h.speedup_log
      ∙ ap (λ z. ever_yes key_speedup_log z settings) (set_value-use_speedup_log k v cfg);
  dump = h.dump ∙ ap (λ z. ever_yes key_dump z settings) (set_value-dump_audio_to_file k v cfg);
}
