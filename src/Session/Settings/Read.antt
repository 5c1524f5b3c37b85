-- ===== src/Session/Settings/Read.antt =====
-- What an accepted session's settings are, in terms of its argument string.
use server_side_custom_video.Prelude.{ℕ, ◌≡◌, ◌⊎◌, inl, inr, refl, sym, ap, ◌∙◌, Bytes, [], false}
use server_side_custom_video.Text.{pos, atoi, starts_with}
use server_side_custom_video.Args.{missing, found, get_arg_value}
use server_side_custom_video.Args.Slash.{decode}
use server_side_custom_video.Args.Values.{IsValue, get_arg_value-IsValue}
use server_side_custom_video.Session.Settings.{
  Settings, Outcome, accepted, refused, faulted, ◌>>=◌, optional, param_max_len, encryption_len,
  key_appid, key_channel, key_abr, key_uid, key_enc, key_dvbr, key_dwidth, key_dheight, key_dfps,
  key_dual, key_jb, text_true, parse_options, parse_settings,
}
use server_side_custom_video.Session.Settings.Laws.{
  Arg-cases, parse_settings_found, settings_no_appid, settings_long_appid, settings_no_channel,
  settings_long_channel,
}

-- An option is its default if no value is found for its key, and else what is read from the value
-- that stands in the string and fits `size` bytes with its NUL.
abbrev pub OptionOf :
    {A : Type 0} → (args key : Bytes) (size : ℕ) (default : A) (read : Bytes → A) → A → Type 0
OptionOf args key size default read setting =
    ((get_arg_value args key size ≡ missing) × (setting ≡ default))
    ⊎ ((v : Bytes) × IsValue args key size v × (setting ≡ read v))

-- The settings that an argument string describes.
pub record Describes (args : Bytes) (s : Settings) : Type 0 where
  pub escaped : Bytes
  pub app_value : IsValue args key_appid 1024 escaped
  pub appid : s.appid ≡ decode escaped
  pub channel : IsValue args key_channel 1024 s.channel
  pub audio_bitrate : OptionOf args key_abr 1024 (pos 50000) atoi s.audio_bitrate
  pub user_id : OptionOf args key_uid 1024 [] (λ v. v) s.user_id
  pub enable_enc : OptionOf args key_enc 2 (pos 0) atoi s.enable_enc
  pub dual_video_bitrate : OptionOf args key_dvbr 1024 (pos 80000) atoi s.dual_video_bitrate
  pub dual_video_width : OptionOf args key_dwidth 1024 (pos 360) atoi s.dual_video_width
  pub dual_video_height : OptionOf args key_dheight 1024 (pos 180) atoi s.dual_video_height
  pub dual_fps : OptionOf args key_dfps 1024 (pos 15) atoi s.dual_fps
  pub enable_dual : OptionOf args key_dual 1024 false (λ v. starts_with text_true v) s.enable_dual
  pub video_jb : OptionOf args key_jb 1024 (pos 4) atoi s.video_jb

optional-OptionOf :
    {A : Type 0} (args key : Bytes) (size : ℕ) (default : A) (read : Bytes → A) (setting : A)
    → optional default read (get_arg_value args key size) ≡ accepted setting
    → OptionOf args key size default read setting
optional-OptionOf args key size default read setting e =
    elim (Arg-cases (get_arg_value args key size)) [
      | inl m ↦ inl (m, cc (rw m at e))
      | inr (inl (v, q)) ↦ inr (v, get_arg_value-IsValue args key size v q, cc (rw q at e))
      | inr (inr o) ↦ cc (rw o at e)
    ]

-- what each option of an accepted session comes from
record Takes (args appid channel : Bytes) (s : Settings) : Type 0 where
  same_appid : s.appid ≡ appid
  same_channel : s.channel ≡ channel
  audio_bitrate :
      optional (pos 50000) atoi (get_arg_value args key_abr param_max_len)
      ≡ accepted s.audio_bitrate
  user_id : optional [] (λ v. v) (get_arg_value args key_uid param_max_len) ≡ accepted s.user_id
  enable_enc :
      optional (pos 0) atoi (get_arg_value args key_enc encryption_len) ≡ accepted s.enable_enc
  dual_video_bitrate :
      optional (pos 80000) atoi (get_arg_value args key_dvbr param_max_len)
      ≡ accepted s.dual_video_bitrate
  dual_video_width :
      optional (pos 360) atoi (get_arg_value args key_dwidth param_max_len)
      ≡ accepted s.dual_video_width
  dual_video_height :
      optional (pos 180) atoi (get_arg_value args key_dheight param_max_len)
      ≡ accepted s.dual_video_height
  dual_fps :
      optional (pos 15) atoi (get_arg_value args key_dfps param_max_len) ≡ accepted s.dual_fps
  enable_dual :
      optional false (λ v. starts_with text_true v) (get_arg_value args key_dual param_max_len)
      ≡ accepted s.enable_dual
  video_jb : optional (pos 4) atoi (get_arg_value args key_jb param_max_len) ≡ accepted s.video_jb

-- a chain that is accepted, taken apart
>>=-accepted :
    {A B : Type 0} (m : Outcome A) (f : A → Outcome B) {b : B}
    → (m >>= f) ≡ accepted b
    → (a : A) × (m ≡ accepted a) × (f a ≡ accepted b)
>>=-accepted (accepted a) f e = (a, refl, e)
>>=-accepted refused f e = cc
>>=-accepted faulted f e = cc

accepted-inj : {A : Type 0} {a b : A} → accepted a ≡ accepted b → a ≡ b
accepted-inj e = cc

parse_options-Takes :
    (args appid channel : Bytes) (s : Settings)
    → parse_options args appid channel ≡ accepted s
    → Takes args appid channel s
unfolding parse_options
parse_options-Takes args appid channel s e =
    let value = λ (key : Bytes). get_arg_value args key param_max_len in
    let (abr, is_abr, e1) = >>=-accepted (optional (pos 50000) atoi (value key_abr)) _ e in
    let (uid, is_uid, e2) = >>=-accepted (optional [] (λ v. v) (value key_uid)) _ e1 in
    let (enc, is_enc, e3) =
      >>=-accepted (optional (pos 0) atoi (get_arg_value args key_enc encryption_len)) _ e2 in
    let (dvbr, is_dvbr, e4) = >>=-accepted (optional (pos 80000) atoi (value key_dvbr)) _ e3 in
    let (dwidth, is_dwidth, e5) = >>=-accepted (optional (pos 360) atoi (value key_dwidth)) _ e4 in
    let (dheight, is_dheight, e6) =
      >>=-accepted (optional (pos 180) atoi (value key_dheight)) _ e5 in
    let (dfps, is_dfps, e7) = >>=-accepted (optional (pos 15) atoi (value key_dfps)) _ e6 in
    let (dual, is_dual, e8) =
      >>=-accepted (optional false (λ v. starts_with text_true v) (value key_dual)) _ e7 in
    let (jb, is_jb, e9) = >>=-accepted (optional (pos 4) atoi (value key_jb)) _ e8 in
    let same = accepted-inj e9 in
    record {
      same_appid = sym (ap (λ (r : Settings). r.appid) same);
      same_channel = sym (ap (λ (r : Settings). r.channel) same);
      audio_bitrate = is_abr ∙ ap (λ (r : Settings). accepted r.audio_bitrate) same;
      user_id = is_uid ∙ ap (λ (r : Settings). accepted r.user_id) same;
      enable_enc = is_enc ∙ ap (λ (r : Settings). accepted r.enable_enc) same;
      dual_video_bitrate = is_dvbr ∙ ap (λ (r : Settings). accepted r.dual_video_bitrate) same;
      dual_video_width = is_dwidth ∙ ap (λ (r : Settings). accepted r.dual_video_width) same;
      dual_video_height = is_dheight ∙ ap (λ (r : Settings). accepted r.dual_video_height) same;
      dual_fps = is_dfps ∙ ap (λ (r : Settings). accepted r.dual_fps) same;
      enable_dual = is_dual ∙ ap (λ (r : Settings). accepted r.enable_dual) same;
      video_jb = is_jb ∙ ap (λ (r : Settings). accepted r.video_jb) same;
    }

found-Describes :
    (args escaped channel : Bytes) (s : Settings)
    → get_arg_value args key_appid param_max_len ≡ found escaped
    → get_arg_value args key_channel param_max_len ≡ found channel
    → parse_settings args ≡ accepted s
    → Describes args s
found-Describes args escaped channel s a c e =
    let t =
      parse_options-Takes args (decode escaped) channel s
        (sym (parse_settings_found args escaped channel a c) ∙ e) in
    record {
      escaped = escaped;
      app_value = get_arg_value-IsValue args key_appid param_max_len escaped a;
      appid = t.same_appid;
      channel =
          get_arg_value-IsValue args key_channel param_max_len s.channel
            (c ∙ ap found (sym t.same_channel));
      audio_bitrate =
          optional-OptionOf args key_abr param_max_len (pos 50000) atoi s.audio_bitrate
            t.audio_bitrate;
      user_id = optional-OptionOf args key_uid param_max_len [] (λ v. v) s.user_id t.user_id;
      enable_enc =
          optional-OptionOf args key_enc encryption_len (pos 0) atoi s.enable_enc t.enable_enc;
      dual_video_bitrate =
          optional-OptionOf args key_dvbr param_max_len (pos 80000) atoi s.dual_video_bitrate
            t.dual_video_bitrate;
      dual_video_width =
          optional-OptionOf args key_dwidth param_max_len (pos 360) atoi s.dual_video_width
            t.dual_video_width;
      dual_video_height =
          optional-OptionOf args key_dheight param_max_len (pos 180) atoi s.dual_video_height
            t.dual_video_height;
      dual_fps = optional-OptionOf args key_dfps param_max_len (pos 15) atoi s.dual_fps t.dual_fps;
      enable_dual =
          optional-OptionOf args key_dual param_max_len false (λ v. starts_with text_true v)
            s.enable_dual t.enable_dual;
      video_jb = optional-OptionOf args key_jb param_max_len (pos 4) atoi s.video_jb t.video_jb;
    }

-- A session that is accepted has the settings that its string describes: the app id is the value of
-- its key with `%2F` decoded, the channel the value of its key, and each of the nine options its
-- default, or what its value reads as. Every value has room in its buffer: 1024 bytes, and for `enc`
-- two, so that this one is a single byte.
pub parse_settings-accepted :
    (args : Bytes) (s : Settings) → parse_settings args ≡ accepted s → Describes args s
parse_settings-accepted args s e = elim (Arg-cases (get_arg_value args key_appid param_max_len)) [
  | inl a ↦ cc (settings_no_appid args a, e)
  | inr (inl (escaped, a)) ↦ elim (Arg-cases (get_arg_value args key_channel param_max_len)) [
    | inl c ↦ cc (settings_no_channel args escaped a c, e)
    | inr (inl (channel, c)) ↦ found-Describes args escaped channel s a c e
    | inr (inr c) ↦ cc (settings_long_channel args escaped a c, e)
  ]
  | inr (inr a) ↦ cc (settings_long_appid args a, e)
]
