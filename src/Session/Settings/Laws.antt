-- ===== src/Session/Settings/Laws.antt =====
-- When a session's arguments are accepted, refused, or run past a buffer.
use server_side_custom_video.Prelude.{
  ℕ, ◌+◌, ◌≤◌, ◌∷◌, ◌++◌, ◌≡◌, ◌≢◌, ◌⊎◌, ◌↔◌, inl, inr, refl, sym, ap, ◌∙◌, Bytes, arith, length,
}
use server_side_custom_video.Args.{
  Arg, missing, found, overrun, copy_value, get_arg_value, replace_forward_slash,
}
use server_side_custom_video.Args.Values.{Ends, get_arg_value-first}
use server_side_custom_video.Text.Search.{NotWithin, Free}
use server_side_custom_video.Args.Slash.{decode, replace_forward_slash_lem}
use server_side_custom_video.Session.Settings.{
  accepted, refused, faulted, unescaped, param_max_len, encryption_len, key_appid, key_channel,
  key_enc, parse_options, parse_settings,
}

parse_options-not_refused :
    (args appid channel : Bytes) → parse_options args appid channel ≢ refused
unfolding parse_options
parse_options-not_refused args appid channel e = ground arith

-- An `enc` argument that has no room runs past `encryption_str`, if none before it has overrun.
options_enc-overrun :
    (args appid channel : Bytes)
    → get_arg_value args key_enc encryption_len ≡ overrun
    → parse_options args appid channel ≡ faulted
unfolding parse_options
options_enc-overrun args appid channel e = ground arith

-- the app id goes through the loop of `ngx_agora_replace_forward_slash`, which ends
unescaped_lem :
    (escaped : Bytes)
    → unescaped (replace_forward_slash (length escaped + 1) escaped) ≡ accepted (decode escaped)
unescaped_lem escaped =
    ap unescaped (replace_forward_slash_lem (length escaped + 1) escaped (omega arith)).0

-- the settings once both needed arguments are found
pub parse_settings_found :
    (args escaped channel : Bytes)
    → get_arg_value args key_appid param_max_len ≡ found escaped
    → get_arg_value args key_channel param_max_len ≡ found channel
    → parse_settings args ≡ parse_options args (decode escaped) channel
unfolding parse_settings
parse_settings_found args escaped channel a c = rw (a, unescaped_lem, c) refl

pub Arg-cases : (a : Arg) → (a ≡ missing) ⊎ (((v : Bytes) × (a ≡ found v)) ⊎ (a ≡ overrun))
Arg-cases missing = inl refl
Arg-cases (found v) = inr (inl (v, refl))
Arg-cases overrun = inr (inr refl)

module _ (args : Bytes) where
  pub settings_no_appid :
      get_arg_value args key_appid param_max_len ≡ missing → parse_settings args ≡ refused
  unfolding parse_settings
  settings_no_appid a = rw a refl

  pub settings_long_appid :
      get_arg_value args key_appid param_max_len ≡ overrun → parse_settings args ≡ faulted
  unfolding parse_settings
  settings_long_appid a = rw a refl

  pub settings_no_channel :
      (escaped : Bytes)
      → get_arg_value args key_appid param_max_len ≡ found escaped
      → get_arg_value args key_channel param_max_len ≡ missing
      → parse_settings args ≡ refused
  unfolding parse_settings
  settings_no_channel escaped a c = rw (a, unescaped_lem, c) refl

  pub settings_long_channel :
      (escaped : Bytes)
      → get_arg_value args key_appid param_max_len ≡ found escaped
      → get_arg_value args key_channel param_max_len ≡ overrun
      → parse_settings args ≡ faulted
  unfolding parse_settings
  settings_long_channel escaped a c = rw (a, unescaped_lem, c) refl

-- A session is refused exactly when its string has no app id, or has one and no channel.
pub parse_settings-refused :
    (args : Bytes)
    → (parse_settings args ≡ refused) ↔ (
        (get_arg_value args key_appid param_max_len ≡ missing)
        ⊎ ((escaped : Bytes) × (get_arg_value args key_appid param_max_len ≡ found escaped)
            × (get_arg_value args key_channel param_max_len ≡ missing)))
parse_settings-refused args = (why, by_missing)
  where
    app : Arg
    app = get_arg_value args key_appid param_max_len

    chan : Arg
    chan = get_arg_value args key_channel param_max_len

    by_missing :
        (app ≡ missing) ⊎ ((escaped : Bytes) × (app ≡ found escaped) × (chan ≡ missing))
        → parse_settings args ≡ refused
    by_missing (inl a) = settings_no_appid args a
    by_missing (inr (escaped, a, c)) = settings_no_channel args escaped a c

    why :
        parse_settings args ≡ refused
        → (app ≡ missing) ⊎ ((escaped : Bytes) × (app ≡ found escaped) × (chan ≡ missing))
    why e = elim (Arg-cases app) [
      | inl a ↦ inl a
      | inr (inl (escaped, a)) ↦ elim (Arg-cases chan) [
        | inl c ↦ inr (escaped, a, c)
        | inr (inl (channel, c)) ↦ absurd (
            parse_options-not_refused args (decode escaped) channel
              (sym (parse_settings_found args escaped channel a c) ∙ e))
        | inr (inr c) ↦ cc (settings_long_channel args escaped a c, e)
      ]
      | inr (inr a) ↦ cc (settings_long_appid args a, e)
    ]

-- A string with an app id and a channel in which the first place where `enc` stands, be it in the
-- middle of a word, has one more byte and then two or more behind it, up to the argument's end: the
-- parsing runs past the end of a buffer, since `encryption_str` has room for one byte and a NUL.
pub parse_settings-enc :
    (front value tail : Bytes) (sep : ℕ) (escaped channel : Bytes)
    → NotWithin key_enc front ((key_enc ++ sep ∷ value) ++ tail)
    → Free b'&' (key_enc ++ sep ∷ value)
    → Ends tail
    → 2 ≤ length value
    → let args = front ++ ((key_enc ++ sep ∷ value) ++ tail) in
      get_arg_value args key_appid param_max_len ≡ found escaped
      → get_arg_value args key_channel param_max_len ≡ found channel
      → parse_settings args ≡ faulted
unfolding copy_value
parse_settings-enc front value tail sep escaped channel h f e long a c =
    let args = front ++ ((key_enc ++ sep ∷ value) ++ tail) in
    parse_settings_found args escaped channel a c
    ∙ options_enc-overrun args (decode escaped) channel
        (get_arg_value-first front key_enc (sep ∷ value) tail encryption_len h f e ∙ ground arith)
