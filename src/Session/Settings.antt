-- ===== src/Session/Settings.antt =====
-- The first part of `ngx_agora_init`: the settings of a session, from its argument string, and the
-- arguments of `agora_init` that are made of them.
pub mod Laws
pub mod Read
use server_side_custom_video.Prelude.{
  ℕ, zero, suc, ◌+◌, Bool, true, false, List, [], ◌∷◌, Option, none, some, Bytes, length, not, ◌==◌,
}
use server_side_custom_video.Text.{ℤ, pos, negsuc, atoi, to_unsigned, starts_with}
use server_side_custom_video.Args.{
  Arg, missing, found, overrun, get_arg_value, replace_forward_slash,
}

-- the locals of `ngx_agora_init` when the arguments are parsed
pub record Settings : Type 0 where
  pub appid : Bytes
  pub channel : Bytes
  pub user_id : Bytes
  pub audio_bitrate : ℤ
  pub enable_enc : ℤ
  pub dual_video_bitrate : ℤ
  pub dual_video_width : ℤ
  pub dual_video_height : ℤ
  pub dual_fps : ℤ
  pub enable_dual : Bool
  pub video_jb : ℤ

-- `refused` is a return of NULL; `faulted` is a run past the end of one of the local buffers.
pub data Outcome (A : Type 0) : Type 0 where
  accepted : A → Outcome A
  refused : Outcome A
  faulted : Outcome A

infixl 5 ◌>>=◌
abbrev pub ◌>>=◌ : {A B : Type 0} → Outcome A → (A → Outcome B) → Outcome B
accepted a >>= f = f a
refused >>= f = refused
faulted >>= f = faulted

-- PARAM_MAX_LEN, and the size of `encryption_str`
abbrev pub param_max_len : ℕ
param_max_len = 1024

abbrev pub encryption_len : ℕ
encryption_len = 2

abbrev pub key_appid : Bytes
key_appid = b'a' ∷ b'p' ∷ b'p' ∷ b'i' ∷ b'd' ∷ []

abbrev pub key_channel : Bytes
key_channel = b'c' ∷ b'h' ∷ b'a' ∷ b'n' ∷ b'n' ∷ b'e' ∷ b'l' ∷ []

abbrev pub key_abr : Bytes
key_abr = b'a' ∷ b'b' ∷ b'r' ∷ []

abbrev pub key_uid : Bytes
key_uid = b'u' ∷ b'i' ∷ b'd' ∷ []

abbrev pub key_enc : Bytes
key_enc = b'e' ∷ b'n' ∷ b'c' ∷ []

abbrev pub key_dvbr : Bytes
key_dvbr = b'd' ∷ b'v' ∷ b'b' ∷ b'r' ∷ []

abbrev pub key_dwidth : Bytes
key_dwidth = b'd' ∷ b'w' ∷ b'i' ∷ b'd' ∷ b't' ∷ b'h' ∷ []

abbrev pub key_dheight : Bytes
key_dheight = b'd' ∷ b'h' ∷ b'e' ∷ b'i' ∷ b'g' ∷ b'h' ∷ b't' ∷ []

abbrev pub key_dfps : Bytes
key_dfps = b'd' ∷ b'f' ∷ b'p' ∷ b's' ∷ []

abbrev pub key_dual : Bytes
key_dual = b'd' ∷ b'u' ∷ b'a' ∷ b'l' ∷ []

abbrev pub key_jb : Bytes
key_jb = b'j' ∷ b'b' ∷ []

abbrev pub text_true : Bytes
text_true = b't' ∷ b'r' ∷ b'u' ∷ b'e' ∷ []

-- an argument without which the function returns NULL
abbrev pub needed : Arg → Outcome Bytes
needed missing = refused
needed (found v) = accepted v
needed overrun = faulted

-- an argument that has a default
abbrev pub optional : {A : Type 0} → A → (Bytes → A) → Arg → Outcome A
optional d f missing = accepted d
optional d f (found v) = accepted (f v)
optional d f overrun = faulted

-- the loop over `appid`, with a round for each of its bytes
abbrev pub unescaped : Option Bytes → Outcome Bytes
unescaped none = faulted
unescaped (some appid) = accepted appid

-- the arguments behind the two that are needed, in the order of the code
unfoldable pub parse_options : Bytes → Bytes → Bytes → Outcome Settings
parse_options args appid channel = do
  abr ← optional (pos 50000) atoi (get_arg_value args key_abr param_max_len)
  uid ← optional [] (λ v. v) (get_arg_value args key_uid param_max_len)
  enc ← optional (pos 0) atoi (get_arg_value args key_enc encryption_len)
  dvbr ← optional (pos 80000) atoi (get_arg_value args key_dvbr param_max_len)
  dwidth ← optional (pos 360) atoi (get_arg_value args key_dwidth param_max_len)
  dheight ← optional (pos 180) atoi (get_arg_value args key_dheight param_max_len)
  dfps ← optional (pos 15) atoi (get_arg_value args key_dfps param_max_len)
  dual ← optional false (λ v. starts_with text_true v) (get_arg_value args key_dual param_max_len)
  jb ← optional (pos 4) atoi (get_arg_value args key_jb param_max_len)
  accepted (record {
    appid = appid;
    channel = channel;
    user_id = uid;
    audio_bitrate = abr;
    enable_enc = enc;
    dual_video_bitrate = dvbr;
    dual_video_width = dwidth;
    dual_video_height = dheight;
    dual_fps = dfps;
    enable_dual = dual;
    video_jb = jb;
  })

unfoldable pub parse_settings : Bytes → Outcome Settings
parse_settings args = do
  escaped ← needed (get_arg_value args key_appid param_max_len)
  appid ← unescaped (replace_forward_slash (length escaped + 1) escaped)
  channel ← needed (get_arg_value args key_channel param_max_len)
  parse_options args appid channel

-- The arguments of `agora_init`, in the widths of its parameters.
pub record AgoraArgs : Type 0 where
  pub in_app_id : Bytes
  pub in_ch_id : Bytes
  pub in_user_id : Bytes
  pub enable_enc : Bool
  pub enable_dual : Bool
  pub dual_vbr : ℕ
  pub dual_width : ℕ
  pub dual_height : ℕ
  pub min_video_jb : ℕ
  pub dfps : ℕ

-- an `int` as a `bool`
abbrev pub is_set : ℤ → Bool
is_set (pos n) = not (n == 0)
is_set (negsuc n) = true

unfoldable pub agora_args : Settings → AgoraArgs
agora_args s = record {
  in_app_id = s.appid;
  in_ch_id = s.channel;
  in_user_id = s.user_id;
  enable_enc = is_set s.enable_enc;
  enable_dual = s.enable_dual;
  dual_vbr = to_unsigned 32 s.dual_video_bitrate;
  dual_width = to_unsigned 16 s.dual_video_width;
  dual_height = to_unsigned 16 s.dual_video_height;
  min_video_jb = to_unsigned 16 s.video_jb;
  dfps = to_unsigned 16 s.dual_fps;
}
