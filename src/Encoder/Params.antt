-- ===== src/Encoder/Params.antt =====
-- libagorac/helpers/agoraencoder.cpp: `initParams`, over the parameters of libx264.
use server_side_custom_video.Prelude.{ℕ, zero, suc, ◌*◌, ◌/◌, Bool, true, false, if◌then◌else◌}
use server_side_custom_video.Text.{ℤ, pos, negsuc}

-- the fields of `x264_param_t` that are set
pub record Params : Type 0 where
  pub csp : ℕ
  pub width : ℕ
  pub height : ℕ
  pub repeat_headers : ℕ
  pub annexb : ℕ
  pub slice_max_size : ℕ
  pub slice_max_mbs : ℕ
  pub slice_count : ℕ
  pub fps_num : ℕ
  pub fps_den : ℕ
  pub keyint_max : ℕ
  pub intra_refresh : ℕ
  pub threads : ℕ
  pub rc_method : ℕ
  pub vbv_buffer_size : ℕ
  pub vbv_max_bitrate : ℕ
  pub bitrate : ℕ
  pub qp_max : ℤ
  pub qp_min : ℤ
  pub log_level : ℕ
  pub level_idc : ℕ

-- What the function takes from libx264: three constants, and the two calls, for the preset
-- "veryfast" with "zerolatency" and for the profile "baseline".
pub record X264Library : Type 0 where
  pub csp_i420 : ℕ
  pub rc_abr : ℕ
  pub log_error : ℕ
  pub default_preset : Params
  pub apply_profile : Params → Params

-- the members that it reads
pub record EncoderSettings : Type 0 where
  pub target_width : ℕ
  pub target_height : ℕ
  pub bitrate : ℕ
  pub fps : ℕ
  pub q_min : ℤ
  pub q_max : ℤ

abbrev is_positive : ℤ → Bool
is_positive (pos zero) = false
is_positive (pos (suc n)) = true
is_positive (negsuc n) = false

-- an assignment under `if(_qMax>0)` or `if(_qMin>0)`
abbrev pub limit : ℤ → ℤ → ℤ
limit q default = if is_positive q then q else default

-- `initParams`; `m_bitrate/1000.0` is stored in an `int`
unfoldable pub init_params : X264Library → EncoderSettings → Params
init_params x s = x.apply_profile (record x.default_preset {
  csp = x.csp_i420;
  width = s.target_width;
  height = s.target_height;
  repeat_headers = 1;
  annexb = 1;
  slice_max_size = 0;
  slice_max_mbs = 0;
  slice_count = 0;
  fps_num = s.fps * 1000;
  fps_den = 1000;
  keyint_max = s.fps * 1000;
  intra_refresh = 1000;
  threads = 1;
  rc_method = x.rc_abr;
  vbv_buffer_size = s.bitrate / 1000;
  vbv_max_bitrate = s.bitrate / 1000;
  bitrate = s.bitrate / 1000;
  qp_max = limit s.q_max x.default_preset.qp_max;
  qp_min = limit s.q_min x.default_preset.qp_min;
  log_level = x.log_error;
  level_idc = 31;
})
