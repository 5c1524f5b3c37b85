-- ===== src/Nginx.antt =====
-- What ngx_agora_helper.c takes from nginx and from nginx-rtmp-module, which are not part of the
-- repository: an interface, with no law of its own. A theorem names the law that it needs.
use server_side_custom_video.Prelude.{ℕ, ◌≡◌, Bool, Bytes, reverse}
use server_side_custom_video.Chain.{Chain}

pub record Nginx : Type 0 where
  -- `ngx_rtmp_rmemcpy(dst, src, n)`: what it writes to `dst` for the `n` bytes of `src`
  pub rmemcpy : Bytes → Bytes
  -- `ngx_rtmp_get_video_frame_type(in)` and NGX_RTMP_VIDEO_KEY_FRAME
  pub get_video_frame_type : Chain → ℕ
  pub video_key_frame : ℕ
  -- `ngx_rtmp_is_codec_header(in)`
  pub is_codec_header : Chain → Bool
  -- NGX_RTMP_VIDEO_H264 and NGX_RTMP_AUDIO_AAC
  pub video_h264 : ℕ
  pub audio_aac : ℕ

-- `ngx_rtmp_rmemcpy` copies in the reverse order.
abbrev pub Reverses : Nginx → Type 0
Reverses ngx = (bs : Bytes) → ngx.rmemcpy bs ≡ reverse bs

-- The fields of `ngx_rtmp_codec_ctx_t` that the helper reads; an empty chain is a NULL header.
pub record CodecCtx : Type 0 where
  pub avc_header : Chain
  pub video_codec_id : ℕ
  pub avc_nal_bytes : ℕ
  pub aac_header : Chain
  pub audio_codec_id : ℕ
  pub sample_rate : ℕ
