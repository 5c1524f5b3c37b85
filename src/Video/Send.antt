-- ===== src/Video/Send.antt =====
-- `ngx_agora_send_video`.
use server_side_custom_video.Prelude.{
  ℕ, ◌≤◌, ◌<◌, ◌≡◌, refl, ap, ◌∙◌, Bool, true, false, Option, none, some, Bytes, ◌==◌, length,
}
use server_side_custom_video.Chain.{Chain}
use server_side_custom_video.Nginx.{Nginx, CodecCtx}
use server_side_custom_video.Video.Out.{hls_bufsize}
use server_side_custom_video.Video.Convert.Loop.{avcc_to_annexb-ends, length-avcc_to_annexb}
use server_side_custom_video.Video.Convert.{Flow, go, leave, avcc_to_annexb}

-- the arguments of a call of `agora_send_video`
pub record VideoCall : Type 0 where
  pub buffer : Bytes
  pub len : ℕ
  pub is_key_frame : Bool
  pub timestamp : ℕ

-- The call that is made, if one is, and the value returned.
unfoldable pub hand_over : Bool → ℕ → Flow Bytes → Option VideoCall × ℕ
hand_over keyframe timestamp (leave _) = (none, 0)
hand_over keyframe timestamp (go frame) = (
  some (record {
    buffer = frame;
    len = length frame;
    is_key_frame = keyframe;
    timestamp = timestamp;
  }),
  length frame,
)

-- `connected` is `ctx != NULL`; NGX_OK is 0. The result is none if the conversion does not end.
unfoldable pub send_video :
    Nginx → Bool → Option CodecCtx → ℕ → ℕ → Chain → Option (Option VideoCall × ℕ)
send_video ngx connected codec mlen timestamp c = elim connected [
  | false ↦ some (none, 0)
  | true ↦ elim (avcc_to_annexb ngx codec mlen c) [
    | none ↦ none
    | some r ↦ some (hand_over (ngx.get_video_frame_type c == ngx.video_key_frame) timestamp r)
  ]
]

-- What the caller of `ngx_agora_send_video` can rely on: with no call of `agora_send_video` the
-- result is 0; with one, the result and the length passed are the frame's, and the frame is no
-- longer than the static buffer.
abbrev pub IsAccounted : Bool → Option VideoCall × ℕ → Type 0
IsAccounted connected (none, n) = n ≡ 0
IsAccounted connected (some call, n) =
    (connected ≡ true) × (n ≡ call.len) × (call.len ≡ length call.buffer) × (call.len ≤ hls_bufsize)

hand_over-IsAccounted :
    (keyframe : Bool) (timestamp : ℕ) (r : Flow Bytes)
    → ((frame : Bytes) → r ≡ go frame → length frame ≤ hls_bufsize)
    → IsAccounted true (hand_over keyframe timestamp r)
unfolding hand_over
hand_over-IsAccounted keyframe timestamp (leave _) h = refl
hand_over-IsAccounted keyframe timestamp (go frame) h = (refl, refl, refl, h frame refl)

-- With a codec context whose NAL length field has a byte at least, `ngx_agora_send_video` returns
-- for every message. It makes at most one call of `agora_send_video`, and none if it is not
-- connected. With no call it returns 0; with one it returns the length passed, which is the
-- frame's and at most the size of the static buffer.
pub send_video-IsAccounted :
    (ngx : Nginx) (connected : Bool) (codec : CodecCtx) (mlen timestamp : ℕ) (c : Chain)
    → 0 < codec.avc_nal_bytes
    → (r : Option VideoCall × ℕ) × (send_video ngx connected (some codec) mlen timestamp c ≡ some r)
      × IsAccounted connected r
unfolding send_video
send_video-IsAccounted ngx false codec mlen timestamp c h = ((none, 0), refl, refl)
send_video-IsAccounted ngx true codec mlen timestamp c h =
    let (r, e) = avcc_to_annexb-ends ngx codec mlen c h in
    let key = ngx.get_video_frame_type c == ngx.video_key_frame in
    (
      hand_over key timestamp r,
      rw (e, send_video) refl,
      hand_over-IsAccounted key timestamp r
          (λ frame q. length-avcc_to_annexb ngx (some codec) mlen c frame (e ∙ ap some q)),
    )
