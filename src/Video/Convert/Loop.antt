-- ===== src/Video/Convert/Loop.antt =====
-- The loop of `avcc_to_annexb`: it ends, and no frame is longer than the static buffer.
use server_side_custom_video.Prelude.{
  ℕ, zero, suc, ◌≤◌, ◌<◌, ◌≡◌, ◌⊎◌, refl, sym, ap, subst, ◌∙◌, true, false, ◌||◌, Option, none,
  some, Bytes, arith, length, ltb, ◌==◌, Bool-cases, inl, inr,
}
use server_side_custom_video.Chain.{Chain, payload}
use server_side_custom_video.Nginx.{Nginx, CodecCtx}
use server_side_custom_video.Video.Out.{OutBuf, hls_bufsize, IsWithin}
use server_side_custom_video.Video.Convert.{
  Flow, go, leave, Status, ok, Conv, step, loop, at_end, read_header, rounds, start, after_header,
  convert, frame_of, avcc_to_annexb,
}
use server_side_custom_video.Video.Convert.Bounds.{step-Advances}

pub Flow-cases : {A : Type 0} (m : Flow A) → ((r : Status) × (m ≡ leave r)) ⊎ ((a : A) × (m ≡ go a))
Flow-cases (leave r) = inl (r, refl)
Flow-cases (go a) = inr (a, refl)

module _ (ngx : Nginx) (codec : Option CodecCtx) (nal_bytes : ℕ) where
  -- the three ways of a round
  pub loop-at_end :
      (fuel : ℕ) (s : Conv)
      → at_end s.src ≡ true
      → loop ngx codec (suc fuel) nal_bytes s ≡ some (go s.out)
  unfolding loop
  loop-at_end fuel s e = rw (e, loop) refl

  pub loop_leave :
      (fuel : ℕ) (s : Conv) {r : Status}
      → at_end s.src ≡ false
      → step ngx codec nal_bytes s ≡ leave r
      → loop ngx codec (suc fuel) nal_bytes s ≡ some (leave r)
  unfolding loop
  loop_leave fuel s e q = rw (e, loop, q) refl

  pub loop_next :
      (fuel : ℕ) (s : Conv) {s' : Conv}
      → at_end s.src ≡ false
      → step ngx codec nal_bytes s ≡ go s'
      → loop ngx codec (suc fuel) nal_bytes s ≡ loop ngx codec fuel nal_bytes s'
  unfolding loop
  loop_next fuel s e q = rw (e, loop, q) refl

  loop-IsWithin :
      (n fuel : ℕ) (s : Conv) (o : OutBuf)
      → IsWithin n s.out
      → loop ngx codec fuel nal_bytes s ≡ some (go o)
      → IsWithin n o
  unfolding loop
  loop-IsWithin n zero s o w e = cc
  loop-IsWithin n (suc fuel) s o w e = elim (Bool-cases (at_end s.src)) [
    | inl last ↦ subst (IsWithin n) (cc (loop-at_end fuel s last, e)) w
    | inr more ↦ elim (Flow-cases (step ngx codec nal_bytes s)) [
      | inl (r, q) ↦ cc (loop_leave fuel s more q, e)
      | inr (s', q) ↦
          loop-IsWithin n fuel s' o ((step-Advances ngx codec n nal_bytes s s' q).within w)
            (sym (loop_next fuel s more q) ∙ e)
    ]
  ]

  -- A loop with a round for every byte, and one, ends, if a length takes a byte at least.
  loop-ends :
      (fuel : ℕ) (s : Conv)
      → 0 < nal_bytes
      → length (payload s.src) < fuel
      → (r : Flow OutBuf) × (loop ngx codec fuel nal_bytes s ≡ some r)
  loop-ends zero s h m = absurd (omega arith)
  loop-ends (suc fuel) s h m = elim (Bool-cases (at_end s.src)) [
    | inl last ↦ (go s.out, loop-at_end fuel s last)
    | inr more ↦ elim (Flow-cases (step ngx codec nal_bytes s)) [
      | inl (r, q) ↦ (leave r, loop_leave fuel s more q)
      | inr (s', q) ↦
          let a = step-Advances ngx codec 0 nal_bytes s s' q in
          let (r, e) = loop-ends fuel s' h (omega (arith, a.consumed)) in
          (r, loop_next fuel s more q ∙ e)
    ]
  ]

after_header-ends :
    (ngx : Nginx) (codec : CodecCtx) (m : Flow Chain)
    → 0 < codec.avc_nal_bytes
    → (r : Flow OutBuf) × (after_header ngx codec m ≡ some r)
unfolding after_header
after_header-ends ngx codec (leave r) h = (leave r, refl)
after_header-ends ngx codec (go src) h =
    loop-ends ngx (some codec) codec.avc_nal_bytes (rounds src) (start src) h (omega arith)

after_header-IsWithin :
    (ngx : Nginx) (codec : CodecCtx) (m : Flow Chain) (o : OutBuf)
    → after_header ngx codec m ≡ some (go o)
    → IsWithin hls_bufsize o
unfolding after_header
after_header-IsWithin ngx codec (leave r) o e = cc
after_header-IsWithin ngx codec (go src) o e =
    loop-IsWithin ngx (some codec) codec.avc_nal_bytes hls_bufsize (rounds src) (start src) o
      (omega arith) e

frame_of-eq-go :
    (m : Option (Flow OutBuf)) (frame : Bytes)
    → frame_of m ≡ some (go frame)
    → (o : OutBuf) × (m ≡ some (go o)) × (o.written ≡ frame)
frame_of-eq-go none frame e = cc
frame_of-eq-go (some (leave r)) frame e = cc
frame_of-eq-go (some (go o)) frame e = (o, refl, cc)

frame_of-some :
    (m : Option (Flow OutBuf)) {r : Flow OutBuf}
    → m ≡ some r
    → (f : Flow Bytes) × (frame_of m ≡ some f)
frame_of-some none e = cc
frame_of-some (some (leave r)) e = (leave r, refl)
frame_of-some (some (go o)) e = (go o.written, refl)

-- `avcc_to_annexb` returns for every message and every codec context whose NAL length field has a
-- byte at least: the loop's fuel is enough.
pub avcc_to_annexb-ends :
    (ngx : Nginx) (codec : CodecCtx) (mlen : ℕ) (c : Chain)
    → 0 < codec.avc_nal_bytes
    → (r : Flow Bytes) × (avcc_to_annexb ngx (some codec) mlen c ≡ some r)
unfolding avcc_to_annexb
avcc_to_annexb-ends ngx codec mlen c h = elim (Bool-cases (at_end codec.avc_header || ltb mlen 1)) [
  | inl skip ↦ (leave ok, rw skip refl)
  | inr video ↦ elim (Bool-cases (codec.video_codec_id == ngx.video_h264)) [
    | inl h264 ↦
        rw (video, h264)
          (frame_of-some (convert ngx codec c) (after_header-ends ngx codec (read_header c) h).1)
    | inr other ↦ (leave ok, rw (video, other) refl)
  ]
]

-- a frame comes out of the conversion
pub avcc_to_annexb-eq-go :
    (ngx : Nginx) (codec : CodecCtx) (mlen : ℕ) (c : Chain) (frame : Bytes)
    → avcc_to_annexb ngx (some codec) mlen c ≡ some (go frame)
    → (o : OutBuf) × (convert ngx codec c ≡ some (go o)) × (o.written ≡ frame)
unfolding avcc_to_annexb
avcc_to_annexb-eq-go ngx codec mlen c frame e =
    elim (Bool-cases (at_end codec.avc_header || ltb mlen 1)) [
      | inl skip ↦ cc (rw skip at e)
      | inr video ↦ elim (Bool-cases (codec.video_codec_id == ngx.video_h264)) [
        | inl h264 ↦ frame_of-eq-go (convert ngx codec c) frame (rw (video, h264) at e)
        | inr other ↦ cc (rw (video, other) at e)
      ]
    ]

-- No frame is longer than the static buffer that it is assembled in, whatever the message, the
-- codec headers and the lengths in them.
pub length-avcc_to_annexb :
    (ngx : Nginx) (codec : Option CodecCtx) (mlen : ℕ) (c : Chain) (frame : Bytes)
    → avcc_to_annexb ngx codec mlen c ≡ some (go frame)
    → length frame ≤ hls_bufsize
unfolding avcc_to_annexb
length-avcc_to_annexb ngx none mlen c frame e = cc
length-avcc_to_annexb ngx (some codec) mlen c frame e =
    let (o, q, w) = avcc_to_annexb-eq-go ngx codec mlen c frame e in
    omega (arith, after_header-IsWithin ngx codec (read_header c) o q, ap length w)
