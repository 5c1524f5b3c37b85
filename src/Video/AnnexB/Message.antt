-- ===== src/Video/AnnexB/Message.antt =====
-- `avcc_to_annexb` on whole messages, against the description of `Video/AnnexB.antt`.
use native.Mathlib.Nat.{pow-suc, one-le-pow}
use server_side_custom_video.Prelude.{
  ℕ, zero, suc, ◌^◌, ◌≤◌, ◌<◌, ◌≡◌, refl, sym, ap, ◌∙◌, false, List, [], ◌∷◌, ◌++◌, some, Bytes,
  arith, All, length, append-nil, le→ltb, ==_iff,
}
use server_side_custom_video.Chain.{Chain, payload}
use server_side_custom_video.Chain.Copy.{IsSettled, custom_copy-Reads}
use server_side_custom_video.Nginx.{Nginx, CodecCtx, Reverses}
use server_side_custom_video.Words.{big_endian}
use server_side_custom_video.Video.Out.{hls_bufsize}
use server_side_custom_video.Video.ParamSets.Sets.{
  IsConfig, IsConfig-pos, printed_sets, append_sps_pps_lem,
}
use server_side_custom_video.Video.Convert.{
  Status, go, leave, loop, at_end, read_header, rounds, start, after_header, frame_of,
  avcc_to_annexb,
}
use server_side_custom_video.Video.AnnexB.{Item, avcc, IsCoded, pieces, prints}
use server_side_custom_video.Video.AnnexB.Frame.{Comes, loop-Comes, Comes-ends, Comes-lost}
use server_side_custom_video.Video.AnnexB.Unit.{Appends}

-- A codec context for H.264 with these parameter sets, and with a NAL length field.
pub record IsH264 (ngx : Nginx) (sps pps : List Bytes) (codec : CodecCtx) : Type 0 where
  pub h264 : codec.video_codec_id ≡ ngx.video_h264
  pub field : 0 < codec.avc_nal_bytes
  pub config : IsConfig sps pps (payload codec.avc_header)

-- A coded picture: frame type, packet type 1, three bytes of decoder delay, and the units.
abbrev pub picture : ℕ → Bytes → Bytes → Bytes
picture fmt delay units = fmt ∷ 1 ∷ (delay ++ units)

read_header_lem :
    (fmt : ℕ) (delay units : Bytes) (c : Chain)
    → length delay ≡ 3
    → payload c ≡ picture fmt delay units
    → (src : Chain) × (read_header c ≡ go src) × (payload src ≡ units) × IsSettled src
unfolding read_header
read_header_lem fmt delay units c l e =
    let a = custom_copy-Reads (fmt ∷ []) (1 ∷ (delay ++ units)) 1 c e refl (omega arith) in
    let b = custom_copy-Reads (1 ∷ []) (delay ++ units) 1 a.next a.behind refl (omega arith) in
    let d = custom_copy-Reads delay units 3 b.next b.behind l (omega arith) in
    (d.next, rw (a.result, b.result, d.result) refl, d.behind, d.settled)

one-lt-pow : (k : ℕ) → 0 < k → 1 < 256 ^ k
one-lt-pow zero h = absurd (omega arith)
one-lt-pow (suc k) h = omega (arith, pow-suc 256 k, one-le-pow k 256 (omega arith))

at_end_header : (c : Chain) → 0 < length (payload c) → at_end c ≡ false
at_end_header [] h = absurd (omega arith)
at_end_header (b ∷ next) h = refl

-- the bytes of the frame for a message
abbrev pub annexb : List Bytes → List Bytes → List Item → Bytes
annexb sps pps items = prints (printed_sets sps ++ printed_sets pps) [] (pieces false false items)

module _ (ngx : Nginx) (reverses : Reverses ngx) (sps pps : List Bytes) (codec : CodecCtx)
    (v : IsH264 ngx sps pps codec) (mlen : ℕ) (m : 1 ≤ mlen) where
  -- past the checks and the header of the message
  enters_loop :
      (c src : Chain)
      → read_header c ≡ go src
      → avcc_to_annexb ngx (some codec) mlen c
        ≡ frame_of (loop ngx (some codec) (rounds src) codec.avc_nal_bytes (start src))
  unfolding avcc_to_annexb after_header
  enters_loop c src q =
      rw
        (
          at_end_header codec.avc_header (IsConfig-pos v.config),
          le→ltb mlen 1 m,
          (==_iff codec.video_codec_id ngx.video_h264).1 v.h264,
        )
        (ap (λ h. frame_of (after_header ngx codec h)) q)

  appends : Appends ngx (some codec) (printed_sets sps ++ printed_sets pps)
  appends o w = append_sps_pps_lem ngx reverses sps pps codec o v.config w

  -- the loop over the units
  runs :
      (items : List Item) (tail : Bytes) (src : Chain)
      → All (IsCoded codec.avc_nal_bytes) items
      → payload src ≡ avcc codec.avc_nal_bytes items ++ tail
      → IsSettled src
      → length (annexb sps pps items) < hls_bufsize
      → Comes ngx reverses
          (some codec)
          (printed_sets sps ++ printed_sets pps)
          appends
          codec.avc_nal_bytes
          v.field
          (rounds src)
          (start src)
          (annexb sps pps items)
          tail
  runs items tail src good e d f =
      loop-Comes ngx reverses (some codec) (printed_sets sps ++ printed_sets pps) appends
        codec.avc_nal_bytes v.field items tail (rounds src) (start src) good e d (omega arith)
        (omega arith)

-- A well-formed message of an H.264 stream, however it is cut into buffers, is converted to the
-- Annex B frame that `annexb` describes, if that is shorter than the static buffer.
pub avcc_to_annexb_lem :
    (ngx : Nginx) (sps pps : List Bytes) (codec : CodecCtx) (items : List Item) (fmt : ℕ)
    (delay : Bytes) (mlen : ℕ) (c : Chain)
    → Reverses ngx
    → IsH264 ngx sps pps codec
    → 1 ≤ mlen
    → All (IsCoded codec.avc_nal_bytes) items
    → length delay ≡ 3
    → payload c ≡ picture fmt delay (avcc codec.avc_nal_bytes items)
    → length (annexb sps pps items) < hls_bufsize
    → avcc_to_annexb ngx (some codec) mlen c ≡ some (go (annexb sps pps items))
avcc_to_annexb_lem ngx sps pps codec items fmt delay mlen c reverses v m good l e f =
    let k = codec.avc_nal_bytes in
    let (src, q, b, d) = read_header_lem fmt delay (avcc k items) c l e in
    let h =
      runs ngx reverses sps pps codec v mlen m items [] src good
        (b ∙ sym (append-nil (avcc k items))) d f in
    let (o, r, w) =
      Comes-ends ngx reverses (some codec) _ _ k v.field (rounds src) (start src) _ h in
    enters_loop ngx reverses sps pps codec v mlen m c src q
    ∙ ap frame_of r
    ∙ ap (λ x. some (go x)) w

-- In an H.264 stream, a message in any cut into buffers whose last unit is one byte long, behind
-- units that are coded with a body and whose frame would be shorter than the static buffer, gives no
-- frame at all: the copy of the last unit's empty body fails at the end of the chain.
pub avcc_to_annexb-one_byte_unit :
    (ngx : Nginx) (sps pps : List Bytes) (codec : CodecCtx) (items : List Item) (header : ℕ)
    (fmt : ℕ) (delay : Bytes) (mlen : ℕ) (c : Chain)
    → Reverses ngx
    → IsH264 ngx sps pps codec
    → 1 ≤ mlen
    → All (IsCoded codec.avc_nal_bytes) items
    → length delay ≡ 3
    → payload c
      ≡ picture fmt delay
          (avcc codec.avc_nal_bytes items ++ (big_endian codec.avc_nal_bytes 1 ++ header ∷ []))
    → length (annexb sps pps items) < hls_bufsize
    → (r : Status) × (avcc_to_annexb ngx (some codec) mlen c ≡ some (leave r))
avcc_to_annexb-one_byte_unit ngx sps pps codec items header fmt delay mlen c reverses v m good l e
      f =
    let k = codec.avc_nal_bytes in
    let tail = big_endian k 1 ++ header ∷ [] in
    let (src, q, b, d) = read_header_lem fmt delay (avcc k items ++ tail) c l e in
    let h = runs ngx reverses sps pps codec v mlen m items tail src good b d f in
    let (r, w) =
      Comes-lost ngx reverses (some codec) _ _ k v.field (rounds src) header (start src) _
        (one-lt-pow k v.field) h in
    (r, enters_loop ngx reverses sps pps codec v mlen m c src q ∙ ap frame_of w)
