-- ===== src/Video/Convert.antt =====
-- `avcc_to_annexb`: a video message of length-prefixed NAL units to one Annex B frame.
pub mod Bounds
pub mod Loop
use server_side_custom_video.Prelude.{
  ℕ, zero, suc, ◌+◌, ◌-◌, ◌%◌, ◌^◌, Bool, true, false, ◌&&◌, ◌||◌, List, [], ◌∷◌, ◌++◌, Option,
  none, some, Bytes, ltb, leb, ◌==◌, if◌then◌else◌, length,
}
use server_side_custom_video.Chain.{Chain, payload, custom_copy}
use server_side_custom_video.Nginx.{Nginx, CodecCtx}
use server_side_custom_video.Words.{load}
use server_side_custom_video.Video.Out.{OutBuf, room, put, fresh_out, append_aud}
use server_side_custom_video.Video.ParamSets.{byte, append_sps_pps}

-- A return with no frame: NGX_OK or NGX_ERROR, with `*out_buffer` untouched.
pub data Status : Type 0 where
  ok error : Status

pub data Flow (A : Type 0) : Type 0 where
  go : A → Flow A
  leave : Status → Flow A

infixl 5 ◌>>=◌ ◌>>◌
abbrev pub ◌>>=◌ : {A B : Type 0} → Flow A → (A → Flow B) → Flow B
go a >>= f = f a
leave r >>= f = leave r

abbrev pub ◌>>◌ : {A B : Type 0} → Flow A → Flow B → Flow B
m >> k = m >>= λ _. k

-- `if (… != NGX_OK) return r`
abbrev pub or_leave : {A : Type 0} → Option A → Status → Flow A
or_leave none r = leave r
or_leave (some a) r = go a

-- the variables of the loop
pub record Conv : Type 0 where
  pub src : Chain
  pub out : OutBuf
  pub aud_sent : Bool
  pub sps_pps_sent : Bool

-- `if (!aud_sent) switch (nal_type) …`. A failure of `append_aud` is only logged.
unfoldable pub add_aud : ℕ → Conv → Conv
add_aud nal_type s =
    if s.aud_sent
    then s
    else if nal_type == 1 || nal_type == 5 || nal_type == 6
    then record s {
      out = elim (append_aud s.out) [ none ↦ s.out | some out ↦ out ];
      aud_sent = true;
    }
    else if nal_type == 9
    then record s { aud_sent = true }
    else s

-- `*out.last++` for the AnnexB prefix and the NAL header; the first prefix has four bytes.
abbrev pub start_code : Bytes → Bytes
start_code [] = 0 ∷ 0 ∷ 0 ∷ 1 ∷ []
start_code (_ ∷ _) = 0 ∷ 0 ∷ 1 ∷ []

-- the part under `/* NAL body */`; `len` counts the header too
unfoldable pub copy_body : ℕ → Conv → Flow Conv
copy_body len s = if ltb (room s.out) len then leave ok else do
  (body, src) ← or_leave (custom_copy (len - 1) s.src) error
  go (record s { src = src; out = put s.out body })

-- the buffer with the AnnexB prefix and the header of a unit
abbrev pub prefixed : OutBuf → ℕ → OutBuf
prefixed o header = put o (start_code o.written ++ header ∷ [])

-- from the AnnexB prefix on: one NAL unit of `len` bytes, its header read already
unfoldable pub write_nal : ℕ → ℕ → Conv → Flow Conv
write_nal len header s =
    if ltb (room s.out) 5
    then leave ok
    else copy_body len (record s { out = prefixed s.out header })

-- `in == NULL`
abbrev pub at_end : Chain → Bool
at_end [] = true
at_end (_ ∷ _) = false

-- the header of the message: the frame type (read and not used), the packet type and the
-- decoder delay
unfoldable pub read_header : Chain → Flow Chain
read_header c = do
  (_, c) ← or_leave (custom_copy 1 c) error
  (htype, c) ← or_leave (custom_copy 1 c) error
  if byte htype == 1 then (do (_, c) ← or_leave (custom_copy 3 c) error; go c) else leave ok

module _ (ngx : Nginx) (codec : Option CodecCtx) where
  -- the second switch. A failure of `append_sps_pps` is only logged.
  unfoldable pub add_sps_pps : ℕ → Conv → Conv
  add_sps_pps nal_type s =
      if nal_type == 1
      then record s { sps_pps_sent = false }
      else if nal_type == 5
      then if s.sps_pps_sent
        then s
        else record s { out = (append_sps_pps ngx codec s.out).1; sps_pps_sent = true }
      else s

  -- the loop's body once the header of the unit is read: SPS, PPS and AUD units are skipped
  unfoldable pub place_nal : ℕ → ℕ → Conv → Flow Conv
  place_nal len header s =
      let nal_type = header % 2 ^ 5 in
      if leb 7 nal_type && leb nal_type 9
      then (do (_, src) ← or_leave (custom_copy (len - 1) s.src) error; go (record s { src = src }))
      else write_nal len header (add_sps_pps nal_type (add_aud nal_type s))

  -- the loop's body once the length is known not to be 0
  unfoldable pub nal_unit : ℕ → Conv → Flow Conv
  nal_unit len s = do
    (header, src) ← or_leave (custom_copy 1 s.src) ok
    place_nal len (byte header) (record s { src = src })

  -- the loop's body
  unfoldable pub step : ℕ → Conv → Flow Conv
  step nal_bytes s = do
    (rlen, src) ← or_leave (custom_copy nal_bytes s.src) ok
    let len = load (ngx.rmemcpy rlen)
    let s' = record s { src = src }
    if len == 0 then go s' else nal_unit len s'

  -- `while (in)`, with fuel for the rounds
  unfoldable pub loop : ℕ → ℕ → Conv → Option (Flow OutBuf)
  loop zero nal_bytes s = none
  loop (suc fuel) nal_bytes s = elim (at_end s.src) [
    | true ↦ some (go s.out)
    | false ↦ elim (step nal_bytes s) [ leave r ↦ some (leave r) | go s' ↦ loop fuel nal_bytes s' ]
  ]

-- The loop is given as many rounds as the message has bytes, and one.
abbrev pub rounds : Chain → ℕ
rounds c = length (payload c) + 1

-- the state in front of the loop
abbrev pub start : Chain → Conv
start src = record { src = src; out = fresh_out; aud_sent = false; sps_pps_sent = false }

-- what follows the header of the message
unfoldable pub after_header : Nginx → CodecCtx → Flow Chain → Option (Flow OutBuf)
after_header ngx codec (leave r) = some (leave r)
after_header ngx codec (go src) = loop ngx (some codec) (rounds src) codec.avc_nal_bytes (start src)

-- the conversion for a codec context that passed the checks
abbrev pub convert : Nginx → CodecCtx → Chain → Option (Flow OutBuf)
convert ngx codec c = after_header ngx codec (read_header c)

-- `malloc` and `memcpy` of what was written
abbrev pub frame_of : Option (Flow OutBuf) → Option (Flow Bytes)
frame_of none = none
frame_of (some (leave r)) = some (leave r)
frame_of (some (go out)) = some (go out.written)

-- `avcc_to_annexb`: the frame that `*out_buffer` gets and whose length is returned, or a return
-- with no frame; none if the loop runs out of fuel.
unfoldable pub avcc_to_annexb : Nginx → Option CodecCtx → ℕ → Chain → Option (Flow Bytes)
avcc_to_annexb ngx none mlen c = some (leave ok)
avcc_to_annexb ngx (some codec) mlen c =
    if at_end codec.avc_header || ltb mlen 1
    then some (leave ok)
    else if codec.video_codec_id == ngx.video_h264
    then frame_of (convert ngx codec c)
    else some (leave ok)
