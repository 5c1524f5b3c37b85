-- ===== src/Audio/Send.antt =====
-- ngx_agora_helper.c: `allocate_buffer`, `ngx_flush_audio` and `ngx_agora_send_audio`.
pub mod Laws
pub mod Whole
use server_side_custom_video.Prelude.{
  ℕ, ◌+◌, ◌-◌, ◌*◌, Bool, true, false, not, ◌||◌, List, [], ◌∷◌, ◌++◌, Option, none, some, Bytes,
  ltb, ◌==◌, if◌then◌else◌, length, take, drop, min,
}
use server_side_custom_video.Chain.{Chain}
use server_side_custom_video.Nginx.{Nginx, CodecCtx}
use server_side_custom_video.Audio.Memory.{◌>>=◌}
use server_side_custom_video.Audio.Decode.{Codecs, AudioCall, AudioState, decode_acc_audio}
use server_side_custom_video.Audio.Adts.{AacConfig, parse_aac_header, adts_header}

-- `ngx_buf_t`: the bytes from `start` to `end`, and `pos` and `last` counted from `start`
pub record AudioBuffer : Type 0 where
  pub memory : Bytes
  pub pos : ℕ
  pub last : ℕ

-- the bytes from `pos` to `last`
abbrev pub waiting : AudioBuffer → Bytes
waiting b = take (b.last - b.pos) (drop b.pos b.memory)

-- `allocate_buffer`, for what `ngx_palloc` returns: MAX_AUDIO_BUFFER_SIZE bytes with any content
abbrev pub allocate_buffer : Bytes → AudioBuffer
allocate_buffer memory = record { memory = memory; pos = 0; last = 0 }

-- bytes stored from an index on
abbrev pub overwrite : Bytes → ℕ → Bytes → Bytes
overwrite memory i bs = take i memory ++ (bs ++ drop (i + length bs) memory)

-- the body of the loop: `ngx_cpymem` of what there is room for
abbrev pub copy_buf : Bytes → AudioBuffer → AudioBuffer
copy_buf bs b =
    let bsize = min (length bs) (length b.memory - b.last) in
    record {
      memory = overwrite b.memory b.last (take bsize bs);
      pos = b.pos;
      last = b.last + bsize;
    }

-- `for (; in && b->last < b->end; in = in->next)`
unfoldable pub copy_payload : Chain → AudioBuffer → AudioBuffer
copy_payload [] b = b
copy_payload (bs ∷ next) b =
    let later = copy_payload next (copy_buf bs b) in
    if ltb b.last (length b.memory) then later else b

-- the header in front, unless the codec's header is bad: then the function just returns
abbrev pub add_header : ℕ → ℕ → Option AacConfig → AudioBuffer → AudioBuffer
add_header p size none b = b
add_header p size (some c) b = record {
  memory = overwrite b.memory p (adts_header c size);
  pos = b.pos;
  last = b.last;
}

-- from the test for the header's room on; the header takes 5 free bytes and the payload's first 2
unfoldable pub fill : CodecCtx → ℕ → Chain → AudioBuffer → AudioBuffer
fill codec size c b =
    if ltb (length b.memory) (b.last + 7)
    then b
    else add_header b.last size (parse_aac_header codec.aac_header)
        (copy_payload c (record { memory = b.memory; pos = b.pos; last = b.last + 5 }))

-- whether the buffer has been allocated
abbrev pub buffer_of : Bytes → Option AudioBuffer → AudioBuffer
buffer_of memory none = allocate_buffer memory
buffer_of memory (some b) = b

-- an empty chain is NULL
abbrev pub no_header : Chain → Bool
no_header [] = true
no_header (_ ∷ _) = false

module _ (lib : Codecs) (timestamp : ℕ) (buffer temp : Bytes) where
  -- `ngx_flush_audio`, on a buffer that there is
  unfoldable pub flush_audio :
      AudioBuffer → AudioState lib → Option (List AudioCall × AudioBuffer × AudioState lib)
  flush_audio b st = if b.pos == b.last then some ([], b, st) else do
    r ← decode_acc_audio lib st (waiting b) timestamp buffer temp
    some (r.0, record { memory = b.memory; pos = 0; last = 0 }, r.1)

  -- an `if` around a call of it
  abbrev pub flush_if :
      Bool → AudioBuffer → AudioState lib → Option (List AudioCall × AudioBuffer × AudioState lib)
  flush_if true b st = flush_audio b st
  flush_if false b st = some ([], b, st)

  -- `ngx_agora_send_audio` once the buffer is there
  unfoldable pub send_frame :
      CodecCtx
      → ℕ
      → Chain
      → AudioBuffer
      → AudioState lib
      → Option (List AudioCall × AudioBuffer × AudioState lib)
  send_frame codec mlen c b st =
      let size = mlen - 2 + 7 in
      if ltb (length b.memory) size then some ([], b, st) else do
        (calls, b, st) ← flush_if (ltb b.pos b.last) b st
        (more, b, st) ← flush_if (ltb (length b.memory) (b.last + size)) b st
        some (calls ++ more, fill codec size c b, st)

  abbrev pub keep_buffer :
      List AudioCall × AudioBuffer × AudioState lib
      → List AudioCall × Option AudioBuffer × AudioState lib
  keep_buffer (calls, b, st) = (calls, some b, st)

  -- `ngx_agora_send_audio`; `connected` is that neither context is NULL, `memory` what an allocation
  -- returns. NGX_OK is returned always; none is an access past an array.
  unfoldable pub send_audio :
      Nginx
      → Bool
      → Option CodecCtx
      → ℕ
      → Chain
      → Bytes
      → Option AudioBuffer
      → AudioState lib
      → Option (List AudioCall × Option AudioBuffer × AudioState lib)
  send_audio ngx connected none mlen c memory b st = some ([], b, st)
  send_audio ngx connected (some codec) mlen c memory b st =
      if not connected || ltb mlen 2
      then some ([], b, st)
      else if not (codec.audio_codec_id == ngx.audio_aac)
          || no_header codec.aac_header
          || ngx.is_codec_header c
      then some ([], b, st)
      else do r ← send_frame codec mlen c (buffer_of memory b) st; some (keep_buffer r)
