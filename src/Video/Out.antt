-- ===== src/Video/Out.antt =====
-- The output buffer `ngx_buf_t out` over the static `buffer`, and `append_aud`.
use server_side_custom_video.Prelude.{
  ℕ, ◌+◌, ◌-◌, ◌*◌, ◌≤◌, ◌≡◌, arith, length-append, [], ◌∷◌, ◌++◌, Option, none, some, Bytes, ltb,
  if◌then◌else◌, length,
}

-- NGX_RTMP_HLS_BUFSIZE
abbrev pub hls_bufsize : ℕ
hls_bufsize = 1024 * 1024

-- `written` is what stands from `out.start` (which `out.pos` stays at) to `out.last`; `size` is
-- `out.end - out.start`.
pub record OutBuf : Type 0 where
  pub written : Bytes
  pub size : ℕ

-- `out.end - out.last`
abbrev pub room : OutBuf → ℕ
room o = o.size - length o.written

-- bytes stored at `out.last`, which moves behind them
abbrev pub put : OutBuf → Bytes → OutBuf
put o bs = record o { written = o.written ++ bs }

-- `out` at the top of the conversion
abbrev pub fresh_out : OutBuf
fresh_out = record { written = []; size = hls_bufsize }

abbrev pub aud_nal : Bytes
aud_nal = 0x00 ∷ 0x00 ∷ 0x00 ∷ 0x01 ∷ 0x09 ∷ 0xf0 ∷ []

-- `append_aud`: none is NGX_ERROR, which leaves the buffer alone.
unfoldable pub append_aud : OutBuf → Option OutBuf
append_aud o = if ltb o.size (length o.written + length aud_nal) then none else some (put o aud_nal)

-- A buffer of `n` bytes that holds no more than that.
abbrev pub IsWithin : ℕ → OutBuf → Type 0
IsWithin n o = (o.size ≡ n) × (length o.written ≤ n)

pub put-IsWithin :
    (n : ℕ) (o : OutBuf) (bs : Bytes)
    → IsWithin n o
    → length o.written + length bs ≤ n
    → IsWithin n (put o bs)
put-IsWithin n o bs w h = omega (arith, length-append o.written bs)

pub append_aud-IsWithin :
    (n : ℕ) (o o' : OutBuf) → IsWithin n o → append_aud o ≡ some o' → IsWithin n o'
unfolding append_aud
append_aud-IsWithin n o o' w e = ground (arith, put-IsWithin n o aud_nal w)
