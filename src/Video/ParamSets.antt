-- ===== src/Video/ParamSets.antt =====
-- `append_sps_pps`: the parameter sets of the AVC decoder configuration, in Annex B form.

pub mod Laws
pub mod Sets
use server_side_custom_video.Prelude.{
  ℕ, zero, suc, ◌%◌, ◌^◌, Bool, true, false, List, [], ◌∷◌, Option, none, some, Bytes, ltb,
  if◌then◌else◌, get_or,
}
use server_side_custom_video.Chain.{Chain, custom_copy}
use server_side_custom_video.Nginx.{Nginx, CodecCtx}
use server_side_custom_video.Words.{load}
use server_side_custom_video.Video.Out.{OutBuf, room, put}

-- the locals `p`, `in` (one position) and the buffer `out`
pub record Copying : Type 0 where
  pub src : Chain
  pub out : OutBuf

-- A step either goes on with a value or leaves with NGX_ERROR. What was stored in `out` before an
-- error stays there: the caller goes on with that buffer.
abbrev pub Step : Type 0 → Type 0
Step A = Copying → Option A × Copying

abbrev pub resume : {A B : Type 0} → (A → Step B) → Option A × Copying → Option B × Copying
resume f (none, s) = (none, s)
resume f (some a, s) = f a s

infixl 5 ◌>>=◌ ◌>>◌
unfoldable pub ◌>>=◌ : {A B : Type 0} → Step A → (A → Step B) → Step B
◌>>=◌ m f s = resume f (m s)

abbrev pub ◌>>◌ : {A B : Type 0} → Step A → Step B → Step B
m >> k = m >>= λ _. k

unfoldable pub done : Step (Unit {0})
done s = (some tt, s)

-- `ngx_custom_copy(s, dst, &p, n, &in)`
unfoldable pub fetch : ℕ → Step Bytes
fetch n s = elim (custom_copy n s.src) [
  | none ↦ (none, s)
  | some (bs, src) ↦ (some bs, record s { src = src })
]

-- `if (out->end - out->last < n) return NGX_ERROR`
unfoldable pub need_room : ℕ → Step (Unit {0})
need_room n s = (if ltb (room s.out) n then none else some tt, s)

unfoldable pub store : Bytes → Step (Unit {0})
store bs s = (some tt, record s { out = put s.out bs })

-- the one byte that a copy of one byte returns
abbrev pub byte : Bytes → ℕ
byte bs = get_or bs 0 0

abbrev pub long_prefix : Bytes
long_prefix = 0 ∷ 0 ∷ 0 ∷ 1 ∷ []

-- what the function returns, and the buffer as it then is
abbrev pub finish : Option (Unit {0}) × Copying → Bool × OutBuf
finish (none, s) = (false, s.out)
finish (some _, s) = (true, s.out)

-- one parameter set of `len` bytes: its AnnexB prefix and its body
unfoldable pub copy_set : ℕ → Step (Unit {0})
copy_set len = do need_room 4; store long_prefix; need_room len; body ← fetch len; store body

module _ (ngx : Nginx) where
  -- the body of the inner loop
  unfoldable pub copy_nal : Step (Unit {0})
  copy_nal = do rlen ← fetch 2; copy_set (load (ngx.rmemcpy rlen))

  -- `for (; nnals; --nnals)`. `nnals` is an `int8_t`: a count above 127 is negative in it, and the
  -- decrements go round through -128 to 0, so that the rounds are the byte's unsigned value.
  unfoldable pub copy_nals : ℕ → Step (Unit {0})
  copy_nals zero = done
  copy_nals (suc nnals) = copy_nal >> copy_nals nnals

  -- The outer loop runs twice, and reads the PPS count between the rounds. Only the SPS count is
  -- masked, by 0x1f.
  unfoldable pub copy_param_sets : Step (Unit {0})
  copy_param_sets = do
    _ ← fetch 10
    sps ← fetch 1
    copy_nals (byte sps % 2 ^ 5)
    pps ← fetch 1
    copy_nals (byte pps)

  unfoldable pub append_header : Chain → OutBuf → Bool × OutBuf
  append_header [] out = (false, out)
  append_header (b ∷ next) out = finish (copy_param_sets (record { src = b ∷ next; out = out }))

  unfoldable pub append_sps_pps : Option CodecCtx → OutBuf → Bool × OutBuf
  append_sps_pps none out = (false, out)
  append_sps_pps (some codec_ctx) out = append_header codec_ctx.avc_header out
