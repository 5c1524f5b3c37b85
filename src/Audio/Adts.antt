-- ===== src/Audio/Adts.antt =====
-- ngx_agora_helper.c: `ngx_parse_aac_header`, and the ADTS header that `ngx_agora_send_audio` makes.
pub mod Laws
use server_side_custom_video.Prelude.{
  ℕ, ◌+◌, ◌-◌, ◌*◌, ◌/◌, ◌%◌, ◌^◌, ◌||◌, List, [], ◌∷◌, Option, none, some, Bytes, bit_or, ltb,
  ◌==◌, if◌then◌else◌, get_or,
}
use server_side_custom_video.Chain.{Chain, custom_copy}
use server_side_custom_video.Audio.Memory.{◌>>=◌}

-- `objtype`, `srindex` and `chconf`
pub record AacConfig : Type 0 where
  pub objtype : ℕ
  pub srindex : ℕ
  pub chconf : ℕ

-- the low bits of `b0 << 1` and the top bit of `b1`
abbrev pub sample_rate_index : ℕ → ℕ → ℕ
sample_rate_index b0 b1 = bit_or (b0 * 2 % 2 ^ 4) (b1 / 2 ^ 7 % 2)

-- the two bytes of the configuration; all extended profiles are marked as LC, which is 2
unfoldable pub audio_config : ℕ → ℕ → Option AacConfig
audio_config b0 b1 =
    if b0 / 2 ^ 3 == 0 || b0 / 2 ^ 3 == 0x1f
    then none
    else if sample_rate_index b0 b1 == 0x0f
    then none
    else some (record {
      objtype = if ltb 4 (b0 / 2 ^ 3) then 2 else b0 / 2 ^ 3;
      srindex = sample_rate_index b0 b1;
      chconf = b1 / 2 ^ 3 % 2 ^ 4;
    })

-- `ngx_parse_aac_header`, on `codec_ctx->aac_header`; none is NGX_ERROR
unfoldable pub parse_aac_header : Chain → Option AacConfig
parse_aac_header cl = do
  (_, cl) ← custom_copy 2 cl
  (b0, cl) ← custom_copy 1 cl
  (b1, _) ← custom_copy 1 cl
  audio_config (get_or b0 0 0) (get_or b1 0 0)

-- the bytes `p[0]` to `p[6]`, for a frame of `size` bytes
unfoldable pub adts_header : AacConfig → ℕ → Bytes
adts_header c size =
    0xff
    ∷ 0xf1
    ∷ (bit_or (bit_or ((c.objtype - 1) * 2 ^ 6) (c.srindex * 2 ^ 2)) (c.chconf / 2 ^ 2 % 2) % 2 ^ 8)
    ∷ (bit_or (c.chconf % 2 ^ 2 * 2 ^ 6) (size / 2 ^ 11 % 2 ^ 2) % 2 ^ 8)
    ∷ (size / 2 ^ 3 % 2 ^ 8)
    ∷ (bit_or (size * 2 ^ 5) 0x1f % 2 ^ 8)
    ∷ 0xfc
    ∷ []
