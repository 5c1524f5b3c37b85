-- ===== src/Audio/Adts/Laws.antt =====
-- The fields of the ADTS header, read back as ISO/IEC 13818-7 lays them out.
use server_side_custom_video.Prelude.{
  ℕ, zero, suc, ◌+◌, ◌-◌, ◌*◌, ◌/◌, ◌%◌, ◌^◌, ◌≤◌, ◌<◌, ◌≡◌, refl, Bool, true, ◌&&◌, [], ◌∷◌,
  Option, none, some, Bytes, arith, bit_or, ◌==◌, ==_iff,
}
use server_side_custom_video.Audio.Adts.{AacConfig, sample_rate_index, audio_config, adts_header}

-- the fields of the fixed and of the variable header that say what the frame is
pub record AdtsFields : Type 0 where
  pub syncword : ℕ
  pub profile : ℕ
  pub sampling_frequency_index : ℕ
  pub channel_configuration : ℕ
  pub frame_length : ℕ

-- the bits in their order: 12 of syncword, 4, 2 of profile, 4, 1, 3 of channels, 4, 13 of length
unfoldable pub adts_fields : Bytes → Option AdtsFields
adts_fields (a ∷ b ∷ c ∷ d ∷ e ∷ f ∷ g ∷ []) = some (record {
  syncword = a * 16 + b / 16;
  profile = c / 64;
  sampling_frequency_index = c / 4 % 16;
  channel_configuration = c % 2 * 4 + d / 64;
  frame_length = d % 4 * 2048 + e * 8 + f / 32;
})
adts_fields _ = none

all_under : ℕ → (ℕ → Bool) → Bool
all_under zero p = true
all_under (suc n) p = p n && all_under n p

all_under_sound : (n : ℕ) (p : ℕ → Bool) (x : ℕ) → all_under n p ≡ true → x < n → p x ≡ true
unfolding all_under
all_under_sound zero p x h l = absurd (omega arith)
all_under_sound (suc n) p x h l = ground (arith, all_under_sound n p x)

-- numbers with no bit in common: `|` is `+`
high_table : all_under 4 (λ x. all_under 64 (λ y. bit_or (x * 2 ^ 6) y == x * 2 ^ 6 + y)) ≡ true
unfolding all_under
high_table = refl

even_table : all_under 128 (λ x. all_under 2 (λ y. bit_or (x * 2) y == x * 2 + y)) ≡ true
unfolding all_under
even_table = refl

low_table : all_under 2049 (λ x. bit_or (x * 2 ^ 5) 0x1f == x * 2 ^ 5 + 0x1f) ≡ true
unfolding all_under
low_table = refl

bit_or-high : (x y : ℕ) → x < 4 → y < 64 → bit_or (x * 2 ^ 6) y ≡ x * 2 ^ 6 + y
bit_or-high x y h l = (==_iff (bit_or (x * 2 ^ 6) y) (x * 2 ^ 6 + y)).0 (
    all_under_sound 64 (λ y. bit_or (x * 2 ^ 6) y == x * 2 ^ 6 + y) y
      (all_under_sound 4 (λ x. all_under 64 (λ y. bit_or (x * 2 ^ 6) y == x * 2 ^ 6 + y)) x
        high_table h)
      l)

bit_or-even : (x y : ℕ) → x < 128 → y < 2 → bit_or (x * 2) y ≡ x * 2 + y
bit_or-even x y h l = (==_iff (bit_or (x * 2) y) (x * 2 + y)).0 (
    all_under_sound 2 (λ y. bit_or (x * 2) y == x * 2 + y) y
      (all_under_sound 128 (λ x. all_under 2 (λ y. bit_or (x * 2) y == x * 2 + y)) x even_table h)
      l)

bit_or-low : (x : ℕ) → x ≤ 2048 → bit_or (x * 2 ^ 5) 0x1f ≡ x * 2 ^ 5 + 0x1f
bit_or-low x h = (==_iff (bit_or (x * 2 ^ 5) 0x1f) (x * 2 ^ 5 + 0x1f)).0 (
    all_under_sound 2049 (λ x. bit_or (x * 2 ^ 5) 0x1f == x * 2 ^ 5 + 0x1f) x low_table
      (omega (arith, h)))

-- what the configuration's fields are like
record IsAac (c : AacConfig) : Type 0 where
  some_type : 0 < c.objtype
  small_type : c.objtype ≤ 4
  index : c.srindex < 15
  channels : c.chconf < 16

sample_rate_index-lt : (b0 b1 : ℕ) → sample_rate_index b0 b1 < 16
sample_rate_index-lt b0 b1 =
    let e : b0 * 2 % 16 ≡ b0 % 8 * 2 = omega arith in
    let d : b1 / 128 % 2 < 2 = omega arith in
    rw e (omega (arith, bit_or-even (b0 % 8) (b1 / 128 % 2) (omega arith) d, d))

audio_config-IsAac : (b0 b1 : ℕ) (c : AacConfig) → audio_config b0 b1 ≡ some c → IsAac c
unfolding audio_config
audio_config-IsAac b0 b1 c e = record {
  some_type = ground arith;
  small_type = ground arith;
  index = ground (arith, sample_rate_index-lt b0 b1);
  channels = ground arith;
}

-- the sums of the header, split again
packed :
    (o s k size : ℕ)
    → o < 4
    → s < 16
    → size ≤ 2048
    → ((o * 64 + s * 4 + k / 4 % 2) % 256 / 64 ≡ o)
      × ((o * 64 + s * 4 + k / 4 % 2) % 256 / 4 % 16 ≡ s)
      × ((o * 64 + s * 4 + k / 4 % 2) % 256 % 2 * 4 + (k % 4 * 64 + size / 2048 % 4) % 256 / 64
          ≡ k % 8)
      × ((k % 4 * 64 + size / 2048 % 4) % 256 % 4 * 2048
            + size / 8 % 256 * 8
            + (size * 32 + 31) % 256 / 32
          ≡ size)
packed o s k size a b h = (omega arith, omega arith, omega arith, omega arith)

-- The header that is made for a configuration and a frame's size says just these when it is read
-- back by the layout of the standard: the syncword, the profile (the object type less one), the
-- sampling rate's index, the channels in three bits, and the size with the header.
pub adts_header-fields :
    (b0 b1 size : ℕ) (c : AacConfig)
    → audio_config b0 b1 ≡ some c
    → size ≤ 2048
    → adts_fields (adts_header c size)
      ≡ some (record {
        syncword = 0xfff;
        profile = c.objtype - 1;
        sampling_frequency_index = c.srindex;
        channel_configuration = c.chconf % 8;
        frame_length = size;
      })
unfolding adts_fields adts_header
adts_header-fields b0 b1 size c e h =
    rw (third, fourth, bit_or-low size h)
      (let (p, q, r, l) =
          packed (c.objtype - 1) c.srindex c.chconf size (omega (arith, i.small_type))
            (omega (arith, i.index)) h in
        rw (p, q, r, l) refl)
  where
    i : IsAac c
    i = audio_config-IsAac b0 b1 c e

    first_two :
        bit_or ((c.objtype - 1) * 2 ^ 6) (c.srindex * 2 ^ 2)
        ≡ ((c.objtype - 1) * 16 + c.srindex) * 2 * 2
    first_two = omega (
      arith,
      bit_or-high (c.objtype - 1) (c.srindex * 2 ^ 2) (omega (arith, i.small_type))
          (omega (arith, i.index)),
    )

    third :
        bit_or (bit_or ((c.objtype - 1) * 2 ^ 6) (c.srindex * 2 ^ 2)) (c.chconf / 2 ^ 2 % 2)
        ≡ (c.objtype - 1) * 64 + c.srindex * 4 + c.chconf / 4 % 2
    third = rw first_two (
        omega (
          arith,
          bit_or-even (((c.objtype - 1) * 16 + c.srindex) * 2) (c.chconf / 4 % 2)
              (omega (arith, i.small_type, i.index)) (omega arith),
        ))

    fourth :
        bit_or (c.chconf % 2 ^ 2 * 2 ^ 6) (size / 2 ^ 11 % 2 ^ 2)
        ≡ c.chconf % 4 * 64 + size / 2048 % 4
    fourth = bit_or-high (c.chconf % 4) (size / 2048 % 4) (omega arith) (omega arith)
