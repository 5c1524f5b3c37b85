-- ===== src/Words.antt =====
-- Numbers in memory: the host is little-endian, the media formats are big-endian.
use mathlib.Core.List.{reverse-reverse}
use native.Mathlib.Nat.{pow-suc}
use server_side_custom_video.Prelude.{
  ℕ, zero, suc, ◌+◌, ◌*◌, ◌/◌, ◌%◌, ◌^◌, ◌<◌, ◌≡◌, refl, ap, ◌∙◌, [], ◌∷◌, arith, Bytes, length,
  length-reverse, reverse,
}

-- an unsigned integer of the host, read from its bytes
unfoldable pub load : Bytes → ℕ
load [] = 0
load (b ∷ bs) = b + 256 * load bs

-- the low `k` bytes of a number, the lowest first
unfoldable pub little_endian : ℕ → ℕ → Bytes
little_endian zero n = []
little_endian (suc k) n = (n % 256) ∷ little_endian k (n / 256)

-- the low `k` bytes of a number, the highest first
unfoldable pub big_endian : ℕ → ℕ → Bytes
unfolding little_endian
big_endian k n = reverse (little_endian k n)

load-little_endian : (k n : ℕ) → n < 256 ^ k → load (little_endian k n) ≡ n
unfolding load little_endian
load-little_endian zero n h = omega arith
load-little_endian (suc k) n h =
    omega (arith, load-little_endian k (n / 256) (omega (arith, pow-suc 256 k)))

-- A number that fits `k` bytes is read back from its big-endian form, once that is reversed.
pub load-reverse-big_endian : (k n : ℕ) → n < 256 ^ k → load (reverse (big_endian k n)) ≡ n
unfolding big_endian
load-reverse-big_endian k n h = rw reverse-reverse (load-little_endian k n h)

pub length-little_endian : (k n : ℕ) → length (little_endian k n) ≡ k
unfolding little_endian
length-little_endian zero n = refl
length-little_endian (suc k) n = ap suc (length-little_endian k (n / 256))

pub length-big_endian : (k n : ℕ) → length (big_endian k n) ≡ k
unfolding big_endian
length-big_endian k n = length-reverse (little_endian k n) ∙ length-little_endian k n
