-- ===== src/Long.antt =====
-- `long` values, taken to be in range, the conversions of C, and what the source uses of `float`
-- and `double`.
use server_side_custom_video.Prelude.{
  ℕ, zero, suc, ◌+◌, ◌-◌, ◌*◌, ◌^◌, ◌≤◌, ◌≡◌, refl, Bool, true, false, ltb, leb, ◌==◌,
  if◌then◌else◌, le→ltb,
}
use server_side_custom_video.Text.{ℤ, pos, negsuc, to_unsigned}

-- `a - b`
unfoldable pub difference : ℕ → ℕ → ℤ
difference a b = if ltb a b then negsuc (b - a - 1) else pos (a - b)

infix 60 ◌-ℤ◌
abbrev pub ◌-ℤ◌ : ℤ → ℤ → ℤ
pos a -ℤ pos b = difference a b
pos a -ℤ negsuc b = pos (a + suc b)
negsuc a -ℤ pos b = negsuc (a + b)
negsuc a -ℤ negsuc b = difference b a

infix 60 ◌+ℤ◌
abbrev pub ◌+ℤ◌ : ℤ → ℤ → ℤ
pos a +ℤ pos b = pos (a + b)
pos a +ℤ negsuc b = difference a (suc b)
negsuc a +ℤ pos b = difference b (suc a)
negsuc a +ℤ negsuc b = negsuc (suc (a + b))

-- a number that is not negative, times a `long`
abbrev pub times : ℕ → ℤ → ℤ
times n (pos a) = pos (n * a)
times zero (negsuc a) = pos 0
times (suc n) (negsuc a) = negsuc (suc n * suc a - 1)

abbrev pub equals : ℤ → ℤ → Bool
equals (pos a) (pos b) = a == b
equals (negsuc a) (negsuc b) = a == b
equals _ _ = false

abbrev pub less : ℤ → ℤ → Bool
less (pos a) (pos b) = ltb a b
less (pos a) (negsuc b) = false
less (negsuc a) (pos b) = true
less (negsuc a) (negsuc b) = ltb b a

abbrev pub larger : ℤ → ℤ → ℤ
larger a b = if less a b then b else a

-- a `long` stored in an `int`
unfoldable pub to_int : ℤ → ℤ
to_int a = let u = to_unsigned 32 a in if leb (2 ^ 31) u then negsuc (2 ^ 32 - 1 - u) else pos u

-- a type of floating point numbers, with the operations that the source uses
pub record Float : Type 1 where
  pub Number : Type 0
  pub from_long : ℤ → Number
  -- the literal of so many over a power of ten
  pub literal : ℕ → ℕ → Number
  pub times_float : Number → Number → Number
  pub over : Number → Number → Number
  pub less_float : Number → Number → Bool
  -- the conversion to `long`
  pub truncate : Number → ℤ

pub difference-le : (a b : ℕ) → b ≤ a → difference a b ≡ pos (a - b)
unfolding difference
difference-le a b h = rw (le→ltb a b h) refl
