-- ===== src/Audio/Memory.antt =====
-- Arrays of bytes as the audio path uses them: reading and writing a range, with its bounds.
use server_side_custom_video.Prelude.{
  ℕ, ◌+◌, ◌-◌, ◌≤◌, ◌≡◌, refl, ap, ◌∙◌, sym, [], ◌++◌, Option, none, some, Bytes, arith, leb,
  if◌then◌else◌, length, take, drop, length-append, drop-append_length, take-append_length, le→leb,
  drop-append_ge,
}

infixl 5 ◌>>=◌
abbrev pub ◌>>=◌ : {A B : Type 0} → Option A → (A → Option B) → Option B
none >>= f = none
some a >>= f = f a

-- The `n` bytes of an array from an index on; none is a read past its end.
unfoldable pub read_at : Bytes → ℕ → ℕ → Option Bytes
read_at src i n = if leb (i + n) (length src) then some (take n (drop i src)) else none

-- Bytes copied into an array at an index; none is a write past its end.
unfoldable pub write_at : Bytes → ℕ → Bytes → Option Bytes
write_at dst i bs =
    if leb (i + length bs) (length dst)
    then some (take i dst ++ (bs ++ drop (i + length bs) dst))
    else none

-- A difference that is used as a length: where it is negative, the length is one that no array has.
unfoldable pub minus : ℕ → ℕ → Option ℕ
minus a b = if leb b a then some (a - b) else none

-- What stands behind the front of an array is read.
pub read_at_lem :
    (front bs tail : Bytes) → read_at (front ++ (bs ++ tail)) (length front) (length bs) ≡ some bs
unfolding read_at
read_at_lem front bs tail =
    rw
      (
        le→leb (length front + length bs) (length (front ++ (bs ++ tail)))
            (omega (arith, length-append front (bs ++ tail), length-append bs tail)),
        drop-append_length front (bs ++ tail),
        take-append_length bs tail,
      )
      refl

-- The front of an array is read.
pub read_front : (bs tail : Bytes) (n : ℕ) → length bs ≡ n → read_at (bs ++ tail) 0 n ≡ some bs
read_front bs tail n h = ap (read_at (bs ++ tail) 0) (sym h) ∙ read_at_lem [] bs tail

-- What is written behind the front of an array replaces as many bytes.
pub write_at_lem :
    (front bs old : Bytes)
    → length bs ≤ length old
    → write_at (front ++ old) (length front) bs ≡ some (front ++ (bs ++ drop (length bs) old))
unfolding write_at
write_at_lem front bs old h =
    rw
      (
        le→leb (length front + length bs) (length (front ++ old))
            (omega (arith, length-append front old)),
        take-append_length front old,
        drop-append_ge (length front + length bs) front old (omega arith),
      )
      (ap (λ n. some (front ++ (bs ++ drop n old))) (omega arith))

pub minus_lem : (a b c : ℕ) → b + c ≡ a → minus a b ≡ some c
unfolding minus
minus_lem a b c h = rw (le→leb b a (omega (arith, h))) (ap some (omega (arith, h)))
