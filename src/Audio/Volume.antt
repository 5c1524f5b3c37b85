-- ===== src/Audio/Volume.antt =====
-- ngx_agora_helper.c: `calcVol` and `getMax`, on samples of 16 bits.
use server_side_custom_video.Prelude.{
  and_split, ℕ, zero, suc, ◌+◌, ◌*◌, ◌/◌, ◌%◌, ◌^◌, ◌≤◌, ◌<◌, ◌≡◌, refl, Bool, true, false, not,
  ◌&&◌, List, [], ◌∷◌, Option, none, some, ltb, ◌==◌, if◌then◌else◌, length, arith, ap, ◌∙◌, subst,
  ◌⊎◌, inl, inr,
}
use native.Mathlib.Nat.{div-mul-le_self, lt-div-mul-add, div-le_of_le-mul}
use server_side_custom_video.Text.{ℤ, pos, negsuc}
use server_side_custom_video.Long.{less}

-- what a sample adds to the sum
abbrev pub magnitude : ℤ → ℕ
magnitude (pos n) = n
magnitude (negsuc n) = suc n

-- the loop of `calcVol`, with `sum` in 32 bits; none is a read past the packet
unfoldable pub sum_loop : (count : ℕ) → List ℤ → (sum : ℕ) → Option ℕ
sum_loop zero xs sum = some sum
sum_loop (suc n) [] sum = none
sum_loop (suc n) (x ∷ xs) sum = sum_loop n xs ((sum + magnitude x) % 2 ^ 32)

-- `sum/(double)packetLen` as an `int`; none is a division of zero by zero
abbrev pub quotient : (packet_len : ℕ) → Option ℕ → Option ℕ
quotient packet_len none = none
quotient packet_len (some sum) = if packet_len == 0 then none else some (sum / packet_len)

unfoldable pub calc_vol : List ℤ → (packet_len : ℕ) → Option ℕ
calc_vol packet packet_len = quotient packet_len (sum_loop packet_len packet 0)

-- the loop of `getMax` from the second sample on
unfoldable pub max_loop : (count : ℕ) → List ℤ → (max : ℤ) → Option ℤ
max_loop zero xs max = some max
max_loop (suc n) [] max = none
max_loop (suc n) (x ∷ xs) max = max_loop n xs (if less max x then x else max)

-- the first sample is read whatever `packetLen` is
unfoldable pub get_max : List ℤ → (packet_len : ℕ) → Option ℤ
get_max [] packet_len = none
get_max (x ∷ xs) zero = some x
get_max (x ∷ xs) (suc n) = max_loop n xs x

-- the magnitudes of all samples
abbrev pub total : List ℤ → ℕ
total [] = 0
total (x ∷ xs) = magnitude x + total xs

-- no magnitude is above 32768
abbrev pub fits : List ℤ → Bool
fits [] = true
fits (x ∷ xs) = ltb (magnitude x) 32769 && fits xs

-- no sample is above this one
abbrev pub none_above : ℤ → List ℤ → Bool
none_above m [] = true
none_above m (x ∷ xs) = not (less m x) && none_above m xs

pub data Among (m : ℤ) : List ℤ → Type 0 where
  here : (xs : List ℤ) → Among m (m ∷ xs)
  there : (x : ℤ) (xs : List ℤ) → Among m xs → Among m (x ∷ xs)

total-fits : (xs : List ℤ) → fits xs ≡ true → total xs ≤ 32768 * length xs
total-fits [] h = omega arith
total-fits (x ∷ xs) h =
    let (first, rest) = and_split (ltb (magnitude x) 32769) (fits xs) h in
    let t = total-fits xs rest in grind (arith, first, t)

sum_loop-total :
    (xs : List ℤ) (sum : ℕ)
    → sum + total xs < 2 ^ 32
    → sum_loop (length xs) xs sum ≡ some (sum + total xs)
unfolding sum_loop
sum_loop-total [] sum h = ap some (omega arith)
sum_loop-total (x ∷ xs) sum h =
    let small : (sum + magnitude x) % 2 ^ 32 ≡ sum + magnitude x = omega (arith, h) in
    ap (sum_loop (length xs) xs) small
    ∙ sum_loop-total xs (sum + magnitude x) (omega (arith, h))
    ∙ ap some (omega arith)

-- `m` is not below `b`, which is above `a`
above : (a b m : ℤ) → less a b ≡ true → less m b ≡ false → less m a ≡ false
above (pos a) (pos b) (pos m) h k = grind (arith, h, k)
above (pos a) (pos b) (negsuc m) h k = grind (arith, h, k)
above (pos a) (negsuc b) m h k = ground (arith, h)
above (negsuc a) (pos b) (pos m) h k = refl
above (negsuc a) (pos b) (negsuc m) h k = ground (arith, k)
above (negsuc a) (negsuc b) (pos m) h k = refl
above (negsuc a) (negsuc b) (negsuc m) h k = grind (arith, h, k)

-- `m` is not below `a`, which is not below `b`
not_below : (a b m : ℤ) → less a b ≡ false → less m a ≡ false → less m b ≡ false
not_below (pos a) (pos b) (pos m) h k = grind (arith, h, k)
not_below (pos a) b (negsuc m) h k = ground (arith, k)
not_below (pos a) (negsuc b) (pos m) h k = refl
not_below (negsuc a) (pos b) m h k = ground (arith, h)
not_below (negsuc a) (negsuc b) (pos m) h k = refl
not_below (negsuc a) (negsuc b) (negsuc m) h k = grind (arith, h, k)

-- `m` is not below the first, not below any of the rest, and one of them
record Maximum (m first : ℤ) (xs : List ℤ) : Type 0 where
  not_first : less m first ≡ false
  highest : none_above m xs ≡ true
  attained : (m ≡ first) ⊎ Among m xs

greater-Maximum :
    (b : Bool) (m first x : ℤ) (xs : List ℤ)
    → less first x ≡ b
    → Maximum m (if b then x else first) xs
    → Maximum m first (x ∷ xs)
greater-Maximum true m first x xs e h = record {
  not_first = above first x m e h.not_first;
  highest = rw (h.not_first, h.highest) refl;
  attained = elim h.attained [
    | inl same ↦ inr (subst (λ z. Among m (z ∷ xs)) same (here xs))
    | inr later ↦ inr (there x xs later)
  ];
}
greater-Maximum false m first x xs e h = record {
  not_first = h.not_first;
  highest = rw (not_below first x m e h.not_first, h.highest) refl;
  attained = elim h.attained [ inl same ↦ inl same | inr later ↦ inr (there x xs later) ];
}

less_self : (x : ℤ) → less x x ≡ false
less_self (pos n) = ground arith
less_self (negsuc n) = ground arith

max_loop-Maximum :
    (xs : List ℤ) (first : ℤ)
    → (m : ℤ) × (max_loop (length xs) xs first ≡ some m) × Maximum m first xs
unfolding max_loop
max_loop-Maximum [] first =
    (first, refl, record { not_first = less_self first; highest = refl; attained = inl refl })
max_loop-Maximum (x ∷ xs) first =
    let (m, e, h) = max_loop-Maximum xs (if less first x then x else first) in
    (m, e, greater-Maximum (less first x) m first x xs refl h)

quotient-suc : (n sum : ℕ) → quotient (suc n) (some (0 + sum)) ≡ some (sum / suc n)
quotient-suc n sum = ground arith

-- For a packet with a sample at least and less than 65536 of them, each of 16 bits: the sum of
-- `calcVol` does not overflow, and it returns the mean magnitude of the samples, rounded down, which
-- is at most 32768; `getMax` returns a sample of the packet that no sample is above.
pub volume-and-max :
    (x : ℤ) (xs : List ℤ)
    → length (x ∷ xs) < 2 ^ 16
    → fits (x ∷ xs) ≡ true
    → let n = length (x ∷ xs) in
      ((v : ℕ) × (calc_vol (x ∷ xs) n ≡ some v)
        × (v * n ≤ total (x ∷ xs))
        × (total (x ∷ xs) < (v + 1) * n)
        × (v ≤ 32768))
      × ((m : ℤ) × (get_max (x ∷ xs) n ≡ some m)
          × (none_above m (x ∷ xs) ≡ true)
          × Among m (x ∷ xs))
unfolding calc_vol get_max
volume-and-max x xs h k =
    let n = length (x ∷ xs) in
    let t = total-fits (x ∷ xs) k in
    let sum = sum_loop-total (x ∷ xs) 0 (omega (arith, t, h)) in
    let least = div-mul-le_self (total (x ∷ xs)) n in
    let most = lt-div-mul-add {a = total (x ∷ xs)} {b = n} (omega arith) in
    let (m, e, g) = max_loop-Maximum xs x in
    (
      (
        total (x ∷ xs) / n,
        ap (quotient n) sum ∙ quotient-suc (length xs) (total (x ∷ xs)),
        least,
        grind (arith, most),
        div-le_of_le-mul n (grind (arith, t)),
      ),
      (
        m,
        e,
        rw (g.not_first, g.highest) refl,
        elim g.attained [
          | inl same ↦ subst (λ z. Among m (z ∷ xs)) same (here xs)
          | inr later ↦ there x xs later
        ],
      ),
    )
