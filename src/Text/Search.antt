-- ===== src/Text/Search.antt =====
-- Laws of `strstr` and of the cut at a byte.
use mathlib.Core.Option.{some-injective}
use server_side_custom_video.Prelude.{
  ℕ, ◌≤◌, ◌≡◌, ◌≢◌, inl, inr, refl, sym, ap, subst, ◌∙◌, true, false, [], ◌∷◌, ◌++◌, Option, none,
  some, Bytes, arith, All, length, ◌==◌, ==_refl, Bool-cases,
}
use server_side_custom_video.Text.{starts_with, behind, strstr, upto}

-- A string begins with its own front.
pub starts_with-append : (key s : Bytes) → starts_with key (key ++ s) ≡ true
unfolding starts_with
starts_with-append [] s = refl
starts_with-append (k ∷ key) s = rw (==_refl k) (starts_with-append key s)

-- What a string begins with is split off.
pub starts_with-splits :
    (key s : Bytes) → starts_with key s ≡ true → (rest : Bytes) × (s ≡ key ++ rest)
unfolding starts_with
starts_with-splits [] s e = (s, refl)
starts_with-splits (k ∷ key) [] e = cc
starts_with-splits (k ∷ key) (x ∷ s) e = elim (Bool-cases (k == x)) [
  | inl same ↦ let (rest, q) = starts_with-splits key s (rw same at e) in (rest, ground (arith, q))
  | inr other ↦ cc (rw other at e)
]

-- No occurrence of the key begins within `front`, when `rest` follows it.
abbrev pub NotWithin : Bytes → Bytes → Bytes → Type 0
NotWithin key [] rest = Unit {0}
NotWithin key (x ∷ front) rest =
    (starts_with key (x ∷ (front ++ rest)) ≡ false) × NotWithin key front rest

-- What `strstr` finds is the first occurrence.
pub record Occurs (s key before at : Bytes) : Type 0 where
  pub splits : s ≡ before ++ at
  pub stands : starts_with key at ≡ true
  pub first : NotWithin key before at

pub strstr_here : (s key : Bytes) → starts_with key s ≡ true → strstr s key ≡ some ([], s)
unfolding strstr
strstr_here [] key e = rw e refl
strstr_here (x ∷ s) key e = rw e refl

pub strstr-nil : (key : Bytes) → starts_with key [] ≡ false → strstr [] key ≡ none
unfolding strstr
strstr-nil key e = rw e refl

pub strstr_later :
    (x : ℕ) (s key : Bytes)
    → starts_with key (x ∷ s) ≡ false
    → strstr (x ∷ s) key ≡ behind x (strstr s key)
unfolding strstr
strstr_later x s key e = rw e refl

behind-eq-some :
    (x : ℕ) (r : Option (Bytes × Bytes)) {before at : Bytes}
    → behind x r ≡ some (before, at)
    → (b : Bytes) × (r ≡ some (b, at)) × (x ∷ b ≡ before)
behind-eq-some x none e = cc
behind-eq-some x (some (b, a)) e = (b, ground arith, ground arith)

Occurs-cons :
    {x : ℕ} {s key b at : Bytes}
    → starts_with key (x ∷ s) ≡ false
    → Occurs s key b at
    → Occurs (x ∷ s) key (x ∷ b) at
Occurs-cons {x} {key} h o = record {
  splits = ap (λ t. x ∷ t) o.splits;
  stands = o.stands;
  first = (ap (λ t. starts_with key (x ∷ t)) (sym o.splits) ∙ h, o.first);
}

Occurs-here :
    {s key : Bytes} (before at : Bytes)
    → starts_with key s ≡ true
    → ◌≡◌ {A = Option (Bytes × Bytes)} (some ([], s)) (some (before, at))
    → Occurs s key before at
Occurs-here {s} {key} before at h q =
    subst (λ (p : Bytes × Bytes). Occurs s key p.0 p.1) (some-injective ([], s) (before, at) q)
      (record { splits = refl; stands = h; first = tt })

pub strstr-Occurs :
    (s key before at : Bytes) → strstr s key ≡ some (before, at) → Occurs s key before at
strstr-Occurs [] key before at e = elim (Bool-cases (starts_with key [])) [
  | inl here ↦ Occurs-here before at here (sym (strstr_here [] key here) ∙ e)
  | inr no_key ↦ cc (strstr-nil key no_key, e)
]
strstr-Occurs (x ∷ s) key before at e = elim (Bool-cases (starts_with key (x ∷ s))) [
  | inl here ↦ Occurs-here before at here (sym (strstr_here (x ∷ s) key here) ∙ e)
  | inr not_here ↦
      let (b, q, j) = behind-eq-some x (strstr s key) (sym (strstr_later x s key not_here) ∙ e) in
      subst (λ t. Occurs (x ∷ s) key t at) j (Occurs-cons not_here (strstr-Occurs s key b at q))
]

pub strstr-first :
    (key front at : Bytes)
    → starts_with key at ≡ true
    → NotWithin key front at
    → strstr (front ++ at) key ≡ some (front, at)
strstr-first key [] at e h = strstr_here at key e
strstr-first key (x ∷ front) at e h =
    strstr_later x (front ++ at) key h.0 ∙ ap (behind x) (strstr-first key front at e h.1)

abbrev pub Free : ℕ → Bytes → Type 0
Free c = All (λ x. x ≢ c)

pub upto-Free : (c : ℕ) (s : Bytes) → Free c s → upto c s ≡ s
unfolding upto
upto-Free c [] h = refl
upto-Free c (x ∷ s) h = ground (arith, upto-Free c s h.1)

pub upto-append : (c : ℕ) (s rest : Bytes) → Free c s → upto c (s ++ c ∷ rest) ≡ s
unfolding upto
upto-append c [] rest h = ground arith
upto-append c (x ∷ s) rest h = ground (arith, upto-append c s rest h.1)

pub length-upto : (c : ℕ) (s : Bytes) → length (upto c s) ≤ length s
unfolding upto
length-upto c [] = omega arith
length-upto c (x ∷ s) = ground (arith, length-upto c s)
