-- ===== src/Chain/Copy.antt =====
-- `ngx_custom_copy` against a reader of flat bytes: how the buffers are cut does not matter.
use server_side_custom_video.Prelude.{
  ℕ, ◌-◌, ◌≤◌, ◌<◌, ◌≡◌, refl, sym, ap, ap₂, subst, ◌∙◌, ◌++◌, length-take, take-append-drop, ◌≢◌,
  inl, inr, [], ◌∷◌, Option, none, some, arith, Bytes, leb, if◌then◌else◌, length, take, drop,
  length-append, take-append_length, drop-append_length, ◌+◌, take-append_le, drop-append_le,
  take-append_ge, drop-append_ge, Bool-cases, leb→le, leb→lt, le→leb, lt→leb,
}
use server_side_custom_video.Chain.{Chain, payload, skip_drained, custom_copy}

-- A chain whose first buffer has something left, or NULL: where a copy leaves the position.
abbrev pub IsSettled : Chain → Type 0
IsSettled [] = Unit {0}
IsSettled ([] ∷ next) = ⊥
IsSettled ((x ∷ b) ∷ next) = Unit {0}

pub payload-skip_drained : (c : Chain) → payload (skip_drained c) ≡ payload c
unfolding skip_drained
payload-skip_drained [] = refl
payload-skip_drained ([] ∷ next) = payload-skip_drained next
payload-skip_drained ((x ∷ b) ∷ next) = refl

pub skip_drained-IsSettled : (c : Chain) → IsSettled (skip_drained c)
unfolding skip_drained
skip_drained-IsSettled [] = tt
skip_drained-IsSettled ([] ∷ next) = skip_drained-IsSettled next
skip_drained-IsSettled ((x ∷ b) ∷ next) = tt

-- A settled chain with nothing left is NULL.
pub settled_empty : (c : Chain) → IsSettled c → payload c ≡ [] → c ≡ []
settled_empty [] s e = refl
settled_empty ([] ∷ next) s e = absurd s
settled_empty ((x ∷ b) ∷ next) s e = cc

-- What a copy of `n` bytes returns: the first `n` bytes, and a settled position behind them.
pub record Copied (n : ℕ) (c : Chain) (r : Option (Bytes × Chain)) : Type 0 where
  pub rest : Chain
  pub result : r ≡ some (take n (payload c), rest)
  pub behind : payload rest ≡ drop n (payload c)
  pub settled : IsSettled rest

copy-within :
    (n : ℕ) (b : Bytes) (next : Chain)
    → n ≤ length b
    → Copied n (b ∷ next) (custom_copy n (b ∷ next))
unfolding custom_copy
copy-within n b next h = record {
  rest = skip_drained (drop n b ∷ next);
  result = rw (le→leb n (length b) h, take-append_le n b (payload next) h) refl;
  behind = payload-skip_drained (drop n b ∷ next) ∙ sym (drop-append_le n b (payload next) h);
  settled = skip_drained-IsSettled (drop n b ∷ next);
}

copy-across :
    (n : ℕ) (b : Bytes) (next : Chain)
    → length b < n
    → Copied (n - length b) next (custom_copy (n - length b) next)
    → Copied n (b ∷ next) (custom_copy n (b ∷ next))
unfolding custom_copy
copy-across n b next h r = record {
  rest = r.rest;
  result =
      rw (lt→leb n (length b) h, r.result, take-append_ge n b (payload next) (omega arith)) refl;
  behind = r.behind ∙ sym (drop-append_ge n b (payload next) (omega arith));
  settled = r.settled;
}

-- A copy that fits succeeds.
pub custom_copy-Copied :
    (n : ℕ) (c : Chain) → c ≢ [] → n ≤ length (payload c) → Copied n c (custom_copy n c)
custom_copy-Copied n [] ne h = absurd (ne refl)
custom_copy-Copied n (b ∷ []) ne h = copy-within n b [] (omega (arith, length-append b []))
custom_copy-Copied n (b ∷ b' ∷ next) ne h = elim (Bool-cases (leb n (length b))) [
  | inl fits ↦ copy-within n b (b' ∷ next) (leb→le n (length b) fits)
  | inr over ↦ copy-across n b (b' ∷ next) (leb→lt n (length b) over) (
      custom_copy-Copied (n - length b) (b' ∷ next) (λ e. cc)
        (omega (arith, length-append b (payload (b' ∷ next)), leb→lt n (length b) over)))
]

-- A copy of more bytes than the chain holds fails.
pub custom_copy-short : (n : ℕ) (c : Chain) → length (payload c) < n → custom_copy n c ≡ none
unfolding custom_copy
custom_copy-short n [] h = refl
custom_copy-short n (b ∷ next) h =
    rw
      (
        lt→leb n (length b) (omega (arith, length-append b (payload next))),
        custom_copy-short (n - length b) next (omega (arith, length-append b (payload next))),
      )
      refl

-- The abstract view: a reader of flat bytes.
unfoldable pub read : ℕ → Bytes → Option (Bytes × Bytes)
read n bs = if leb n (length bs) then some (take n bs, drop n bs) else none

-- what a reader of flat bytes sees of a copy
unfoldable pub flat : Option (Bytes × Chain) → Option (Bytes × Bytes)
flat none = none
flat (some (bs, c)) = some (bs, payload c)

-- On every chain but NULL `ngx_custom_copy` returns what the reader of flat bytes returns on the
-- chain's bytes: the same bytes, the same rest, and an error in the same cases. So the cut of a
-- message into buffers does not show.
pub custom_copy_refines : (n : ℕ) (c : Chain) → c ≢ [] → flat (custom_copy n c) ≡ read n (payload c)
unfolding flat read
custom_copy_refines n c ne = elim (Bool-cases (leb n (length (payload c)))) [
  | inl fits ↦
      let r = custom_copy-Copied n c ne (leb→le n _ fits) in rw (r.result, fits, r.behind) refl
  | inr over ↦ rw (custom_copy-short n c (leb→lt n _ over), over) refl
]

-- What a copy that succeeds has done, read backwards.
pub record Splits (n : ℕ) (c : Chain) (bs : Bytes) (rest : Chain) : Type 0 where
  pub exact : length bs ≡ n
  pub joins : payload c ≡ bs ++ payload rest
  pub settled : IsSettled rest

Splits-Copied :
    {n : ℕ} {c : Chain} {r : Option (Bytes × Chain)} (bs : Bytes) (rest : Chain)
    → Copied n c r
    → n ≤ length (payload c)
    → r ≡ some (bs, rest)
    → Splits n c bs rest
Splits-Copied {n} {c} bs rest d h e = record {
  exact = omega (arith, ap length front, length-take n (payload c));
  joins = sym (ap₂ ◌++◌ front (ap payload back ∙ d.behind) ∙ take-append-drop n (payload c));
  settled = subst IsSettled (sym back) d.settled;
}
  where
    front : bs ≡ take n (payload c)
    front = cc (d.result, e)

    back : rest ≡ d.rest
    back = cc (d.result, e)

custom_copy-ne_null : (n : ℕ) {r : Bytes × Chain} (c : Chain) → custom_copy n c ≡ some r → c ≢ []
unfolding custom_copy
custom_copy-ne_null n [] e z = cc
custom_copy-ne_null n (b ∷ next) e z = cc

pub custom_copy-Splits :
    (n : ℕ) (c : Chain) (bs : Bytes) (rest : Chain)
    → custom_copy n c ≡ some (bs, rest)
    → Splits n c bs rest
custom_copy-Splits n c bs rest e = elim (Bool-cases (leb n (length (payload c)))) [
  | inl fits ↦
      let h = leb→le n (length (payload c)) fits in
      Splits-Copied bs rest (custom_copy-Copied n c (custom_copy-ne_null n c e) h) h e
  | inr over ↦ cc (custom_copy-short n c (leb→lt n (length (payload c)) over), e)
]

-- A copy of exactly the bytes that the chain begins with.
pub record Reads (bs rest : Bytes) (n : ℕ) (c : Chain) : Type 0 where
  pub next : Chain
  pub result : custom_copy n c ≡ some (bs, next)
  pub behind : payload next ≡ rest
  pub settled : IsSettled next

nonempty : (c : Chain) → 0 < length (payload c) → c ≢ []
nonempty c h e = omega (arith, ap (λ (x : Chain). length (payload x)) e)

pub custom_copy-Reads :
    (bs rest : Bytes) (n : ℕ) (c : Chain)
    → payload c ≡ bs ++ rest
    → length bs ≡ n
    → 0 < n
    → Reads bs rest n c
custom_copy-Reads bs rest n c e k h = record {
  next = d.rest;
  result = d.result ∙ ap (λ x. some (x, d.rest)) front;
  behind = d.behind ∙ back;
  settled = d.settled;
}
  where
    long : length (payload c) ≡ length bs + length rest
    long = ap length e ∙ length-append bs rest

    d : Copied n c (custom_copy n c)
    d = custom_copy-Copied n c (nonempty c (omega (arith, long))) (omega (arith, long))

    front : take n (payload c) ≡ bs
    front = ap₂ take (sym k) e ∙ take-append_length bs rest

    back : drop n (payload c) ≡ rest
    back = ap₂ drop (sym k) e ∙ drop-append_length bs rest

-- A copy uses up the bytes that it returns.
pub length-custom_copy :
    (n : ℕ) (c : Chain) (bs : Bytes) (rest : Chain)
    → custom_copy n c ≡ some (bs, rest)
    → (length bs ≡ n) × (length (payload c) ≡ n + length (payload rest))
length-custom_copy n c bs rest e = (d.exact, omega (arith, joined, d.exact))
  where
    d : Splits n c bs rest
    d = custom_copy-Splits n c bs rest e

    joined : length (payload c) ≡ length bs + length (payload rest)
    joined = ap length d.joins ∙ length-append bs (payload rest)
