-- ===== src/Args/Slash.antt =====
-- `ngx_agora_replace_forward_slash` against one pass over the string from left to right.
use server_side_custom_video.Prelude.{
  ℕ, zero, suc, ◌+◌, ◌≤◌, ◌<◌, ◌≡◌, inl, inr, refl, sym, ap, ◌∙◌, [], ◌∷◌, ◌++◌, true, false,
  Option, none, some, Bytes, arith, if◌then◌else◌, length, drop, length-append, length-drop,
  Bool-cases, Option-cases,
}
use server_side_custom_video.Text.{starts_with, behind, strstr}
use server_side_custom_video.Text.Search.{
  NotWithin, Occurs, strstr-Occurs, strstr_later, strstr_here,
}
use server_side_custom_video.Args.{escape, replaced, replace_forward_slash}

-- One pass: `%2F` becomes `/`, all else stays. The number is how many bytes are still to be dropped.
unfoldable pub decode_from : ℕ → Bytes → Bytes
decode_from skip [] = []
decode_from (suc skip) (x ∷ s) = decode_from skip s
decode_from zero (x ∷ s) =
    let plain = x ∷ decode_from 0 s in
    let slash = b'/' ∷ decode_from 2 s in if starts_with escape (x ∷ s) then slash else plain

abbrev pub decode : Bytes → Bytes
decode s = decode_from 0 s

decode-drop : (n : ℕ) (s : Bytes) → decode_from n s ≡ decode (drop n s)
unfolding decode_from
decode-drop zero s = refl
decode-drop (suc n) [] = refl
decode-drop (suc n) (x ∷ s) = decode-drop n s

-- the slash that is put in begins and continues no `%2F`
slash_after :
    (x : ℕ) (front at r : Bytes)
    → starts_with escape at ≡ true
    → starts_with escape (x ∷ (front ++ at)) ≡ false
    → starts_with escape (x ∷ (front ++ b'/' ∷ r)) ≡ false
unfolding starts_with
slash_after x [] at r a h = ground arith
slash_after x (y ∷ []) at r a h = ground arith
slash_after x (y ∷ z ∷ front) at r a h = ground arith

no_slash : (r : Bytes) → starts_with escape (b'/' ∷ r) ≡ false
unfolding starts_with
no_slash r = refl

not_nil : starts_with escape [] ≡ false
unfolding starts_with
not_nil = refl

behind_none : (x : ℕ) (r : Option (Bytes × Bytes)) → behind x r ≡ none → r ≡ none
behind_none x none e = refl
behind_none x (some (b, a)) e = cc

-- A string is decoded up to the first `%2F` by copying.
decode-front :
    (front at r : Bytes)
    → starts_with escape at ≡ true
    → NotWithin escape front at
    → decode (front ++ b'/' ∷ r) ≡ front ++ b'/' ∷ decode r
unfolding decode_from
decode-front [] at r a h = rw (no_slash r) refl
decode-front (x ∷ front) at r a h =
    rw (slash_after x front at r a h.0) (ap (λ t. x ∷ t) (decode-front front at r a h.1))

-- and from there on the slash stands for it
decode-escape :
    (front at : Bytes)
    → starts_with escape at ≡ true
    → NotWithin escape front at
    → decode (front ++ at) ≡ front ++ b'/' ∷ decode (drop 3 at)
unfolding decode_from
decode-escape [] [] a h = cc (not_nil, a)
decode-escape [] (x ∷ at) a h = rw a (ap (λ t. b'/' ∷ t) (decode-drop 2 at))
decode-escape (x ∷ front) at a h = rw h.0 (ap (λ t. x ∷ t) (decode-escape front at a h.1))

decode-plain : (s : Bytes) → strstr s escape ≡ none → decode s ≡ s
unfolding decode_from
decode-plain [] e = refl
decode-plain (x ∷ s) e = elim (Bool-cases (starts_with escape (x ∷ s))) [
  | inl here ↦ cc (strstr_here (x ∷ s) escape here, e)
  | inr other ↦ rw other (
      ap (λ t. x ∷ t)
        (decode-plain s
          (behind_none x (strstr s escape) (sym (strstr_later x s escape other) ∙ e))))
]

length-escape : (at : Bytes) → starts_with escape at ≡ true → 3 ≤ length at
unfolding starts_with
length-escape [] a = cc
length-escape (x ∷ []) a = absurd (ground arith)
length-escape (x ∷ y ∷ []) a = absurd (ground arith)
length-escape (x ∷ y ∷ z ∷ at) a = omega arith

length-replaced :
    (s before at : Bytes) → Occurs s escape before at → length (replaced before at) + 2 ≡ length s
length-replaced s before at o = omega (
  arith,
  ap length o.splits,
  length-append before at,
  length-append before (b'/' ∷ drop 3 at),
  length-drop 3 at,
  length-escape at o.stands,
)

replace_forward_slash-decode :
    (fuel : ℕ) (appid : Bytes)
    → length appid < fuel
    → replace_forward_slash fuel appid ≡ some (decode appid)
unfolding replace_forward_slash
replace_forward_slash-decode zero appid h = absurd (omega arith)
replace_forward_slash-decode (suc fuel) appid h = elim (Option-cases (strstr appid escape)) [
  | inl e ↦ rw (e, replace_forward_slash) (ap some (sym (decode-plain appid e)))
  | inr ((before, at), e) ↦
      let o = strstr-Occurs appid escape before at e in
      rw (e, replace_forward_slash)
        (replace_forward_slash-decode fuel (replaced before at)
            (omega (arith, length-replaced appid before at o))
          ∙ ap some (
              decode-front before at (drop 3 at) o.stands o.first
              ∙ sym (ap decode o.splits ∙ decode-escape before at o.stands o.first)))
]

-- the loop ends by its test
replace_forward_slash-clean :
    (fuel : ℕ) (appid r : Bytes)
    → replace_forward_slash fuel appid ≡ some r
    → strstr r escape ≡ none
unfolding replace_forward_slash
replace_forward_slash-clean zero appid r e = cc
replace_forward_slash-clean (suc fuel) appid r e = elim (Option-cases (strstr appid escape)) [
  | inl q ↦
      let same : appid ≡ r = cc (rw (q, replace_forward_slash) at e) in
      ap (λ t. strstr t escape) (sym same) ∙ q
  | inr ((before, at), q) ↦
      replace_forward_slash-clean fuel (replaced before at) r (rw (q, replace_forward_slash) at e)
]

-- With a round for every byte, and one, the loop ends. What it leaves is the string decoded in one
-- pass from left to right, and no `%2F` is left in it.
pub replace_forward_slash_lem :
    (fuel : ℕ) (appid : Bytes)
    → length appid < fuel
    → (replace_forward_slash fuel appid ≡ some (decode appid))
      × (strstr (decode appid) escape ≡ none)
replace_forward_slash_lem fuel appid h =
    let e = replace_forward_slash-decode fuel appid h in
    (e, replace_forward_slash-clean fuel appid (decode appid) e)
