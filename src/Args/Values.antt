-- ===== src/Args/Values.antt =====
-- What `get_arg_value` finds, in terms of the argument string.
use server_side_custom_video.Prelude.{
  ℕ, ◌+◌, ◌<◌, ◌≡◌, inl, inr, refl, ap, ◌∙◌, [], ◌∷◌, ◌++◌, true, Bytes, arith, leb, if◌then◌else◌,
  length, drop, length-append, append_assoc, append-nil, Option-cases, length-drop, suc,
}
use server_side_custom_video.Text.{starts_with, strstr, upto}
use server_side_custom_video.Text.Search.{
  starts_with-append, NotWithin, Occurs, strstr-Occurs, strstr-first, Free, upto-Free, upto-append,
}
use server_side_custom_video.Args.{
  missing, found, until_arg_end, copy_value, value_at, get_arg_value,
}

-- what may stand behind an argument: the end of the string, or another one
pub data Ends : Bytes → Type 0 where
  at_end : Ends []
  at_next : (later : Bytes) → Ends (b'&' ∷ later)

upto-Ends : (s tail : Bytes) → Free b'&' s → Ends tail → upto b'&' (s ++ tail) ≡ s
upto-Ends s _ h at_end = ap (upto b'&') (append-nil s) ∙ upto-Free b'&' s h
upto-Ends s _ h (at_next later) = upto-append b'&' s later h

drop-key : (key word : Bytes) → drop (length key + 1) (key ++ word) ≡ drop 1 word
drop-key [] word = refl
drop-key (k ∷ key) word =
    let e : suc (length key) + 1 ≡ suc (length key + 1) = omega arith in
    ap (λ n. drop n (k ∷ (key ++ word))) e ∙ drop-key key word

-- The first place where the key stands decides, whatever it is part of: with `word` between the
-- key and the argument's end, the value is `word` without its first byte, and what comes later in
-- the string is not looked at.
pub get_arg_value-first :
    (front key word tail : Bytes) (size : ℕ)
    → NotWithin key front ((key ++ word) ++ tail)
    → Free b'&' (key ++ word)
    → Ends tail
    → get_arg_value (front ++ ((key ++ word) ++ tail)) key size
      ≡ (if leb (length word) 1 then missing else copy_value size (drop 1 word))
unfolding get_arg_value value_at until_arg_end
get_arg_value-first front key word tail size h f e =
    rw
      (
        strstr-first key front ((key ++ word) ++ tail) stands h,
        get_arg_value,
        upto-Ends (key ++ word) tail f e,
        drop-key key word,
      )
      (ap (λ b. if b then missing else copy_value size (drop 1 word)) same_test)
  where
    stands : starts_with key ((key ++ word) ++ tail) ≡ true
    stands =
        ap (starts_with key) (append_assoc key word tail) ∙ starts_with-append key (word ++ tail)

    same_test : leb (length (key ++ word)) (length key + 1) ≡ leb (length word) 1
    same_test = ground (arith, length-append key word)

-- An argument `key=value` whose key stands nowhere before it is read back exactly, if its value is
-- not empty and fits the buffer with its NUL.
pub get_arg_value_lem :
    (front key value tail : Bytes) (size : ℕ)
    → NotWithin key front ((key ++ b'=' ∷ value) ++ tail)
    → Free b'&' (key ++ b'=' ∷ value)
    → Ends tail
    → 0 < length value
    → length value < size
    → get_arg_value (front ++ ((key ++ b'=' ∷ value) ++ tail)) key size ≡ found value
unfolding copy_value
get_arg_value_lem front key value tail size h f e p q =
    get_arg_value-first front key (b'=' ∷ value) tail size h f e ∙ ground arith

-- What is known of a value that stands in an argument string.
pub record IsValue (args key : Bytes) (size : ℕ) (value : Bytes) : Type 0 where
  pub before : Bytes
  pub key_start : Bytes
  pub occurs : Occurs args key before key_start
  pub cut : drop (length key + 1) (upto b'&' key_start) ≡ value
  pub some_bytes : 0 < length value
  pub fits : length value < size

value_at-IsValue :
    (args key before at : Bytes) (size : ℕ) (value : Bytes)
    → Occurs args key before at
    → value_at size key at ≡ found value
    → IsValue args key size value
unfolding value_at until_arg_end copy_value
value_at-IsValue args key before at size value o e = record {
  before = before;
  key_start = at;
  occurs = o;
  cut = ground arith;
  some_bytes = ground (arith, length-drop (length key + 1) (upto b'&' at));
  fits = ground arith;
}

-- What `get_arg_value` returns, read backwards: a value that is found stands in the string behind
-- the first occurrence of the key and one more byte, is not empty, has no `&` in it and fits the
-- buffer with its NUL.
pub get_arg_value-IsValue :
    (args key : Bytes) (size : ℕ) (value : Bytes)
    → get_arg_value args key size ≡ found value
    → IsValue args key size value
unfolding get_arg_value
get_arg_value-IsValue args key size value e = elim (Option-cases (strstr args key)) [
  | inl q ↦ cc (rw (q, get_arg_value) at e)
  | inr ((before, at), q) ↦
      value_at-IsValue args key before at size value (strstr-Occurs args key before at q)
        (rw (q, get_arg_value) at e)
]
