-- ===== src/Text.antt =====
-- C strings: a string is the bytes in front of its NUL. `strstr`, `strchr`, `strlen` and `atoi`.
pub mod Search
use server_side_custom_video.Prelude.{
  ℕ, zero, suc, ◌%◌, ◌^◌, ◌+◌, ◌-◌, ◌*◌, Bool, true, false, ◌&&◌, ◌||◌, List, [], ◌∷◌, Option, none,
  some, Bytes, leb, ◌==◌, if◌then◌else◌,
}

-- whether a string begins with another
unfoldable pub starts_with : Bytes → Bytes → Bool
starts_with [] s = true
starts_with (k ∷ key) [] = false
starts_with (k ∷ key) (x ∷ s) = k == x && starts_with key s

abbrev pub behind : ℕ → Option (Bytes × Bytes) → Option (Bytes × Bytes)
behind x none = none
behind x (some (before, at)) = some (x ∷ before, at)

-- `strstr(s, key)`: the bytes in front of the first occurrence and the string from there on
unfoldable pub strstr : Bytes → Bytes → Option (Bytes × Bytes)
strstr [] key = if starts_with key [] then some ([], []) else none
strstr (x ∷ s) key =
    let later = strstr s key in if starts_with key (x ∷ s) then some ([], x ∷ s) else behind x later

-- the bytes in front of the first `c`, or all: what lies between `s` and `strchr(s, c)`
unfoldable pub upto : ℕ → Bytes → Bytes
upto c [] = []
upto c (x ∷ s) = if x == c then [] else x ∷ upto c s

-- `int` values
pub data ℤ : Type 0 where
  pos : ℕ → ℤ
  negsuc : ℕ → ℤ

-- the value of an `int` in an unsigned type of `w` bits
unfoldable pub to_unsigned : ℕ → ℤ → ℕ
to_unsigned w (pos n) = n % 2 ^ w
to_unsigned w (negsuc n) = 2 ^ w - 1 - n % 2 ^ w

abbrev pub is_digit : ℕ → Bool
is_digit c = leb b'0' c && leb c b'9'

-- the bytes that `isspace` accepts
abbrev pub is_space : ℕ → Bool
is_space c = c == b' ' || leb 9 c && leb c 13

-- the digits at the front of a string, behind those that make up `acc`
unfoldable pub digits_from : ℕ → Bytes → ℕ
digits_from acc [] = acc
digits_from acc (c ∷ s) =
    let longer = digits_from (acc * 10 + (c - b'0')) s in if is_digit c then longer else acc

abbrev pub negate : ℕ → ℤ
negate zero = pos 0
negate (suc n) = negsuc n

-- the sign and the digits
unfoldable pub signed : Bytes → ℤ
signed [] = pos 0
signed (c ∷ s) =
    if c == b'-'
    then negate (digits_from 0 s)
    else if c == b'+'
    then pos (digits_from 0 s)
    else pos (digits_from 0 (c ∷ s))

-- `atoi`, for values in the range of an `int`
unfoldable pub atoi : Bytes → ℤ
atoi [] = pos 0
atoi (c ∷ s) = let rest = atoi s in if is_space c then rest else signed (c ∷ s)
