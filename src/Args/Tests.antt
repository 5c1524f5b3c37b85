-- ===== src/Args/Tests.antt =====
-- The argument string on concrete inputs.
use server_side_custom_video.Prelude.{
  ◌≡◌, refl, [], ◌∷◌, ◌++◌, none, some, Bytes, arith, drop, leb, if◌then◌else◌,
}
use server_side_custom_video.Text.{strstr, starts_with, upto}
use server_side_custom_video.Args.{
  missing, found, get_arg_value, until_arg_end, copy_value, value_at, replace_forward_slash, escape,
}
use server_side_custom_video.Args.Values.{
  at_end, at_next, IsValue, get_arg_value-first, get_arg_value_lem, get_arg_value-IsValue,
}
use server_side_custom_video.Args.Slash.{decode, decode_from, replace_forward_slash_lem}
use server_side_custom_video.Session.Settings.{key_uid, key_enc}

-- `fr`
abbrev before_enc : Bytes
before_enc = b'f' ∷ b'r' ∷ []

-- `ch` and an argument behind it
abbrev other_args : Bytes
other_args = b'&' ∷ b'u' ∷ b'i' ∷ b'd' ∷ b'=' ∷ b'7' ∷ b'8' ∷ []

-- The key is found inside `french`, and what is left of the word is its value.
get_arg_value-first_example :
    get_arg_value (before_enc ++ ((key_enc ++ b'h' ∷ b'x' ∷ []) ++ other_args)) key_enc 2
    ≡ (if leb 2 1 then missing else copy_value 2 (drop 1 (b'h' ∷ b'x' ∷ [])))
unfolding starts_with
get_arg_value-first_example =
    get_arg_value-first before_enc key_enc (b'h' ∷ b'x' ∷ []) other_args 2 (refl, (refl, tt))
      (omega arith) (at_next (b'u' ∷ b'i' ∷ b'd' ∷ b'=' ∷ b'7' ∷ b'8' ∷ []))

get_arg_value_lem_example :
    get_arg_value ((b'a' ∷ b'&' ∷ []) ++ ((key_uid ++ b'=' ∷ b'7' ∷ b'8' ∷ []) ++ [])) key_uid 1024
    ≡ found (b'7' ∷ b'8' ∷ [])
unfolding starts_with
get_arg_value_lem_example =
    get_arg_value_lem (b'a' ∷ b'&' ∷ []) key_uid (b'7' ∷ b'8' ∷ []) [] 1024 (refl, (refl, tt))
      (omega arith) at_end (omega arith) (omega arith)

get_arg_value-IsValue_example : IsValue other_args key_uid 1024 (b'7' ∷ b'8' ∷ [])
unfolding get_arg_value value_at strstr starts_with until_arg_end copy_value upto
get_arg_value-IsValue_example =
    get_arg_value-IsValue other_args key_uid 1024 (b'7' ∷ b'8' ∷ []) refl

-- `a%2F%2Fb`
abbrev escaped : Bytes
escaped = b'a' ∷ b'%' ∷ b'2' ∷ b'F' ∷ b'%' ∷ b'2' ∷ b'F' ∷ b'b' ∷ []

escaped_text : decode escaped ≡ b'a' ∷ b'/' ∷ b'/' ∷ b'b' ∷ []
unfolding decode_from starts_with
escaped_text = refl

replace_forward_slash_lem_example :
    (replace_forward_slash 9 escaped ≡ some (decode escaped))
    × (strstr (decode escaped) escape ≡ none)
replace_forward_slash_lem_example = replace_forward_slash_lem 9 escaped (omega arith)
