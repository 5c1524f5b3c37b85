-- ===== src/Args.antt =====
-- ngx_agora_helper.c: `find_arg_end`, `get_arg_value` and `ngx_agora_replace_forward_slash`.
-- The argument string is NUL-terminated by `ngx_agora_init` before it is searched.
pub mod Values
pub mod Slash
mod Tests
use server_side_custom_video.Prelude.{
  ℕ, zero, suc, ◌+◌, List, [], ◌∷◌, ◌++◌, Option, none, some, Bytes, leb, if◌then◌else◌, length,
  drop,
}
use server_side_custom_video.Text.{strstr, upto}

-- What `get_arg_value` does to a zeroed buffer of the caller.
pub data Arg : Type 0 where
  -- it returns -1
  missing : Arg
  -- it returns 0 and the buffer holds this string
  found : Bytes → Arg
  -- The value has no room, with its NUL, in the buffer: the copy, which is not bounded, runs past
  -- the end, or it fills the buffer and whoever reads the string runs past the end.
  overrun : Arg

-- `find_arg_end(arg)`, as the bytes from `arg` up to it
unfoldable pub until_arg_end : Bytes → Bytes
until_arg_end arg = upto b'&' arg

-- the copy of `value_end_pos - value_start_pos` bytes into a buffer of `size`
unfoldable pub copy_value : ℕ → Bytes → Arg
copy_value size value = if leb size (length value) then overrun else found value

-- from `key_start_pos` on; the byte behind the key is stepped over, whatever it is
unfoldable pub value_at : ℕ → Bytes → Bytes → Arg
value_at size key key_start =
    let arg = until_arg_end key_start in
    if leb (length arg) (length key + 1)
    then missing
    else copy_value size (drop (length key + 1) arg)

-- `get_arg_value(args, key, value)`, for a `value` of `size` bytes
unfoldable pub get_arg_value : Bytes → Bytes → ℕ → Arg
get_arg_value args key size = elim (strstr args key) [
  | none ↦ missing
  | some (_, key_start) ↦ value_at size key key_start
]

-- `forward_slash_text`
abbrev pub escape : Bytes
escape = b'%' ∷ b'2' ∷ b'F' ∷ []

-- the loop's body: `temp_buffer`, copied back to `appid`
abbrev pub replaced : Bytes → Bytes → Bytes
replaced before at = before ++ b'/' ∷ drop 3 at

-- `ngx_agora_replace_forward_slash`, with fuel; none if it runs out
unfoldable pub replace_forward_slash : ℕ → Bytes → Option Bytes
replace_forward_slash zero appid = none
replace_forward_slash (suc fuel) appid = elim (strstr appid escape) [
  | none ↦ some appid
  | some (before, at) ↦ replace_forward_slash fuel (replaced before at)
]
