-- ===== src/Chain.antt =====
-- ngx_agora_helper.c: `ngx_custom_copy`, which reads bytes across the buffers of a chain.
pub mod Copy
use server_side_custom_video.Prelude.{
  ℕ, ◌-◌, List, [], ◌∷◌, ◌++◌, Option, none, some, Bytes, leb, if◌then◌else◌, length, take, drop,
}

-- `ngx_chain_t *in` with the read position `u_char *src` in its first buffer: each element is the
-- bytes from the position (in the first buffer) or from `buf->pos` (in the others) to `buf->last`.
-- The empty list is `in == NULL`.
abbrev pub Chain : Type 0
Chain = List Bytes

-- all bytes that are still to be read
abbrev pub payload : Chain → Bytes
payload [] = []
payload (b ∷ next) = b ++ payload next

-- `while (*in && *src == (*in)->buf->last)`: step over the buffers that are used up.
unfoldable pub skip_drained : Chain → Chain
skip_drained [] = []
skip_drained ([] ∷ next) = skip_drained next
skip_drained ((x ∷ b) ∷ next) = (x ∷ b) ∷ next

-- what is copied before a recursive call, put in front of what that copies
abbrev prepend : Bytes → Option (Bytes × Chain) → Option (Bytes × Chain)
prepend b none = none
prepend b (some (bs, c)) = some (b ++ bs, c)

-- `ngx_custom_copy`: the `n` bytes copied and the new position, or none for NGX_ERROR. Every
-- caller returns on an error, so the position after one is not kept.
unfoldable pub custom_copy : ℕ → Chain → Option (Bytes × Chain)
custom_copy n [] = none
custom_copy n (b ∷ next) =
    if leb n (length b)
    then some (take n b, skip_drained (drop n b ∷ next))
    else prepend b (custom_copy (n - length b) next)
