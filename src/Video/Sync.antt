-- ===== src/Video/Sync.antt =====
-- libagorac/helpers/utilities.cpp: `getVideoSyncBytesPos`, which nothing calls.
use server_side_custom_video.Prelude.{
  ℕ, not, [], ◌∷◌, Option, none, some, Bytes, ◌==◌, if◌then◌else◌,
}

-- the fourth byte
abbrev long_code : Bytes → Option ℕ
long_code [] = none
long_code (d ∷ rest) = if d == 1 then some 4 else some 0

-- the third byte
abbrev third_byte : Bytes → Option ℕ
third_byte [] = none
third_byte (c ∷ rest) = if c == 1 then some 3 else if not (c == 0) then some 0 else long_code rest

abbrev second_byte : Bytes → Option ℕ
second_byte [] = none
second_byte (b ∷ rest) = if not (b == 0) then some 0 else third_byte rest

-- where the start code ends, or 0; none is a read past the buffer
unfoldable pub get_video_sync_bytes_pos : Bytes → Option ℕ
get_video_sync_bytes_pos [] = none
get_video_sync_bytes_pos (a ∷ rest) = if not (a == 0) then some 0 else second_byte rest
