-- ===== src/Context.antt =====
-- libagorac/helpers/context.h: `Work`, what the queues carry.
use server_side_custom_video.Prelude.{Bool, true, false, Option, none, some, Bytes}
use server_side_custom_video.Text.{ℤ}

-- `buffer` is none for `nullptr`.
pub record Work : Type 0 where
  pub buffer : Option Bytes
  pub is_key_frame : Bool
  pub is_finished : Bool
  pub timestamp : ℤ

-- `Work(b, l, is_key)` for a buffer that there is, with the `timestamp` that every caller sets
-- next: a copy of the bytes
abbrev pub new_work : Bytes → Bool → ℤ → Work
new_work bytes is_key timestamp = record {
  buffer = some bytes;
  is_key_frame = is_key;
  is_finished = false;
  timestamp = timestamp;
}

-- `Work(nullptr, 0, false)` with `is_finished` set: the constructor returns before it sets the
-- other fields, so they hold what was in memory
abbrev pub finish_work : Bool → ℤ → Work
finish_work stale_key stale_timestamp = record {
  buffer = none;
  is_key_frame = stale_key;
  is_finished = true;
  timestamp = stale_timestamp;
}
