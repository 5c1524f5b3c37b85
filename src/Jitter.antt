-- ===== src/Jitter.antt =====
-- The video jitter buffer: `GetNextSamplingPoint`, `ResizeBuffer` and the tests of
-- `WaitForBuffering` in libagorac/helpers/utilities.cpp, `CheckAndFillInVideoJb` and the pace of
-- `VideoThreadHandlerHigh` in libagorac/agorac.cpp. A `TimePoint` is nanoseconds of the steady
-- clock. `Single` is `float`, `Double` is `double`.
pub mod Pace
pub mod Speed
pub mod Size
pub mod Fixed
mod Tests
use server_side_custom_video.Prelude.{
  ℕ, zero, suc, ◌+◌, ◌*◌, ◌%◌, ◌/◌, ◌^◌, ◌-◌, Bool, true, false, ◌&&◌, List, [], ◌∷◌, Option, none,
  some, length, ltb, leb, if◌then◌else◌,
}
use server_side_custom_video.Text.{ℤ, pos, negsuc}
use server_side_custom_video.Long.{◌-ℤ◌, ◌+ℤ◌, times, equals, less, larger, to_int, Float}
use server_side_custom_video.Queue.{top, size}
use server_side_custom_video.Context.{Work}

-- `GetTimeDiff`: milliseconds, of a clock that does not go back
unfoldable pub get_time_diff : (start end : ℕ) → ℕ
get_time_diff start end = (end - start) / 1000000

-- the timestamp of the next frame, or of this one if there is none
abbrev pub next_timestamp : Option Work → ℤ → ℤ
next_timestamp none current = current
next_timestamp (some work) current = work.timestamp

module _ (Double : Float) where
  -- `(long)(threadsleepTime*0.95)`
  abbrev pub speed_up : ℤ → ℤ
  speed_up sleep =
      Double.truncate (Double.times_float (Double.from_long sleep) (Double.literal 95 2))

  -- `threadsleepTime` of `GetNextSamplingPoint`, in milliseconds
  unfoldable pub thread_sleep_time : List Work → (current last : ℤ) → (jb_size : ℕ) → ℤ
  thread_sleep_time q current last jb_size =
      let next = next_timestamp (top q) current in
      let sleep = next -ℤ (if equals current next then last else current) in
      if less (pos jb_size) (times (size q) sleep) then speed_up sleep else sleep

  -- `GetNextSamplingPoint`: the time point, and `lastVideoSampingInterval`
  unfoldable pub get_next_sampling_point :
      List Work → (current last : ℤ) → (jb_size : ℕ) → (now : ℤ) → ℤ × ℤ
  get_next_sampling_point q current last jb_size now =
      let sleep = thread_sleep_time q current last jb_size in
      (now +ℤ times 1000000 sleep, to_int sleep)

  -- When `VideoThreadHandlerHigh` reads the clock in `GetNextSamplingPoint` for each of the frames
  -- that are in its buffer, while none is added. It is done with the frame before at `now`: `lag` is
  -- what passes from then on up to this reading (the waking up, the tests of the buffer, `get` and
  -- the copy for the low stream), and `busy` what the rest of the work on the frame takes.
  -- `sleep_until` returns at once for a time that is past.
  unfoldable pub send_times :
      (lag busy : Work → ℕ) (jb_size : ℕ) → List Work → (last now : ℤ) → List ℤ
  send_times lag busy jb_size [] last now = []
  send_times lag busy jb_size (work ∷ q) last now =
      let reading = now +ℤ pos (lag work) in
      reading
      ∷ send_times lag busy jb_size q work.timestamp (
          larger (reading +ℤ pos (busy work))
            (get_next_sampling_point q work.timestamp last jb_size reading).0)

module _ (Single : Float) where
  -- `diff>3*ctx->predictedFps`
  abbrev pub is_late : ℕ → Single.Number → Bool
  is_late diff predicted_fps =
      Single.less_float (Single.times_float (Single.from_long (pos 3)) predicted_fps)
        (Single.from_long (pos diff))

  -- `timePerFrame`
  abbrev pub time_per_frame : Single.Number → Single.Number
  time_per_frame predicted_fps = Single.over (Single.from_long (pos 1000)) predicted_fps

  -- `(ctx->videoJB->size()*timePerFrame)<ctx->jb_size`
  abbrev pub is_short : List Work → Single.Number → ℕ → Bool
  is_short q predicted_fps jb_size =
      Single.less_float
        (Single.times_float (Single.from_long (pos (size q))) (time_per_frame predicted_fps))
        (Single.from_long (pos jb_size))

-- what `ResizeBuffer` reads and sets
pub record Buffering : Type 0 where
  pub jb_size : ℕ
  pub last_buffering_time : ℕ
  pub rebuffering_count : ℕ

-- `agora_init`
abbrev pub start_buffering : (initial_jb_size now : ℕ) → Buffering
start_buffering initial_jb_size now = record {
  jb_size = initial_jb_size;
  last_buffering_time = now;
  rebuffering_count = 0;
}

-- The clock is read twice.
unfoldable pub resize_buffer : (time_to_increase now later : ℕ) → Buffering → Buffering
resize_buffer time_to_increase now later b = record {
  jb_size =
      if leb 1 b.rebuffering_count
        && ltb (get_time_diff b.last_buffering_time now) (time_to_increase * 1000)
      then b.jb_size * 2 % 2 ^ 16
      else b.jb_size;
  last_buffering_time = later;
  rebuffering_count = (b.rebuffering_count + 1) % 2 ^ 64;
}

-- `CheckAndFillInVideoJb`, behind `WaitForBuffering`
unfoldable pub fill_in : (max_jb_size time_to_increase now later : ℕ) → Buffering → Buffering
fill_in max_jb_size time_to_increase now later b =
    if ltb b.jb_size max_jb_size then resize_buffer time_to_increase now later b else b

-- the buffer runs empty again and again, each time with two readings of the clock
unfoldable pub refill : (max_jb_size time_to_increase : ℕ) → List (ℕ × ℕ) → Buffering → Buffering
refill max_jb_size time_to_increase [] b = b
refill max_jb_size time_to_increase ((now, later) ∷ clock) b =
    refill max_jb_size time_to_increase clock (fill_in max_jb_size time_to_increase now later b)
