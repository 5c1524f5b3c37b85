-- ===== src/Fps.antt =====
-- libagorac/agorac.cpp: the frame rate that `agora_send_video` predicts from timestamps, by
-- `UpdatePredictedFps`, and the counters of `context.h` it sets. `Single` is `float`; sums of
-- timestamps are taken to be in the range of `long`.
pub mod Window
mod Tests
use server_side_custom_video.Prelude.{
  ℕ, ◌+◌, ◌%◌, ◌^◌, ◌*◌, Bool, true, false, not, List, [], ◌∷◌, leb, if◌then◌else◌,
}
use server_side_custom_video.Text.{ℤ, pos}
use server_side_custom_video.Long.{◌-ℤ◌, ◌+ℤ◌, equals, Float}
use server_side_custom_video.Jitter.{get_time_diff}

module _ (Single : Float) where
  pub record Rates : Type 0 where
    pub fps : ℕ
    pub predicted_fps : Single.Number
    pub last_fps_print_time : ℕ
    pub last_frame_timestamp : ℤ
    pub timestamp_per_second : ℤ
    pub high_video_frame_count : ℕ
    pub low_video_frame_count : ℕ

  -- `agora_init`
  abbrev pub start_rates : (now : ℕ) → Rates
  start_rates now = record {
    fps = 0;
    predicted_fps = Single.from_long (pos 30);
    last_fps_print_time = now;
    last_frame_timestamp = pos 0;
    timestamp_per_second = pos 0;
    high_video_frame_count = 0;
    low_video_frame_count = 0;
  }

  -- a second is over, for a reading of the clock
  abbrev pub is_over : (now : ℕ) → Rates → Bool
  is_over now s = leb 1000 (get_time_diff s.last_fps_print_time now)

  -- the frame is counted, and its distance from the last one
  abbrev pub count_frame : ℤ → Rates → Rates
  count_frame timestamp s = record s {
    fps = (s.fps + 1) % 2 ^ 8;
    timestamp_per_second =
        if not (equals s.last_frame_timestamp (pos 0))
        then s.timestamp_per_second +ℤ (timestamp -ℤ s.last_frame_timestamp)
        else s.timestamp_per_second;
    last_frame_timestamp = timestamp;
  }

  -- `averageTimeStamp`
  abbrev pub average_timestamp : Rates → Single.Number
  average_timestamp s =
      Single.over (Single.from_long s.timestamp_per_second) (Single.from_long (pos s.fps))

  -- `averageTimeStamp>1000/maxFps`
  abbrev pub is_sane : Single.Number → Bool
  is_sane average =
      Single.less_float (Single.over (Single.from_long (pos 1000)) (Single.literal 255 0)) average

  -- the rate of the second that is over
  abbrev pub predict : Rates → Rates
  predict s = record s {
    predicted_fps =
        if is_sane (average_timestamp s)
        then Single.over (Single.from_long (pos 1000)) (average_timestamp s)
        else s.predicted_fps;
    timestamp_per_second = pos 0;
  }

  -- `UpdatePredictedFps`
  unfoldable pub update_predicted_fps : ℤ → (now : ℕ) → Rates → Rates
  update_predicted_fps timestamp now s =
      let counted = count_frame timestamp s in
      if is_over now counted then predict counted else counted

  -- `agora_send_video`, behind the queue: the clock is read for `UpdatePredictedFps`, then for the
  -- counters, then to start the next second
  unfoldable pub send_video : ℤ → (now later last : ℕ) → Rates → Rates
  send_video timestamp now later last s =
      let updated = update_predicted_fps timestamp now s in
      if is_over later updated
      then record updated {
        high_video_frame_count = 0;
        low_video_frame_count = 0;
        last_fps_print_time = last;
        fps = 0;
      }
      else updated

  -- frames, each with the three readings of the clock
  unfoldable pub send_all : List (ℤ × ℕ × ℕ × ℕ) → Rates → Rates
  send_all [] s = s
  send_all ((timestamp, now, later, last) ∷ frames) s =
      send_all frames (send_video timestamp now later last s)
