-- ===== src/Jitter/Speed.antt =====
-- libagorac/helpers/utilities.cpp: the `GetNextSamplingPoint` that takes a speed, which nothing
-- calls. `Single` is `float` and `Double` is `double`.
use server_side_custom_video.Prelude.{ℕ, zero, suc, Bool, List, if◌then◌else◌}
use server_side_custom_video.Text.{ℤ, pos, negsuc}
use server_side_custom_video.Long.{◌+ℤ◌, times, Float}
use server_side_custom_video.Queue.{size}
use server_side_custom_video.Context.{Work}

-- `size()-1`, as the `int` that `size` returns
abbrev one_less : ℕ → ℤ
one_less zero = negsuc 0
one_less (suc n) = pos n

module _ (Single Double : Float) (ceil : Single.Number → Single.Number) where
  abbrev pub frame_time : (speed : Single.Number) → Single.Number
  frame_time speed = ceil (Single.over (Single.from_long (pos 1000)) speed)

  -- `(q->size()-1)*timePerFrame>ctx->jb_size`
  abbrev pub is_ahead : List Work → Single.Number → (jb_size : ℕ) → Bool
  is_ahead q time jb_size =
      Single.less_float (Single.from_long (pos jb_size))
        (Single.times_float (Single.from_long (one_less (size q))) time)

  -- `(long)(samplingFrequency*9/10.0)`
  abbrev pub tenth_less : ℤ → ℤ
  tenth_less n = Double.truncate (Double.over (Double.from_long (times 9 n)) (Double.literal 100 1))

  -- `GetNextSamplingPoint(ctx, speed, q)`: the time point
  unfoldable pub next_point_at_speed :
      (speed : Single.Number) → List Work → (jb_size : ℕ) → (now : ℤ) → ℤ
  next_point_at_speed speed q jb_size now =
      let time = frame_time speed in
      let frequency = Single.truncate time in
      now +ℤ times 1000000 (if is_ahead q time jb_size then tenth_less frequency else frequency)
