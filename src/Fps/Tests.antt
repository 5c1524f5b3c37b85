-- ===== src/Fps/Tests.antt =====
-- A second of three frames at 25 frames per second.
use server_side_custom_video.Prelude.{
  ℕ, ◌+◌, ◌*◌, ◌/◌, ◌-◌, ◌%◌, ◌^◌, ◌≡◌, refl, List, [], ◌∷◌, length, if◌then◌else◌, arith,
}
use server_side_custom_video.Text.{ℤ, pos}
use server_side_custom_video.Long.{difference}
use server_side_custom_video.Jitter.{get_time_diff}
use server_side_custom_video.Jitter.Fixed.{fixed}
use server_side_custom_video.Fps.{
  Rates, is_sane, start_rates, send_video, send_all, update_predicted_fps,
}
use server_side_custom_video.Fps.Window.{predicts_second}

abbrev second_begins : Rates fixed
second_begins = record (start_rates fixed 5000000) {
  last_frame_timestamp = pos 40;
  high_video_frame_count = 24;
  low_video_frame_count = 12;
}

abbrev frames : List (ℤ × ℕ × ℕ × ℕ)
frames = (pos 80, 45000000, 45000001, 45000002) ∷ (pos 120, 85000000, 85000001, 85000002) ∷ []

predicts_second_example :
    let r =
      send_video fixed
        (pos 160)
        1005000000
        1005000001
        1005000002
        (send_all fixed frames second_begins) in
    let average = (160 - 40) * 1000 * 1000 / (((length frames + 1) % 2 ^ 8) * 1000) in
    (r.predicted_fps ≡ (if is_sane fixed average then 1000 * 1000 * 1000 / average else 30000))
    × (r.last_fps_print_time ≡ 1005000002)
    × (r.fps ≡ 0)
    × (r.last_frame_timestamp ≡ pos 160)
    × (r.timestamp_per_second ≡ pos 0)
    × (r.high_video_frame_count ≡ 0)
    × (r.low_video_frame_count ≡ 0)
unfolding get_time_diff
predicts_second_example =
    predicts_second fixed 5000000 40 120 160 1005000000 1005000001 1005000002 frames second_begins
      refl refl refl refl (omega arith)
      (
        80,
        refl,
        omega arith,
        omega arith,
        omega arith,
        (120, refl, omega arith, omega arith, omega arith, refl),
      )
      (omega arith) (omega arith) (omega arith)

twenty_five :
    (send_video fixed
      (pos 160)
      1005000000
      1005000001
      1005000002
      (send_all fixed frames second_begins)).predicted_fps
    ≡ 25000
unfolding get_time_diff send_video send_all update_predicted_fps difference
twenty_five = refl

-- When the second ends between the two readings, the frames start again and the time does not.
out_of_step :
    let r =
      send_video fixed
        (pos 160)
        1004999999
        1005000000
        1005000002
        (send_all fixed frames second_begins) in
    (r.fps ≡ 0) × (r.timestamp_per_second ≡ pos 120)
unfolding get_time_diff send_video send_all update_predicted_fps difference
out_of_step = (refl, refl)
