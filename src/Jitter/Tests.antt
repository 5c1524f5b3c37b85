-- ===== src/Jitter/Tests.antt =====
-- A buffer of three frames, and one that runs empty three times.
use server_side_custom_video.Prelude.{
  ℕ, ◌*◌, ◌-◌, ◌^◌, ◌≤◌, ◌<◌, ◌≡◌, ◌⊎◌, refl, List, [], ◌∷◌, length, false, arith,
}
use server_side_custom_video.Text.{pos}
use server_side_custom_video.Long.{difference}
use server_side_custom_video.Context.{Work, new_work}
use server_side_custom_video.Jitter.{
  send_times, thread_sleep_time, start_buffering, refill, fill_in, resize_buffer, get_time_diff,
}
use server_side_custom_video.Jitter.Fixed.{fixed}
use server_side_custom_video.Jitter.Pace.{due, delayed, send_times-delayed}
use server_side_custom_video.Jitter.Size.{jb_size-doublings}

abbrev frame : ℕ → Work
frame t = new_work (b'x' ∷ []) false (pos t)

abbrev busy : Work → ℕ
busy w = 2000000

-- a tenth of a millisecond, at each frame
abbrev lag : Work → ℕ
lag w = 100000

send_times-delayed_example :
    send_times fixed lag busy 120 (frame 40 ∷ frame 80 ∷ frame 113 ∷ []) (pos 0) (due 7 (frame 40))
    ≡ delayed lag 7 (frame 40 ∷ frame 80 ∷ frame 113 ∷ [])
send_times-delayed_example =
    send_times-delayed fixed lag busy 120 40 7 (frame 40) (frame 80 ∷ frame 113 ∷ []) (pos 0) (
      refl,
      (
        80,
        omega arith,
        omega arith,
        omega arith,
        (refl, (113, omega arith, omega arith, omega arith, refl)),
      ),
    )

-- the last frame waits for the distance to the one before, and a long buffer makes it shorter
alone : thread_sleep_time fixed [] (pos 113) (pos 80) 120 ≡ pos 33
unfolding thread_sleep_time difference
alone = refl

hurries : thread_sleep_time fixed (frame 140 ∷ frame 180 ∷ []) (pos 100) (pos 60) 79 ≡ pos 38
unfolding thread_sleep_time difference
hurries = refl

-- within ten seconds, twice
abbrev clock : List (ℕ × ℕ)
clock = (3000000000, 3000000000) ∷ (5000000000, 5000000000) ∷ (9000000000, 9000000000) ∷ []

jb_size-doublings_example :
    let size = (refill 7680 10 clock (start_buffering 120 0)).jb_size in
    ((k : ℕ) × (k ≤ length clock - 1) × (size ≡ 120 * 2 ^ k)) × ((size ≡ 120) ⊎ (size < 2 * 7680))
jb_size-doublings_example = jb_size-doublings 7680 10 120 0 clock (omega arith)

doubled_twice : (refill 7680 10 clock (start_buffering 120 0)).jb_size ≡ 480
unfolding refill fill_in resize_buffer get_time_diff
doubled_twice = refl

-- a maximum over 32768, which no test of `readConfig` refuses, lets the size wrap around
wraps_around : (refill 65535 10 clock (start_buffering 40000 0)).jb_size ≡ 28928
unfolding refill fill_in resize_buffer get_time_diff
wraps_around = refl
