-- ===== src/Fps/Window.antt =====
-- The rate that is predicted at the end of a second.
use server_side_custom_video.Prelude.{
  ℕ, ◌+◌, ◌-◌, ◌%◌, ◌^◌, ◌≤◌, ◌<◌, ◌≡◌, refl, sym, ap, subst, ◌∙◌, false, List, [], ◌∷◌, length,
  lt→leb, le→leb, ne→==, if◌then◌else◌, arith,
}
use server_side_custom_video.Text.{ℤ, pos}
use server_side_custom_video.Long.{Float, difference-le}
use server_side_custom_video.Jitter.{get_time_diff}
use server_side_custom_video.Fps.{
  Rates, is_over, count_frame, is_sane, predict, update_predicted_fps, send_video, send_all,
}

-- Frames with timestamps that do not fall, from `t` on, sent within the second that began at
-- `start`; the last has the timestamp `last`.
abbrev pub Within : (start t : ℕ) → List (ℤ × ℕ × ℕ × ℕ) → (last : ℕ) → Type 0
Within start t [] last = t ≡ last
Within start t ((timestamp, now, later, end) ∷ frames) last =
    (u : ℕ) × (timestamp ≡ pos u)
    × (t ≤ u)
    × (get_time_diff start now < 1000)
    × (get_time_diff start later < 1000)
    × Within start u frames last

zero_add : (n : ℕ) → 0 + n ≡ n
zero_add n = omega arith

module _ (Single : Float) where
  -- a frame that is counted, behind another
  counted-sum :
      (t u sum : ℕ) (s : Rates Single)
      → s.last_frame_timestamp ≡ pos t
      → s.timestamp_per_second ≡ pos sum
      → 0 < t
      → t ≤ u
      → (count_frame Single (pos u) s).timestamp_per_second ≡ pos (sum + (u - t))
  counted-sum t u sum s a b z l =
      simp (a, b, ne→== t 0 (λ e. omega arith), difference-le u t l) refl

  not_over :
      (now : ℕ) (s : Rates Single)
      → get_time_diff s.last_fps_print_time now < 1000
      → is_over Single now s ≡ false
  not_over now s h = lt→leb 1000 (get_time_diff s.last_fps_print_time now) h

  -- a frame within the second
  inner_frame :
      (u now later end : ℕ) (s : Rates Single)
      → get_time_diff s.last_fps_print_time now < 1000
      → get_time_diff s.last_fps_print_time later < 1000
      → send_video Single (pos u) now later end s ≡ count_frame Single (pos u) s
  unfolding send_video update_predicted_fps
  inner_frame u now later end s x y =
      rw
        (
          not_over now (count_frame Single (pos u) s) x,
          not_over later (count_frame Single (pos u) s) y,
        )
        refl

  -- a frame behind the end of the second
  closing_frame :
      (u now later end : ℕ) (s : Rates Single)
      → 1000 ≤ get_time_diff s.last_fps_print_time now
      → 1000 ≤ get_time_diff s.last_fps_print_time later
      → send_video Single (pos u) now later end s
        ≡ record (predict Single (count_frame Single (pos u) s)) {
          high_video_frame_count = 0;
          low_video_frame_count = 0;
          last_fps_print_time = end;
          fps = 0;
        }
  unfolding send_video update_predicted_fps
  closing_frame u now later end s x y =
      rw
        (
          le→leb 1000 (get_time_diff s.last_fps_print_time now) x,
          le→leb 1000 (get_time_diff s.last_fps_print_time later) y,
        )
        refl

  -- what is known in the second that began at `start`, behind `n` frames, the last at `t`, with the
  -- last frame of the second before at `first`
  record Open (start first n t : ℕ) (predicted : Single.Number) (s : Rates Single) : Type 0 where
    print : s.last_fps_print_time ≡ start
    fps : s.fps ≡ n % 2 ^ 8
    frame : s.last_frame_timestamp ≡ pos t
    sum : s.timestamp_per_second ≡ pos (t - first)
    later : first ≤ t
    predicted_fps : s.predicted_fps ≡ predicted

  counted-Open :
      (start first n t u : ℕ) (predicted : Single.Number) (s : Rates Single)
      → 0 < first
      → t ≤ u
      → Open start first n t predicted s
      → Open start first (n + 1) u predicted (count_frame Single (pos u) s)
  counted-Open start first n t u predicted s z l h = record {
    print = h.print;
    fps = ap (λ k. (k + 1) % 2 ^ 8) h.fps ∙ omega arith;
    frame = refl;
    sum =
        counted-sum t u (t - first) s h.frame h.sum (omega (arith, h.later)) l
        ∙ ap pos (omega (arith, h.later));
    later = omega (arith, h.later);
    predicted_fps = h.predicted_fps;
  }

  send_all-Open :
      (start first n t last : ℕ) (predicted : Single.Number) (s : Rates Single)
      (frames : List (ℤ × ℕ × ℕ × ℕ))
      → 0 < first
      → Within start t frames last
      → Open start first n t predicted s
      → Open start first (n + length frames) last predicted (send_all Single frames s)
  unfolding send_all
  send_all-Open start first n t last predicted s [] z w h =
      subst (λ k. Open start first k last predicted s) (omega arith)
        (subst (λ v. Open start first n v predicted s) w h)
  send_all-Open start first n t last predicted s ((timestamp, now, later, end) ∷ frames) z
        (u, e, l, x, y, w) h =
      let inner = counted-Open start first n t u predicted s z l h in
      subst
        (λ k.
          Open start first k last predicted
            (send_all Single frames (send_video Single timestamp now later end s)))
        (omega arith)
        (send_all-Open start first (n + 1) u last predicted
          (send_video Single timestamp now later end s) frames z w
          (subst (λ v. Open start first (n + 1) u predicted (send_video Single v now later end s))
            (sym e)
            (subst (Open start first (n + 1) u predicted)
              (sym (inner_frame u now later end s (rw (h.print) x) (rw (h.print) y))) inner)))

  -- The frames of one second, with timestamps that do not fall and are not zero, and one more
  -- behind its end, at both readings of the clock: the rate is then predicted from the time between
  -- the last frame of the second before and this one, and the number of the frames in eight bits,
  -- if this is sane, and else kept; the counters of frames start again at 0, that of this function
  -- and the two of the streams that are sent, and the time from the third reading, so that the next
  -- second is predicted the same way.
  pub predicts_second :
      (start first last u now later end : ℕ) (frames : List (ℤ × ℕ × ℕ × ℕ)) (s : Rates Single)
      → s.last_fps_print_time ≡ start
      → s.fps ≡ 0
      → s.last_frame_timestamp ≡ pos first
      → s.timestamp_per_second ≡ pos 0
      → 0 < first
      → Within start first frames last
      → last ≤ u
      → 1000 ≤ get_time_diff start now
      → 1000 ≤ get_time_diff start later
      → let r = send_video Single (pos u) now later end (send_all Single frames s) in
        let average =
          Single.over
            (Single.from_long (pos (u - first)))
            (Single.from_long (pos ((length frames + 1) % 2 ^ 8))) in
        (r.predicted_fps ≡ (
          if is_sane Single average
          then Single.over (Single.from_long (pos 1000)) average
          else s.predicted_fps))
        × (r.last_fps_print_time ≡ end)
        × (r.fps ≡ 0)
        × (r.last_frame_timestamp ≡ pos u)
        × (r.timestamp_per_second ≡ pos 0)
        × (r.high_video_frame_count ≡ 0)
        × (r.low_video_frame_count ≡ 0)
  predicts_second start first last u now later end frames s print fps frame sum z w l x y =
      let all = send_all-Open start first 0 first last s.predicted_fps s frames z w (record {
        print = print;
        fps = fps;
        frame = frame;
        sum = sum ∙ ap pos (omega arith);
        later = omega arith;
        predicted_fps = refl;
      }) in
      let done =
        counted-Open start first (0 + length frames) last u s.predicted_fps
          (send_all Single frames s) z l all in
      rw
        (
          closing_frame u now later end (send_all Single frames s) (rw (all.print) x)
              (rw (all.print) y),
          done.sum,
          done.fps ∙ ap (λ k. (k + 1) % 2 ^ 8) (zero_add (length frames)),
          done.predicted_fps,
        )
        (refl, refl, refl, refl, refl, refl, refl)
