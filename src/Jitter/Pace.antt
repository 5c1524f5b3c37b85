-- ===== src/Jitter/Pace.antt =====
-- The pace of `VideoThreadHandlerHigh` over the frames in its buffer.
use server_side_custom_video.Prelude.{
  ℕ, ◌+◌, ◌*◌, ◌-◌, ◌≤◌, ◌<◌, ◌≡◌, refl, ap, ◌∙◌, List, [], ◌∷◌, arith, le→ltb, ne→==,
}
use server_side_custom_video.Text.{ℤ, pos}
use server_side_custom_video.Long.{◌+ℤ◌, times, larger, Float, difference-le}
use server_side_custom_video.Queue.{size}
use server_side_custom_video.Context.{Work}
use server_side_custom_video.Jitter.{thread_sleep_time, get_next_sampling_point, send_times}

-- Frames with rising timestamps, the first at `t` milliseconds: each is handled before the next
-- one's time, and there are not too many behind it for the size of the buffer.
abbrev pub Paced : (busy : Work → ℕ) (jb_size t : ℕ) → Work → List Work → Type 0
Paced busy jb_size t w [] = w.timestamp ≡ pos t
Paced busy jb_size t w (v ∷ q) =
    (w.timestamp ≡ pos t)
    × ((u : ℕ) × (t < u)
        × (busy w ≤ 1000000 * (u - t))
        × (size (v ∷ q) * (u - t) ≤ jb_size)
        × Paced busy jb_size u v q)

-- the time of a frame, for a stream whose time 0 is at `origin` of the clock
abbrev pub due : (origin : ℕ) → Work → ℤ
due origin w = pos origin +ℤ times 1000000 w.timestamp

-- the times of frames, each later by the lags of those up to it
abbrev pub delayed : (lag : Work → ℕ) (origin : ℕ) → List Work → List ℤ
delayed lag origin [] = []
delayed lag origin (w ∷ q) = due (origin + lag w) w ∷ delayed lag (origin + lag w) q

Paced-first :
    (busy : Work → ℕ) (jb t : ℕ) (w : Work) (q : List Work)
    → Paced busy jb t w q
    → w.timestamp ≡ pos t
Paced-first busy jb t w [] p = p
Paced-first busy jb t w (v ∷ q) (p, _) = p

module _ (Double : Float) where
  sleep-gap :
      (v : Work) (q : List Work) (t u : ℕ) (last : ℤ) (jb : ℕ)
      → v.timestamp ≡ pos u
      → t < u
      → size (v ∷ q) * (u - t) ≤ jb
      → thread_sleep_time Double (v ∷ q) (pos t) last jb ≡ pos (u - t)
  unfolding thread_sleep_time
  sleep-gap v q t u last jb e h b =
      rw
        (
          e,
          ne→== t u (λ n. omega arith),
          difference-le u t (omega arith),
          le→ltb jb (size (v ∷ q) * (u - t)) b,
        )
        refl

  next-due :
      (busy origin : ℕ) (t u : ℕ)
      → t < u
      → busy ≤ 1000000 * (u - t)
      → larger
          (pos (origin + 1000000 * t) +ℤ pos busy)
          (pos (origin + 1000000 * t) +ℤ times 1000000 (pos (u - t)))
        ≡ pos (origin + 1000000 * u)
  next-due busy origin t u h b = ground arith

  lagged :
      (origin lag : ℕ) (w : Work)
      → (t : ℕ) → w.timestamp ≡ pos t
      → due origin w +ℤ pos lag ≡ due (origin + lag) w
  lagged origin lag w t e = simp e (ap pos (omega arith))

  -- Of frames with rising timestamps in the buffer, each one handled within the time to the next,
  -- and never so many that the buffer would be too long: the thread reads the clock for each of them
  -- at its time, later by the lags of all the frames up to it, if it is done with what came before at
  -- the first one's time. So no frame is early, and what is lost is not made up for.
  pub send_times-delayed :
      (lag busy : Work → ℕ) (jb_size t origin : ℕ) (w : Work) (q : List Work) (last : ℤ)
      → Paced busy jb_size t w q
      → send_times Double lag busy jb_size (w ∷ q) last (due origin w) ≡ delayed lag origin (w ∷ q)
  unfolding send_times get_next_sampling_point
  send_times-delayed lag busy jb t origin w [] last e =
      ap (λ z. z ∷ []) (lagged origin (lag w) w t e)
  send_times-delayed lag busy jb t origin w (v ∷ q) last (e, (u, h, b, s, p)) =
      rw (lagged origin (lag w) w t e) (
        ap (λ z. due (origin + lag w) w ∷ z)
          (ap (λ now. send_times Double lag busy jb (v ∷ q) w.timestamp now) step
            ∙ send_times-delayed lag busy jb u (origin + lag w) v q w.timestamp p))
    where
      f : v.timestamp ≡ pos u
      f = Paced-first busy jb u v q p

      step :
          larger
            (due (origin + lag w) w +ℤ pos (busy w))
            (get_next_sampling_point Double (v ∷ q) w.timestamp last jb (due (origin + lag w) w)).0
          ≡ due (origin + lag w) v
      step =
          simp (e, f, sleep-gap v q t u last jb f h s) (next-due (busy w) (origin + lag w) t u h b)
