-- ===== src/Sender/Shutdown/Ends.antt =====
-- The end of the threads behind `agora_disconnect`.
use server_side_custom_video.Prelude.{
  ℕ, inl, inr, ◌≤◌, ◌≡◌, refl, le-or-lt, ◌⊎◌, ◌<◌, ap, Bool, true, false, List, [], ◌∷◌, arith,
}
use server_side_custom_video.Context.{Work}
use server_side_custom_video.Sender.{Pc, closed, System, started, Event, happen, run}
use server_side_custom_video.Sender.Order.{Served, run-Served, happen-Served, started-Served}
use server_side_custom_video.Sender.Shutdown.{
  Closing, Plain, LowPlain, turns_left, is_over, high_turns, low_turns, audio_turns,
}
use server_side_custom_video.Sender.Shutdown.Told.{video_is_told, low_is_told, audio_is_told, Told}
use server_side_custom_video.Sender.Shutdown.Steps.{
  started-Told, happen-Told, Served-alive, happen-Left, run-Told,
}

-- a told thread with no turns left has returned
over : (pc : Pc) (q : List Work) → Closing pc q → turns_left pc ≤ 0 → is_over pc ≡ true
over pc q h z = ground arith

turns_left-le : (pc : Pc) → turns_left pc ≤ 6
turns_left-le pc = ground arith

turns_left-Plain : (pc : Pc) → Plain pc → turns_left pc ≤ 5
turns_left-Plain pc h = ground arith

turns_left-LowPlain : (pc : Pc) → LowPlain pc → turns_left pc ≤ 5
turns_left-LowPlain pc h = ground arith

run-over :
    (dual : Bool) (finish : Work) (es : List Event) (s : System)
    → s.api ≡ closed
    → Served s
    → Told dual s
    → let t = run dual finish es s in
      (turns_left s.high ≤ high_turns es → is_over t.high ≡ true)
      × (dual ≡ true → turns_left s.low ≤ low_turns es → is_over t.low ≡ true)
      × (turns_left s.audio ≤ audio_turns es → is_over t.audio ≡ true)
unfolding run
run-over dual finish [] s c g h = (
  λ z. over s.high s.video_jb (h.video (ap video_is_told c)) z,
  λ d z. over s.low s.video_queue_low (h.low d (ap low_is_told c)) z,
  λ z. over s.audio s.audio_jb (h.audio (ap audio_is_told c)) z,
)
run-over dual finish (e ∷ es) s c g h =
    let k = happen-Served dual finish e s g in
    let l = happen-Left dual finish e s c h in
    let told = happen-Told dual finish e s (Served-alive (happen dual finish e s) k) h in
    let (x, y, z) = run-over dual finish es (happen dual finish e s) (l.stays c) k told in
    (
      λ n. x (omega (arith, l.high_left c)),
      λ d n. y d (omega (arith, l.low_left d c)),
      λ n. z (omega (arith, l.audio_left c)),
    )

-- one of the two, by the number of turns
over-or :
    (least turns : ℕ) (pc : Pc)
    → (least ≤ turns → is_over pc ≡ true)
    → (is_over pc ≡ true) ⊎ (turns < least)
over-or least turns pc h = elim (le-or-lt least turns) [
  | inl enough ↦ inl (h enough)
  | inr few ↦ inr few
]

over-or_single :
    (dual : Bool) (turns : ℕ) (pc : Pc)
    → (dual ≡ true → 5 ≤ turns → is_over pc ≡ true)
    → (dual ≡ false) ⊎ ((is_over pc ≡ true) ⊎ (turns < 5))
over-or_single true turns pc h = inr (over-or 5 turns pc (h refl))
over-or_single false turns pc h = inl refl

-- Whatever happened before, once `agora_disconnect` has added its last work, at its sleep: the
-- thread of the high stream has returned by the time it has had six turns, and the thread of the
-- low stream, if it runs, and that of the audio by the time they have had five, whatever else
-- happens meanwhile.
pub disconnect-ends :
    (dual : Bool) (finish : Work) (before after : List Event)
    → (run dual finish before started).api ≡ closed
    → let t = run dual finish after (run dual finish before started) in
      ((is_over t.high ≡ true) ⊎ (high_turns after < 6))
      × ((dual ≡ false) ⊎ ((is_over t.low ≡ true) ⊎ (low_turns after < 5)))
      × ((is_over t.audio ≡ true) ⊎ (audio_turns after < 5))
disconnect-ends dual finish before after c =
    let s = run dual finish before started in
    let t = run dual finish after s in
    let h = run-Told dual finish before started started-Served (started-Told dual) in
    let g = run-Served dual finish before started started-Served in
    let (x, y, z) = run-over dual finish after s c g h in
    (
      over-or 6 (high_turns after) t.high (λ n. x (omega (arith, turns_left-le s.high))),
      over-or_single dual (low_turns after) t.low
          (λ d n. y d (omega (arith, turns_left-LowPlain s.low h.low_plain))),
      over-or 5 (audio_turns after) t.audio
          (λ n. z (omega (arith, turns_left-Plain s.audio h.audio_plain))),
    )
