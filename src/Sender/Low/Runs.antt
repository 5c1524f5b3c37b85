-- ===== src/Sender/Low/Runs.antt =====
-- Runs with the low stream in use, until `agora_disconnect` clears its queue.
use server_side_custom_video.Prelude.{
  ◌≡◌, refl, sym, ap, ◌∙◌, Bool, true, false, List, [], ◌∷◌, ◌++◌, arith, if◌then◌else◌,
}
use server_side_custom_video.Queue.{get}
use server_side_custom_video.Context.{Work, new_work}
use server_side_custom_video.Sender.{
  Pc, Api, connected, stopping, video_told, low_cleared, low_told, closed, System, started,
  add_video, add_audio, add_low, high_turn, low_turn, audio_turn, disconnect_turn, Event,
  send_video, send_audio, disconnect, high_step, low_step, audio_step, spurious, is_connected,
  happen, run,
}
use server_side_custom_video.Sender.Low.{
  at_hand, at_hand-wake, low_works, forwarded, Follows, Same-Follows, low_turn-Same,
  high_turn-Follows,
}

-- `agora_disconnect` has not cleared `videoQueueLow`
abbrev pub is_uncleared : Api → Bool
is_uncleared connected = true
is_uncleared stopping = true
is_uncleared video_told = true
is_uncleared _ = false

-- until `videoQueueLow` is cleared
abbrev Uncleared : System → Type 0
Uncleared s = is_uncleared s.api ≡ true → Follows s

disconnect-Uncleared :
    (finish : Work) (a : Api) (s : System)
    → s.api ≡ a
    → Uncleared s
    → Uncleared (disconnect_turn true finish a s)
unfolding disconnect_turn add_video
disconnect-Uncleared finish connected s e h = λ u. h (ap is_uncleared e)
disconnect-Uncleared finish stopping s e h = λ u. h (ap is_uncleared e) ∙ rw at_hand-wake refl
disconnect-Uncleared finish video_told s e h = λ u. ground (arith, u)
disconnect-Uncleared finish low_cleared s e h = λ u. ground (arith, u)
disconnect-Uncleared finish low_told s e h = λ u. ground (arith, u)
disconnect-Uncleared finish closed s e h = h

add_video-Uncleared :
    (b : Bool) (w : Work) (s : System) → Uncleared s → Uncleared (if b then add_video w s else s)
unfolding add_video
add_video-Uncleared true w s h = λ u. h u ∙ rw at_hand-wake refl
add_video-Uncleared false w s h = h

add_audio-Uncleared :
    (b : Bool) (w : Work) (s : System) → Uncleared s → Uncleared (if b then add_audio w s else s)
unfolding add_audio
add_audio-Uncleared true w s h = h
add_audio-Uncleared false w s h = h

high_turn-api :
    (pc : Pc) (late short : Bool) (s : System)
    → is_uncleared (high_turn true pc late short s).api ≡ is_uncleared s.api
unfolding high_turn get add_low
high_turn-api pc late short s = ground arith

low_turn-api : (pc : Pc) (s : System) → is_uncleared (low_turn true pc s).api ≡ is_uncleared s.api
unfolding low_turn get
low_turn-api pc s = ground arith

audio_turn-streams :
    (pc : Pc) (s : System)
    → let t = audio_turn true pc s in
      (is_uncleared t.api ≡ is_uncleared s.api)
      × (low_works t ≡ low_works s)
      × (forwarded t ≡ forwarded s)
unfolding audio_turn get
audio_turn-streams pc s = ground arith

happen-Uncleared :
    (finish : Work) (e : Event) (s : System) → Uncleared s → Uncleared (happen true finish e s)
unfolding happen
happen-Uncleared finish (send_video bytes key ts) s h =
    add_video-Uncleared (is_connected s.api) (new_work bytes key ts) s h
happen-Uncleared finish (send_audio bytes ts) s h =
    add_audio-Uncleared (is_connected s.api) (new_work bytes false ts) s h
happen-Uncleared finish disconnect s h = disconnect-Uncleared finish s.api s refl h
happen-Uncleared finish (high_step late short) s h = λ u.
    high_turn-Follows s.high late short s refl (h (sym (high_turn-api s.high late short s) ∙ u))
happen-Uncleared finish low_step s h = λ u.
    Same-Follows s (low_turn true s.low s) (low_turn-Same true s.low s refl)
      (h (sym (low_turn-api s.low s) ∙ u))
happen-Uncleared finish audio_step s h =
    λ u. let (api, l, f) = audio_turn-streams s.audio s in l ∙ h (sym api ∙ u) ∙ sym f
happen-Uncleared finish spurious s h = λ u. rw (at_hand-wake s.low, at_hand-wake s.high) (h u)

run-Uncleared :
    (finish : Work) (es : List Event) (s : System) → Uncleared s → Uncleared (run true finish es s)
unfolding run
run-Uncleared finish [] s h = h
run-Uncleared finish (e ∷ es) s h =
    run-Uncleared finish es (happen true finish e s) (happen-Uncleared finish e s h)

-- Whatever nginx and the threads do, in whatever order, with the low stream in use: as long as
-- `agora_disconnect` has not cleared `videoQueueLow`, the works that were handed to
-- `doSendLowVideo`, the one that its thread has at hand and those in `videoQueueLow` are the works
-- that were handed to `doSendHighVideo` and the one that the thread of the high stream has passed on
-- and has at hand, in their order. So both streams get the same frames in the same order, and
-- none is lost in between.
pub low-follows :
    (finish : Work) (es : List Event)
    → is_uncleared (run true finish es started).api ≡ true
    → let s = run true finish es started in
      s.low_sent ++ at_hand s.low ++ s.video_queue_low ≡ s.high_sent ++ at_hand s.high
low-follows finish es u = run-Uncleared finish es started (λ v. refl) u
