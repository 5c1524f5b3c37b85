-- ===== src/Sender/Shutdown/Steps.antt =====
-- The events of a run, at each stage of `agora_disconnect`.
use server_side_custom_video.Prelude.{
  ◌≡◌, ◌≢◌, refl, sym, ap, subst, ◌∙◌, Bool, true, false, List, [], ◌∷◌, if◌then◌else◌, arith,
}
use server_side_custom_video.Context.{Work, new_work}
use server_side_custom_video.Sender.{
  crashed, Api, connected, stopping, video_told, low_cleared, low_told, closed, System, started,
  add_video, add_audio, disconnect_turn, Event, send_video, send_audio, disconnect, high_step,
  low_step, audio_step, spurious, is_connected, happen, run,
}
use server_side_custom_video.Sender.Serves.{Ready}
use server_side_custom_video.Sender.Order.{
  Served, happen-Served, high_turn-others, low_turn-others, audio_turn-others,
}
use server_side_custom_video.Sender.Shutdown.{is_high, is_low, is_audio}
use server_side_custom_video.Sender.Shutdown.Turns.{turns_left-wake}
use server_side_custom_video.Sender.Shutdown.Told.{
  video_is_told, low_is_told, audio_is_told, Told, Left, high_turn-low, low_turn-stage,
  audio_turn-stage, high_step-Nearer, low_step-Nearer, audio_step-Nearer,
}
use server_side_custom_video.Sender.Shutdown.Stages.{
  connected-Told, add_video-Told, add_audio-Told, disconnect-Told, high_step-Told, low_step-Told,
  audio_step-Told, spurious-Told,
}

pub started-Told : (dual : Bool) → Told dual started
started-Told dual = connected-Told dual started refl (λ e. cc) tt tt

-- a call of nginx is made only while it is connected
call-Told :
    (dual : Bool) (t s : System)
    → (s.api ≡ connected → Told dual t)
    → Told dual s
    → Told dual (if is_connected s.api then t else s)
call-Told dual t s k h = by-api s.api refl
  where
    by-api : (a : Api) → s.api ≡ a → Told dual (if is_connected a then t else s)
    by-api connected e = k e
    by-api stopping e = h
    by-api video_told e = h
    by-api low_cleared e = h
    by-api low_told e = h
    by-api closed e = h

pub happen-Told :
    (dual : Bool) (finish : Work) (e : Event) (s : System)
    → (happen dual finish e s).high ≢ crashed
    → Told dual s
    → Told dual (happen dual finish e s)
unfolding happen
happen-Told dual finish (send_video bytes key ts) s n h =
    call-Told dual (add_video (new_work bytes key ts) s) s
      (λ e. add_video-Told dual (new_work bytes key ts) s e h) h
happen-Told dual finish (send_audio bytes ts) s n h =
    call-Told dual (add_audio (new_work bytes false ts) s) s
      (λ e. add_audio-Told dual (new_work bytes false ts) s e h) h
happen-Told dual finish disconnect s n h = disconnect-Told dual finish s.api s refl h
happen-Told dual finish (high_step late short) s n h = high_step-Told dual late short s n h
happen-Told true finish low_step s n h = low_step-Told true s refl h
happen-Told false finish low_step s n h = h
happen-Told dual finish audio_step s n h = audio_step-Told dual s h
happen-Told dual finish spurious s n h = spurious-Told dual finish s h

pub Served-alive : (s : System) → Served s → s.high ≢ crashed
Served-alive s h e = subst (λ pc. Ready pc s.video_jb) e h.video.ready

pub run-Told :
    (dual : Bool) (finish : Work) (es : List Event) (s : System)
    → Served s
    → Told dual s
    → Told dual (run dual finish es s)
unfolding run
run-Told dual finish [] s g h = h
run-Told dual finish (e ∷ es) s g h =
    let k = happen-Served dual finish e s g in
    run-Told dual finish es (happen dual finish e s) k
      (happen-Told dual finish e s (Served-alive (happen dual finish e s) k) h)

-- what an event changes nothing of
same-Left :
    (dual : Bool) (e : Event) (s : System)
    → is_high e ≡ 0
    → is_low e ≡ 0
    → is_audio e ≡ 0
    → Left dual e s s
same-Left dual e s a b c = record {
  stays = λ h. h;
  high_left = λ h. omega arith;
  low_left = λ d h. omega arith;
  audio_left = λ h. omega arith;
}

call-Left :
    (dual : Bool) (e : Event) (t s : System)
    → is_high e ≡ 0
    → is_low e ≡ 0
    → is_audio e ≡ 0
    → s.api ≡ closed
    → Left dual e s (if is_connected s.api then t else s)
call-Left dual e t s a b c h =
    subst (λ z. Left dual e s (if is_connected z then t else s)) (sym h) (same-Left dual e s a b c)

pub happen-Left :
    (dual : Bool) (finish : Work) (e : Event) (s : System)
    → s.api ≡ closed
    → Told dual s
    → Left dual e s (happen dual finish e s)
unfolding happen disconnect_turn
happen-Left dual finish (send_video bytes key ts) s c h =
    call-Left dual (send_video bytes key ts) (add_video (new_work bytes key ts) s) s refl refl refl
      c
happen-Left dual finish (send_audio bytes ts) s c h =
    call-Left dual (send_audio bytes ts) (add_audio (new_work bytes false ts) s) s refl refl refl c
happen-Left dual finish disconnect s c h =
    subst (λ z. Left dual disconnect s (disconnect_turn dual finish z s)) (sym c)
      (same-Left dual disconnect s refl refl refl)
happen-Left dual finish (high_step late short) s c h =
    let (a, _, _, _) = high_turn-others dual s.high late short s in
    let (api, _, _, low, _) = high_turn-low dual s.high late short s h.low_plain in
    record {
      stays = λ k. api ∙ k;
      high_left = λ k. (high_step-Nearer dual late short s h (ap video_is_told c)).fewer;
      low_left = λ d k. omega (arith, low);
      audio_left = λ k. rw a (omega arith);
    }
happen-Left true finish low_step s c h =
    let (a, _, _, _, b, _, _, _) = low_turn-others true s.low s in
    let (api, _) = low_turn-stage true s.low s in
    record {
      stays = λ k. api ∙ k;
      high_left = λ k. rw a (omega arith);
      low_left = λ d k. (low_step-Nearer true s h refl (ap low_is_told c)).fewer;
      audio_left = λ k. rw b (omega arith);
    }
happen-Left false finish low_step s c h = record {
  stays = λ k. k;
  high_left = λ k. omega arith;
  low_left = λ d k. cc;
  audio_left = λ k. omega arith;
}
happen-Left dual finish audio_step s c h =
    let (a, _, _, _) = audio_turn-others dual s.audio s in
    let (api, _, b, _) = audio_turn-stage dual s.audio s in
    record {
      stays = λ k. api ∙ k;
      high_left = λ k. rw a (omega arith);
      low_left = λ d k. rw b (omega arith);
      audio_left = λ k. (audio_step-Nearer dual s h (ap audio_is_told c)).fewer;
    }
happen-Left dual finish spurious s c h = record {
  stays = λ k. k;
  high_left = λ k. omega (arith, turns_left-wake s.high);
  low_left = λ d k. omega (arith, turns_left-wake s.low);
  audio_left = λ k. omega (arith, turns_left-wake s.audio);
}
