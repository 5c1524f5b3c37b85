-- ===== src/Sender/Shutdown/Stages.antt =====
-- The steps at each stage of `agora_disconnect`.
use server_side_custom_video.Prelude.{◌≡◌, ◌≢◌, refl, sym, ap, ◌∙◌, Bool, true, false, arith}
use server_side_custom_video.Queue.{add}
use server_side_custom_video.Context.{Work}
use server_side_custom_video.Sender.{
  Pc, crashed, Api, connected, stopping, video_told, low_cleared, low_told, closed, System, wake,
  add_video, add_audio, add_low, high_turn, low_turn, audio_turn, disconnect_turn, spurious,
  is_connected, happen,
}
use server_side_custom_video.Sender.Order.{high_turn-others, low_turn-others, audio_turn-others}
use server_side_custom_video.Sender.Shutdown.{Plain, LowPlain}
use server_side_custom_video.Sender.Shutdown.Turns.{
  Closing-add, wake-Closing, Plain-wake, Plain-alive, LowPlain-wake, LowPlain-alive,
  low_turn-LowPlain, audio_turn-Plain,
}
use server_side_custom_video.Sender.Shutdown.Told.{
  video_is_told, low_is_told, audio_is_told, Told, high_turn-low, low_turn-stage, audio_turn-stage,
  high_step-Nearer, low_step-Nearer, audio_step-Nearer,
}

wake-alive : (pc : Pc) → pc ≢ crashed → wake pc ≢ crashed
wake-alive pc n = ground arith

pub connected-Told :
    (dual : Bool) (s : System)
    → s.api ≡ connected
    → s.high ≢ crashed
    → LowPlain s.low
    → Plain s.audio
    → Told dual s
connected-Told dual s e a l p = record {
  stopped = λ h. cc;
  video = λ h. cc;
  low = λ d h. cc;
  audio = λ h. cc;
  alive = a;
  low_plain = l;
  audio_plain = p;
}

pub add_video-Told :
    (dual : Bool) (w : Work) (s : System)
    → s.api ≡ connected
    → Told dual s
    → Told dual (add_video w s)
unfolding add_video
add_video-Told dual w s e h =
    connected-Told dual (add_video w s) e (wake-alive s.high h.alive) h.low_plain h.audio_plain

pub add_audio-Told :
    (dual : Bool) (w : Work) (s : System)
    → s.api ≡ connected
    → Told dual s
    → Told dual (add_audio w s)
unfolding add_audio
add_audio-Told dual w s e h =
    connected-Told dual (add_audio w s) e h.alive h.low_plain (Plain-wake s.audio h.audio_plain)

pub disconnect-Told :
    (dual : Bool) (finish : Work) (a : Api) (s : System)
    → s.api ≡ a
    → Told dual s
    → Told dual (disconnect_turn dual finish a s)
unfolding disconnect_turn add_video add_low add_audio add
disconnect-Told dual finish connected s e h = record {
  stopped = λ _. refl;
  video = λ v. cc;
  low = λ d v. cc;
  audio = λ v. cc;
  alive = h.alive;
  low_plain = h.low_plain;
  audio_plain = h.audio_plain;
}
disconnect-Told dual finish stopping s e h = record {
  stopped = λ _. h.stopped (ap is_connected e);
  video = λ _. Closing-add s.high s.video_jb finish h.alive;
  low = λ d v. cc;
  audio = λ v. cc;
  alive = wake-alive s.high h.alive;
  low_plain = h.low_plain;
  audio_plain = h.audio_plain;
}
disconnect-Told true finish video_told s e h = record {
  stopped = λ _. h.stopped (ap is_connected e);
  video = λ _. h.video (ap video_is_told e);
  low = λ d v. cc;
  audio = λ v. cc;
  alive = h.alive;
  low_plain = h.low_plain;
  audio_plain = h.audio_plain;
}
disconnect-Told false finish video_told s e h = record {
  stopped = λ _. h.stopped (ap is_connected e);
  video = λ _. h.video (ap video_is_told e);
  low = λ d v. cc;
  audio = λ v. cc;
  alive = h.alive;
  low_plain = h.low_plain;
  audio_plain = h.audio_plain;
}
disconnect-Told dual finish low_cleared s e h = record {
  stopped = λ _. h.stopped (ap is_connected e);
  video = λ _. h.video (ap video_is_told e);
  low = λ _ _. Closing-add s.low s.video_queue_low finish (LowPlain-alive s.low h.low_plain);
  audio = λ v. cc;
  alive = h.alive;
  low_plain = LowPlain-wake s.low h.low_plain;
  audio_plain = h.audio_plain;
}
disconnect-Told dual finish low_told s e h = record {
  stopped = λ _. h.stopped (ap is_connected e);
  video = λ _. h.video (ap video_is_told e);
  low = λ d _. h.low d (ap low_is_told e);
  audio = λ _. Closing-add s.audio s.audio_jb finish (Plain-alive s.audio h.audio_plain);
  alive = h.alive;
  low_plain = h.low_plain;
  audio_plain = Plain-wake s.audio h.audio_plain;
}
disconnect-Told dual finish closed s e h = h

pub high_step-Told :
    (dual late short : Bool) (s : System)
    → (high_turn dual s.high late short s).high ≢ crashed
    → Told dual s
    → Told dual (high_turn dual s.high late short s)
high_step-Told dual late short s alive h =
    let (a, b, _, _) = high_turn-others dual s.high late short s in
    let (api, running, plain, _, low) = high_turn-low dual s.high late short s h.low_plain in
    record {
      stopped = λ v. running ∙ h.stopped (ap is_connected (sym api) ∙ v);
      video = λ v. (high_step-Nearer dual late short s h (ap video_is_told (sym api) ∙ v)).closing;
      low = λ d v. low (h.low d (ap low_is_told (sym api) ∙ v));
      audio = λ v. rw (a, b) (h.audio (ap audio_is_told (sym api) ∙ v));
      alive = alive;
      low_plain = plain;
      audio_plain = rw a h.audio_plain;
    }

pub low_step-Told :
    (dual : Bool) (s : System) → dual ≡ true → Told dual s → Told dual (low_turn dual s.low s)
low_step-Told dual s d h =
    let (a, b, _, _, e, f, _, _) = low_turn-others dual s.low s in
    let (api, running) = low_turn-stage dual s.low s in
    record {
      stopped = λ v. running ∙ h.stopped (ap is_connected (sym api) ∙ v);
      video = λ v. rw (a, b) (h.video (ap video_is_told (sym api) ∙ v));
      low = λ _ v. (low_step-Nearer dual s h d (ap low_is_told (sym api) ∙ v)).closing;
      audio = λ v. rw (e, f) (h.audio (ap audio_is_told (sym api) ∙ v));
      alive = rw a h.alive;
      low_plain = low_turn-LowPlain dual s.low s refl h.low_plain;
      audio_plain = rw e h.audio_plain;
    }

pub audio_step-Told :
    (dual : Bool) (s : System) → Told dual s → Told dual (audio_turn dual s.audio s)
audio_step-Told dual s h =
    let (a, b, _, _) = audio_turn-others dual s.audio s in
    let (api, running, e, f) = audio_turn-stage dual s.audio s in
    record {
      stopped = λ v. running ∙ h.stopped (ap is_connected (sym api) ∙ v);
      video = λ v. rw (a, b) (h.video (ap video_is_told (sym api) ∙ v));
      low = λ d v. rw (e, f) (h.low d (ap low_is_told (sym api) ∙ v));
      audio = λ v. (audio_step-Nearer dual s h (ap audio_is_told (sym api) ∙ v)).closing;
      alive = rw a h.alive;
      low_plain = rw e h.low_plain;
      audio_plain = audio_turn-Plain dual s.audio s refl h.audio_plain;
    }

pub spurious-Told :
    (dual : Bool) (finish : Work) (s : System)
    → Told dual s
    → Told dual (happen dual finish spurious s)
unfolding happen
spurious-Told dual finish s h = record {
  stopped = h.stopped;
  video = λ v. wake-Closing s.high s.video_jb (h.video v);
  low = λ d v. wake-Closing s.low s.video_queue_low (h.low d v);
  audio = λ v. wake-Closing s.audio s.audio_jb (h.audio v);
  alive = wake-alive s.high h.alive;
  low_plain = LowPlain-wake s.low h.low_plain;
  audio_plain = Plain-wake s.audio h.audio_plain;
}
