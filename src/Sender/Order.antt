-- ===== src/Sender/Order.antt =====
-- Runs of the sending threads: what is sent, held and queued, and what was added.
use server_side_custom_video.Prelude.{
  ◌≡◌, ◌≢◌, refl, subst, Bool, true, false, List, [], ◌∷◌, ◌++◌, if◌then◌else◌, arith,
}
use server_side_custom_video.Queue.{get}
use server_side_custom_video.Context.{Work, new_work}
use server_side_custom_video.Sender.{
  Pc, crashed, Api, connected, stopping, video_told, low_cleared, low_told, closed, System, started,
  add_video, add_audio, add_low, high_turn, low_turn, audio_turn, disconnect_turn, Event,
  send_video, send_audio, disconnect, high_step, low_step, audio_step, spurious, is_connected,
  happen, run,
}
use server_side_custom_video.Sender.Serves.{held, Ready, Serves-wake, Serves-add}
use server_side_custom_video.Sender.High.{HighServes, high_turn-HighServes}
use server_side_custom_video.Sender.Audio.{AudioServes, audio_turn-AudioServes}

-- Whatever one thread does, the other's queue and works stay as they are.
pub record Served (s : System) : Type 0 where
  pub video : HighServes s
  pub sound : AudioServes s

-- what a turn of the high stream's thread leaves alone
pub high_turn-others :
    (dual : Bool) (pc : Pc) (late short : Bool) (s : System)
    → let t = high_turn dual pc late short s in
      (t.audio ≡ s.audio)
      × (t.audio_jb ≡ s.audio_jb)
      × (t.audio_added ≡ s.audio_added)
      × (t.audio_sent ≡ s.audio_sent)
unfolding high_turn get add_low
high_turn-others dual pc late short s = ground arith

pub audio_turn-others :
    (dual : Bool) (pc : Pc) (s : System)
    → let t = audio_turn dual pc s in
      (t.high ≡ s.high)
      × (t.video_jb ≡ s.video_jb)
      × (t.video_added ≡ s.video_added)
      × (t.high_sent ≡ s.high_sent)
unfolding audio_turn get
audio_turn-others dual pc s = ground arith

-- the low stream's thread touches neither
pub low_turn-others :
    (dual : Bool) (pc : Pc) (s : System)
    → let t = low_turn dual pc s in
      (t.high ≡ s.high)
      × (t.video_jb ≡ s.video_jb)
      × (t.video_added ≡ s.video_added)
      × (t.high_sent ≡ s.high_sent)
      × (t.audio ≡ s.audio)
      × (t.audio_jb ≡ s.audio_jb)
      × (t.audio_added ≡ s.audio_added)
      × (t.audio_sent ≡ s.audio_sent)
unfolding low_turn get
low_turn-others dual pc s = ground arith

pub add_video-Served : (w : Work) (s : System) → Served s → Served (add_video w s)
unfolding add_video
add_video-Served w s h = record {
  video = Serves-add s.high s.video_jb s.video_added s.high_sent w h.video;
  sound = h.sound;
}

add_audio-Served : (w : Work) (s : System) → Served s → Served (add_audio w s)
unfolding add_audio
add_audio-Served w s h = record {
  video = h.video;
  sound = Serves-add s.audio s.audio_jb s.audio_added s.audio_sent w h.sound;
}

disconnect-Served :
    (dual : Bool) (finish : Work) (a : Api) (s : System)
    → Served s
    → Served (disconnect_turn dual finish a s)
unfolding disconnect_turn add_low
disconnect-Served dual finish connected s h = record { video = h.video; sound = h.sound }
disconnect-Served dual finish stopping s h =
    let k = add_video-Served finish s h in record { video = k.video; sound = k.sound }
disconnect-Served true finish video_told s h = record { video = h.video; sound = h.sound }
disconnect-Served false finish video_told s h = record { video = h.video; sound = h.sound }
disconnect-Served dual finish low_cleared s h = record { video = h.video; sound = h.sound }
disconnect-Served dual finish low_told s h =
    let k = add_audio-Served finish s h in record { video = k.video; sound = k.sound }
disconnect-Served dual finish closed s h = h

-- a call of nginx that is made only while it is connected
if-Served : (b : Bool) (t s : System) → Served t → Served s → Served (if b then t else s)
if-Served true t s h k = h
if-Served false t s h k = k

low-Served : (dual : Bool) (pc : Pc) (s : System) → Served s → Served (low_turn dual pc s)
low-Served dual pc s h =
    let (a, b, c, d, e, f, g, i) = low_turn-others dual pc s in
    record { video = rw (a, b, c, d) h.video; sound = rw (e, f, g, i) h.sound }

pub happen-Served :
    (dual : Bool) (finish : Work) (e : Event) (s : System)
    → Served s
    → Served (happen dual finish e s)
unfolding happen
happen-Served dual finish (send_video bytes key ts) s h =
    if-Served (is_connected s.api) (add_video (new_work bytes key ts) s) s
      (add_video-Served (new_work bytes key ts) s h) h
happen-Served dual finish (send_audio bytes ts) s h =
    if-Served (is_connected s.api) (add_audio (new_work bytes false ts) s) s
      (add_audio-Served (new_work bytes false ts) s h) h
happen-Served dual finish disconnect s h = disconnect-Served dual finish s.api s h
happen-Served dual finish (high_step late short) s h =
    let (a, b, c, d) = high_turn-others dual s.high late short s in
    record {
      video = high_turn-HighServes dual s.high late short s refl h.video;
      sound = rw (a, b, c, d) h.sound;
    }
happen-Served dual finish low_step s h =
    if-Served dual (low_turn dual s.low s) s (low-Served dual s.low s h) h
happen-Served dual finish audio_step s h =
    let (a, b, c, d) = audio_turn-others dual s.audio s in
    record {
      video = rw (a, b, c, d) h.video;
      sound = audio_turn-AudioServes dual s.audio s refl h.sound;
    }
happen-Served dual finish spurious s h = record {
  video = Serves-wake s.high s.video_jb s.video_added s.high_sent h.video;
  sound = Serves-wake s.audio s.audio_jb s.audio_added s.audio_sent h.sound;
}

pub run-Served :
    (dual : Bool) (finish : Work) (es : List Event) (s : System)
    → Served s
    → Served (run dual finish es s)
unfolding run
run-Served dual finish [] s h = h
run-Served dual finish (e ∷ es) s h =
    run-Served dual finish es (happen dual finish e s) (happen-Served dual finish e s h)

pub started-Served : Served started
started-Served = record {
  video = record { order = refl; ready = tt };
  sound = record { order = refl; ready = tt };
}

-- Whatever nginx and the threads do, in whatever order: the frames handed to the SDK, the one that
-- the thread holds and those in the jitter buffer are the frames that were added, in their order,
-- for video and for audio. So no frame is sent twice or out of order, and none is lost while its
-- thread runs. The thread of the high stream never uses a `nullptr` from its queue, though it tests
-- for one only after it has.
pub sent-in_order :
    (dual : Bool) (finish : Work) (es : List Event)
    → let s = run dual finish es started in
      (s.high_sent ++ held s.high ++ s.video_jb ≡ s.video_added)
      × (s.audio_sent ++ held s.audio ++ s.audio_jb ≡ s.audio_added)
      × (s.high ≢ crashed)
sent-in_order dual finish es =
    let h = run-Served dual finish es started started-Served in
    (
      h.video.order,
      h.sound.order,
      λ e. subst (λ pc. Ready pc (run dual finish es started).video_jb) e h.video.ready,
    )
