-- ===== src/Sender.antt =====
-- libagorac/agorac.cpp: the threads behind `agora_send_video` and `agora_send_audio`, and
-- `agora_disconnect`, with `WaitForBuffering` of helpers/utilities.cpp. A step is what a thread does
-- between two waits or two accesses to what the threads share. The clock and the sizes that depend
-- on it are left open: an event brings the outcome of the tests that read them.
pub mod Serves
pub mod High
pub mod Audio
pub mod Order
pub mod Low
pub mod Calls
pub mod Buffering
pub mod Shutdown
pub mod Runs
mod Tests
use server_side_custom_video.Prelude.{
  ℕ, zero, suc, Bool, true, false, not, ◌&&◌, List, [], ◌∷◌, ◌++◌, Option, none, some, Bytes, ltb,
  if◌then◌else◌,
}
use server_side_custom_video.Text.{ℤ}
use server_side_custom_video.Queue.{add, get, clear, is_empty}
use server_side_custom_video.Context.{Work, new_work}

-- Where a thread stands.
pub data Pc : Type 0 where
  -- at the test of `while(ctx->isRunning==true)`
  at_top : Pc
  -- in the loop of `WaitForBuffering`, after so many rounds
  filling : ℕ → Pc
  -- at the test in `waitForWork`, or blocked there
  testing : Pc
  asleep : Pc
  -- in front of `get`
  taking : Pc
  -- with a work: before it is added to `videoQueueLow` (or while audio waits for the video buffer),
  -- and behind that
  holding : Work → Pc
  sending : Work → Pc
  -- returned, by the test of the loop or at a work that is the last
  ended : Pc
  finished : Work → Pc
  -- a `nullptr` from `get` was used
  crashed : Pc

-- the thread of nginx, in `agora_disconnect`
pub data Api : Type 0 where
  connected stopping video_told low_cleared low_told closed : Api

pub record System : Type 0 where
  pub video_jb : List Work
  pub audio_jb : List Work
  pub video_queue_low : List Work
  pub is_running : Bool
  pub is_jb_buffering : Bool
  pub high : Pc
  pub low : Pc
  pub audio : Pc
  pub api : Api
  -- what was added to the two buffers, and what was handed to `doSendHighVideo`,
  -- `doSendLowVideo` and `doSendAudio`
  pub video_added : List Work
  pub audio_added : List Work
  pub high_sent : List Work
  pub low_sent : List Work
  pub audio_sent : List Work

-- `agora_init`, once the threads are started. `isJbBuffering` is taken to be false from here on; the
-- code sets it behind the start of the threads.
abbrev pub started : System
started = record {
  video_jb = [];
  audio_jb = [];
  video_queue_low = [];
  is_running = true;
  is_jb_buffering = false;
  high = at_top;
  low = at_top;
  audio = at_top;
  api = connected;
  video_added = [];
  audio_added = [];
  high_sent = [];
  low_sent = [];
  audio_sent = [];
}

-- `notify_one`, on the thread that waits for a queue
abbrev pub wake : Pc → Pc
wake asleep = testing
wake pc = pc

-- one test of `waitForWork`
abbrev pub wait_for_work : List Work → Pc
wait_for_work [] = asleep
wait_for_work (_ ∷ _) = taking

unfoldable pub add_video : Work → System → System
add_video work s = record s {
  video_jb = add work s.video_jb;
  high = wake s.high;
  video_added = s.video_added ++ work ∷ [];
}

unfoldable pub add_audio : Work → System → System
add_audio work s = record s {
  audio_jb = add work s.audio_jb;
  audio = wake s.audio;
  audio_added = s.audio_added ++ work ∷ [];
}

unfoldable pub add_low : Work → System → System
add_low work s = record s { video_queue_low = add work s.video_queue_low; low = wake s.low }

module _ (enable_dual : Bool) where
  abbrev pub forward : Work → System → System
  forward work s = if enable_dual then add_low work s else s

  -- `videoJB->get()`: a `nullptr` is used at `work->timestamp`
  abbrev pub high_take : Option Work × List Work → System → System
  high_take (none, queue) s = record s { high = crashed }
  high_take (some work, queue) s = record s { video_jb = queue; high = holding work }

  -- behind `GetNextSamplingPoint`
  abbrev pub high_send : Work → System → System
  high_send work s =
      if work.is_finished
      then record s { high = finished work }
      else record s { high = at_top; high_sent = s.high_sent ++ work ∷ [] }

  -- `CheckAndFillInVideoJb`, up to the loop
  abbrev pub check_and_fill_in : Bool → System → System
  check_and_fill_in late s =
      if late && is_empty s.video_jb
      then record s { high = filling 0 }
      else record s { high = testing }

  -- a test of the loop of `WaitForBuffering`, and its round or its end
  abbrev pub wait_for_buffering : ℕ → Bool → System → System
  wait_for_buffering n short s =
      if s.is_running && ltb n 200 && short
      then record s { high = filling (suc n); is_jb_buffering = true }
      else record s { high = testing; is_jb_buffering = false }

  -- `VideoThreadHandlerHigh`. `late` is that the last frame is more than `3*predictedFps` back,
  -- `short` that the buffer has less than `jb_size`.
  unfoldable pub high_turn : Pc → Bool → Bool → System → System
  high_turn at_top late short s =
      if not s.is_running then record s { high = ended } else check_and_fill_in late s
  high_turn (filling n) late short s = wait_for_buffering n short s
  high_turn testing late short s = record s { high = wait_for_work s.video_jb }
  high_turn asleep late short s = s
  high_turn taking late short s = high_take (get s.video_jb) s
  high_turn (holding work) late short s = record (forward work s) { high = sending work }
  high_turn (sending work) late short s = high_send work s
  high_turn ended late short s = s
  high_turn (finished work) late short s = s
  high_turn crashed late short s = s

  -- `videoQueueLow->get()`, and the tests of the work
  abbrev pub low_take : Option Work × List Work → System → System
  low_take (none, queue) s = record s { low = at_top }
  low_take (some work, queue) s =
      if work.is_finished
      then record s { video_queue_low = queue; low = finished work }
      else record s { video_queue_low = queue; low = sending work }

  -- `VideoThreadHandlerLow`, which runs if `enable_dual` is set
  unfoldable pub low_turn : Pc → System → System
  low_turn at_top s = if s.is_running then record s { low = testing } else record s { low = ended }
  low_turn testing s = record s { low = wait_for_work s.video_queue_low }
  low_turn taking s = low_take (get s.video_queue_low) s
  low_turn (sending work) s = record s { low = at_top; low_sent = s.low_sent ++ work ∷ [] }
  low_turn pc s = s

  -- `audioJB->get()`, and the tests of the work
  abbrev pub audio_take : Option Work × List Work → System → System
  audio_take (none, queue) s = record s { audio = at_top }
  audio_take (some work, queue) s =
      if work.is_finished
      then record s { audio_jb = queue; audio = finished work }
      else record s { audio_jb = queue; audio = holding work }

  -- `AudioThreadHandler`; a round of its inner loop changes nothing
  unfoldable pub audio_turn : Pc → System → System
  audio_turn at_top s =
      if s.is_running then record s { audio = testing } else record s { audio = ended }
  audio_turn testing s = record s { audio = wait_for_work s.audio_jb }
  audio_turn taking s = audio_take (get s.audio_jb) s
  audio_turn (holding work) s =
      if s.is_jb_buffering && s.is_running then s else record s { audio = sending work }
  audio_turn (sending work) s = record s { audio = at_top; audio_sent = s.audio_sent ++ work ∷ [] }
  audio_turn pc s = s

  -- `agora_disconnect` up to the sleep of two seconds
  unfoldable pub disconnect_turn : Work → Api → System → System
  disconnect_turn finish connected s = record s { is_running = false; api = stopping }
  disconnect_turn finish stopping s = record (add_video finish s) { api = video_told }
  disconnect_turn finish video_told s =
      if enable_dual
      then record s { video_queue_low = clear s.video_queue_low; api = low_cleared }
      else record s { api = low_told }
  disconnect_turn finish low_cleared s = record (add_low finish s) { api = low_told }
  disconnect_turn finish low_told s = record (add_audio finish s) { api = closed }
  disconnect_turn finish closed s = s

-- nginx calls `agora_send_video` and `agora_send_audio` until it calls `agora_disconnect`
pub data Event : Type 0 where
  send_video : Bytes → Bool → ℤ → Event
  send_audio : Bytes → ℤ → Event
  disconnect : Event
  high_step : (late short : Bool) → Event
  low_step : Event
  audio_step : Event
  -- a thread that is blocked wakes with no notification
  spurious : Event

abbrev pub is_connected : Api → Bool
is_connected connected = true
is_connected _ = false

module _ (enable_dual : Bool) (finish : Work) where
  unfoldable pub happen : Event → System → System
  happen (send_video bytes is_key timestamp) s =
      if is_connected s.api then add_video (new_work bytes is_key timestamp) s else s
  happen (send_audio bytes timestamp) s =
      if is_connected s.api then add_audio (new_work bytes false timestamp) s else s
  happen disconnect s = disconnect_turn enable_dual finish s.api s
  happen (high_step late short) s = high_turn enable_dual s.high late short s
  happen low_step s = if enable_dual then low_turn enable_dual s.low s else s
  happen audio_step s = audio_turn enable_dual s.audio s
  happen spurious s = record s { high = wake s.high; low = wake s.low; audio = wake s.audio }

  unfoldable pub run : List Event → System → System
  run [] s = s
  run (e ∷ es) s = run es (happen e s)
