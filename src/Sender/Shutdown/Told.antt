-- ===== src/Sender/Shutdown/Told.antt =====
-- The stages of `agora_disconnect`, and what the threads are told at each.
use server_side_custom_video.Prelude.{◌-◌, ◌≤◌, ◌≡◌, ◌≢◌, refl, Bool, true, false, arith}
use server_side_custom_video.Queue.{add, get}
use server_side_custom_video.Sender.{
  Pc, at_top, filling, testing, asleep, taking, holding, sending, ended, finished, crashed, Api,
  connected, stopping, low_told, closed, System, add_low, high_turn, low_turn, audio_turn, Event,
  is_connected,
}
use server_side_custom_video.Sender.Shutdown.{
  Closing, Plain, LowPlain, turns_left, is_high, is_low, is_audio,
}
use server_side_custom_video.Sender.Shutdown.Turns.{
  Nearer, high_turn-Nearer, low_turn-Nearer, audio_turn-Nearer, Closing-add, turns_left-wake,
  LowPlain-wake, LowPlain-alive,
}

-- the queues whose finish work `agora_disconnect` has added
abbrev pub video_is_told : Api → Bool
video_is_told connected = false
video_is_told stopping = false
video_is_told _ = true

abbrev pub low_is_told : Api → Bool
low_is_told low_told = true
low_is_told closed = true
low_is_told _ = false

abbrev pub audio_is_told : Api → Bool
audio_is_told closed = true
audio_is_told _ = false

pub record Told (dual : Bool) (s : System) : Type 0 where
  pub stopped : is_connected s.api ≡ false → s.is_running ≡ false
  pub video : video_is_told s.api ≡ true → Closing s.high s.video_jb
  pub low : dual ≡ true → low_is_told s.api ≡ true → Closing s.low s.video_queue_low
  pub audio : audio_is_told s.api ≡ true → Closing s.audio s.audio_jb
  pub alive : s.high ≢ crashed
  pub low_plain : LowPlain s.low
  pub audio_plain : Plain s.audio

-- what a told thread has left after an event is less by its own turns
pub record Left (dual : Bool) (e : Event) (s t : System) : Type 0 where
  pub stays : s.api ≡ closed → t.api ≡ closed
  pub high_left : s.api ≡ closed → turns_left t.high ≤ turns_left s.high - is_high e
  pub low_left : dual ≡ true → s.api ≡ closed → turns_left t.low ≤ turns_left s.low - is_low e
  pub audio_left : s.api ≡ closed → turns_left t.audio ≤ turns_left s.audio - is_audio e

-- `videoQueueLow` gets the work of the high stream's thread
pub high_turn-low :
    (dual : Bool) (pc : Pc) (late short : Bool) (s : System)
    → LowPlain s.low
    → let t = high_turn dual pc late short s in
      (t.api ≡ s.api)
      × (t.is_running ≡ s.is_running)
      × LowPlain t.low
      × (turns_left t.low ≤ turns_left s.low)
      × (Closing s.low s.video_queue_low → Closing t.low t.video_queue_low)
unfolding high_turn get add_low add
high_turn-low dual at_top late short s h = ground arith
high_turn-low dual (filling n) late short s h = ground arith
high_turn-low dual testing late short s h = ground arith
high_turn-low dual asleep late short s h = ground arith
high_turn-low dual taking late short s h = ground arith
high_turn-low true (holding w) late short s h = (
  refl,
  refl,
  LowPlain-wake s.low h,
  turns_left-wake s.low,
  λ _. Closing-add s.low s.video_queue_low w (LowPlain-alive s.low h),
)
high_turn-low false (holding w) late short s h = ground arith
high_turn-low dual (sending w) late short s h = ground arith
high_turn-low dual ended late short s h = ground arith
high_turn-low dual (finished w) late short s h = ground arith
high_turn-low dual crashed late short s h = ground arith

pub low_turn-stage :
    (dual : Bool) (pc : Pc) (s : System)
    → let t = low_turn dual pc s in (t.api ≡ s.api) × (t.is_running ≡ s.is_running)
unfolding low_turn get
low_turn-stage dual pc s = ground arith

pub audio_turn-stage :
    (dual : Bool) (pc : Pc) (s : System)
    → let t = audio_turn dual pc s in
      (t.api ≡ s.api)
      × (t.is_running ≡ s.is_running)
      × (t.low ≡ s.low)
      × (t.video_queue_low ≡ s.video_queue_low)
unfolding audio_turn get
audio_turn-stage dual pc s = ground arith

-- a stage at which a queue is told comes after the call has stopped the threads
video_is_told-stopped : (a : Api) → video_is_told a ≡ true → is_connected a ≡ false
video_is_told-stopped a e = ground arith

low_is_told-stopped : (a : Api) → low_is_told a ≡ true → is_connected a ≡ false
low_is_told-stopped a e = ground arith

audio_is_told-stopped : (a : Api) → audio_is_told a ≡ true → is_connected a ≡ false
audio_is_told-stopped a e = ground arith

pub high_step-Nearer :
    (dual late short : Bool) (s : System)
    → Told dual s
    → video_is_told s.api ≡ true
    → let t = high_turn dual s.high late short s in Nearer s.high t.high t.video_jb
high_step-Nearer dual late short s h v =
    high_turn-Nearer dual s.high late short s refl (h.stopped (video_is_told-stopped s.api v))
      (h.video v)

pub low_step-Nearer :
    (dual : Bool) (s : System)
    → Told dual s
    → dual ≡ true
    → low_is_told s.api ≡ true
    → let t = low_turn dual s.low s in Nearer s.low t.low t.video_queue_low
low_step-Nearer dual s h d v =
    low_turn-Nearer dual s.low s refl (h.stopped (low_is_told-stopped s.api v)) h.low_plain
      (h.low d v)

pub audio_step-Nearer :
    (dual : Bool) (s : System)
    → Told dual s
    → audio_is_told s.api ≡ true
    → let t = audio_turn dual s.audio s in Nearer s.audio t.audio t.audio_jb
audio_step-Nearer dual s h v =
    audio_turn-Nearer dual s.audio s refl (h.stopped (audio_is_told-stopped s.api v)) (h.audio v)
      h.audio_plain
