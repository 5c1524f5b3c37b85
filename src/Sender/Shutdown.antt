-- ===== src/Sender/Shutdown.antt =====
-- `agora_disconnect`: the threads once they are told to end.
pub mod Turns
pub mod Told
pub mod Stages
pub mod Steps
pub mod Ends
use server_side_custom_video.Prelude.{ℕ, ◌+◌, ◌≡◌, List, [], ◌∷◌, Bool, true, false}
use server_side_custom_video.Context.{Work}
use server_side_custom_video.Sender.{
  Pc, at_top, filling, testing, asleep, taking, holding, sending, ended, finished, crashed, Event,
  high_step, low_step, audio_step,
}

abbrev pub HasWork : List Work → Type 0
HasWork q = (w : Work) × (r : List Work) × (q ≡ w ∷ r)

-- A thread that has been told to end: it is not blocked, and if it still has to take a work there
-- is one.
abbrev pub Closing : Pc → List Work → Type 0
Closing (filling n) q = HasWork q
Closing testing q = HasWork q
Closing taking q = HasWork q
Closing asleep q = ⊥
Closing crashed q = ⊥
Closing _ q = Unit {0}

-- The low and the audio thread do not wait for buffering, and test for `nullptr` in time.
abbrev pub Plain : Pc → Type 0
Plain (filling n) = ⊥
Plain crashed = ⊥
Plain _ = Unit {0}

-- and the low one takes a work and tests it at once
abbrev pub LowPlain : Pc → Type 0
LowPlain (filling n) = ⊥
LowPlain (holding w) = ⊥
LowPlain crashed = ⊥
LowPlain _ = Unit {0}

-- how many turns a closing thread has left at most
abbrev pub turns_left : Pc → ℕ
turns_left (filling n) = 6
turns_left testing = 5
turns_left asleep = 5
turns_left taking = 4
turns_left (holding w) = 3
turns_left (sending w) = 2
turns_left at_top = 1
turns_left ended = 0
turns_left (finished w) = 0
turns_left crashed = 0

-- whether a thread has returned
abbrev pub is_over : Pc → Bool
is_over ended = true
is_over (finished w) = true
is_over _ = false

-- whether an event is a turn of a thread, as a number
abbrev pub is_high : Event → ℕ
is_high (high_step late short) = 1
is_high _ = 0

abbrev pub is_low : Event → ℕ
is_low low_step = 1
is_low _ = 0

abbrev pub is_audio : Event → ℕ
is_audio audio_step = 1
is_audio _ = 0

-- the turns of each thread among some events
abbrev pub high_turns : List Event → ℕ
high_turns [] = 0
high_turns (e ∷ es) = is_high e + high_turns es

abbrev pub low_turns : List Event → ℕ
low_turns [] = 0
low_turns (e ∷ es) = is_low e + low_turns es

abbrev pub audio_turns : List Event → ℕ
audio_turns [] = 0
audio_turns (e ∷ es) = is_audio e + audio_turns es
