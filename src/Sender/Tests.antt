-- ===== src/Sender/Tests.antt =====
-- Runs of the sending threads.
use server_side_custom_video.Prelude.{
  ℕ, zero, suc, ◌≡◌, ◌⊎◌, ◌<◌, ◌≢◌, ◌≤◌, refl, List, [], ◌∷◌, ◌++◌, true, false, arith,
}
use server_side_custom_video.Text.{pos}
use server_side_custom_video.Context.{Work, new_work, finish_work}
use server_side_custom_video.Queue.{add, get, clear}
use server_side_custom_video.Sender.{
  crashed, filling, Event, send_video, send_audio, disconnect, high_step, low_step, audio_step,
  spurious, started, run, happen, high_turn, low_turn, audio_turn, disconnect_turn, add_video,
  add_audio, add_low,
}
use server_side_custom_video.Sender.Serves.{held}
use server_side_custom_video.Sender.Order.{sent-in_order}
use server_side_custom_video.Sender.Low.{at_hand}
use server_side_custom_video.Sender.Low.Runs.{low-follows}
use server_side_custom_video.Sender.Buffering.{buffering-ends}
use server_side_custom_video.Sender.Shutdown.{is_over, high_turns, low_turns, audio_turns}
use server_side_custom_video.Sender.Shutdown.Ends.{disconnect-ends}

abbrev high : Event
high = high_step false false

-- a frame is sent on both streams, a second one waits; then nginx disconnects
abbrev session : List Event
session =
    high
    ∷ high
    ∷ send_video (b'a' ∷ []) true (pos 40)
    ∷ high
    ∷ high
    ∷ high
    ∷ low_step
    ∷ low_step
    ∷ send_audio (b'o' ∷ []) (pos 41)
    ∷ low_step
    ∷ low_step
    ∷ audio_step
    ∷ high
    ∷ send_video (b'b' ∷ []) false (pos 80)
    ∷ high
    ∷ []

abbrev goodbye : List Event
goodbye = disconnect ∷ disconnect ∷ disconnect ∷ disconnect ∷ disconnect ∷ []

abbrev finish : Work
finish = finish_work false (pos 0)

-- every thread has its turns, with more that happens meanwhile
abbrev last_turns : List Event
last_turns =
    high
    ∷ high
    ∷ high
    ∷ spurious
    ∷ high
    ∷ high
    ∷ high
    ∷ low_step
    ∷ low_step
    ∷ low_step
    ∷ send_audio [] (pos 90)
    ∷ low_step
    ∷ low_step
    ∷ audio_step
    ∷ audio_step
    ∷ audio_step
    ∷ audio_step
    ∷ audio_step
    ∷ []

session_sends :
    (run true finish session started).high_sent ≡ new_work (b'a' ∷ []) true (pos 40) ∷ []
unfolding run happen high_turn low_turn audio_turn add_video add_audio add_low add get
session_sends = refl

sent-in_order_example :
    let s = run true finish (session ++ goodbye) started in
    (s.high_sent ++ held s.high ++ s.video_jb ≡ s.video_added)
    × (s.audio_sent ++ held s.audio ++ s.audio_jb ≡ s.audio_added)
    × (s.high ≢ crashed)
sent-in_order_example = sent-in_order true finish (session ++ goodbye)

disconnect-ends_example :
    let t = run true finish last_turns (run true finish (session ++ goodbye) started) in
    ((is_over t.high ≡ true) ⊎ (high_turns last_turns < 6))
    × ((true ≡ false) ⊎ ((is_over t.low ≡ true) ⊎ (low_turns last_turns < 5)))
    × ((is_over t.audio ≡ true) ⊎ (audio_turns last_turns < 5))
unfolding run happen high_turn low_turn audio_turn disconnect_turn add_video add_audio add_low add
    get clear
disconnect-ends_example = disconnect-ends true finish (session ++ goodbye) last_turns refl

-- turns of the high stream's thread while the buffer is short
abbrev short_turns : ℕ → List Event
short_turns zero = []
short_turns (suc n) = high_step true true ∷ short_turns n

buffering-ends_example :
    let s = run false finish (short_turns 3) started in
    ((before : List Event) × (after : List Event) × (short_turns 201 ≡ before ++ after)
      × ((run false finish before s).is_jb_buffering ≡ false))
    × ((s.is_jb_buffering ≡ false) ⊎ ((n : ℕ) × (s.high ≡ filling n) × (n ≤ 200)))
buffering-ends_example = buffering-ends false finish (short_turns 3) (short_turns 201) (omega arith)

is_buffering : (run false finish (short_turns 3) started).is_jb_buffering ≡ true
unfolding run happen high_turn
is_buffering = refl

-- the second frame waits in the low stream's queue
low-follows_example :
    let s = run true finish session started in
    s.low_sent ++ at_hand s.low ++ s.video_queue_low ≡ s.high_sent ++ at_hand s.high
unfolding run happen high_turn audio_turn low_turn add_video add get add_low add_audio
low-follows_example = low-follows finish session refl
