-- ===== src/Sender/Buffering.antt =====
-- `WaitForBuffering` and `isJbBuffering` in the runs of the threads.
use server_side_custom_video.Prelude.{
  ℕ, ◌-◌, ◌≤◌, ◌≡◌, refl, ap, ◌⊎◌, inl, inr, Bool, true, false, List, [], ◌∷◌, ◌++◌, if◌then◌else◌,
  arith,
}
use server_side_custom_video.Queue.{get}
use server_side_custom_video.Context.{Work, new_work}
use server_side_custom_video.Sender.{
  Pc, at_top, filling, testing, asleep, taking, holding, sending, ended, finished, crashed, Api,
  System, started, wake, wait_for_work, add_video, add_audio, add_low, high_turn, low_turn,
  audio_turn, disconnect_turn, Event, send_video, send_audio, disconnect, high_step, low_step,
  audio_step, spurious, is_connected, happen, run,
}
use server_side_custom_video.Sender.Shutdown.{is_high, high_turns}

-- `isJbBuffering` is set in the loop only, which has had at most 200 rounds
abbrev Buffers : Pc → Bool → Type 0
Buffers (filling n) b = n ≤ 200
Buffers _ b = b ≡ false

-- how many more turns the loop can take
abbrev rounds_left : Pc → ℕ
rounds_left (filling n) = 201 - n
rounds_left _ = 0

wait-Buffers : (q : List Work) → Buffers (wait_for_work q) false
wait-Buffers [] = refl
wait-Buffers (_ ∷ _) = refl

high_turn-Buffers :
    (dual : Bool) (pc : Pc) (late short : Bool) (s : System)
    → s.high ≡ pc
    → Buffers pc s.is_jb_buffering
    → let t = high_turn dual pc late short s in Buffers t.high t.is_jb_buffering
unfolding high_turn get add_low
high_turn-Buffers dual at_top late short s e h = ground arith
high_turn-Buffers dual (filling n) late short s e h = ground arith
high_turn-Buffers dual testing late short s e h = rw h (wait-Buffers s.video_jb)
high_turn-Buffers dual asleep late short s e h = ground arith
high_turn-Buffers dual taking late short s e h = ground arith
high_turn-Buffers dual (holding w) late short s e h = ground arith
high_turn-Buffers dual (sending w) late short s e h = ground arith
high_turn-Buffers dual ended late short s e h = ground arith
high_turn-Buffers dual (finished w) late short s e h = ground arith
high_turn-Buffers dual crashed late short s e h = ground arith

high_turn-rounds_left :
    (dual : Bool) (pc : Pc) (late short : Bool) (s : System)
    → Buffers pc s.is_jb_buffering
    → (rounds_left (high_turn dual pc late short s).high ≤ rounds_left pc - 1)
      ⊎ (rounds_left pc ≡ 0)
unfolding high_turn
high_turn-rounds_left dual (filling n) late short s h = inl (ground arith)
high_turn-rounds_left dual at_top late short s h = inr refl
high_turn-rounds_left dual testing late short s h = inr refl
high_turn-rounds_left dual asleep late short s h = inr refl
high_turn-rounds_left dual taking late short s h = inr refl
high_turn-rounds_left dual (holding w) late short s h = inr refl
high_turn-rounds_left dual (sending w) late short s h = inr refl
high_turn-rounds_left dual ended late short s h = inr refl
high_turn-rounds_left dual (finished w) late short s h = inr refl
high_turn-rounds_left dual crashed late short s h = inr refl

wake-Buffers : (pc : Pc) (b : Bool) → Buffers pc b → Buffers (wake pc) b
wake-Buffers pc b h = ground arith

wake-rounds_left : (pc : Pc) → rounds_left (wake pc) ≡ rounds_left pc
wake-rounds_left pc = ground arith

-- An event of another thread wakes the high stream's at most.
record Wakes (s t : System) : Type 0 where
  high : (t.high ≡ s.high) ⊎ (t.high ≡ wake s.high)
  flag : t.is_jb_buffering ≡ s.is_jb_buffering

low_turn-Wakes : (dual : Bool) (pc : Pc) (s : System) → Wakes s (low_turn dual pc s)
unfolding low_turn get
low_turn-Wakes dual pc s = ground arith

audio_turn-Wakes : (dual : Bool) (pc : Pc) (s : System) → Wakes s (audio_turn dual pc s)
unfolding audio_turn get
audio_turn-Wakes dual pc s = ground arith

disconnect-Wakes :
    (dual : Bool) (finish : Work) (a : Api) (s : System) → Wakes s (disconnect_turn dual finish a s)
unfolding disconnect_turn add_video add_low add_audio
disconnect-Wakes dual finish a s = ground arith

-- what an event does to the two
record Closer (e : Event) (s t : System) : Type 0 where
  buffers : Buffers t.high t.is_jb_buffering
  fewer : rounds_left t.high ≤ rounds_left s.high - is_high e ⊎ (rounds_left s.high ≡ 0)

wake-Closer :
    (e : Event) (s t : System)
    → is_high e ≡ 0
    → Buffers s.high s.is_jb_buffering
    → Wakes s t
    → Closer e s t
wake-Closer e s t n h w = record {
  buffers = elim w.high [
    | inl same ↦ rw (same, w.flag) h
    | inr woken ↦ rw (woken, w.flag) (wake-Buffers s.high s.is_jb_buffering h)
  ];
  fewer = inl (elim w.high [
    | inl same ↦ omega (arith, ap rounds_left same)
    | inr woken ↦ omega (arith, ap rounds_left woken, wake-rounds_left s.high)
  ]);
}

happen-Closer :
    (dual : Bool) (finish : Work) (e : Event) (s : System)
    → Buffers s.high s.is_jb_buffering
    → Closer e s (happen dual finish e s)
unfolding happen add_video add_audio
happen-Closer dual finish (send_video bytes key ts) s h =
    wake-Closer (send_video bytes key ts) s
      (if is_connected s.api then add_video (new_work bytes key ts) s else s) refl h (ground arith)
happen-Closer dual finish (send_audio bytes ts) s h =
    wake-Closer (send_audio bytes ts) s
      (if is_connected s.api then add_audio (new_work bytes false ts) s else s) refl h
      (ground arith)
happen-Closer dual finish disconnect s h =
    wake-Closer disconnect s (disconnect_turn dual finish s.api s) refl h
      (disconnect-Wakes dual finish s.api s)
happen-Closer dual finish (high_step late short) s h = record {
  buffers = high_turn-Buffers dual s.high late short s refl h;
  fewer = high_turn-rounds_left dual s.high late short s h;
}
happen-Closer true finish low_step s h =
    wake-Closer low_step s (low_turn true s.low s) refl h (low_turn-Wakes true s.low s)
happen-Closer false finish low_step s h = wake-Closer low_step s s refl h (ground arith)
happen-Closer dual finish audio_step s h =
    wake-Closer audio_step s (audio_turn dual s.audio s) refl h (audio_turn-Wakes dual s.audio s)
happen-Closer dual finish spurious s h =
    wake-Closer spurious s (happen dual finish spurious s) refl h (ground arith)

run-Buffers :
    (dual : Bool) (finish : Work) (es : List Event) (s : System)
    → Buffers s.high s.is_jb_buffering
    → let t = run dual finish es s in Buffers t.high t.is_jb_buffering
unfolding run
run-Buffers dual finish [] s h = h
run-Buffers dual finish (e ∷ es) s h =
    run-Buffers dual finish es (happen dual finish e s) (happen-Closer dual finish e s h).buffers

-- with no rounds left the flag is not set
no_rounds : (pc : Pc) (b : Bool) → Buffers pc b → rounds_left pc ≡ 0 → b ≡ false
no_rounds pc b h z = ground arith

in_loop :
    (pc : Pc) (b : Bool) → Buffers pc b → (b ≡ false) ⊎ ((n : ℕ) × (pc ≡ filling n) × (n ≤ 200))
in_loop (filling n) b h = inr (n, refl, h)
in_loop at_top b h = inl h
in_loop testing b h = inl h
in_loop asleep b h = inl h
in_loop taking b h = inl h
in_loop (holding w) b h = inl h
in_loop (sending w) b h = inl h
in_loop ended b h = inl h
in_loop (finished w) b h = inl h
in_loop crashed b h = inl h

at_most_201 : (pc : Pc) → rounds_left pc ≤ 201
at_most_201 pc = ground arith

module _ (dual : Bool) (finish : Work) where
  -- among the events comes a time when the video is not buffering
  abbrev pub LetsGo : List Event → System → Type 0
  LetsGo es s =
      (before : List Event) × (after : List Event) × (es ≡ before ++ after)
      × ((run dual finish before s).is_jb_buffering ≡ false)

  lets_go :
      (es : List Event) (s : System)
      → Buffers s.high s.is_jb_buffering
      → rounds_left s.high ≤ high_turns es
      → LetsGo es s
  unfolding run
  lets_go [] s h n = ([], [], refl, no_rounds s.high s.is_jb_buffering h (omega arith))
  lets_go (e ∷ es) s h n =
      let c = happen-Closer dual finish e s h in
      elim c.fewer [
        | inl less ↦
            (let (before, after, split, flag) =
                lets_go es (happen dual finish e s) c.buffers (omega arith) in
              (e ∷ before, after, ap (λ z. e ∷ z) split, flag))
        | inr none_left ↦ ([], e ∷ es, refl, no_rounds s.high s.is_jb_buffering h none_left)
      ]

  -- Whatever happened before, and whatever happens next: by the time the high stream's thread has
  -- had 201 turns there was a moment at which `isJbBuffering` was not set; and whenever the flag is
  -- set, the thread is in the loop of `WaitForBuffering`, after at most 200 rounds.
  pub buffering-ends :
      (earlier later : List Event)
      → 201 ≤ high_turns later
      → let s = run dual finish earlier started in
        ((before : List Event) × (after : List Event) × (later ≡ before ++ after)
          × ((run dual finish before s).is_jb_buffering ≡ false))
        × ((s.is_jb_buffering ≡ false) ⊎ ((n : ℕ) × (s.high ≡ filling n) × (n ≤ 200)))
  buffering-ends earlier later n =
      let h = run-Buffers dual finish earlier started refl in
      let s = run dual finish earlier started in
      (lets_go later s h (omega (arith, at_most_201 s.high)), in_loop s.high s.is_jb_buffering h)
