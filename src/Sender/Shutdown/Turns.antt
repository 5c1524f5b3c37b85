-- ===== src/Sender/Shutdown/Turns.antt =====
-- The turns of a thread that is told to end.
use server_side_custom_video.Prelude.{
  ◌-◌, ◌≤◌, ◌≡◌, ◌≢◌, refl, subst, Bool, false, List, [], ◌∷◌, ◌++◌, arith,
}
use server_side_custom_video.Queue.{get}
use server_side_custom_video.Context.{Work}
use server_side_custom_video.Sender.{
  Pc, at_top, filling, testing, asleep, taking, holding, sending, ended, finished, crashed, System,
  wake, wait_for_work, add_low, high_turn, low_turn, audio_turn,
}
use server_side_custom_video.Sender.Shutdown.{HasWork, Closing, Plain, LowPlain, turns_left}

-- what a turn comes to
pub record Nearer (before after : Pc) (queue : List Work) : Type 0 where
  pub closing : Closing after queue
  pub fewer : turns_left after ≤ turns_left before - 1

wait-Closing :
    (q : List Work) → HasWork q → (Closing (wait_for_work q) q) × (turns_left (wait_for_work q) ≤ 4)
wait-Closing [] (w, r, e) = cc
wait-Closing (w ∷ q) h = ((w, q, refl), omega arith)

add-HasWork : (q : List Work) (x : Work) → HasWork (q ++ x ∷ [])
add-HasWork [] x = (x, [], refl)
add-HasWork (w ∷ q) x = (w, q ++ x ∷ [], refl)

pub high_turn-Nearer :
    (dual : Bool) (pc : Pc) (late short : Bool) (s : System)
    → s.high ≡ pc
    → s.is_running ≡ false
    → Closing pc s.video_jb
    → let t = high_turn dual pc late short s in Nearer pc t.high t.video_jb
unfolding high_turn get add_low
high_turn-Nearer dual at_top late short s e r h = ground arith
high_turn-Nearer dual (filling n) late short s e r h = ground arith
high_turn-Nearer dual testing late short s e r h =
    let (c, f) = wait-Closing s.video_jb h in record { closing = c; fewer = f }
high_turn-Nearer dual asleep late short s e r h = absurd h
high_turn-Nearer dual taking late short s e r h = ground arith
high_turn-Nearer dual (holding w) late short s e r h = ground arith
high_turn-Nearer dual (sending w) late short s e r h = ground arith
high_turn-Nearer dual ended late short s e r h = ground arith
high_turn-Nearer dual (finished w) late short s e r h = ground arith
high_turn-Nearer dual crashed late short s e r h = absurd h

pub low_turn-Nearer :
    (dual : Bool) (pc : Pc) (s : System)
    → s.low ≡ pc
    → s.is_running ≡ false
    → LowPlain pc
    → Closing pc s.video_queue_low
    → let t = low_turn dual pc s in Nearer pc t.low t.video_queue_low
unfolding low_turn get
low_turn-Nearer dual at_top s e r p h = ground arith
low_turn-Nearer dual (filling n) s e r p h = absurd p
low_turn-Nearer dual testing s e r p h =
    let (c, f) = wait-Closing s.video_queue_low h in record { closing = c; fewer = f }
low_turn-Nearer dual asleep s e r p h = absurd h
low_turn-Nearer dual taking s e r p h = ground arith
low_turn-Nearer dual (holding w) s e r p h = absurd p
low_turn-Nearer dual (sending w) s e r p h = ground arith
low_turn-Nearer dual ended s e r p h = ground arith
low_turn-Nearer dual (finished w) s e r p h = ground arith
low_turn-Nearer dual crashed s e r p h = absurd p

pub audio_turn-Nearer :
    (dual : Bool) (pc : Pc) (s : System)
    → s.audio ≡ pc
    → s.is_running ≡ false
    → Closing pc s.audio_jb
    → Plain pc
    → let t = audio_turn dual pc s in Nearer pc t.audio t.audio_jb
unfolding audio_turn get
audio_turn-Nearer dual at_top s e r h p = ground arith
audio_turn-Nearer dual (filling n) s e r h p = absurd p
audio_turn-Nearer dual testing s e r h p =
    let (c, f) = wait-Closing s.audio_jb h in record { closing = c; fewer = f }
audio_turn-Nearer dual asleep s e r h p = absurd h
audio_turn-Nearer dual taking s e r h p = ground arith
audio_turn-Nearer dual (holding w) s e r h p = ground arith
audio_turn-Nearer dual (sending w) s e r h p = ground arith
audio_turn-Nearer dual ended s e r h p = ground arith
audio_turn-Nearer dual (finished w) s e r h p = ground arith
audio_turn-Nearer dual crashed s e r h p = absurd p

-- a work that is added, to a thread told or not yet told
pub Closing-add :
    (pc : Pc) (q : List Work) (x : Work) → pc ≢ crashed → Closing (wake pc) (q ++ x ∷ [])
Closing-add at_top q x n = tt
Closing-add (filling k) q x n = add-HasWork q x
Closing-add testing q x n = add-HasWork q x
Closing-add asleep q x n = add-HasWork q x
Closing-add taking q x n = add-HasWork q x
Closing-add (holding w) q x n = tt
Closing-add (sending w) q x n = tt
Closing-add ended q x n = tt
Closing-add (finished w) q x n = tt
Closing-add crashed q x n = n refl

pub turns_left-wake : (pc : Pc) → turns_left (wake pc) ≤ turns_left pc
turns_left-wake pc = ground arith

pub wake-Closing : (pc : Pc) (q : List Work) → Closing pc q → Closing (wake pc) q
wake-Closing pc q h = ground arith

pub Plain-wake : (pc : Pc) → Plain pc → Plain (wake pc)
Plain-wake pc h = ground arith

pub Plain-alive : (pc : Pc) → Plain pc → pc ≢ crashed
Plain-alive pc h e = subst Plain e h

pub LowPlain-wake : (pc : Pc) → LowPlain pc → LowPlain (wake pc)
LowPlain-wake pc h = ground arith

pub LowPlain-alive : (pc : Pc) → LowPlain pc → pc ≢ crashed
LowPlain-alive pc h e = subst LowPlain e h

wait-Plain : (q : List Work) → Plain (wait_for_work q)
wait-Plain [] = tt
wait-Plain (_ ∷ _) = tt

-- the low and the audio thread stay so
pub low_turn-LowPlain :
    (dual : Bool) (pc : Pc) (s : System)
    → s.low ≡ pc
    → LowPlain pc
    → LowPlain (low_turn dual pc s).low
unfolding low_turn get
low_turn-LowPlain dual pc s e h = ground arith

pub audio_turn-Plain :
    (dual : Bool) (pc : Pc) (s : System)
    → s.audio ≡ pc
    → Plain pc
    → Plain (audio_turn dual pc s).audio
unfolding audio_turn get
audio_turn-Plain dual pc s e h = ground arith
