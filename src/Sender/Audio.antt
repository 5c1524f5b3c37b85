-- ===== src/Sender/Audio.antt =====
-- `AudioThreadHandler`: its buffer, what it holds and what it has sent.
use server_side_custom_video.Prelude.{
  ◌≡◌, Bool, true, false, ◌&&◌, List, [], ◌∷◌, ◌++◌, if◌then◌else◌,
}
use server_side_custom_video.Queue.{get}
use server_side_custom_video.Context.{Work}
use server_side_custom_video.Sender.{
  Pc, at_top, filling, testing, asleep, taking, holding, sending, ended, finished, crashed, System,
  audio_turn, audio_take,
}
use server_side_custom_video.Sender.Serves.{Serves, Serves-wait, Serves-sent, Serves-taken}

abbrev pub AudioServes : System → Type 0
AudioServes s = Serves s.audio s.audio_jb s.audio_added s.audio_sent

audio_top-AudioServes :
    (b : Bool) (s : System)
    → Serves at_top s.audio_jb s.audio_added s.audio_sent
    → AudioServes (if b then record s { audio = testing } else record s { audio = ended })
audio_top-AudioServes true s h = record { order = h.order; ready = tt }
audio_top-AudioServes false s h = record { order = h.order; ready = tt }

taken-AudioServes :
    (b : Bool) (w : Work) (queue : List Work) (s : System)
    → (s.audio_sent ++ w ∷ []) ++ queue ≡ s.audio_added
    → AudioServes (
        if b
        then record s { audio_jb = queue; audio = finished w }
        else record s { audio_jb = queue; audio = holding w })
taken-AudioServes true w queue s h = record { order = h; ready = tt }
taken-AudioServes false w queue s h = record { order = h; ready = tt }

audio_take-AudioServes :
    (dual : Bool) (queue : List Work) (s : System)
    → Serves taking queue s.audio_added s.audio_sent
    → AudioServes (audio_take dual (get queue) s)
unfolding get
audio_take-AudioServes dual [] s h = let (w, r, e) = h.ready in cc
audio_take-AudioServes dual (w ∷ queue) s h =
    taken-AudioServes w.is_finished w queue s (Serves-taken w queue s.audio_added s.audio_sent h)

held_back-AudioServes :
    (b : Bool) (w : Work) (s : System)
    → s.audio ≡ holding w
    → Serves (holding w) s.audio_jb s.audio_added s.audio_sent
    → AudioServes (if b then s else record s { audio = sending w })
held_back-AudioServes true w s e h = rw e h
held_back-AudioServes false w s e h = record { order = h.order; ready = tt }

pub audio_turn-AudioServes :
    (dual : Bool) (pc : Pc) (s : System)
    → s.audio ≡ pc
    → Serves pc s.audio_jb s.audio_added s.audio_sent
    → AudioServes (audio_turn dual pc s)
unfolding audio_turn
audio_turn-AudioServes dual at_top s e h = audio_top-AudioServes s.is_running s h
audio_turn-AudioServes dual (filling n) s e h = rw e h
audio_turn-AudioServes dual testing s e h =
    Serves-wait s.audio_jb s.audio_added s.audio_sent h.order
audio_turn-AudioServes dual asleep s e h = rw e h
audio_turn-AudioServes dual taking s e h = audio_take-AudioServes dual s.audio_jb s h
audio_turn-AudioServes dual (holding w) s e h =
    held_back-AudioServes (s.is_jb_buffering && s.is_running) w s e h
audio_turn-AudioServes dual (sending w) s e h =
    Serves-sent w s.audio_jb s.audio_added s.audio_sent h
audio_turn-AudioServes dual ended s e h = rw e h
audio_turn-AudioServes dual (finished w) s e h = rw e h
audio_turn-AudioServes dual crashed s e h = rw e h
