-- ===== src/Sender/High.antt =====
-- `VideoThreadHandlerHigh`: its buffer, what it holds and what it has sent.
use server_side_custom_video.Prelude.{
  ℕ, suc, ◌≡◌, Bool, true, false, not, ◌&&◌, List, [], ◌∷◌, ◌++◌, ltb, if◌then◌else◌,
}
use server_side_custom_video.Queue.{get, is_empty}
use server_side_custom_video.Context.{Work}
use server_side_custom_video.Sender.{
  Pc, at_top, filling, testing, asleep, taking, holding, sending, ended, finished, crashed, System,
  add_low, forward, high_take, high_turn,
}
use server_side_custom_video.Sender.Serves.{Serves, Serves-wait, Serves-sent, Serves-taken}

abbrev pub HighServes : System → Type 0
HighServes s = Serves s.high s.video_jb s.video_added s.high_sent

-- adding to the low queue touches neither
forward-HighServes :
    (dual : Bool) (work : Work) (s : System)
    → Serves (sending work) s.video_jb s.video_added s.high_sent
    → HighServes (record (forward dual work s) { high = sending work })
unfolding add_low
forward-HighServes true work s h = h
forward-HighServes false work s h = h

high_send-HighServes :
    (b : Bool) (w : Work) (s : System)
    → Serves (sending w) s.video_jb s.video_added s.high_sent
    → HighServes (
        if b
        then record s { high = finished w }
        else record s { high = at_top; high_sent = s.high_sent ++ w ∷ [] })
high_send-HighServes true w s h = record { order = h.order; ready = tt }
high_send-HighServes false w s h = Serves-sent w s.video_jb s.video_added s.high_sent h

high_top-HighServes :
    (b c : Bool) (s : System)
    → Serves at_top s.video_jb s.video_added s.high_sent
    → HighServes (
        if b
        then record s { high = ended }
        else if c
        then record s { high = filling 0 }
        else record s { high = testing })
high_top-HighServes true c s h = record { order = h.order; ready = tt }
high_top-HighServes false true s h = record { order = h.order; ready = tt }
high_top-HighServes false false s h = record { order = h.order; ready = tt }

filling-HighServes :
    (n : ℕ) (b : Bool) (s : System)
    → Serves (filling n) s.video_jb s.video_added s.high_sent
    → HighServes (
        if b
        then record s { high = filling (suc n); is_jb_buffering = true }
        else record s { high = testing; is_jb_buffering = false })
filling-HighServes n true s h = record { order = h.order; ready = tt }
filling-HighServes n false s h = record { order = h.order; ready = tt }

high_take-HighServes :
    (dual : Bool) (queue : List Work) (s : System)
    → Serves taking queue s.video_added s.high_sent
    → HighServes (high_take dual (get queue) s)
unfolding get
high_take-HighServes dual [] s h = let (w, r, e) = h.ready in cc
high_take-HighServes dual (w ∷ queue) s h = record {
  order = Serves-taken w queue s.video_added s.high_sent h;
  ready = tt;
}

pub high_turn-HighServes :
    (dual : Bool) (pc : Pc) (late short : Bool) (s : System)
    → s.high ≡ pc
    → Serves pc s.video_jb s.video_added s.high_sent
    → HighServes (high_turn dual pc late short s)
unfolding high_turn
high_turn-HighServes dual at_top late short s e h =
    high_top-HighServes (not s.is_running) (late && is_empty s.video_jb) s h
high_turn-HighServes dual (filling n) late short s e h =
    filling-HighServes n (s.is_running && ltb n 200 && short) s h
high_turn-HighServes dual testing late short s e h =
    Serves-wait s.video_jb s.video_added s.high_sent h.order
high_turn-HighServes dual asleep late short s e h = rw e h
high_turn-HighServes dual taking late short s e h = high_take-HighServes dual s.video_jb s h
high_turn-HighServes dual (holding w) late short s e h =
    forward-HighServes dual w s (record { order = h.order; ready = tt })
high_turn-HighServes dual (sending w) late short s e h = high_send-HighServes w.is_finished w s h
high_turn-HighServes dual ended late short s e h = rw e h
high_turn-HighServes dual (finished w) late short s e h = rw e h
high_turn-HighServes dual crashed late short s e h = absurd h.ready
