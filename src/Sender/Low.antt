-- ===== src/Sender/Low.antt =====
-- `VideoThreadHandlerLow`: what it is given by the high stream's thread and what it sends.
pub mod Runs
use server_side_custom_video.Prelude.{
  ◌≡◌, refl, sym, ap, ◌∙◌, Bool, true, false, ◌&&◌, List, [], ◌∷◌, ◌++◌, Option, none, some,
  append_assoc, append-nil, arith, ℕ, suc, if◌then◌else◌, not, ltb,
}
use server_side_custom_video.Queue.{add, get, clear, is_empty}
use server_side_custom_video.Context.{Work, new_work}
use server_side_custom_video.Sender.{
  Pc, at_top, filling, testing, asleep, taking, holding, sending, ended, finished, crashed, wake,
  wait_for_work, Api, connected, stopping, video_told, low_cleared, low_told, closed, System,
  started, add_video, add_audio, add_low, high_take, low_take, high_turn, low_turn, audio_turn,
  disconnect_turn, Event, send_video, send_audio, disconnect, high_step, low_step, audio_step,
  spurious, is_connected, happen, run,
}

-- the works that a thread has at hand once it has passed them on, or tested them
abbrev pub at_hand : Pc → List Work
at_hand (sending work) = work ∷ []
at_hand (finished work) = work ∷ []
at_hand _ = []

-- the works of the low stream, and those of the high stream that were forwarded to it
abbrev pub low_works : System → List Work
low_works s = s.low_sent ++ at_hand s.low ++ s.video_queue_low

abbrev pub forwarded : System → List Work
forwarded s = s.high_sent ++ at_hand s.high

abbrev pub Follows : System → Type 0
Follows s = low_works s ≡ forwarded s

pub at_hand-wake : (pc : Pc) → at_hand (wake pc) ≡ at_hand pc
at_hand-wake pc = ground arith

at_hand-wait : (q : List Work) → at_hand (wait_for_work q) ≡ []
at_hand-wait [] = refl
at_hand-wait (w ∷ q) = refl

-- a turn of a thread leaves the two streams' works as they are
pub record Same (s t : System) : Type 0 where
  pub low_same : low_works t ≡ low_works s
  pub high_same : forwarded t ≡ forwarded s

Same-refl : (s : System) → Same s s
Same-refl s = record { low_same = refl; high_same = refl }

pub Same-Follows : (s t : System) → Same s t → Follows s → Follows t
Same-Follows s t h f = h.low_same ∙ f ∙ sym h.high_same

taken : (sent queue : List Work) (w : Work) → sent ++ w ∷ [] ++ queue ≡ sent ++ [] ++ w ∷ queue
taken sent queue w =
    append_assoc sent (w ∷ []) queue ∙ ap (λ z. z ++ w ∷ queue) (sym (append-nil sent))

low_top-Same :
    (b : Bool) (s : System)
    → s.low ≡ at_top
    → Same s (if b then record s { low = testing } else record s { low = ended })
low_top-Same true s e = record { low_same = rw e refl; high_same = refl }
low_top-Same false s e = record { low_same = rw e refl; high_same = refl }

low_taken-Same :
    (b : Bool) (w : Work) (q : List Work) (s : System)
    → s.low ≡ taking
    → s.video_queue_low ≡ w ∷ q
    → Same s (
        if b
        then record s { video_queue_low = q; low = finished w }
        else record s { video_queue_low = q; low = sending w })
low_taken-Same true w q s e i = record {
  low_same = rw (e, i) (taken s.low_sent q w);
  high_same = refl;
}
low_taken-Same false w q s e i = record {
  low_same = rw (e, i) (taken s.low_sent q w);
  high_same = refl;
}

low_take-Same :
    (dual : Bool) (q : List Work) (s : System)
    → s.low ≡ taking
    → s.video_queue_low ≡ q
    → Same s (low_take dual (get q) s)
unfolding get
low_take-Same dual [] s e i = record { low_same = rw e refl; high_same = refl }
low_take-Same dual (w ∷ q) s e i = low_taken-Same w.is_finished w q s e i

pub low_turn-Same : (dual : Bool) (pc : Pc) (s : System) → s.low ≡ pc → Same s (low_turn dual pc s)
unfolding low_turn
low_turn-Same dual at_top s e = low_top-Same s.is_running s e
low_turn-Same dual testing s e = record { low_same = rw (e, at_hand-wait) refl; high_same = refl }
low_turn-Same dual taking s e = low_take-Same dual s.video_queue_low s e refl
low_turn-Same dual (sending w) s e = record {
  low_same = rw (e, append-nil (s.low_sent ++ w ∷ [])) refl;
  high_same = refl;
}
low_turn-Same dual (filling n) s e = Same-refl s
low_turn-Same dual asleep s e = Same-refl s
low_turn-Same dual (holding w) s e = Same-refl s
low_turn-Same dual ended s e = Same-refl s
low_turn-Same dual (finished w) s e = Same-refl s
low_turn-Same dual crashed s e = Same-refl s

check-Same :
    (b : Bool) (s : System)
    → s.high ≡ at_top
    → Same s (if b then record s { high = filling 0 } else record s { high = testing })
check-Same true s e = record { low_same = refl; high_same = rw e refl }
check-Same false s e = record { low_same = refl; high_same = rw e refl }

top-Same :
    (b c : Bool) (s : System)
    → s.high ≡ at_top
    → Same s (
        if b
        then record s { high = ended }
        else if c
        then record s { high = filling 0 }
        else record s { high = testing })
top-Same true c s e = record { low_same = refl; high_same = rw e refl }
top-Same false c s e = check-Same c s e

filling-Same :
    (b : Bool) (n : ℕ) (s : System)
    → s.high ≡ filling n
    → Same s (
        if b
        then record s { high = filling (suc n); is_jb_buffering = true }
        else record s { high = testing; is_jb_buffering = false })
filling-Same true n s e = record { low_same = refl; high_same = rw e refl }
filling-Same false n s e = record { low_same = refl; high_same = rw e refl }

high_send-Same :
    (b : Bool) (w : Work) (s : System)
    → s.high ≡ sending w
    → Same s (
        if b
        then record s { high = finished w }
        else record s { high = at_top; high_sent = s.high_sent ++ w ∷ [] })
high_send-Same true w s e = record { low_same = refl; high_same = rw e refl }
high_send-Same false w s e = record {
  low_same = refl;
  high_same = rw (e, append-nil (s.high_sent ++ w ∷ [])) refl;
}

high_take-Same :
    (dual : Bool) (q : List Work) (s : System) → s.high ≡ taking → Same s (high_take dual (get q) s)
unfolding get
high_take-Same dual [] s e = record { low_same = refl; high_same = rw e refl }
high_take-Same dual (w ∷ q) s e = record { low_same = refl; high_same = rw e refl }

-- a work that the high stream's thread holds is forwarded
forwards-Follows :
    (w : Work) (s : System)
    → s.high ≡ holding w
    → Follows s
    → Follows (record (add_low w s) { high = sending w })
unfolding add_low add
forwards-Follows w s e f = rw at_hand-wake (
    sym (append_assoc (s.low_sent ++ at_hand s.low) s.video_queue_low (w ∷ []))
    ∙ ap (λ z. z ++ w ∷ []) (f ∙ rw e (append-nil s.high_sent)))

pub high_turn-Follows :
    (pc : Pc) (late short : Bool) (s : System)
    → s.high ≡ pc
    → Follows s
    → Follows (high_turn true pc late short s)
unfolding high_turn
high_turn-Follows at_top late short s e f =
    let b = not s.is_running in
    let c = late && is_empty s.video_jb in
    let t =
      if b
      then record s { high = ended }
      else if c
      then record s { high = filling 0 }
      else record s { high = testing } in
    Same-Follows s t (top-Same b c s e) f
high_turn-Follows (filling n) late short s e f =
    let b = s.is_running && ltb n 200 && short in
    let t =
      if b
      then record s { high = filling (suc n); is_jb_buffering = true }
      else record s { high = testing; is_jb_buffering = false } in
    Same-Follows s t (filling-Same b n s e) f
high_turn-Follows testing late short s e f = f ∙ rw (e, at_hand-wait) refl
high_turn-Follows taking late short s e f =
    Same-Follows s (high_take true (get s.video_jb) s) (high_take-Same true s.video_jb s e) f
high_turn-Follows (holding w) late short s e f = forwards-Follows w s e f
high_turn-Follows (sending w) late short s e f =
    let t =
      if w.is_finished
      then record s { high = finished w }
      else record s { high = at_top; high_sent = s.high_sent ++ w ∷ [] } in
    Same-Follows s t (high_send-Same w.is_finished w s e) f
high_turn-Follows asleep late short s e f = f
high_turn-Follows ended late short s e f = f
high_turn-Follows (finished w) late short s e f = f
high_turn-Follows crashed late short s e f = f
