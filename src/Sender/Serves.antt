-- ===== src/Sender/Serves.antt =====
-- A sending thread, its queue, what was added to the queue and what the thread has sent.
use server_side_custom_video.Prelude.{
  ◌≡◌, refl, sym, ap, ◌∙◌, List, [], ◌∷◌, ◌++◌, append_assoc, append-nil,
}
use server_side_custom_video.Queue.{add}
use server_side_custom_video.Context.{Work}
use server_side_custom_video.Sender.{
  Pc, at_top, filling, testing, asleep, taking, holding, sending, ended, finished, crashed, wake,
  wait_for_work,
}

-- the work that a thread has taken and not yet sent; the last one is never sent
abbrev pub held : Pc → List Work
held (holding work) = work ∷ []
held (sending work) = work ∷ []
held (finished work) = work ∷ []
held _ = []

-- A thread that has passed the test of `waitForWork` finds a work, one that is blocked has none
-- before it, and no `nullptr` was used.
abbrev pub Ready : Pc → List Work → Type 0
Ready taking q = (w : Work) × (r : List Work) × (q ≡ w ∷ r)
Ready asleep q = q ≡ []
Ready crashed q = ⊥
Ready _ q = Unit {0}

-- a thread with its queue, what was added to the queue and what the thread has sent
pub record Serves (pc : Pc) (queue added sent : List Work) : Type 0 where
  pub order : sent ++ held pc ++ queue ≡ added
  pub ready : Ready pc queue

Ready-wait : (q : List Work) → Ready (wait_for_work q) q
Ready-wait [] = refl
Ready-wait (w ∷ q) = (w, q, refl)

held-wait : (q : List Work) → held (wait_for_work q) ≡ []
held-wait [] = refl
held-wait (w ∷ q) = refl

pub Serves-wait :
    (queue added sent : List Work)
    → sent ++ [] ++ queue ≡ added
    → Serves (wait_for_work queue) queue added sent
Serves-wait queue added sent h = record { order = rw held-wait h; ready = Ready-wait queue }

held-wake : (pc : Pc) → held (wake pc) ≡ held pc
held-wake asleep = refl
held-wake at_top = refl
held-wake (filling n) = refl
held-wake testing = refl
held-wake taking = refl
held-wake (holding w) = refl
held-wake (sending w) = refl
held-wake ended = refl
held-wake (finished w) = refl
held-wake crashed = refl

Ready-wake : (pc : Pc) (q : List Work) → Ready pc q → Ready (wake pc) q
Ready-wake asleep q h = tt
Ready-wake at_top q h = tt
Ready-wake (filling n) q h = tt
Ready-wake testing q h = tt
Ready-wake taking q h = h
Ready-wake (holding w) q h = tt
Ready-wake (sending w) q h = tt
Ready-wake ended q h = tt
Ready-wake (finished w) q h = tt
Ready-wake crashed q h = h

Ready-add : (pc : Pc) (q : List Work) (x : Work) → Ready pc q → Ready (wake pc) (q ++ x ∷ [])
Ready-add asleep q x h = tt
Ready-add at_top q x h = tt
Ready-add (filling n) q x h = tt
Ready-add testing q x h = tt
Ready-add taking q x (w, r, e) = (w, r ++ x ∷ [], ap (λ z. z ++ x ∷ []) e)
Ready-add (holding w) q x h = tt
Ready-add (sending w) q x h = tt
Ready-add ended q x h = tt
Ready-add (finished w) q x h = tt
Ready-add crashed q x h = h

pub Serves-wake :
    (pc : Pc) (queue added sent : List Work)
    → Serves pc queue added sent
    → Serves (wake pc) queue added sent
Serves-wake pc queue added sent h = record {
  order = rw held-wake h.order;
  ready = Ready-wake pc queue h.ready;
}

pub Serves-add :
    (pc : Pc) (queue added sent : List Work) (x : Work)
    → Serves pc queue added sent
    → Serves (wake pc) (add x queue) (added ++ x ∷ []) sent
unfolding add
Serves-add pc queue added sent x h = record {
  order =
      rw (held-wake, ← append_assoc (sent ++ held pc) queue (x ∷ []))
        (ap (λ z. z ++ x ∷ []) h.order);
  ready = Ready-add pc queue x h.ready;
}

-- a work that is sent has left the thread
pub Serves-sent :
    (w : Work) (queue added sent : List Work)
    → Serves (sending w) queue added sent
    → Serves at_top queue added (sent ++ w ∷ [])
Serves-sent w queue added sent h = record {
  order = rw (append-nil (sent ++ w ∷ [])) h.order;
  ready = tt;
}

-- and one that is taken is with it
pub Serves-taken :
    (w : Work) (queue added sent : List Work)
    → Serves taking (w ∷ queue) added sent
    → (sent ++ w ∷ []) ++ queue ≡ added
Serves-taken w queue added sent h =
    append_assoc sent (w ∷ []) queue ∙ ap (λ z. z ++ w ∷ queue) (sym (append-nil sent)) ∙ h.order
