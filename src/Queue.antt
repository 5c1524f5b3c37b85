-- ===== src/Queue.antt =====
-- libagorac/workqueue.h: `WorkQueue`. Its mutex makes each operation one step; the list is the
-- `std::queue`, its front first.
pub mod Wakeup
mod Tests
use server_side_custom_video.Prelude.{
  ℕ, suc, Bool, true, false, List, [], ◌∷◌, ◌++◌, Option, none, some, length, map,
}

module _ {ℓ} {A : Type ℓ} where
  unfoldable pub add : A → List A → List A
  add work queue = queue ++ work ∷ []

  -- `get`: none is `nullptr`
  unfoldable pub get : List A → Option A × List A
  get [] = (none, [])
  get (work ∷ queue) = (some work, queue)

  abbrev pub is_empty : List A → Bool
  is_empty [] = true
  is_empty (_ ∷ _) = false

  abbrev pub size : List A → ℕ
  size queue = length queue

  abbrev pub top : List A → Option A
  top [] = none
  top (work ∷ _) = some work

  -- `while(_workQueue.empty()==false) _workQueue.pop()`
  unfoldable pub clear : List A → List A
  clear [] = []
  clear (_ ∷ queue) = clear queue

-- Where the thread stands that takes the works: in front of the test in `waitForWork`, blocked on
-- the condition, or behind the test and in front of `get`.
pub data Consumer : Type 0 where
  testing asleep passed : Consumer

-- `notify_one` and `notify_all`, for the one thread that waits: it tests again
abbrev pub notify : Consumer → Consumer
notify asleep = testing
notify c = c

-- `_condition.wait(lk, …)`: one test
abbrev pub wait_for_work {ℓ} : {A : Type ℓ} → List A → Consumer
wait_for_work [] = asleep
wait_for_work (_ ∷ _) = passed

-- A work that has left the queue, by `get` or by `clear`.
pub data Removed {ℓ} (A : Type ℓ) : Type ℓ where
  delivered : A → Removed A
  dropped : A → Removed A

-- A queue with the thread that takes from it, and what has gone in and out.
pub record Channel {ℓ} (A : Type ℓ) : Type ℓ where
  pub queue : List A
  pub consumer : Consumer
  pub added : List A
  pub removed : List (Removed A)

-- What may happen next: any thread adds, clears or closes, the consumer takes its next step, or it
-- wakes with no notification.
pub data Event {ℓ} (A : Type ℓ) : Type ℓ where
  produce : A → Event A
  consume : Event A
  spurious : Event A
  clear_all : Event A
  close : Event A

module _ {ℓ} {A : Type ℓ} where
  abbrev pub start : Channel A
  start = record { queue = []; consumer = testing; added = []; removed = [] }

  abbrev pub taken : Option A → List (Removed A)
  taken none = []
  taken (some work) = delivered work ∷ []

  -- the loop of a consumer: `waitForWork`, then `get`
  unfoldable pub turn : Consumer → Channel A → Channel A
  turn testing s = record s { consumer = wait_for_work s.queue }
  turn asleep s = s
  turn passed s = record s {
    queue = (get s.queue).1;
    consumer = testing;
    removed = s.removed ++ taken (get s.queue).0;
  }

  unfoldable pub happen : Event A → Channel A → Channel A
  happen (produce work) s = record s {
    queue = add work s.queue;
    consumer = notify s.consumer;
    added = s.added ++ work ∷ [];
  }
  happen consume s = turn s.consumer s
  happen spurious s = record s { consumer = notify s.consumer }
  happen clear_all s = record s {
    queue = clear s.queue;
    removed = s.removed ++ map dropped s.queue;
  }
  happen close s = record s { consumer = notify s.consumer }

  unfoldable pub run : List (Event A) → Channel A → Channel A
  run [] s = s
  run (e ∷ es) s = run es (happen e s)
