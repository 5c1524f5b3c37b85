-- ===== src/Queue/Tests.antt =====
-- Runs of a queue.
use server_side_custom_video.Prelude.{ℕ, ◌≡◌, ◌≢◌, map, refl, List, [], ◌∷◌, ◌++◌, arith}
use server_side_custom_video.Queue.{
  asleep, Removed, clear, delivered, dropped, Event, produce, consume, spurious, clear_all, close,
  start, happen, run, turn, add, get,
}
use server_side_custom_video.Queue.Wakeup.{fifo, wakeup, work_of}

-- the consumer is blocked on an empty queue, two works come, and it wakes for no reason
abbrev before : List (Event ℕ)
before = consume ∷ spurious ∷ consume ∷ produce 5 ∷ produce 6 ∷ []

abbrev after : List (Event ℕ)
after = consume ∷ produce 7 ∷ close ∷ consume ∷ consume ∷ []

wakeup_example :
    ((run before start).consumer ≢ asleep)
    × ((more : List (Removed ℕ)) × ((run after (run before start)).removed
          ≡ (run before start).removed ++ delivered 5 ∷ more))
unfolding run happen turn add get
wakeup_example = wakeup before after 5 (6 ∷ []) refl tt (omega arith)

abbrev mixed : List (Event ℕ)
mixed = produce 1 ∷ produce 2 ∷ consume ∷ consume ∷ clear_all ∷ produce 3 ∷ []

fifo_example :
    map work_of (run mixed start).removed ++ (run mixed start).queue ≡ (run mixed start).added
fifo_example = fifo mixed

dropped_at_clear : (run mixed start).removed ≡ delivered 1 ∷ dropped 2 ∷ []
unfolding run happen turn add get clear
dropped_at_clear = refl
