-- ===== src/Sender/Runs.antt =====
-- A run in two parts.
use server_side_custom_video.Prelude.{◌≡◌, refl, Bool, List, [], ◌∷◌, ◌++◌}
use server_side_custom_video.Context.{Work}
use server_side_custom_video.Sender.{Event, System, happen, run}

pub run-append :
    (dual : Bool) (finish : Work) (a b : List Event) (s : System)
    → run dual finish (a ++ b) s ≡ run dual finish b (run dual finish a s)
unfolding run
run-append dual finish [] b s = refl
run-append dual finish (e ∷ a) b s = run-append dual finish a b (happen dual finish e s)
