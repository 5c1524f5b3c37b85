-- ===== src/Queue/Wakeup.antt =====
-- The runs of a `WorkQueue`: the order of the works, and the thread that waits for them.
use mathlib.Core.List.{map-append}
use server_side_custom_video.Prelude.{
  ℕ, suc, ◌≤◌, ◌≡◌, ◌≢◌, refl, sym, ap, subst, ◌∙◌, List, [], ◌∷◌, ◌++◌, append-nil, append_assoc,
  map, arith,
}
use server_side_custom_video.Queue.{
  add, get, clear, Consumer, testing, asleep, passed, notify, Removed, delivered, dropped, Channel,
  Event, produce, consume, spurious, clear_all, close, start, taken, turn, happen, run,
}

abbrev pub work_of {ℓ} : {A : Type ℓ} → Removed A → A
work_of (delivered w) = w
work_of (dropped w) = w

notify-awake : (c : Consumer) → notify c ≢ asleep
notify-awake testing e = cc
notify-awake asleep e = cc
notify-awake passed e = cc

-- how many turns of the consumer a work at the front waits for
abbrev turns_left : Consumer → ℕ
turns_left testing = 2
turns_left asleep = 2
turns_left passed = 1

turns_left-le : (c : Consumer) → turns_left c ≤ 2
turns_left-le testing = omega arith
turns_left-le asleep = omega arith
turns_left-le passed = omega arith

turns_left-notify : (c : Consumer) → turns_left (notify c) ≤ turns_left c
turns_left-notify testing = omega arith
turns_left-notify asleep = omega arith
turns_left-notify passed = omega arith

module _ {ℓ} {A : Type ℓ} where
  works_of-dropped : (q : List A) → map work_of (map dropped q) ≡ q
  works_of-dropped [] = refl
  works_of-dropped (w ∷ q) = ap (λ z. w ∷ z) (works_of-dropped q)

  clear-nil : (q : List A) → clear q ≡ []
  unfolding clear
  clear-nil [] = refl
  clear-nil (w ∷ q) = clear-nil q

  -- what has left and what is there, in order, are what was added
  abbrev IsOrdered : Channel A → Type ℓ
  IsOrdered s = map work_of s.removed ++ s.queue ≡ s.added

  get-IsOrdered :
      (r : List (Removed A)) (q : List A)
      → map work_of (r ++ taken (get q).0) ++ (get q).1 ≡ map work_of r ++ q
  unfolding get
  get-IsOrdered r [] = ap (λ z. map work_of z ++ []) (append-nil r)
  get-IsOrdered r (w ∷ q) =
      ap (λ z. z ++ q) (map-append work_of r (delivered w ∷ []))
      ∙ append_assoc (map work_of r) (w ∷ []) q

  turn-IsOrdered : (c : Consumer) (s : Channel A) → IsOrdered s → IsOrdered (turn c s)
  unfolding turn
  turn-IsOrdered testing s h = h
  turn-IsOrdered asleep s h = h
  turn-IsOrdered passed s h = get-IsOrdered s.removed s.queue ∙ h

  happen-IsOrdered : (e : Event A) (s : Channel A) → IsOrdered s → IsOrdered (happen e s)
  unfolding happen add
  happen-IsOrdered (produce w) s h =
      sym (append_assoc (map work_of s.removed) s.queue (w ∷ [])) ∙ ap (λ z. z ++ w ∷ []) h
  happen-IsOrdered consume s h = turn-IsOrdered s.consumer s h
  happen-IsOrdered spurious s h = h
  happen-IsOrdered clear_all s h =
      rw
        (
          clear-nil s.queue,
          append-nil,
          map-append work_of s.removed (map dropped s.queue),
          works_of-dropped s.queue,
        )
        h
  happen-IsOrdered close s h = h

  run-IsOrdered : (es : List (Event A)) (s : Channel A) → IsOrdered s → IsOrdered (run es s)
  unfolding run
  run-IsOrdered [] s h = h
  run-IsOrdered (e ∷ es) s h = run-IsOrdered es (happen e s) (happen-IsOrdered e s h)

  -- Whatever happens, in whatever order, the works that have left the queue, taken or cleared,
  -- followed by those that are in it, are the works that were added, in their order.
  pub fifo :
      (es : List (Event A))
      → map work_of (run es start).removed ++ (run es start).queue ≡ (run es start).added
  fifo es = run-IsOrdered es start refl

  -- With a work in the queue the consumer is not blocked.
  abbrev pub IsAwake : Channel A → Type ℓ
  IsAwake s = s.consumer ≡ asleep → s.queue ≡ []

  turn-IsAwake :
      (c : Consumer) (q : List A) (s : Channel A)
      → s.queue ≡ q
      → (c ≡ asleep → q ≡ [])
      → IsAwake s
      → IsAwake (turn c s)
  unfolding turn
  turn-IsAwake testing [] s e h k = λ _. e
  turn-IsAwake testing (w ∷ q) s e h k = λ a. cc (rw e at a)
  turn-IsAwake asleep q s e h k = k
  turn-IsAwake passed q s e h k = λ a. cc

  happen-IsAwake : (e : Event A) (s : Channel A) → IsAwake s → IsAwake (happen e s)
  unfolding happen
  happen-IsAwake (produce w) s h = λ a. absurd (notify-awake s.consumer a)
  happen-IsAwake consume s h = turn-IsAwake s.consumer s.queue s refl h h
  happen-IsAwake spurious s h = λ a. absurd (notify-awake s.consumer a)
  happen-IsAwake clear_all s h = λ _. clear-nil s.queue
  happen-IsAwake close s h = λ a. absurd (notify-awake s.consumer a)

  pub run-IsAwake : (es : List (Event A)) (s : Channel A) → IsAwake s → IsAwake (run es s)
  unfolding run
  run-IsAwake [] s h = h
  run-IsAwake (e ∷ es) s h = run-IsAwake es (happen e s) (happen-IsAwake e s h)

  -- the turns of the consumer among some events
  abbrev pub turns : List (Event A) → ℕ
  turns [] = 0
  turns (consume ∷ es) = suc (turns es)
  turns (_ ∷ es) = turns es

  abbrev pub Uncleared : List (Event A) → Type 0
  Uncleared [] = Unit {0}
  Uncleared (clear_all ∷ es) = ⊥
  Uncleared (_ ∷ es) = Uncleared es

  -- the removed works only grow
  turn-removed :
      (c : Consumer) (s : Channel A)
      → (more : List (Removed A)) × ((turn c s).removed ≡ s.removed ++ more)
  unfolding turn
  turn-removed testing s = ([], sym (append-nil s.removed))
  turn-removed asleep s = ([], sym (append-nil s.removed))
  turn-removed passed s = (taken (get s.queue).0, refl)

  happen-removed :
      (e : Event A) (s : Channel A)
      → (more : List (Removed A)) × ((happen e s).removed ≡ s.removed ++ more)
  unfolding happen
  happen-removed (produce w) s = ([], sym (append-nil s.removed))
  happen-removed consume s = turn-removed s.consumer s
  happen-removed spurious s = ([], sym (append-nil s.removed))
  happen-removed clear_all s = (map dropped s.queue, refl)
  happen-removed close s = ([], sym (append-nil s.removed))

  run-removed :
      (es : List (Event A)) (s : Channel A)
      → (more : List (Removed A)) × ((run es s).removed ≡ s.removed ++ more)
  unfolding run
  run-removed [] s = ([], sym (append-nil s.removed))
  run-removed (e ∷ es) s =
      let (first, p) = happen-removed e s in
      let (rest, q) = run-removed es (happen e s) in
      (first ++ rest, q ∙ ap (λ z. z ++ rest) p ∙ append_assoc s.removed first rest)

  abbrev channel : Consumer → List A → List A → List (Removed A) → Channel A
  channel c q added removed = record { queue = q; consumer = c; added = added; removed = removed }

  -- the work `w` is the next that leaves
  abbrev Leaves : A → List (Removed A) → Channel A → Type ℓ
  Leaves w removed s = (more : List (Removed A)) × (s.removed ≡ removed ++ delivered w ∷ more)

  run-Leaves :
      (es : List (Event A)) (c : Consumer) (w : A) (q added : List A) (removed : List (Removed A))
      → c ≢ asleep
      → Uncleared es
      → turns_left c ≤ turns es
      → Leaves w removed (run es (channel c (w ∷ q) added removed))
  unfolding run happen turn add get
  run-Leaves [] testing w q added removed n u h = absurd (omega arith)
  run-Leaves [] asleep w q added removed n u h = absurd (n refl)
  run-Leaves [] passed w q added removed n u h = absurd (omega arith)
  run-Leaves (produce x ∷ es) c w q added removed n u h =
      run-Leaves es (notify c) w (q ++ x ∷ []) (added ++ x ∷ []) removed (notify-awake c) u
        (omega (arith, turns_left-notify c))
  run-Leaves (consume ∷ es) testing w q added removed n u h =
      run-Leaves es passed w q added removed (λ e. cc) u (omega arith)
  run-Leaves (consume ∷ es) asleep w q added removed n u h = absurd (n refl)
  run-Leaves (consume ∷ es) passed w q added removed n u h =
      let (more, e) = run-removed es (channel testing q added (removed ++ delivered w ∷ [])) in
      (more, e ∙ append_assoc removed (delivered w ∷ []) more)
  run-Leaves (spurious ∷ es) c w q added removed n u h =
      run-Leaves es (notify c) w q added removed (notify-awake c) u
        (omega (arith, turns_left-notify c))
  run-Leaves (clear_all ∷ es) c w q added removed n u h = absurd u
  run-Leaves (close ∷ es) c w q added removed n u h =
      run-Leaves es (notify c) w q added removed (notify-awake c) u
        (omega (arith, turns_left-notify c))

  -- No wakeup is lost: in every state that can be reached, with a work at the front of the queue,
  -- the consumer is not blocked, and whatever else happens it has taken this work, before any other,
  -- once it has had two turns, unless the queue is cleared meanwhile.
  pub wakeup :
      (before after : List (Event A)) (w : A) (q : List A)
      → (run before start).queue ≡ w ∷ q
      → Uncleared after
      → 2 ≤ turns after
      → ((run before start).consumer ≢ asleep)
        × ((more : List (Removed A)) × ((run after (run before start)).removed
              ≡ (run before start).removed ++ delivered w ∷ more))
  wakeup before after w q h u two = (
    awake,
    subst (λ z. Leaves w s.removed (run after z)) (sym same)
        (run-Leaves after s.consumer w q s.added s.removed awake u
          (omega (arith, turns_left-le s.consumer))),
  )
    where
      s : Channel A
      s = run before start

      awake : s.consumer ≢ asleep
      awake e = cc (run-IsAwake before start (λ _. refl) e, h)

      same : s ≡ channel s.consumer (w ∷ q) s.added s.removed
      same = ap (λ z. channel s.consumer z s.added s.removed) h
