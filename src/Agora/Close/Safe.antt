-- ===== src/Agora/Close/Safe.antt =====
-- The end of a session.
use server_side_custom_video.Prelude.{
  ℕ, ◌≤◌, ◌<◌, ◌≡◌, refl, ◌⊎◌, inl, inr, Bool, true, false, List, [], arith,
}
use server_side_custom_video.Context.{Work}
use server_side_custom_video.Sender.{Pc, closed, System, started, Event, run}
use server_side_custom_video.Sender.Shutdown.{is_over, high_turns, low_turns, audio_turns}
use server_side_custom_video.Sender.Shutdown.Ends.{disconnect-ends}
use server_side_custom_video.Agora.Outcome.{threads_of}
use server_side_custom_video.Agora.Close.{returned, end_threads, close, opened, running}

-- a thread that has had its turns has returned
enough :
    (least turns : ℕ) (pc : Pc)
    → (is_over pc ≡ true) ⊎ (turns < least)
    → least ≤ turns
    → is_over pc ≡ true
enough least turns pc (inl h) n = h
enough least turns pc (inr few) n = ground (arith, few, n)

enough_low :
    (turns : ℕ) (pc : Pc)
    → (true ≡ false) ⊎ ((is_over pc ≡ true) ⊎ (turns < 5))
    → 5 ≤ turns
    → is_over pc ≡ true
enough_low turns pc (inl e) n = ground (arith, e)
enough_low turns pc (inr h) n = enough 5 turns pc h n

none-running :
    (dual : Bool) (s : System)
    → is_over s.high ≡ true
    → (dual ≡ true → is_over s.low ≡ true)
    → is_over s.audio ≡ true
    → running s (threads_of true dual true) ≡ []
none-running true s h l a = rw (h, l refl, a) refl
none-running false s h l a = rw (h, a) refl

low-over :
    (dual : Bool) (turns : ℕ) (pc : Pc)
    → (dual ≡ false) ⊎ ((is_over pc ≡ true) ⊎ (turns < 5))
    → (dual ≡ true → 5 ≤ turns)
    → dual ≡ true
    → is_over pc ≡ true
low-over true turns pc h n e = enough_low turns pc h (n refl)
low-over false turns pc h n e = ground (arith, e)

close_ok :
    (dual : Bool) (s : System)
    → close dual false (opened dual s)
      ≡ returned (record {
        system = s;
        members = [];
        joinable = [];
        publishes_audio = false;
        publishes_video = false;
        is_connected = false;
        has_service = false;
        has_context = false;
      })
unfolding close end_threads
close_ok true s = refl
close_ok false s = refl

close_failed :
    (dual : Bool) (s : System)
    → close dual true (opened dual s)
      ≡ returned (record (opened dual s) { publishes_audio = false; publishes_video = false })
unfolding close
close_failed dual s = refl

-- A session as `agora_init` returns it, once `agora_disconnect` has told its threads to end, if
-- during the sleep the thread of the high stream has had six turns, that of the audio five and, with
-- dual streams, that of the low stream five: no thread runs any more. If the SDK's `disconnect`
-- succeeds, every member is released, no thread object ends while it is attached and none is missing
-- that is detached, the service is released and the context deleted, which no thread can use then.
-- If it fails, the tracks are unpublished and everything else is left as it was.
pub close-releases :
    (dual : Bool) (finish : Work) (before after : List Event)
    → (run dual finish before started).api ≡ closed
    → 6 ≤ high_turns after
    → (dual ≡ true → 5 ≤ low_turns after)
    → 5 ≤ audio_turns after
    → let s = run dual finish after (run dual finish before started) in
      (running s (opened dual s).joinable ≡ [])
      × (close dual false (opened dual s)
          ≡ returned (record {
            system = s;
            members = [];
            joinable = [];
            publishes_audio = false;
            publishes_video = false;
            is_connected = false;
            has_service = false;
            has_context = false;
          }))
      × (close dual true (opened dual s)
          ≡ returned (record (opened dual s) { publishes_audio = false; publishes_video = false }))
close-releases dual finish before after c h l a =
    let s = run dual finish after (run dual finish before started) in
    let (high, low, sound) = disconnect-ends dual finish before after c in
    (
      none-running dual s (enough 6 (high_turns after) s.high high h)
          (low-over dual (low_turns after) s.low low l)
          (enough 5 (audio_turns after) s.audio sound a),
      close_ok dual s,
      close_failed dual s,
    )
