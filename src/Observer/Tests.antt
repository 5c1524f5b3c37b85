-- ===== src/Observer/Tests.antt =====
-- An observer whose track comes before and behind what is set.
use server_side_custom_video.Prelude.{◌≡◌, refl, [], ◌∷◌, some}
use server_side_custom_video.Observer.{
  MyUserObserver, set_video_frame_observer, unset_video_frame_observer,
  on_user_video_track_subscribed, add_renderer, logged, new_observer, observer_call,
}

-- the observer of frames is still there once it has been unset
abbrev watching : MyUserObserver
watching = record (new_observer 1).0 { video_frame_observer = some 7 }

still_added :
    (observer_call
      (on_user_video_track_subscribed (some 3))
      (observer_call unset_video_frame_observer watching).0).1
    ≡ logged (on_user_video_track_subscribed (some 3)) ∷ add_renderer 3 7 ∷ []
unfolding observer_call
still_added = refl

-- a track that came before gets no renderer
not_added : (observer_call (set_video_frame_observer (some 7)) watching).1 ≡ []
unfolding observer_call
not_added = refl
