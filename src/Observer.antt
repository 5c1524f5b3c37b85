-- ===== src/Observer.antt =====
-- libagorac/userobserver.h and userobserver.cpp: `MyUserObserver`. Receivers, renderers, tracks and
-- users are numbers; none is a null pointer.
mod Tests
use server_side_custom_video.Prelude.{ℕ, List, [], ◌∷◌, ◌++◌, Option, none, some}

-- a call of the observer
pub data ObserverCall : Type 0 where
  set_video_encoded_image_receiver : Option ℕ → ObserverCall
  set_video_frame_observer : Option ℕ → ObserverCall
  unset_video_frame_observer : ObserverCall
  on_user_video_track_subscribed : Option ℕ → ObserverCall
  -- the callbacks that only log
  on_remote_video_stream_info_updated : ObserverCall
  on_video_subscribe_state_changed : ObserverCall
  on_user_info_updated : ObserverCall
  on_intra_request_received : ObserverCall
  -- the callbacks with an empty body, which the header overrides
  on_audio_track_publish_success : ObserverCall
  on_user_audio_track_subscribed : ObserverCall
  on_audio_track_publication_failure : ObserverCall
  on_user_audio_track_state_changed : ObserverCall
  on_local_audio_track_state_changed : ObserverCall
  on_video_track_publish_success : ObserverCall
  on_video_track_publication_failure : ObserverCall
  on_user_video_track_state_changed : ObserverCall
  on_remote_video_track_statistics : ObserverCall
  on_local_video_track_state_changed : ObserverCall
  on_local_video_track_statistics : ObserverCall
  on_audio_volume_indication : ObserverCall
  on_local_audio_track_statistics : ObserverCall
  on_remote_audio_track_statistics : ObserverCall
  on_audio_subscribe_state_changed : ObserverCall
  on_audio_publish_state_changed : ObserverCall
  on_video_publish_state_changed : ObserverCall

-- What is done outside of the observer: on the local user, on a track, in the log.
pub data Effect : Type 0 where
  register_local_user_observer : (user : ℕ) → Effect
  unregister_local_user_observer : (user : ℕ) → Effect
  register_receiver : (track receiver : ℕ) → Effect
  add_renderer : (track observer : ℕ) → Effect
  logged : ObserverCall → Effect

pub record MyUserObserver : Type 0 where
  pub local_user : ℕ
  pub video_encoded_receiver : Option ℕ
  pub video_frame_observer : Option ℕ
  pub remote_video_track : Option ℕ

-- the constructor
abbrev pub new_observer : (local_user : ℕ) → MyUserObserver × List Effect
new_observer local_user = (
  record {
    local_user = local_user;
    video_encoded_receiver = none;
    video_frame_observer = none;
    remote_video_track = none;
  },
  register_local_user_observer local_user ∷ [],
)

-- the destructor
abbrev pub end_observer : MyUserObserver → List Effect
end_observer o = unregister_local_user_observer o.local_user ∷ []

abbrev pub get_local_user : MyUserObserver → ℕ
get_local_user o = o.local_user

abbrev pub registered : Option ℕ → Option ℕ → List Effect
registered (some track) (some receiver) = register_receiver track receiver ∷ []
registered (some track) none = []
registered none _ = []

abbrev pub rendered : Option ℕ → Option ℕ → List Effect
rendered (some track) (some observer) = add_renderer track observer ∷ []
rendered (some track) none = []
rendered none _ = []

-- a call, and what it does; the null track of a subscription is kept as one
unfoldable pub observer_call : ObserverCall → MyUserObserver → MyUserObserver × List Effect
observer_call (set_video_encoded_image_receiver receiver) o =
    (record o { video_encoded_receiver = receiver }, [])
observer_call (set_video_frame_observer observer) o =
    (record o { video_frame_observer = observer }, [])
observer_call unset_video_frame_observer o = (o, [])
observer_call (on_user_video_track_subscribed track) o = (
  record o { remote_video_track = track },
  logged (on_user_video_track_subscribed track)
      ∷ (registered track o.video_encoded_receiver ++ rendered track o.video_frame_observer),
)
observer_call on_remote_video_stream_info_updated o =
    (o, logged on_remote_video_stream_info_updated ∷ [])
observer_call on_video_subscribe_state_changed o = (o, logged on_video_subscribe_state_changed ∷ [])
observer_call on_user_info_updated o = (o, logged on_user_info_updated ∷ [])
observer_call on_intra_request_received o = (o, logged on_intra_request_received ∷ [])
observer_call _ o = (o, [])
