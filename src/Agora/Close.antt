-- ===== src/Agora/Close.antt =====
-- libagorac/agorac.cpp: `agora_disconnect` from its sleep on. What comes before is in Sender.
pub mod Safe
use server_side_custom_video.Prelude.{
  ℕ, ◌≤◌, ◌≡◌, refl, ◌⊎◌, inl, inr, ◌<◌, Bool, true, false, not, List, [], ◌∷◌, ◌==◌, if◌then◌else◌,
  arith,
}
use server_side_custom_video.Context.{Work}
use server_side_custom_video.Sender.{Pc, closed, System, started, Event, run}
use server_side_custom_video.Sender.Shutdown.{is_over, high_turns, low_turns, audio_turns}
use server_side_custom_video.Sender.Shutdown.Ends.{disconnect-ends}
use server_side_custom_video.Agora.{Thread, video_high, video_low, audio}
use server_side_custom_video.Agora.Outcome.{threads_of}

-- the members of the context that refer to something
pub data Member : Type 0 where
  audio_sender video_sender audio_track video_track : Member
  video_jb video_queue_low audio_jb : Member
  connection service : Member
  video_thread_high video_thread_low audio_thread : Member
  video_decoder video_encoder : Member

-- the order of their declaration above
abbrev place : Member → ℕ
place audio_sender = 0
place video_sender = 1
place audio_track = 2
place video_track = 3
place video_jb = 4
place video_queue_low = 5
place audio_jb = 6
place connection = 7
place service = 8
place video_thread_high = 9
place video_thread_low = 10
place audio_thread = 11
place video_decoder = 12
place video_encoder = 13

-- A session: its threads, the members that are set, the `std::thread` objects that are attached to
-- a thread, what is published, and what there is of the SDK and of the context.
pub record Session : Type 0 where
  pub system : System
  pub members : List Member
  pub joinable : List Thread
  pub publishes_audio : Bool
  pub publishes_video : Bool
  pub is_connected : Bool
  pub has_service : Bool
  pub has_context : Bool

-- What the call comes to: `terminated` is the end of an attached thread object, `null_thread` a
-- call of `detach` on no object.
pub data Closed : Type 0 where
  returned : Session → Closed
  terminated : Closed
  null_thread : Closed

abbrev member_of : Thread → Member
member_of video_high = video_thread_high
member_of video_low = video_thread_low
member_of audio = audio_thread

abbrev has : Member → List Member → Bool
has m [] = false
has m (n ∷ ns) = if place m == place n then true else has m ns

abbrev without : Member → List Member → List Member
without m [] = []
without m (n ∷ ns) = let rest = without m ns in if place m == place n then rest else n ∷ rest

abbrev is_joinable : Thread → List Thread → Bool
is_joinable t [] = false
is_joinable t (u ∷ us) =
    if place (member_of t) == place (member_of u) then true else is_joinable t us

abbrev detached : Thread → List Thread → List Thread
detached t [] = []
detached t (u ∷ us) =
    let rest = detached t us in
    if place (member_of t) == place (member_of u) then rest else u ∷ rest

-- `= nullptr`
abbrev pub set_null : Member → Session → Session
set_null m s = record s { members = without m s.members }

abbrev pub release_all : List Member → Session → Session
release_all [] s = s
release_all (m ∷ ms) s = release_all ms (set_null m s)

-- `->detach()`
abbrev pub detach : Thread → Session → (Session → Closed) → Closed
detach t s rest =
    if has (member_of t) s.members
    then rest (record s { joinable = detached t s.joinable })
    else null_thread

-- `= nullptr` for a thread object
abbrev pub release_thread : Thread → Session → (Session → Closed) → Closed
release_thread t s rest =
    if is_joinable t s.joinable then terminated else rest (set_null (member_of t) s)

-- from `videoThreadHigh->detach()` on
unfoldable pub end_threads : (enable_dual : Bool) → Session → Closed
end_threads enable_dual s = detach video_high s λ s1.
    (if enable_dual then detach video_low s1 else λ rest. rest s1) λ s2. detach audio s2 λ s3.
      release_thread video_high s3 λ s4. release_thread video_low s4 λ s5.
        release_thread audio s5 λ s6.
          returned
            (record (release_all (video_decoder ∷ video_encoder ∷ []) s6) { has_context = false })

-- behind the sleep of two seconds, for what `disconnect` of the SDK returns: nonzero is an error
unfoldable pub close : (enable_dual isdisconnected : Bool) → Session → Closed
close enable_dual isdisconnected s =
    let unpublished = record s { publishes_audio = false; publishes_video = false } in
    if isdisconnected
    then returned unpublished
    else let gone =
        release_all
          (audio_sender ∷ video_sender ∷ audio_track ∷ video_track ∷ video_jb ∷ video_queue_low
            ∷ audio_jb ∷ connection ∷ [])
          (record unpublished { is_connected = false }) in
      end_threads enable_dual (record (set_null service gone) { has_service = false })

-- the members that `agora_init` has set when it returns a session
abbrev pub members_of : (enable_dual : Bool) → List Member
members_of true =
    service ∷ connection ∷ audio_sender ∷ audio_track ∷ video_sender ∷ video_track ∷ video_jb
    ∷ audio_jb ∷ video_thread_high ∷ audio_thread ∷ video_decoder ∷ video_encoder ∷ video_queue_low
    ∷ video_thread_low ∷ []
members_of false =
    service ∷ connection ∷ audio_sender ∷ audio_track ∷ video_sender ∷ video_track ∷ video_jb
    ∷ audio_jb ∷ video_thread_high ∷ audio_thread ∷ []

abbrev pub opened : (enable_dual : Bool) → System → Session
opened enable_dual system = record {
  system = system;
  members = members_of enable_dual;
  joinable = threads_of true enable_dual true;
  publishes_audio = true;
  publishes_video = true;
  is_connected = true;
  has_service = true;
  has_context = true;
}

-- where a thread stands
abbrev place_of : System → Thread → Pc
place_of s video_high = s.high
place_of s video_low = s.low
place_of s audio = s.audio

-- the threads that have not returned
abbrev pub running : System → List Thread → List Thread
running s [] = []
running s (t ∷ ts) = let rest = running s ts in if is_over (place_of s t) then rest else t ∷ rest
