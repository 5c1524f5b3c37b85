-- ===== src/Relay/Sound/Works.antt =====
-- Which works an event adds for the audio thread.
use server_side_custom_video.Prelude.{
  and_split, ℕ, ◌≡◌, refl, sym, ap, ◌∙◌, Bool, true, false, ◌&&◌, List, [], ◌∷◌, ◌++◌, some, Bytes,
  map, arith, append-nil, append_assoc,
}
use server_side_custom_video.Text.{ℤ, pos}
use server_side_custom_video.Audio.Decode.{Encoded, encoded, failed, AudioCall}
use server_side_custom_video.Queue.{get}
use server_side_custom_video.Context.{Work, new_work}
use server_side_custom_video.Sender.{
  Event, send_video, send_audio, disconnect, high_step, low_step, audio_step, spurious, System,
  connected, happen, run, add_video, add_audio, add_low, high_turn, low_turn, audio_turn,
}
use server_side_custom_video.Relay.Sound.{Sound, frame, event, call_event, call_events}

-- neither a call of `agora_send_audio` nor of `agora_disconnect`
abbrev pub is_other : Event → Bool
is_other (send_audio bytes timestamp) = false
is_other disconnect = false
is_other _ = true

abbrev pub all_other : List Sound → Bool
all_other [] = true
all_other (frame bytes timestamp ∷ sounds) = all_other sounds
all_other (event e ∷ sounds) = is_other e && all_other sounds

-- the bytes of a packet that was encoded
abbrev pub bytes_of : Encoded → Bytes
bytes_of (encoded bytes) = bytes
bytes_of failed = []

abbrev pub is_encoded : Encoded → Bool
is_encoded (encoded bytes) = true
is_encoded failed = false

abbrev pub all_encoded : List Encoded → Bool
all_encoded [] = true
all_encoded (e ∷ es) = is_encoded e && all_encoded es

-- a call as the work that it adds
abbrev pub work_of : AudioCall → Work
work_of c = new_work (bytes_of c.out) false (pos c.timestamp)

abbrev pub outs : List AudioCall → List Encoded
outs cs = map (λ c. c.out) cs

pub all_encoded-append :
    (cs ds : List AudioCall)
    → all_encoded (outs (cs ++ ds)) ≡ true
    → (all_encoded (outs cs) ≡ true) × (all_encoded (outs ds) ≡ true)
all_encoded-append [] ds h = (refl, h)
all_encoded-append (c ∷ cs) ds h =
    let (first, rest) = and_split (is_encoded c.out) (all_encoded (outs (cs ++ ds))) h in
    let (a, b) = all_encoded-append cs ds rest in (rw (first, a) refl, b)

-- the event of a call
abbrev pub sending : AudioCall → Event
sending c = send_audio (bytes_of c.out) (pos c.timestamp)

call_event-sending :
    (out : Encoded) (timestamp : ℕ)
    → is_encoded out ≡ true
    → call_event (record { out = out; timestamp = timestamp })
      ≡ some (send_audio (bytes_of out) (pos timestamp))
call_event-sending (encoded bytes) timestamp h = refl
call_event-sending failed timestamp h = ground (arith, h)

pub call_events-sending :
    (cs : List AudioCall) → all_encoded (outs cs) ≡ true → call_events cs ≡ some (map sending cs)
unfolding call_events
call_events-sending [] h = refl
call_events-sending (c ∷ cs) h =
    let (first, rest) = and_split (is_encoded c.out) (all_encoded (outs cs)) h in
    rw (call_event-sending c.out c.timestamp first, call_events-sending cs rest) refl

module _ (dual : Bool) (finish : Work) where
  -- from a connected state to another, with some works more for the audio thread
  pub record Gets (s u : System) (works : List Work) : Type 0 where
    pub api : u.api ≡ connected
    pub added : u.audio_added ≡ s.audio_added ++ works

  audio-Gets :
      (bytes : Bytes) (t : ℤ) (s : System)
      → s.api ≡ connected
      → Gets s (happen dual finish (send_audio bytes t) s) (new_work bytes false t ∷ [])
  unfolding happen add_audio
  audio-Gets bytes t s c = record { api = ground (arith, c); added = ground (arith, c) }

  abbrev pub Same : System → System → Type 0
  Same s u = (u.api ≡ s.api) × (u.audio_added ≡ s.audio_added)

  video-Same :
      (bytes : Bytes) (key : Bool) (t : ℤ) (s : System)
      → Same s (happen dual finish (send_video bytes key t) s)
  unfolding happen add_video
  video-Same bytes key t s = ground arith

  high-Same :
      (late short : Bool) (s : System) → Same s (happen dual finish (high_step late short) s)
  unfolding happen high_turn get add_low
  high-Same late short s = ground arith

  low-Same : (s : System) → Same s (happen dual finish low_step s)
  unfolding happen low_turn get
  low-Same s = ground arith

  audio_step-Same : (s : System) → Same s (happen dual finish audio_step s)
  unfolding happen audio_turn get
  audio_step-Same s = ground arith

  pub other-Same : (e : Event) (s : System) → is_other e ≡ true → Same s (happen dual finish e s)
  unfolding happen
  other-Same (send_video bytes key t) s h = video-Same bytes key t s
  other-Same (send_audio bytes t) s h = ground (arith, h)
  other-Same disconnect s h = ground (arith, h)
  other-Same (high_step late short) s h = high-Same late short s
  other-Same low_step s h = low-Same s
  other-Same audio_step s h = audio_step-Same s
  other-Same spurious s h = (refl, refl)

  pub Gets-join :
      (s t u : System) (ws vs : List Work) → Gets s t ws → Gets t u vs → Gets s u (ws ++ vs)
  Gets-join s t u ws vs g h = record {
    api = h.api;
    added = h.added ∙ ap (λ z. z ++ vs) g.added ∙ append_assoc s.audio_added ws vs;
  }

  pub sending-Gets :
      (cs : List AudioCall) (s : System)
      → s.api ≡ connected
      → Gets s (run dual finish (map sending cs) s) (map work_of cs)
  unfolding run
  sending-Gets [] s c = record { api = c; added = sym (append-nil s.audio_added) }
  sending-Gets (x ∷ cs) s c =
      let g = audio-Gets (bytes_of x.out) (pos x.timestamp) s c in
      let t = happen dual finish (sending x) s in
      Gets-join s t (run dual finish (map sending cs) t) (work_of x ∷ []) (map work_of cs) g
        (sending-Gets cs t g.api)
