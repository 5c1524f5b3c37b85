-- ===== src/Relay/Frames.antt =====
-- The frames of the messages, and what the threads have of them.
use server_side_custom_video.Prelude.{
  ℕ, ◌≤◌, ◌<◌, ◌≡◌, refl, sym, ap, subst, ◌∙◌, Bool, true, List, [], ◌∷◌, ◌++◌, some, Bytes, length,
  All, arith, append-nil, append_assoc, take-all, ◌==◌,
}
use server_side_custom_video.Text.{ℤ, pos}
use server_side_custom_video.Chain.{payload}
use server_side_custom_video.Nginx.{Nginx, Reverses}
use server_side_custom_video.Video.Out.{hls_bufsize}
use server_side_custom_video.Video.Convert.{go}
use server_side_custom_video.Video.Send.{hand_over, send_video}
use server_side_custom_video.Video.AnnexB.{Item, avcc, IsCoded}
use server_side_custom_video.Video.AnnexB.Message.{IsH264, picture, annexb, avcc_to_annexb_lem}
use server_side_custom_video.Queue.{get}
use server_side_custom_video.Context.{Work, new_work}
use server_side_custom_video.Sender
use server_side_custom_video.Sender.{
  Event, System, connected, started, add_video, add_audio, add_low, high_turn, low_turn, audio_turn,
  happen, run, crashed,
}
use server_side_custom_video.Sender.Serves.{held}
use server_side_custom_video.Sender.Order.{sent-in_order}
use server_side_custom_video.Relay.{
  Message, Happening, video, audio, high_step, low_step, audio_step, spurious, called, events_of,
  relay,
}

-- A message is a coded H.264 picture with these units, and its frame fits the static buffer.
pub record Codes (ngx : Nginx) (m : Message) : Type 0 where
  pub sps : List Bytes
  pub pps : List Bytes
  pub items : List Item
  pub fmt : ℕ
  pub delay : Bytes
  pub h264 : IsH264 ngx sps pps m.codec
  pub some_length : 1 ≤ m.mlen
  pub coded : All (IsCoded m.codec.avc_nal_bytes) items
  pub three : length delay ≡ 3
  pub bytes : payload m.chain ≡ picture fmt delay (avcc m.codec.avc_nal_bytes items)
  pub fits : length (annexb sps pps items) < hls_bufsize

-- every video message does
abbrev pub AllCode : Nginx → List Happening → Type 0
AllCode ngx [] = Unit {0}
AllCode ngx (video m ∷ hs) = Codes ngx m × AllCode ngx hs
AllCode ngx (_ ∷ hs) = AllCode ngx hs

module _ (ngx : Nginx) where
  -- the frame that a message describes, as a work
  abbrev pub described : (m : Message) → Codes ngx m → Work
  described m d =
      new_work (annexb d.sps d.pps d.items)
        (ngx.get_video_frame_type m.chain == ngx.video_key_frame) (pos m.timestamp)

  abbrev pub all_described : (hs : List Happening) → AllCode ngx hs → List Work
  all_described [] d = []
  all_described (video m ∷ hs) d = described m d.0 ∷ all_described hs d.1
  all_described (audio bytes timestamp ∷ hs) d = all_described hs d
  all_described (high_step late short ∷ hs) d = all_described hs d
  all_described (low_step ∷ hs) d = all_described hs d
  all_described (audio_step ∷ hs) d = all_described hs d
  all_described (spurious ∷ hs) d = all_described hs d

  message-handed :
      (m : Message) (d : Codes ngx m)
      → Reverses ngx
      → send_video ngx true (some m.codec) m.mlen m.timestamp m.chain
        ≡ some (
            hand_over
              (ngx.get_video_frame_type m.chain == ngx.video_key_frame)
              m.timestamp
              (go (annexb d.sps d.pps d.items)))
  unfolding send_video
  message-handed m d r =
      rw
        (
          avcc_to_annexb_lem ngx d.sps d.pps m.codec d.items d.fmt d.delay m.mlen m.chain r d.h264
              d.some_length d.coded d.three d.bytes d.fits,
          send_video,
        )
        refl

  message-called :
      (m : Message) (d : Codes ngx m)
      → Reverses ngx
      → events_of ngx (video m)
        ≡ Event.send_video
            (annexb d.sps d.pps d.items)
            (ngx.get_video_frame_type m.chain == ngx.video_key_frame)
            (pos m.timestamp)
          ∷ []
  unfolding events_of hand_over
  message-called m d r =
      let frame = annexb d.sps d.pps d.items in
      ap called (message-handed m d r)
      ∙ ap
          (λ b.
            Event.send_video b (ngx.get_video_frame_type m.chain == ngx.video_key_frame)
              (pos m.timestamp)
            ∷ [])
          (take-all (length frame) frame (omega arith))

-- a thread's turn adds no video
high_turn-adds :
    (dual : Bool) (pc : Sender.Pc) (late short : Bool) (s : System)
    → let t = high_turn dual pc late short s in (t.api ≡ s.api) × (t.video_added ≡ s.video_added)
unfolding high_turn get add_low
high_turn-adds dual pc late short s = ground arith

module _ (dual : Bool) (finish : Work) where
  video-adds :
      (bytes : Bytes) (key : Bool) (t : ℤ) (s : System)
      → s.api ≡ connected
      → let u = happen dual finish (Event.send_video bytes key t) s in
        (u.api ≡ connected) × (u.video_added ≡ s.video_added ++ new_work bytes key t ∷ [])
  unfolding happen add_video
  video-adds bytes key t s c = ground arith

  audio-adds :
      (bytes : Bytes) (t : ℤ) (s : System)
      → let u = happen dual finish (Event.send_audio bytes t) s in
        (u.api ≡ s.api) × (u.video_added ≡ s.video_added)
  unfolding happen add_audio
  audio-adds bytes t s = ground arith

  high-adds :
      (late short : Bool) (s : System)
      → let u = happen dual finish (Event.high_step late short) s in
        (u.api ≡ s.api) × (u.video_added ≡ s.video_added)
  unfolding happen
  high-adds late short s = high_turn-adds dual s.high late short s

  audio_step-adds :
      (s : System)
      → let u = happen dual finish Event.audio_step s in
        (u.api ≡ s.api) × (u.video_added ≡ s.video_added)
  unfolding happen audio_turn get
  audio_step-adds s = ground arith

  spurious-adds :
      (s : System)
      → let u = happen dual finish Event.spurious s in
        (u.api ≡ s.api) × (u.video_added ≡ s.video_added)
  unfolding happen
  spurious-adds s = (refl, refl)

  low-adds :
      (s : System)
      → let u = happen dual finish Event.low_step s in
        (u.api ≡ s.api) × (u.video_added ≡ s.video_added)
  unfolding happen low_turn get
  low-adds s = ground arith

  -- what a run adds, from a state or from one that has added as much
  record Adds (s u : System) (works : List Work) : Type 0 where
    api : u.api ≡ connected
    added : u.video_added ≡ s.video_added ++ works

  -- an event that adds no video
  unmoved :
      (s t u : System) (works : List Work)
      → s.api ≡ connected
      → (t.api ≡ s.api) × (t.video_added ≡ s.video_added)
      → (t.api ≡ connected → Adds t u works)
      → Adds s u works
  unmoved s t u works c (a, b) later =
      let rest = later (a ∙ c) in
      record { api = rest.api; added = rest.added ∙ ap (λ z. z ++ works) b }

  run-Adds :
      (ngx : Nginx) (hs : List Happening) (d : AllCode ngx hs) (s : System)
      → Reverses ngx
      → s.api ≡ connected
      → Adds s (run dual finish (relay ngx hs) s) (all_described ngx hs d)
  unfolding relay run events_of
  run-Adds ngx [] d s r c = record { api = c; added = sym (append-nil s.video_added) }
  run-Adds ngx (video m ∷ hs) d s r c =
      let frame = annexb d.0.sps d.0.pps d.0.items in
      let key = ngx.get_video_frame_type m.chain == ngx.video_key_frame in
      let t = happen dual finish (Event.send_video frame key (pos m.timestamp)) s in
      let (a, b) = video-adds frame key (pos m.timestamp) s c in
      let rest = run-Adds ngx hs d.1 t r a in
      subst
        (λ es. Adds s (run dual finish (es ++ relay ngx hs) s) (all_described ngx (video m ∷ hs) d))
        (sym (message-called ngx m d.0 r))
        (record {
          api = rest.api;
          added =
              rest.added
              ∙ ap (λ z. z ++ all_described ngx hs d.1) b
              ∙ append_assoc s.video_added (described ngx m d.0 ∷ []) (all_described ngx hs d.1);
        })
  run-Adds ngx (audio bytes timestamp ∷ hs) d s r c =
      let t = happen dual finish (Event.send_audio bytes timestamp) s in
      unmoved s t (run dual finish (relay ngx hs) t) (all_described ngx hs d) c
        (audio-adds bytes timestamp s) (run-Adds ngx hs d t r)
  run-Adds ngx (high_step late short ∷ hs) d s r c =
      let t = happen dual finish (Event.high_step late short) s in
      unmoved s t (run dual finish (relay ngx hs) t) (all_described ngx hs d) c
        (high-adds late short s) (run-Adds ngx hs d t r)
  run-Adds ngx (low_step ∷ hs) d s r c =
      let t = happen dual finish Event.low_step s in
      unmoved s t (run dual finish (relay ngx hs) t) (all_described ngx hs d) c (low-adds s)
        (run-Adds ngx hs d t r)
  run-Adds ngx (audio_step ∷ hs) d s r c =
      let t = happen dual finish Event.audio_step s in
      unmoved s t (run dual finish (relay ngx hs) t) (all_described ngx hs d) c (audio_step-adds s)
        (run-Adds ngx hs d t r)
  run-Adds ngx (spurious ∷ hs) d s r c =
      let t = happen dual finish Event.spurious s in
      unmoved s t (run dual finish (relay ngx hs) t) (all_described ngx hs d) c (spurious-adds s)
        (run-Adds ngx hs d t r)

-- While a stream is connected, if `ngx_rtmp_rmemcpy` reverses its bytes, with video messages that are
-- coded H.264 pictures whose frames fit the static buffer, in any cut into buffers and in any
-- interleaving with the audio and the threads: the frames handed to the SDK for the high stream, the one that its thread holds and those in the
-- jitter buffer are the Annex B frames that the messages describe, one for each message and in their
-- order, each with the message's timestamp and marked as nginx marks key frames.
pub relay-frames :
    (ngx : Nginx) (dual : Bool) (finish : Work) (hs : List Happening) (d : AllCode ngx hs)
    → Reverses ngx
    → let s = run dual finish (relay ngx hs) started in
      s.high_sent ++ held s.high ++ s.video_jb ≡ all_described ngx hs d
relay-frames ngx dual finish hs d r =
    (sent-in_order dual finish (relay ngx hs)).0
    ∙ (run-Adds dual finish ngx hs d started r refl).added
