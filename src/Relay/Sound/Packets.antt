-- ===== src/Relay/Sound/Packets.antt =====
-- The packets that are encoded, and what the audio thread has of them.
use server_side_custom_video.Prelude.{
  and_split, ℕ, ◌≡◌, refl, sym, ap, ◌∙◌, Bool, true, List, [], ◌∷◌, ◌++◌, Option, none, some, Bytes,
  map, arith, append-nil,
}
use server_side_custom_video.Audio.Memory.{◌>>=◌}
use server_side_custom_video.Audio.Decode.{
  Encoded, encoded, Codecs, AudioCall, AudioState, decode_acc_audio,
}
use server_side_custom_video.Audio.Stream
use server_side_custom_video.Context.{Work}
use server_side_custom_video.Sender.{Event, System, connected, happen, run}
use server_side_custom_video.Prelude.{◌<◌, length, All}
use server_side_custom_video.Audio.Packet.Cut.{holding}
use server_side_custom_video.Audio.Stream.{concat, pcm, feed, encode_all, Encodes, Decodes, decoded}
use server_side_custom_video.Audio.Stream.Whole.{run-Cuts}
use server_side_custom_video.Sender.{started}
use server_side_custom_video.Sender.Serves.{held}
use server_side_custom_video.Sender.Order.{sent-in_order}
use server_side_custom_video.Relay.Sound.{Sound, frame, event, relay_sound, frames_of}
use mathlib.Core.List.{map-append}
use server_side_custom_video.Prelude.{subst, ◌<◌}
use server_side_custom_video.Audio.Stream.{with_more}
use server_side_custom_video.Sender.Runs.{run-append}
use server_side_custom_video.Relay.Sound.Works.{
  all_other, is_other, is_encoded, all_encoded, work_of, outs, all_encoded-append, sending,
  call_events-sending, Gets, other-Same, Gets-join, sending-Gets,
}

bind-some :
    {A B : Type 0}
    → (o : Option A) (f : A → Option B) (b : B) → (o >>= f) ≡ some b
    → (a : A) × (o ≡ some a) × (f a ≡ some b)
bind-some none f b h = ground (arith, h)
bind-some (some a) f b h = (a, refl, h)

some_or : {A : Type 0} → A → Option A → A
some_or a none = a
some_or a (some b) = b

some_injective : {A : Type 0} → (a b : A) → some a ≡ some b → a ≡ b
unfolding some_or
some_injective a b h = ap (some_or a) h

module _ (lib : Codecs) (buffer temp : Bytes) (dual : Bool) (finish : Work) where
  -- the events of some frames that are decoded and encoded
  record Relays (st : AudioState lib) (sounds : List Sound) (s : System)
      (r : List AudioCall × AudioState lib) : Type 0 where
    events : List Event
    returns : relay_sound lib buffer temp st sounds ≡ some (events, r.1)
    gets : Gets dual finish s (run dual finish events s) (map work_of r.0)

  relay-frame :
      (st : AudioState lib) (bytes : Bytes) (t : ℕ) (sounds : List Sound) (s : System)
      (now later : List AudioCall × AudioState lib)
      → decode_acc_audio lib st bytes t buffer temp ≡ some now
      → all_encoded (outs now.0) ≡ true
      → s.api ≡ connected
      → Relays now.1 sounds (run dual finish (map sending now.0) s) later
      → Relays st (frame bytes t ∷ sounds) s (now.0 ++ later.0, later.1)
  unfolding relay_sound
  relay-frame st bytes t sounds s now later q e c k = record {
    events = map sending now.0 ++ k.events;
    returns = rw (q, call_events-sending now.0 e, k.returns) refl;
    gets =
        let t = run dual finish (map sending now.0) s in
        let u = run dual finish k.events t in
        subst (Gets dual finish s (run dual finish (map sending now.0 ++ k.events) s))
          (sym (map-append work_of now.0 later.0))
          (subst (λ z. Gets dual finish s z (map work_of now.0 ++ map work_of later.0))
            (sym (run-append dual finish (map sending now.0) k.events s))
            (Gets-join dual finish s t u (map work_of now.0) (map work_of later.0)
              (sending-Gets dual finish now.0 s c) k.gets));
  }

  run-Relays :
      (sounds : List Sound) (st : AudioState lib) (s : System) (r : List AudioCall × AudioState lib)
      → Stream.run lib buffer temp st (frames_of sounds) ≡ some r
      → all_encoded (outs r.0) ≡ true
      → all_other sounds ≡ true
      → s.api ≡ connected
      → Relays st sounds s r
  unfolding Stream.run relay_sound run
  run-Relays [] st s r q e o c = subst (Relays st [] s) (some_injective ([], st) r q) (record {
    events = [];
    returns = refl;
    gets = record { api = c; added = sym (append-nil s.audio_added) };
  })
  run-Relays (frame bytes t ∷ sounds) st s r q e o c =
      let frames = frames_of sounds in
      let rest : List AudioCall × AudioState lib → Option (List AudioCall × AudioState lib) =
        λ now. Stream.run lib buffer temp now.1 frames >>= λ later. with_more lib now.0 later in
      let (now, q1, q2) = bind-some (decode_acc_audio lib st bytes t buffer temp) rest r q in
      let (later, q3, q4) =
        bind-some (Stream.run lib buffer temp now.1 frames) (with_more lib now.0) r q2 in
      let same = some_injective (now.0 ++ later.0, later.1) r q4 in
      let (e1, e2) =
        all_encoded-append now.0 later.0
          (subst (λ x. all_encoded (outs x.0) ≡ true) (sym same) e) in
      subst (Relays st (frame bytes t ∷ sounds) s) same (
        relay-frame st bytes t sounds s now later q1 e1 c (
          run-Relays sounds now.1 (run dual finish (map sending now.0) s) later q3 e2 o
            (sending-Gets dual finish now.0 s c).api))
  run-Relays (event x ∷ sounds) st s r q e o c =
      let (first, others) = and_split (is_other x) (all_other sounds) o in
      let (api, added) = other-Same dual finish x s first in
      let k = run-Relays sounds st (happen dual finish x s) r q e others (api ∙ c) in
      record {
        events = x ∷ k.events;
        returns = rw k.returns refl;
        gets = record {
          api = k.gets.api;
          added = k.gets.added ∙ ap (λ z. z ++ map work_of r.0) added;
        };
      }

encoded-is_encoded : (e : Encoded) (bytes : Bytes) → e ≡ encoded bytes → is_encoded e ≡ true
encoded-is_encoded e bytes h = rw h refl

encode_all-all_encoded :
    (lib : Codecs) (opus : lib.Opus) (packets : List Bytes)
    → Encodes lib
    → All (λ p. length p ≡ 1920) packets
    → all_encoded (encode_all lib opus packets) ≡ true
encode_all-all_encoded lib opus [] enc sizes = refl
encode_all-all_encoded lib opus (p ∷ packets) enc sizes =
    let (bytes, e, _) = enc opus p sizes.0 in
    rw
      (
        encoded-is_encoded (lib.encode opus p) bytes e,
        encode_all-all_encoded lib (lib.opus_next opus p) packets enc sizes.1,
      )
      refl

-- What comes of some frames, with the samples they are decoded to: they are cut into packets of 960
-- samples, with fewer than that left; the encoder's output for these, in order, are the packets that
-- the audio thread has sent, the one that it holds and those in its buffer.
pub record Sends (lib : Codecs) (buffer temp : Bytes) (st : AudioState lib) (dual : Bool)
    (finish : Work) (sounds : List Sound) (samples : Bytes) : Type 0 where
  pub packets : List Bytes
  pub waiting : Bytes
  pub calls : List AudioCall
  pub events : List Event
  pub end : AudioState lib
  pub returns : relay_sound lib buffer temp st sounds ≡ some (events, end)
  pub sizes : All (λ p. length p ≡ 1920) packets
  pub few : length waiting < 1920
  pub nothing_lost : concat packets ++ waiting ≡ samples
  pub in_order : map (λ c. c.out) calls ≡ encode_all lib st.opus packets
  pub sends :
      let s = run dual finish events started in
      s.audio_sent ++ held s.audio ++ s.audio_jb ≡ map work_of calls

-- While a stream is connected, with AAC frames that are each decoded to 1024 samples and an encoder
-- that encodes every packet of 960, from an audio context with no samples waiting, in any
-- interleaving with the video and the threads: no access is past an array; the samples of all
-- frames, one behind another, are packets of 960 samples and fewer than 960 that wait; and the
-- packets that the audio thread has sent, the one that it holds and those in its buffer are what
-- `opus_encode` made of these, each once and in order.
pub relay-packets :
    (lib : Codecs) (buffer temp : Bytes) (dual : Bool) (finish : Work) (d : lib.Decoder)
    (opus : lib.Opus) (stale : Bytes) (sounds : List Sound) (xss : List (List lib.Sample))
    → length buffer ≡ 4096
    → length temp ≡ 3840
    → length stale ≡ 4096
    → Encodes lib
    → Decodes lib d (frames_of sounds) xss
    → all_other sounds ≡ true
    → Sends lib buffer temp
        (record { context = holding [] stale; decoder = d; opus = opus })
        dual
        finish
        sounds
        (concat (map (pcm lib) xss))
relay-packets lib buffer temp dual finish d opus stale sounds xss b t l enc dec o =
    let st : AudioState lib = record { context = holding [] stale; decoder = d; opus = opus } in
    let c =
      run-Cuts lib buffer temp b t enc d opus (frames_of sounds) xss [] stale 0 dec refl
        (omega arith) (omega (arith, l)) in
    let end : AudioState lib = record {
      context = holding c.waiting c.stale;
      decoder = decoded lib d (frames_of sounds);
      opus = feed lib opus c.packets;
    } in
    let good = ap all_encoded c.in_order ∙ encode_all-all_encoded lib opus c.packets enc c.sizes in
    let k =
      run-Relays lib buffer temp dual finish sounds st started (c.calls, end) c.returns good o
        refl in
    record {
      packets = c.packets;
      waiting = c.waiting;
      calls = c.calls;
      events = k.events;
      end = end;
      returns = k.returns;
      sizes = c.sizes;
      few = omega (arith, c.aligned, c.short);
      nothing_lost = c.nothing_lost;
      in_order = c.in_order;
      sends = (sent-in_order dual finish k.events).1 ∙ k.gets.added;
    }
