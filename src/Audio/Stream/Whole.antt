-- ===== src/Audio/Stream/Whole.antt =====
-- Any number of frames: what one frame does to the waiting samples, repeated.
use mathlib.Core.List.{map-append}
use server_side_custom_video.Prelude.{
  ℕ, ◌+◌, ◌*◌, ◌<◌, ◌≡◌, refl, ap, ◌∙◌, sym, List, [], ◌∷◌, ◌++◌, some, Bytes, length, append_assoc,
  append-nil, map, All-append,
}
use server_side_custom_video.Audio.Packet.Cut.{holding}
use server_side_custom_video.Audio.Decode.{Codecs, AudioState, decode_acc_audio}
use server_side_custom_video.Audio.Stream.{
  pcm, feed, encode_all, Encodes, Decodes, none_left, next, decoded, run, Cuts, concat,
}
use server_side_custom_video.Audio.Stream.Frame.{frame-Cuts}

concat-append : (ps qs : List Bytes) → concat (ps ++ qs) ≡ concat ps ++ concat qs
concat-append [] qs = refl
concat-append (p ∷ ps) qs =
    ap (λ z. p ++ z) (concat-append ps qs) ∙ sym (append_assoc p (concat ps) (concat qs))

module _ (lib : Codecs) where
  feed-append :
      (opus : lib.Opus) (ps qs : List Bytes)
      → feed lib (feed lib opus ps) qs ≡ feed lib opus (ps ++ qs)
  feed-append opus [] qs = refl
  feed-append opus (p ∷ ps) qs = feed-append (lib.opus_next opus p) ps qs

  encode_all-append :
      (opus : lib.Opus) (ps qs : List Bytes)
      → encode_all lib opus (ps ++ qs)
        ≡ encode_all lib opus ps ++ encode_all lib (feed lib opus ps) qs
  encode_all-append opus [] qs = refl
  encode_all-append opus (p ∷ ps) qs =
      ap (λ z. lib.encode opus p ∷ z) (encode_all-append (lib.opus_next opus p) ps qs)

  -- One frame's packets and those of the frames behind it are those of all of them.
  Cuts-append :
      (buffer temp : Bytes) (st : AudioState lib) (f : Bytes × ℕ) (frames : List (Bytes × ℕ))
      (d d' : lib.Decoder) (opus : lib.Opus) (pending samples later : Bytes)
      (c : Cuts lib d opus pending samples (decode_acc_audio lib st f.0 f.1 buffer temp))
      → Cuts lib d' (feed lib opus c.packets) c.waiting later (
          run lib buffer temp
            (record {
              context = holding c.waiting c.stale;
              decoder = d;
              opus = feed lib opus c.packets;
            })
            frames)
      → Cuts lib d' opus pending (samples ++ later) (run lib buffer temp st (f ∷ frames))
  unfolding run
  Cuts-append buffer temp st f frames d d' opus pending samples later c w = record {
    packets = c.packets ++ w.packets;
    waiting = w.waiting;
    stale = w.stale;
    calls = c.calls ++ w.calls;
    steps = w.steps;
    returns =
        rw (c.returns, w.returns)
          (ap
            (λ z. some (
              c.calls ++ w.calls,
              record { context = holding w.waiting w.stale; decoder = d'; opus = z },
            ))
            (feed-append opus c.packets w.packets));
    sizes = All-append (λ p. length p ≡ 1920) c.packets w.packets c.sizes w.sizes;
    nothing_lost =
        ap (λ z. z ++ w.waiting) (concat-append c.packets w.packets)
        ∙ append_assoc (concat c.packets) (concat w.packets) w.waiting
        ∙ ap (λ z. concat c.packets ++ z) w.nothing_lost
        ∙ sym (append_assoc (concat c.packets) c.waiting later)
        ∙ ap (λ z. z ++ later) c.nothing_lost
        ∙ append_assoc pending samples later;
    aligned = w.aligned;
    short = w.short;
    space = w.space;
    in_order =
        map-append (λ call. call.out) c.calls w.calls
        ∙ rw (c.in_order, w.in_order) (sym (encode_all-append opus c.packets w.packets));
  }

  module _ (buffer temp : Bytes) (b : length buffer ≡ 4096) (t : length temp ≡ 3840)
      (enc : Encodes lib) where
    -- one frame that the decoder gets 1024 samples out of
    decode_acc_audio-Cuts :
        (d : lib.Decoder) (opus : lib.Opus) (pending stale frame : Bytes) (timestamp k : ℕ)
        (xs : List lib.Sample)
        → lib.decode d frame ≡ some xs
        → length xs ≡ 1024
        → length pending ≡ 128 * k
        → k < 15
        → length pending + length stale ≡ 4096
        → Cuts lib (lib.decoder_next d frame) opus pending (pcm lib xs) (
            decode_acc_audio lib
              (record { context = holding pending stale; decoder = d; opus = opus })
              frame
              timestamp
              buffer
              temp)
    unfolding decode_acc_audio
    decode_acc_audio-Cuts d opus pending stale frame timestamp k xs q h e l s =
        rw (q, decode_acc_audio)
          (frame-Cuts lib (lib.decoder_next d frame) d opus pending stale xs timestamp buffer temp h
            b t k enc e l s)

    -- However many frames of 1024 samples are decoded, one after the other, no access is past an
    -- array and the samples are cut into packets of 960 without a loss: those that waited before,
    -- followed by those of all frames, are the packets followed by those that wait afterwards, fewer
    -- than 960, and what is sent is the encoder's output for these packets, in order.
    pub run-Cuts :
        (d : lib.Decoder) (opus : lib.Opus) (frames : List (Bytes × ℕ))
        (xss : List (List lib.Sample)) (pending stale : Bytes) (k : ℕ)
        → Decodes lib d frames xss
        → length pending ≡ 128 * k
        → k < 15
        → length pending + length stale ≡ 4096
        → Cuts lib (decoded lib d frames) opus pending (concat (map (pcm lib) xss)) (
            run lib buffer temp
              (record { context = holding pending stale; decoder = d; opus = opus })
              frames)
    unfolding run
    run-Cuts d opus _ _ pending stale k (none_left _) e l s = record {
      packets = [];
      waiting = pending;
      stale = stale;
      calls = [];
      steps = k;
      returns = refl;
      sizes = tt;
      nothing_lost = sym (append-nil pending);
      aligned = e;
      short = l;
      space = s;
      in_order = refl;
    }
    run-Cuts d opus _ _ pending stale k (next _ frame timestamp frames xs xss q h later) e l s =
        let c = decode_acc_audio-Cuts d opus pending stale frame timestamp k xs q h e l s in
        Cuts-append buffer temp
          (record { context = holding pending stale; decoder = d; opus = opus }) (frame, timestamp)
          frames (lib.decoder_next d frame) (decoded lib (lib.decoder_next d frame) frames) opus
          pending (pcm lib xs) (concat (map (pcm lib) xss)) c
          (run-Cuts (lib.decoder_next d frame) (feed lib opus c.packets) frames xss c.waiting
            c.stale c.steps later c.aligned c.short c.space)
