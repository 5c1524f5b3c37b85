-- ===== src/Audio/Stream/Frame.antt =====
-- One frame of 1024 samples: one packet is sent, or two.
use server_side_custom_video.Prelude.{
  ℕ, suc, ◌+◌, ◌-◌, ◌*◌, ◌<◌, ◌≡◌, ◌⊎◌, inl, inr, refl, ap, ◌∙◌, sym, List, [], ◌∷◌, ◌++◌, Option,
  none, some, Bytes, arith, length, take, drop, length-append, append_assoc, append-nil,
  length-drop, length-take, take-append-drop, map, lt→ltb,
}
use server_side_custom_video.Words.{little_endian, length-little_endian}
use server_side_custom_video.Audio.Memory.{write_at_lem}
use server_side_custom_video.Audio.Packet.{AudioContext, encode_opus, flush_encode_opus}
use server_side_custom_video.Audio.Packet.Cut.{
  holding, encode_opus_lem, flush_encode_opus-full, flush_encode_opus-short,
}
use server_side_custom_video.Audio.Decode.{
  Codecs, AudioState, convert_sample, convert_samples, convert_audio_sample_f32_s16, flushed, sent,
  encode_decoded,
}
use server_side_custom_video.Audio.Stream.{pcm, Encodes, Cuts}

lt-or-eq : (k : ℕ) → k < 15 → (k < 14) ⊎ (k ≡ 14)
lt-or-eq k l = ground arith

module _ (lib : Codecs) where
  pub length-pcm : (xs : List lib.Sample) → length (pcm lib xs) ≡ 2 * length xs
  length-pcm [] = omega arith
  length-pcm (x ∷ xs) = omega (
    arith,
    length-append (little_endian 2 (convert_sample lib x)) (pcm lib xs),
    length-little_endian 2 (convert_sample lib x),
    length-pcm xs,
  )

  convert_samples-pcm :
      (xs : List lib.Sample) → convert_samples lib (length xs) xs ≡ some (pcm lib xs)
  unfolding convert_samples
  convert_samples-pcm [] = refl
  convert_samples-pcm (x ∷ xs) = rw (convert_samples-pcm xs) refl

  converted :
      (xs : List lib.Sample) (buffer : Bytes)
      → length xs ≡ 1024
      → length buffer ≡ 4096
      → convert_audio_sample_f32_s16 lib xs buffer 1024
        ≡ some (pcm lib xs ++ drop (length (pcm lib xs)) buffer)
  unfolding convert_audio_sample_f32_s16
  converted xs buffer h b =
      rw (sym h, convert_samples-pcm xs)
        (write_at_lem [] (pcm lib xs) buffer (omega (arith, length-pcm xs, h, b)))

  -- a packet is encoded, so its output is sent
  flushed_one :
      (timestamp : ℕ)
      → Encodes lib
      → (p : Bytes) (opus : lib.Opus) → length p ≡ 1920
      → map (λ c. c.out) (flushed lib timestamp (lib.encode opus p)) ≡ lib.encode opus p ∷ []
  flushed_one timestamp enc p opus h =
      let (bs, e, some_bytes) = enc opus p h in rw e (rw (lt→ltb 0 (length bs) some_bytes) refl)

  module _ (decoder : lib.Decoder) (d : lib.Decoder) (opus : lib.Opus) (pending stale : Bytes)
      (xs : List lib.Sample) (timestamp : ℕ) (buffer temp : Bytes) (h : length xs ≡ 1024)
      (b : length buffer ≡ 4096) (t : length temp ≡ 3840) where
    abbrev pub st : AudioState lib
    st = record { context = holding pending stale; decoder = d; opus = opus }

    abbrev rest : Bytes
    rest = drop (1920 - length pending) (pcm lib xs)

    abbrev head : Bytes
    head = take (1920 - length pending) (pcm lib xs)

    abbrev stale' : Bytes
    stale' = drop (length rest) (pending ++ stale)

    abbrev behind : Bytes
    behind = drop (length (pcm lib xs)) buffer

    split : head ++ rest ≡ pcm lib xs
    split = take-append-drop (1920 - length pending) (pcm lib xs)

    length-head : length pending < 1920 → length pending + length head ≡ 1920
    length-head l =
        omega (arith, length-take (1920 - length pending) (pcm lib xs), length-pcm xs, h)

    length-rest : length pending < 1920 → length rest ≡ length pending + 128
    length-rest l =
        omega (arith, length-drop (1920 - length pending) (pcm lib xs), length-pcm xs, h)

    first_packet :
        length pending < 1920
        → length pending + length stale ≡ 4096
        → encode_opus (holding pending stale) (pcm lib xs ++ behind) temp
          ≡ some (pending ++ head, holding rest stale')
    first_packet l s =
        ap (λ z. encode_opus (holding pending stale) z temp)
          (ap (λ z. z ++ behind) (sym split) ∙ append_assoc head rest behind)
        ∙ encode_opus_lem pending stale head rest behind temp (length-head l)
            (omega (arith, length-head l, length-rest l)) (omega (arith, length-rest l, s)) t

    encoded_frame :
        (later : Option Bytes × AudioContext)
        → length pending < 1920
        → length pending + length stale ≡ 4096
        → flush_encode_opus (holding rest stale') temp ≡ some later
        → encode_decoded lib decoder st xs timestamp buffer temp
          ≡ some (sent lib decoder opus timestamp (pending ++ head) later)
    encoded_frame later l s q = rw (h, converted xs buffer h b, first_packet l s, q) refl

    length-stale' :
        length pending < 1920
        → length pending + length stale ≡ 4096
        → length rest + length stale' ≡ 4096
    length-stale' l s = omega (
      arith,
      length-drop (length rest) (pending ++ stale),
      length-append pending stale,
      length-rest l,
      s,
    )

    one_packet :
        (k : ℕ)
        → length pending ≡ 128 * k
        → k < 14
        → length pending + length stale ≡ 4096
        → Cuts lib decoder opus pending
            (pcm lib xs)
            (encode_decoded lib decoder st xs timestamp buffer temp)
    one_packet k e l s = record {
      packets = (pending ++ head) ∷ [];
      waiting = rest;
      stale = stale';
      calls = record { out = lib.encode opus (pending ++ head); timestamp = timestamp } ∷ [];
      steps = suc k;
      returns =
          encoded_frame (none, holding rest stale') m s
            (flush_encode_opus-short rest stale' temp (omega (arith, length-rest m)));
      sizes = (omega (arith, length-append pending head, length-head m), tt);
      nothing_lost =
          rw (append-nil (pending ++ head), append_assoc pending head rest)
            (ap (λ z. pending ++ z) split);
      aligned = omega (arith, length-rest m, e);
      short = omega (arith, l);
      space = length-stale' m s;
      in_order = refl;
    }
      where
        m : length pending < 1920
        m = omega (arith, e, l)

    two_packets :
        Encodes lib
        → length pending ≡ 1792
        → length pending + length stale ≡ 4096
        → Cuts lib decoder opus pending
            (pcm lib xs)
            (encode_decoded lib decoder st xs timestamp buffer temp)
    two_packets enc e s = record {
      packets = (pending ++ head) ∷ rest ∷ [];
      waiting = [];
      stale = rest ++ stale';
      calls =
          record { out = lib.encode opus (pending ++ head); timestamp = timestamp }
          ∷ flushed lib timestamp (lib.encode opus' rest);
      steps = 0;
      returns =
          encoded_frame (some rest, holding [] (rest ++ stale')) m s
            (flush_encode_opus-full rest stale' temp r t);
      sizes = (omega (arith, length-append pending head, length-head m), (r, tt));
      nothing_lost =
          rw
            (
              append-nil rest,
              append-nil ((pending ++ head) ++ rest),
              append_assoc pending head rest,
            )
            (ap (λ z. pending ++ z) split);
      aligned = refl;
      short = omega arith;
      space = omega (arith, length-append rest stale', length-stale' m s);
      in_order =
          ap (λ z. lib.encode opus (pending ++ head) ∷ z) (flushed_one timestamp enc rest opus' r);
    }
      where
        opus' : lib.Opus
        opus' = lib.opus_next opus (pending ++ head)

        m : length pending < 1920
        m = omega (arith, e)

        r : length rest ≡ 1920
        r = omega (arith, length-rest m, e)

    pub frame-Cuts :
        (k : ℕ)
        → Encodes lib
        → length pending ≡ 128 * k
        → k < 15
        → length pending + length stale ≡ 4096
        → Cuts lib decoder opus pending
            (pcm lib xs)
            (encode_decoded lib decoder st xs timestamp buffer temp)
    frame-Cuts k enc e l s = elim (lt-or-eq k l) [
      | inl less ↦ one_packet k e less s
      | inr same ↦ two_packets enc (omega (arith, e, same)) s
    ]
