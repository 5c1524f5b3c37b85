-- ===== src/Audio/Stream.antt =====
-- A stream of frames through `decode_acc_audio`, and what is to come of it.
pub mod Frame
pub mod Whole
use server_side_custom_video.Prelude.{
  ℕ, ◌+◌, ◌*◌, ◌<◌, ◌≡◌, List, [], ◌∷◌, ◌++◌, Option, none, some, Bytes, length, map, All,
}
use server_side_custom_video.Words.{little_endian}
use server_side_custom_video.Audio.Memory.{◌>>=◌}
use server_side_custom_video.Audio.Packet.Cut.{holding}
use server_side_custom_video.Audio.Decode.{
  Encoded, encoded, Codecs, AudioCall, AudioState, convert_sample, decode_acc_audio,
}

abbrev pub concat : List Bytes → Bytes
concat [] = []
concat (p ∷ ps) = p ++ concat ps

module _ (lib : Codecs) where
  -- the samples of a frame as bytes
  abbrev pub pcm : List lib.Sample → Bytes
  pcm [] = []
  pcm (x ∷ xs) = little_endian 2 (convert_sample lib x) ++ pcm xs

  -- the Opus encoder behind some packets, and what it has returned for them
  abbrev pub feed : lib.Opus → List Bytes → lib.Opus
  feed opus [] = opus
  feed opus (p ∷ ps) = feed (lib.opus_next opus p) ps

  abbrev pub encode_all : lib.Opus → List Bytes → List Encoded
  encode_all opus [] = []
  encode_all opus (p ∷ ps) = lib.encode opus p ∷ encode_all (lib.opus_next opus p) ps

  -- The documented behaviour of `opus_encode`, as far as it is relied on: a frame of 960 samples is
  -- encoded, in at least one byte.
  abbrev pub Encodes : Type 0
  Encodes =
      (opus : lib.Opus) (p : Bytes)
      → length p ≡ 1920
      → (bs : Bytes) × (lib.encode opus p ≡ encoded bs) × (0 < length bs)

  -- A decoder that gets 1024 samples out of every one of some frames, each with its timestamp.
  pub data Decodes : lib.Decoder → List (Bytes × ℕ) → List (List lib.Sample) → Type 0 where
    none_left : (d : lib.Decoder) → Decodes d [] []
    next :
        (d : lib.Decoder) (frame : Bytes) (timestamp : ℕ) (frames : List (Bytes × ℕ))
        (xs : List lib.Sample) (xss : List (List lib.Sample))
        → lib.decode d frame ≡ some xs
        → length xs ≡ 1024
        → Decodes (lib.decoder_next d frame) frames xss
        → Decodes d ((frame, timestamp) ∷ frames) (xs ∷ xss)

  -- the decoder behind some frames
  abbrev pub decoded : lib.Decoder → List (Bytes × ℕ) → lib.Decoder
  decoded d [] = d
  decoded d (f ∷ frames) = decoded (lib.decoder_next d f.0) frames

  abbrev pub with_more :
      List AudioCall → List AudioCall × AudioState lib → Option (List AudioCall × AudioState lib)
  with_more calls (later, st) = some (calls ++ later, st)

  -- one call of `decode_acc_audio` after another
  unfoldable pub run :
      Bytes → Bytes → AudioState lib → List (Bytes × ℕ) → Option (List AudioCall × AudioState lib)
  run buffer temp st [] = some ([], st)
  run buffer temp st (f ∷ frames) = do
    r ← decode_acc_audio lib st f.0 f.1 buffer temp
    rest ← run buffer temp r.1 frames
    with_more r.0 rest

  -- Samples behind `pending` ones have been cut into packets of 960: no access is past an array, no
  -- byte is lost, doubled or out of order, less than a packet waits, and what is sent is what the
  -- encoder has made of the packets.
  pub record Cuts (d : lib.Decoder) (opus : lib.Opus) (pending samples : Bytes)
      (r : Option (List AudioCall × AudioState lib)) : Type 0 where
    pub packets : List Bytes
    pub waiting : Bytes
    pub stale : Bytes
    pub calls : List AudioCall
    pub steps : ℕ
    pub returns :
        r
        ≡ some (
          calls,
          record { context = holding waiting stale; decoder = d; opus = feed opus packets },
        )
    pub sizes : All (λ p. length p ≡ 1920) packets
    pub nothing_lost : concat packets ++ waiting ≡ pending ++ samples
    pub aligned : length waiting ≡ 128 * steps
    pub short : steps < 15
    pub space : length waiting + length stale ≡ 4096
    pub in_order : map (λ c. c.out) calls ≡ encode_all opus packets
