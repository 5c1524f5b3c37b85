-- ===== src/Audio/Sample.antt =====
-- A decoder and an encoder that are easy to follow, and frames for them.
use server_side_custom_video.Prelude.{
  ℕ, zero, suc, ◌≡◌, refl, ap, false, List, [], ◌∷◌, some, Bytes, arith, length,
}
use server_side_custom_video.Audio.Decode.{encoded, Codecs}
use server_side_custom_video.Audio.Stream.{Encodes, Decodes, none_left, next}

abbrev pub repeated : ℕ → ℕ → List ℕ
repeated zero x = []
repeated (suc n) x = x ∷ repeated n x

pub length-repeated : (n x : ℕ) → length (repeated n x) ≡ n
length-repeated zero x = refl
length-repeated (suc n) x = ap suc (length-repeated n x)

-- Every frame is 1024 samples of the number of the frame, and a packet is encoded as its size.
abbrev pub counting : Codecs
counting = record {
  Decoder = ℕ;
  Sample = ℕ;
  decode = λ d frame. some (repeated 1024 d);
  decoder_next = λ d frame. suc d;
  Opus = ℕ;
  encode = λ n p. encoded (length p ∷ []);
  opus_next = λ n p. suc n;
  ge_one = λ x. false;
  le_minus_one = λ x. false;
  scaled = λ x. x;
}

pub counting-Encodes : Encodes counting
counting-Encodes n p h = (length p ∷ [], refl, omega arith)

abbrev pub two_frames : List (Bytes × ℕ)
two_frames = (0xde ∷ [], 0) ∷ (0xad ∷ [], 21) ∷ []

pub two_frames-Decodes : Decodes counting 7 two_frames (repeated 1024 7 ∷ repeated 1024 8 ∷ [])
two_frames-Decodes =
    next 7 (0xde ∷ []) 0 ((0xad ∷ [], 21) ∷ []) (repeated 1024 7) (repeated 1024 8 ∷ []) refl
      (length-repeated 1024 7)
      (next 8 (0xad ∷ []) 21 [] (repeated 1024 8) [] refl (length-repeated 1024 8) (none_left 9))
