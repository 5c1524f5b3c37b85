-- ===== src/Low/Tests.antt =====
-- A key frame on the low stream.
use server_side_custom_video.Prelude.{
  ℕ, ◌-◌, ◌≡◌, refl, Bool, true, false, List, [], ◌∷◌, Option, some, none, Bytes, length, arith,
}
use server_side_custom_video.Jitter.Fixed.{fixed}
use server_side_custom_video.Decoder.{decode}
use server_side_custom_video.Encoder.{scale_frame}
use server_side_custom_video.Low.{Codecs, LowStream, do_send_low_video}
use server_side_custom_video.Low.Laws.{do_send_low_video-sends}

-- a packet is decoded to its length, and a picture is encoded as two units
abbrev coded : ℕ → Bool → Option ℕ → ℕ × Bool × List Bytes
coded held key (some picture) = (held, false, (1 ∷ []) ∷ (picture ∷ []) ∷ [])
coded held key none = (held - 1, false, [])

abbrev codecs : Codecs
codecs = record {
  encoding = record {
    Frame = ℕ;
    Scaler = ℕ;
    X264 = ℕ;
    width = λ f. 7;
    height = λ f. 7;
    get_context = λ a b c d. some c;
    sws_scale = λ s f n. some f;
    x264_encode = coded;
    delayed_frames = λ held. held;
  };
  decoding = record {
    Context = ℕ;
    Frame = ℕ;
    send_packet = λ n packet. (length packet, true);
    receive_frame = λ n frame. (0, true, n);
  };
  same_frame = λ f. f;
}

abbrev stream : LowStream fixed codecs
stream = record {
  decoder = record { context = 0; out_frame = 0 };
  encoder = record {
    codec = some 0;
    src_width = 7;
    src_height = 7;
    target_width = 4;
    target_height = 4;
    scale_context = some 3;
  };
  encode_next_frame = true;
  high_video_frame_count = 5;
  low_video_frame_count = 5;
}

abbrev memory : Bytes
memory = 0 ∷ 0 ∷ 0 ∷ []

do_send_low_video-sends_example :
    (result : LowStream fixed codecs) × (do_send_low_video fixed codecs memory true 30000 15
        (8 ∷ 9 ∷ [])
        true
        stream
      ≡ some (result, record { bytes = 1 ∷ 2 ∷ []; is_key_frame = true } ∷ []))
    × (result.decoder ≡ (decode codecs.decoding (8 ∷ 9 ∷ []) stream.decoder).1)
    × (result.low_video_frame_count ≡ 6)
unfolding decode scale_frame
do_send_low_video-sends_example =
    do_send_low_video-sends fixed codecs memory (8 ∷ 9 ∷ []) true true 30000 15 stream 2 0 0
      ((1 ∷ []) ∷ (2 ∷ []) ∷ []) (λ held h. omega arith) refl refl refl (omega arith) tt

-- Five frames of the low stream count for ten at half the rate: it is not behind, and a frame that
-- is no key frame is left out.
left_out :
    (do_send_low_video fixed codecs memory true 30000 15 (8 ∷ 9 ∷ []) false stream)
    ≡ some (
      record stream { decoder = record { context = 0; out_frame = 2 }; encode_next_frame = false },
      [],
    )
unfolding do_send_low_video decode
left_out = refl
