-- ===== src/Low/Laws.antt =====
-- What the low stream gets of a frame.
use server_side_custom_video.Prelude.{
  ℕ, ◌+◌, ◌%◌, ◌^◌, ◌≤◌, ◌≡◌, refl, ap, ◌∙◌, Bool, true, false, ◌||◌, List, [], ◌∷◌, some, Bytes,
  length, take, if◌then◌else◌, All,
}
use server_side_custom_video.Long.{Float}
use server_side_custom_video.Decoder.{decode}
use server_side_custom_video.Encoder.{
  AgoraEncoder, Outcome, returned, encode, adapt, scale_frame, scaled,
}
use server_side_custom_video.Encoder.Output.{joined, outputs, last_of, Drains, encode-last_output}
use server_side_custom_video.Low.{
  Codecs, LowStream, is_behind, sent_low, decode_low, decide, do_send_low_video,
}

module _ (Single : Float) (C : Codecs) where
  -- a frame that is chosen is sent, with what the encoder left
  chosen-sent :
      (c is_key : Bool) (o : Outcome C.encoding) (out : Bytes) (size : ℕ)
      (e : AgoraEncoder C.encoding) (units : Bytes) (s : LowStream Single C)
      → o ≡ returned true out size e
      → take size out ≡ units
      → (result : LowStream Single C) × ((if c then sent_low Single C is_key o s else some (s, []))
          ≡ some (result, if c then record { bytes = units; is_key_frame = is_key } ∷ [] else []))
        × (result.decoder ≡ s.decoder)
        × (result.low_video_frame_count
            ≡ (if c then (s.low_video_frame_count + 1) % 2 ^ 8 else s.low_video_frame_count))
  chosen-sent true is_key o out size e units s h t =
      let after : LowStream Single C = record s {
        encoder = e;
        low_video_frame_count = (s.low_video_frame_count + 1) % 2 ^ 8;
      } in
      (
        after,
        ap (λ z. sent_low Single C is_key z s) h
            ∙ ap (λ u. some (after, record { bytes = u; is_key_frame = is_key } ∷ [])) t,
        refl,
        refl,
      )
  chosen-sent false is_key o out size e units s h t = (s, refl, refl, refl)

  -- A packet, with an encoder that takes the frame it is decoded to: the low stream gets the frame
  -- exactly if it is a key frame or the low stream is behind the predicted rate, as the units that
  -- the encoder's last call gave; its count goes up, in eight bits, exactly then; and the decoder
  -- has had the packet in either case.
  pub do_send_low_video-sends :
      (memory packet : Bytes) (has_memory is_key : Bool) (predicted_fps : Single.Number) (dfps : ℕ)
      (s : LowStream Single C) (picture : C.encoding.Frame) (x264 first : C.encoding.X264)
      (nals : List Bytes)
      → let frame = C.same_frame (decode C.decoding packet s.decoder).1.out_frame in
        let later = outputs C.encoding (C.encoding.delayed_frames first) first in
        let is_sent = is_behind Single C predicted_fps dfps s || is_key in
        let units = joined (last_of C.encoding nals later) in
        Drains C.encoding
        → s.encoder.codec ≡ some x264
        → scale_frame C.encoding has_memory frame (adapt C.encoding frame s.encoder)
          ≡ scaled picture
        → C.encoding.x264_encode x264 is_key (some picture) ≡ (first, false, nals)
        → length (joined nals) ≤ length memory
        → All (λ u. length (joined u) ≤ length memory) later
        → (result : LowStream Single C) × (do_send_low_video Single C memory has_memory
              predicted_fps dfps packet is_key s
            ≡ some (
              result,
              if is_sent then record { bytes = units; is_key_frame = is_key } ∷ [] else [],
            ))
          × (result.decoder ≡ (decode C.decoding packet s.decoder).1)
          × (result.low_video_frame_count ≡ (
              if is_sent then (s.low_video_frame_count + 1) % 2 ^ 8 else s.low_video_frame_count))
  unfolding do_send_low_video
  do_send_low_video-sends memory packet has_memory is_key predicted dfps s picture x264 first nals
        drains c sc x fits all =
      let frame = C.same_frame (decode C.decoding packet s.decoder).1.out_frame in
      let (out, size, e, runs, _, units, _) =
        encode-last_output C.encoding has_memory is_key frame picture x264 first nals memory
          s.encoder drains c sc x fits all in
      chosen-sent (is_behind Single C predicted dfps s || is_key) is_key
        (encode C.encoding has_memory frame memory 0 is_key s.encoder) out size e
        (joined
          (last_of C.encoding nals (outputs C.encoding (C.encoding.delayed_frames first) first)))
        (decide Single C predicted dfps (decode_low Single C packet s)) runs units
