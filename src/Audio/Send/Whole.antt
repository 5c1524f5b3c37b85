-- ===== src/Audio/Send/Whole.antt =====
-- A whole call of `ngx_agora_send_audio` on an AAC frame: the frame before it is decoded, and the
-- frame itself waits.
use server_side_custom_video.Prelude.{
  ℕ, ◌+◌, ◌-◌, ◌≤◌, ◌≡◌, inl, inr, refl, sym, ap, ◌∙◌, true, false, List, [], ◌∷◌, ◌++◌, Option,
  none, some, Bytes, arith, ltb, if◌then◌else◌, length, drop, length-append, length-take,
  length-drop, le→ltb, lt→ltb, Bool-cases, ==_iff, ne→==, append-nil,
}
use server_side_custom_video.Chain.{Chain, payload, custom_copy}
use server_side_custom_video.Nginx.{Nginx, CodecCtx}
use server_side_custom_video.Audio.Memory.{◌>>=◌}
use server_side_custom_video.Audio.Decode.{Codecs, AudioCall, AudioState, decode_acc_audio}
use server_side_custom_video.Audio.Adts.{AacConfig, parse_aac_header, adts_header}
use server_side_custom_video.Audio.Send.{
  AudioBuffer, waiting, fill, flush_audio, flush_if, send_frame, send_audio, no_header, keep_buffer,
}
use server_side_custom_video.Audio.Send.Laws.{
  filled, frame, behind, fill_lem, length-frame, waiting_filled,
}

-- a buffer between two calls
abbrev pub at_rest : Bytes → ℕ → AudioBuffer
at_rest memory last = record { memory = memory; pos = 0; last = last }

-- a header that is parsed is there
parsed-has_header :
    (cl : Chain) (config : AacConfig) → parse_aac_header cl ≡ some config → no_header cl ≡ false
unfolding parse_aac_header custom_copy
parsed-has_header [] config e = cc
parsed-has_header (b ∷ next) config e = refl

module _ (lib : Codecs) (timestamp : ℕ) (buffer temp : Bytes) where
  -- what waits is decoded
  abbrev pub decode_waiting :
      AudioBuffer → AudioState lib → Option (List AudioCall × AudioState lib)
  decode_waiting b st =
      if ltb 0 (length (waiting b))
      then decode_acc_audio lib st (waiting b) timestamp buffer temp
      else some ([], st)

  -- what a call hands back, with its buffer as it is then
  abbrev pub hand_back :
      AudioBuffer
      → List AudioCall × AudioState lib
      → Option (List AudioCall × Option AudioBuffer × AudioState lib)
  hand_back b (calls, st) = some (calls, some b, st)

  module _ (ngx : Nginx) (codec : CodecCtx) (config : AacConfig) (mlen last : ℕ) (c : Chain)
      (fresh memory : Bytes) (st : AudioState lib) (aac : codec.audio_codec_id ≡ ngx.audio_aac)
      (data_frame : ngx.is_codec_header c ≡ false)
      (good : parse_aac_header codec.aac_header ≡ some config) (sized : length (payload c) ≡ mlen)
      (some_bytes : 2 ≤ mlen) (fits : mlen + 5 ≤ 2048) (space : length memory ≡ 2048)
      (within : last ≤ 2048) where
    abbrev filled' : AudioBuffer
    filled' = filled codec config mlen c memory good sized some_bytes fits space

    flushed :
        flush_if lib timestamp buffer temp (ltb 0 last) (at_rest memory last) st
        ≡ (decode_waiting (at_rest memory last) st >>= λ r. some (r.0, at_rest memory 0, r.1))
    unfolding flush_audio
    flushed = elim (Bool-cases (ltb 0 last)) [
      | inl more ↦
          rw
            (
              more,
              ne→== 0 last (λ e. ground arith),
              lt→ltb 0 (length (waiting (at_rest memory last))) (ground (arith, waits)),
            )
            refl
      | inr none_left ↦
          rw (none_left, le→ltb 0 (length (waiting (at_rest memory last))) (ground (arith, waits)))
            (ap (λ n. some ([], at_rest memory n, st)) (ground arith))
    ]
      where
        waits : length (waiting (at_rest memory last)) ≡ last
        waits = omega (arith, length-take (last - 0) memory, space, within)

    -- the second `if` and what follows it
    abbrev second :
        List AudioCall × AudioBuffer × AudioState lib
        → Option (List AudioCall × AudioBuffer × AudioState lib)
    second x =
        flush_if lib timestamp buffer temp (ltb (length x.1.memory) (x.1.last + (mlen - 2 + 7))) x.1
          x.2
        >>= λ y. some (x.0 ++ y.0, fill codec (mlen - 2 + 7) c y.1, y.2)

    -- The buffer is empty after the first `if`, so nothing is flushed by the second.
    no_second :
        (m : Option (List AudioCall × AudioState lib))
        → ((m >>= λ r. some (r.0, at_rest memory 0, r.1)) >>= second)
          ≡ (m >>= λ r. some (r.0, filled', r.1))
    no_second none = refl
    no_second (some (calls, later)) =
        rw
          (
            le→ltb (length memory) (0 + (mlen - 2 + 7)) (omega (arith, space, fits)),
            append-nil calls,
          )
          refl

    sent :
        send_frame lib timestamp buffer temp codec mlen c (at_rest memory last) st
        ≡ (decode_waiting (at_rest memory last) st >>= λ r. some (r.0, filled', r.1))
    unfolding send_frame
    sent =
        rw (le→ltb (length memory) (mlen - 2 + 7) (omega (arith, space, fits)), flushed)
          (no_second (decode_waiting (at_rest memory last) st))

    has_header : no_header codec.aac_header ≡ false
    has_header = parsed-has_header codec.aac_header config good

    kept :
        (m : Option (List AudioCall × AudioState lib)) (b b' : AudioBuffer)
        → b ≡ b'
        → ((m >>= λ r. some (r.0, b, r.1)) >>= λ r. some (keep_buffer lib timestamp buffer temp r))
          ≡ (m >>= hand_back b')
    kept none b b' e = refl
    kept (some (calls, later)) b b' e = ap (λ z. some (calls, some z, later)) e

    abbrev later_memory : Bytes
    later_memory =
        frame codec config mlen c memory good sized some_bytes fits space
        ++ behind codec config mlen c memory good sized some_bytes fits space

    length-later_memory : length later_memory ≡ 2048
    length-later_memory = omega (
      arith,
      length-append (frame codec config mlen c memory good sized some_bytes fits space)
          (behind codec config mlen c memory good sized some_bytes fits space),
      length-frame codec config mlen c memory good sized some_bytes fits space,
      length-drop (length (payload c)) (drop 5 memory),
      length-drop 5 memory,
      space,
      sized,
      fits,
    )

    -- A call with an AAC frame, in any cut into buffers, whose size with the header fits the buffer:
    -- what has waited in the buffer is decoded, if anything has, and nothing else is. What waits then
    -- is the frame: the ADTS header for the stream's configuration and the frame's size, and the
    -- message without its first two bytes. The buffer is as large as before.
    pub send_audio_lem :
        (memory' : Bytes) × (length memory' ≡ 2048)
        × (waiting (at_rest memory' (mlen + 5))
            ≡ adts_header config (mlen + 5) ++ drop 2 (payload c))
        × (send_audio lib timestamp buffer temp ngx true
              (some codec)
              mlen
              c
              fresh
              (some (at_rest memory last))
              st
            ≡ (decode_waiting (at_rest memory last) st >>= hand_back (at_rest memory' (mlen + 5))))
    unfolding send_audio
    send_audio_lem =
        let filled_as = fill_lem codec config mlen c memory good sized some_bytes fits space in
        let waits = waiting_filled codec config mlen c memory good sized some_bytes fits space in
        (
          later_memory,
          length-later_memory,
          ap waiting (sym filled_as) ∙ waits,
          rw
              (
                le→ltb mlen 2 some_bytes,
                (==_iff codec.audio_codec_id ngx.audio_aac).1 aac,
                has_header,
                data_frame,
                sent,
              )
              (kept (decode_waiting (at_rest memory last) st) filled'
                (at_rest later_memory (mlen + 5)) filled_as),
        )
