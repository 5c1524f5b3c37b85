-- ===== src/Audio/Send/Laws.antt =====
-- What `ngx_agora_send_audio` leaves in its buffer, and when it is decoded.
use server_side_custom_video.Prelude.{
  ℕ, ◌+◌, ◌-◌, ◌≤◌, ◌≡◌, inl, inr, refl, sym, ap, ap₂, ◌∙◌, [], ◌∷◌, ◌++◌, some, Bytes, arith, ltb,
  length, take, drop, min, length-append, length-take, length-drop, append_assoc,
  take-append_length, drop-append_ge, drop-drop, drop-append_le, take-append-drop, take-all, le→ltb,
  lt→ltb, Bool-cases,
}
use server_side_custom_video.Chain.{Chain, payload}
use server_side_custom_video.Nginx.{CodecCtx}
use server_side_custom_video.Audio.Adts.{AacConfig, parse_aac_header, adts_header}
use server_side_custom_video.Audio.Send.{
  AudioBuffer, waiting, overwrite, copy_buf, copy_payload, fill, allocate_buffer,
}

overwrite_lem :
    (front old bs : Bytes)
    → overwrite (front ++ old) (length front) bs ≡ front ++ (bs ++ drop (length bs) old)
overwrite_lem front old bs =
    rw
      (
        take-append_length front old,
        drop-append_ge (length front + length bs) front old (omega arith),
      )
      (ap (λ n. front ++ (bs ++ drop n old)) (omega arith))

-- one buffer that there is room for
copy_buf_lem :
    (bs front old : Bytes) (pos : ℕ)
    → length bs ≤ length old
    → copy_buf bs (record { memory = front ++ old; pos = pos; last = length front }) ≡ record {
      memory = (front ++ bs) ++ drop (length bs) old;
      pos = pos;
      last = length (front ++ bs);
    }
copy_buf_lem bs front old pos h =
    rw
      (
        room,
        take-all (length bs) bs (omega arith),
        overwrite_lem front old bs,
        length-append front bs,
        append_assoc front bs (drop (length bs) old),
      )
      refl
  where
    room : min (length bs) (length (front ++ old) - length front) ≡ length bs
    room = omega (arith, length-append front old)

-- with no room there is nothing to copy
nothing_more :
    (bs old : Bytes)
    → length bs ≤ length old
    → length old ≡ 0
    → (bs ++ drop (length bs) old ≡ old) × (length bs ≡ 0)
nothing_more [] old h e = (refl, refl)
nothing_more (x ∷ bs) old h e = absurd (omega arith)

-- A chain that there is room for is copied whole.
copy_payload_lem :
    (c : Chain) (front old : Bytes) (pos : ℕ)
    → length (payload c) ≤ length old
    → copy_payload c (record { memory = front ++ old; pos = pos; last = length front }) ≡ record {
      memory = front ++ (payload c ++ drop (length (payload c)) old);
      pos = pos;
      last = length front + length (payload c);
    }
unfolding copy_payload
copy_payload_lem [] front old pos h =
    ap (λ n. record { memory = front ++ old; pos = pos; last = n }) (omega arith)
copy_payload_lem (bs ∷ next) front old pos h = elim (Bool-cases (ltb 0 (length old))) [
  | inl more ↦
      rw
        (
          lt→ltb (length front) (length (front ++ old)) (ground (arith, length-append front old)),
          copy_buf_lem bs front old pos fits,
          copy_payload_lem next (front ++ bs) (drop (length bs) old) pos
              (omega (arith, h, length-append bs (payload next), length-drop (length bs) old)),
        )
        (ap₂ (λ z n. record { memory = z; pos = pos; last = n }) same_memory same_last)
  | inr none_left ↦
      let (same, zero_long) = nothing_more (bs ++ payload next) old h (ground arith) in
      rw
        (
          le→ltb (length front) (length (front ++ old)) (ground (arith, length-append front old)),
          same,
          zero_long,
        )
        (ap (λ n. record { memory = front ++ old; pos = pos; last = n }) (omega arith))
]
  where
    fits : length bs ≤ length old
    fits = omega (arith, h, length-append bs (payload next))

    same_memory :
        (front ++ bs) ++ (payload next ++ drop (length (payload next)) (drop (length bs) old))
        ≡ front ++ ((bs ++ payload next) ++ drop (length (bs ++ payload next)) old)
    same_memory =
        rw
          (
            drop-drop (length bs) (length (payload next)) old,
            length-append bs (payload next),
            append_assoc front bs (payload next ++ drop (length bs + length (payload next)) old),
            append_assoc bs (payload next) (drop (length bs + length (payload next)) old),
          )
          refl

    same_last :
        length (front ++ bs) + length (payload next) ≡ length front + length (bs ++ payload next)
    same_last = omega (arith, length-append front bs, length-append bs (payload next))

length-adts_header : (c : AacConfig) (size : ℕ) → length (adts_header c size) ≡ 7
unfolding adts_header
length-adts_header c size = refl

-- An empty buffer of MAX_AUDIO_BUFFER_SIZE bytes is filled with a frame: the payload's first two
-- bytes, the RTMP ones, and the five free bytes in front of it give way to the header.
module _ (codec : CodecCtx) (config : AacConfig) (mlen : ℕ) (c : Chain) (memory : Bytes)
    (good : parse_aac_header codec.aac_header ≡ some config) (sized : length (payload c) ≡ mlen)
    (some_bytes : 2 ≤ mlen) (fits : mlen + 5 ≤ 2048) (space : length memory ≡ 2048) where
  abbrev pub filled : AudioBuffer
  filled = fill codec (mlen - 2 + 7) c (allocate_buffer memory)

  abbrev pub frame : Bytes
  frame = adts_header config (mlen + 5) ++ drop 2 (payload c)

  abbrev pub behind : Bytes
  behind = drop (length (payload c)) (drop 5 memory)

  five : length (take 5 memory) ≡ 5
  five = omega (arith, length-take 5 memory, space)

  copied :
      copy_payload c (record { memory = memory; pos = 0; last = 5 })
      ≡ record { memory = take 5 memory ++ (payload c ++ behind); pos = 0; last = mlen + 5 }
  copied =
      ap₂ (λ z n. copy_payload c (record { memory = z; pos = 0; last = n }))
        (sym (take-append-drop 5 memory)) (sym five)
      ∙ copy_payload_lem c (take 5 memory) (drop 5 memory) 0
          (omega (arith, length-drop 5 memory, space, sized, fits))
      ∙ ap (λ n. record { memory = take 5 memory ++ (payload c ++ behind); pos = 0; last = n })
          (omega (arith, five, sized))

  headed :
      (h : Bytes)
      → length h ≡ 7
      → overwrite (take 5 memory ++ (payload c ++ behind)) 0 h ≡ (h ++ drop 2 (payload c)) ++ behind
  headed h e =
      overwrite_lem [] (take 5 memory ++ (payload c ++ behind)) h
      ∙ ap (λ z. h ++ z) (ap (λ n. drop n (take 5 memory ++ (payload c ++ behind))) e ∙ seven)
      ∙ sym (append_assoc h (drop 2 (payload c)) behind)
    where
      two : 7 - length (take 5 memory) ≡ 2
      two = omega (arith, five)

      seven : drop 7 (take 5 memory ++ (payload c ++ behind)) ≡ drop 2 (payload c) ++ behind
      seven =
          drop-append_ge 7 (take 5 memory) (payload c ++ behind) (omega (arith, five))
          ∙ ap (λ n. drop n (payload c ++ behind)) two
          ∙ drop-append_le 2 (payload c) behind (omega (arith, sized, some_bytes))

  pub fill_lem : filled ≡ record { memory = frame ++ behind; pos = 0; last = mlen + 5 }
  unfolding fill
  fill_lem =
      rw
        (
          le→ltb (length memory) 7 (omega (arith, space)),
          good,
          copied,
          size_of,
          headed (adts_header config (mlen + 5)) (length-adts_header config (mlen + 5)),
        )
        refl
    where
      size_of : mlen - 2 + 7 ≡ mlen + 5
      size_of = omega (arith, some_bytes)

  pub length-frame : length frame ≡ mlen + 5
  length-frame = omega (
    arith,
    length-append (adts_header config (mlen + 5)) (drop 2 (payload c)),
    length-adts_header config (mlen + 5),
    length-drop 2 (payload c),
    sized,
    some_bytes,
  )

  pub waiting_filled : waiting filled ≡ frame
  waiting_filled = rw fill_lem (
      ap (λ n. take n (frame ++ behind)) (omega (arith, length-frame))
      ∙ take-append_length frame behind)
