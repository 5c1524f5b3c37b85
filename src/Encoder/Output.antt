-- ===== src/Encoder/Output.antt =====
-- What `encode` leaves in its buffer.
use server_side_custom_video.Prelude.{
  ℕ, zero, suc, ◌+◌, ◌≤◌, ◌<◌, ◌≡◌, refl, ap, ◌∙◌, Bool, true, false, List, [], ◌∷◌, ◌++◌, none,
  some, Bytes, ◌==◌, if◌then◌else◌, length, drop, take, All, arith, length-append, length-drop,
  drop-drop, append_assoc, take-append_length, Bool-cases, inl, inr, ==→ne,
}
use server_side_custom_video.Audio.Memory.{write_at_lem}
use server_side_custom_video.Encoder.{
  Library, copy_units, handle_post_encoding, AgoraEncoder, returned, with_output, flush, encoded,
  encode_with, encode_scaled, encode, adapt, scale_frame, scaled,
}

-- the units one behind another
abbrev pub joined : List Bytes → Bytes
joined [] = []
joined (nal ∷ nals) = nal ++ joined nals

add_assoc : (a b c : ℕ) → a + b + c ≡ a + (b + c)
add_assoc a b c = omega arith

copy_units-joined :
    (nals : List Bytes) (front old : Bytes)
    → length (joined nals) ≤ length old
    → copy_units nals (front ++ old) (length front)
      ≡ some (
        front ++ (joined nals ++ drop (length (joined nals)) old),
        length front + length (joined nals),
      )
unfolding copy_units
copy_units-joined [] front old h = ap (λ n. some (front ++ old, n)) (omega arith)
copy_units-joined (nal ∷ nals) front old h =
    rw
      (
        write_at_lem front nal old (omega (arith, length-append nal (joined nals))),
        length-append nal (joined nals),
        append_assoc nal (joined nals) (drop (length nal + length (joined nals)) old),
      )
      (rw
        (
          length-append front nal,
          drop-drop (length nal) (length (joined nals)) old,
          append_assoc front nal (drop (length nal) old),
          append_assoc front nal (joined nals ++ drop (length nal + length (joined nals)) old),
          add_assoc (length front) (length nal) (length (joined nals)),
        )
        at
        (copy_units-joined nals (front ++ nal) (drop (length nal) old)
          (omega (arith, length-append nal (joined nals), length-drop (length nal) old))))

-- a buffer that begins with these units
record Holds (room : ℕ) (nals : List Bytes) (out : Bytes) (size : ℕ) : Type 0 where
  count : size ≡ length (joined nals)
  front : take size out ≡ joined nals
  whole : length out ≡ room

post_encoding :
    (room : ℕ) (nals : List Bytes) (out : Bytes) (offset : ℕ)
    → length out ≡ room
    → length (joined nals) ≤ room
    → (next : Bytes) × (size : ℕ) × (handle_post_encoding out nals offset ≡ some (next, size))
      × Holds room nals next size
post_encoding room nals out offset e h =
    let rest = drop (length (joined nals)) out in
    (
      joined nals ++ rest,
      length (joined nals),
      copy_units-joined nals [] out (omega arith)
          ∙ ap (λ n. some (joined nals ++ rest, n)) (omega arith),
      record {
        count = refl;
        front = take-append_length (joined nals) rest;
        whole =
            omega (arith, length-append (joined nals) rest, length-drop (length (joined nals)) out);
      },
    )

module _ (L : Library) where
  -- what the calls without a picture give, until no frame is delayed
  abbrev pub outputs : ℕ → L.X264 → List (List Bytes)
  outputs zero x264 = []
  outputs (suc n) x264 =
      let (next, failed, nals) = L.x264_encode x264 false none in
      let rest = nals ∷ outputs n next in if L.delayed_frames x264 == 0 then [] else rest

  -- the last of these, or the first call's
  abbrev pub last_of : List Bytes → List (List Bytes) → List Bytes
  last_of nals [] = nals
  last_of nals (next ∷ rest) = last_of next rest

  -- a call without a picture brings a delayed frame out
  abbrev pub Drains : Type 0
  Drains =
      (x264 : L.X264)
      → 0 < L.delayed_frames x264
      → L.delayed_frames (L.x264_encode x264 false none).0 < L.delayed_frames x264

  flush-Holds :
      (room n : ℕ) (x264 : L.X264) (out : Bytes) (size : ℕ) (nals : List Bytes) (e : AgoraEncoder L)
      → Drains
      → L.delayed_frames x264 ≤ n
      → Holds room nals out size
      → All (λ units. length (joined units) ≤ room) (outputs n x264)
      → (out' : Bytes) × (size' : ℕ) × (x264' : L.X264) × (flush L n x264 out size e
          ≡ returned true out' size' (record e { codec = some x264' }))
        × Holds room (last_of nals (outputs n x264)) out' size'
  unfolding flush
  flush-Holds room zero x264 out size nals e d h k a =
      let none_left : L.delayed_frames x264 ≡ 0 = omega arith in
      (out, size, x264, rw none_left refl, k)
  flush-Holds room (suc n) x264 out size nals e d h k a =
      elim (Bool-cases (L.delayed_frames x264 == 0)) [
        | inl over ↦ (out, size, x264, rw over refl, rw over k)
        | inr more ↦
            (let some_left : 0 < L.delayed_frames x264 =
                omega (arith, ==→ne (L.delayed_frames x264) 0 more) in
              let fits = rw more at a in
              let (next, failed, units) = L.x264_encode x264 false none in
              let (out1, size1, copied, holds) = post_encoding room units out size k.whole fits.0 in
              let (out2, size2, last, runs, result) =
                flush-Holds room n next out1 size1 units e d (omega (arith, d x264 some_left)) holds
                  fits.1 in
              (out2, size2, last, rw (more, copied) runs, rw more result))
      ]

  -- A frame whose picture is scaled, at the size the encoder has or at a new one, and encoded, with
  -- room for the units of each call of x264: `encode` returns true, and the buffer begins with the
  -- units that the last call gave, one behind another, as many bytes as `outSize` says. Where frames
  -- were delayed, the units of the calls before have been overwritten.
  pub encode-last_output :
      (has_memory key : Bool) (frame picture : L.Frame) (x264 first : L.X264) (nals : List Bytes)
      (out : Bytes) (e : AgoraEncoder L)
      → Drains
      → e.codec ≡ some x264
      → scale_frame L has_memory frame (adapt L frame e) ≡ scaled picture
      → L.x264_encode x264 key (some picture) ≡ (first, false, nals)
      → length (joined nals) ≤ length out
      → All (λ units. length (joined units) ≤ length out) (outputs (L.delayed_frames first) first)
      → let last = last_of nals (outputs (L.delayed_frames first) first) in
        (out' : Bytes) × (size : ℕ) × (e' : AgoraEncoder L) × (encode L has_memory frame out 0 key e
          ≡ returned true out' size e')
        × (size ≡ length (joined last))
        × (take size out' ≡ joined last)
        × (length out' ≡ length out)
  unfolding encode
  encode-last_output has_memory key frame picture x264 first nals out e d c s x fits all =
      let (out1, size1, copied, holds) = post_encoding (length out) nals out 0 refl fits in
      let (out2, size2, last, runs, result) =
        flush-Holds (length out) (L.delayed_frames first) first out1 size1 nals (adapt L frame e) d
          (omega arith) holds all in
      (
        out2,
        size2,
        record (adapt L frame e) { codec = some last },
        ap (λ o. encode_with L o has_memory frame out 0 key e) c
            ∙ ap (λ z. encode_scaled L z x264 out 0 key (adapt L frame e)) s
            ∙ ap (λ z. encoded L z out 0 (adapt L frame e)) x
            ∙ ap
                (λ z.
                  with_output L z
                    (λ o n. flush L (L.delayed_frames first) first o n (adapt L frame e)))
                copied
            ∙ runs,
        result.count,
        result.front,
        result.whole,
      )
