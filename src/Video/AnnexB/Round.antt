-- ===== src/Video/AnnexB/Round.antt =====
-- One round of the loop prints the pieces of one unit.
use native.Mathlib.Nat.{one-le-pow}
use server_side_custom_video.Prelude.{
  ℕ, ◌+◌, ◌-◌, ◌^◌, ◌≤◌, ◌<◌, ◌≡◌, refl, ap, ◌∙◌, true, false, ◌||◌, [], ◌∷◌, ◌++◌, Option, Bytes,
  arith, length, ltb, ◌==◌, if◌then◌else◌, Bool-cases, inl, inr,
}
use server_side_custom_video.Chain.{Chain, payload, custom_copy}
use server_side_custom_video.Chain.Copy.{IsSettled, settled_empty, Reads, custom_copy-Reads}
use server_side_custom_video.Nginx.{Nginx, CodecCtx, Reverses}
use server_side_custom_video.Words.{load, big_endian, length-big_endian, load-reverse-big_endian}
use server_side_custom_video.Video.Out.{room}
use server_side_custom_video.Video.Convert.{
  Status, go, leave, ok, error, Conv, add_aud, add_sps_pps, copy_body, prefixed, write_nal,
  place_nal, nal_unit, step,
}
use server_side_custom_video.Video.AnnexB.Pieces.{length-prints}
use server_side_custom_video.Video.AnnexB.{
  nal_type, is_dropped, opens_unit, coded, delimit, refresh, still_fresh, print, prints,
}
use server_side_custom_video.Video.AnnexB.Unit.{
  holding, Appends, Went, add_aud_lem, add_sps_pps_lem, write_nal_lem,
}

module _ (ngx : Nginx) (reverses : Reverses ngx) (codec : Option CodecCtx) where
  -- the length of a unit, read
  step_length :
      (k n : ℕ) (rest : Bytes) (s : Conv)
      → payload s.src ≡ big_endian k n ++ rest
      → 0 < k
      → n < 256 ^ k
      → (src : Chain) × (step ngx codec k s ≡ (
          if n == 0
          then go (record s { src = src })
          else nal_unit ngx codec n (record s { src = src })))
        × (payload src ≡ rest)
        × IsSettled src
  unfolding step
  step_length k n rest s e h f = (r.next, rw (r.result, value) refl, r.behind, r.settled)
    where
      r : Reads (big_endian k n) rest k s.src
      r = custom_copy-Reads (big_endian k n) rest k s.src e (length-big_endian k n) h

      value : load (ngx.rmemcpy (big_endian k n)) ≡ n
      value = ap load (reverses (big_endian k n)) ∙ load-reverse-big_endian k n f

  -- the header of a unit, read
  nal_unit_lem :
      (len header : ℕ) (rest : Bytes) (s : Conv)
      → payload s.src ≡ header ∷ rest
      → (src : Chain) × (nal_unit ngx codec len s
          ≡ place_nal ngx codec len header (record s { src = src }))
        × (payload src ≡ rest)
        × IsSettled src
  unfolding nal_unit
  nal_unit_lem len header rest s e =
      let r = custom_copy-Reads (header ∷ []) rest 1 s.src e (omega arith) (omega arith) in
      (r.next, rw r.result refl, r.behind, r.settled)

  -- Nothing is printed for a unit of length 0.
  pub step_blank :
      (k : ℕ) (rest : Bytes) (s : Conv)
      → payload s.src ≡ big_endian k 0 ++ rest
      → 0 < k
      → Went (step ngx codec k s) rest s.aud_sent s.sps_pps_sent s.out
  step_blank k rest s e h =
      let (src, q, b, d) = step_length k 0 rest s e h (one-le-pow k 256 (omega arith)) in
      record { src = src; result = q; behind = b; settled = d }

  -- nor for a parameter set or a delimiter
  pub place_dropped :
      (header : ℕ) (body rest : Bytes) (s : Conv)
      → is_dropped (nal_type header) ≡ true
      → payload s.src ≡ body ++ rest
      → 0 < length body
      → Went (place_nal ngx codec (length body + 1) header s) rest s.aud_sent s.sps_pps_sent s.out
  unfolding place_nal
  place_dropped header body rest s d e h =
      let r =
        custom_copy-Reads body rest (length body + 1 - 1) s.src e (omega arith) (omega arith) in
      record {
        src = r.next;
        result = rw d (rw r.result refl);
        behind = r.behind;
        settled = r.settled;
      }

  -- Any other unit is printed behind what it calls for.
  pub place_kept :
      (sets : Bytes) (header : ℕ) (body rest : Bytes) (s : Conv)
      → Appends ngx codec sets
      → is_dropped (nal_type header) ≡ false
      → payload s.src ≡ body ++ rest
      → 0 < length body
      → (let w =
            prints sets
              (prints sets s.out.written (delimit s.aud_sent (nal_type header)))
              (refresh s.sps_pps_sent (nal_type header)) in
          length (print sets w (coded header body)) + 1 ≤ s.out.size
          → Went
              (place_nal ngx codec (length body + 1) header s)
              rest
              (s.aud_sent || opens_unit (nal_type header))
              (still_fresh s.sps_pps_sent (nal_type header))
              (holding s.out (print sets w (coded header body))))
  unfolding place_nal
  place_kept sets header body rest s a d e h f = rw d (
      rw (add_aud_lem sets t s d (omega (arith, grow₁, grow₂, f))) (
        rw (add_sps_pps_lem ngx codec sets t s₁ a (omega (arith, grow₂, f)))
          (write_nal_lem sets header body rest s₂ e h f)))
    where
      t : ℕ
      t = nal_type header

      w₁ : Bytes
      w₁ = prints sets s.out.written (delimit s.aud_sent t)

      w₂ : Bytes
      w₂ = prints sets w₁ (refresh s.sps_pps_sent t)

      s₁ : Conv
      s₁ = record s { out = holding s.out w₁; aud_sent = s.aud_sent || opens_unit t }

      s₂ : Conv
      s₂ = record s₁ { out = holding s.out w₂; sps_pps_sent = still_fresh s.sps_pps_sent t }

      grow₁ : length w₁ ≤ length w₂
      grow₁ = length-prints sets w₁ (refresh s.sps_pps_sent t)

      grow₂ : length w₂ ≤ length (print sets w₂ (coded header body))
      grow₂ = length-prints sets w₂ (coded header body ∷ [])

  unit_fits : (body : Bytes) → ((length body + 1) == 0) ≡ false
  unit_fits body = ground arith

  -- the length and the header of a unit, read
  pub step_unit :
      (k header : ℕ) (body rest : Bytes) (s : Conv)
      → payload s.src ≡ big_endian k (length body + 1) ++ header ∷ (body ++ rest)
      → 0 < k
      → length body + 1 < 256 ^ k
      → (src : Chain) × (step ngx codec k s
          ≡ place_nal ngx codec (length body + 1) header (record s { src = src }))
        × (payload src ≡ body ++ rest)
  step_unit k header body rest s e h f =
      let (src, q, b, _) = step_length k (length body + 1) (header ∷ (body ++ rest)) s e h f in
      let (src', q', b', _) =
        nal_unit_lem (length body + 1) header (body ++ rest) (record s { src = src }) b in
      (src', rw (unit_fits body) at q ∙ q', b')

  src-add_aud : (t : ℕ) (s : Conv) → (add_aud t s).src ≡ s.src
  unfolding add_aud
  src-add_aud t s = ground arith

  src-add_sps_pps : (t : ℕ) (s : Conv) → (add_sps_pps ngx codec t s).src ≡ s.src
  unfolding add_sps_pps
  src-add_sps_pps t s = ground arith

  write_lost :
      (header : ℕ) (s : Conv) → s.src ≡ [] → (r : Status) × (write_nal 1 header s ≡ leave r)
  unfolding write_nal copy_body custom_copy
  write_lost header s e = elim (Bool-cases (ltb (room s.out) 5)) [
    | inl full ↦ (ok, rw full refl)
    | inr fits ↦ elim (Bool-cases (ltb (room (prefixed s.out header)) 1)) [
      | inl full ↦ (ok, rw (fits, full) refl)
      | inr fits' ↦ (error, rw (fits, fits', e) refl)
    ]
  ]

  place_lost :
      (header : ℕ) (s : Conv)
      → s.src ≡ []
      → (r : Status) × (place_nal ngx codec 1 header s ≡ leave r)
  unfolding place_nal custom_copy
  place_lost header s e = elim (Bool-cases (is_dropped (nal_type header))) [
    | inl dropped ↦ (error, rw (dropped, e) refl)
    | inr kept ↦ rw kept (
        write_lost header (add_sps_pps ngx codec (nal_type header) (add_aud (nal_type header) s)) (
          src-add_sps_pps (nal_type header) (add_aud (nal_type header) s)
          ∙ src-add_aud (nal_type header) s
          ∙ e))
  ]

  -- Nothing is left to read behind a unit of one byte at the end of a message, and the copy of its
  -- empty body fails.
  pub step_lost :
      (k header : ℕ) (s : Conv)
      → payload s.src ≡ big_endian k 1 ++ header ∷ []
      → 0 < k
      → 1 < 256 ^ k
      → (r : Status) × (step ngx codec k s ≡ leave r)
  step_lost k header s e h f =
      let (src, q, b, _) = step_length k 1 (header ∷ []) s e h f in
      let (src', q', b', d) = nal_unit_lem 1 header [] (record s { src = src }) b in
      let (r, q₂) = place_lost header (record s { src = src' }) (settled_empty src' d b') in
      (r, q ∙ q' ∙ q₂)
