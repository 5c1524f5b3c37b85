-- ===== src/Video/Convert/Bounds.antt =====
-- One round of the conversion: it stays within the buffer and uses up bytes of the message.
use server_side_custom_video.Prelude.{
  ℕ, ◌+◌, ◌-◌, ◌%◌, ◌^◌, ◌≤◌, ◌≡◌, refl, subst, if◌then◌else◌, Bool, true, false, [], ◌∷◌, ◌++◌,
  ◌&&◌, Option, none, some, Bytes, arith, length, leb, ltb, ◌==◌, ltb→le, Bool-cases, Option-cases,
  inl, inr,
}
use server_side_custom_video.Chain.{Chain, payload, custom_copy}
use server_side_custom_video.Chain.Copy.{length-custom_copy}
use server_side_custom_video.Nginx.{Nginx, CodecCtx}
use server_side_custom_video.Words.{load}
use server_side_custom_video.Video.Out.{
  OutBuf, room, put, IsWithin, put-IsWithin, append_aud, append_aud-IsWithin,
}
use server_side_custom_video.Video.ParamSets.{byte}
use server_side_custom_video.Video.ParamSets.Laws.{append_sps_pps-IsWithin}
use server_side_custom_video.Video.Convert.{
  Flow, go, leave, Status, ok, error, Conv, ◌>>=◌, or_leave, add_aud, add_sps_pps, start_code,
  copy_body, prefixed, write_nal, nal_unit, place_nal, step,
}

-- what a round that goes on has done: `used` bytes of the message are gone
pub record Advances (n used : ℕ) (s s' : Conv) : Type 0 where
  pub within : IsWithin n s.out → IsWithin n s'.out
  pub consumed : used + length (payload s'.src) ≤ length (payload s.src)

add_aud-Advances : (n nal_type : ℕ) (s : Conv) → Advances n 0 s (add_aud nal_type s)
unfolding add_aud
add_aud-Advances n nal_type s = elim (Option-cases (append_aud s.out)) [
  | inl e ↦ ground (arith, e)
  | inr (o, e) ↦ ground (arith, e, append_aud-IsWithin n s.out o)
]

-- a `Flow` block that goes on has copied its bytes
>>=-eq-go :
    {A B : Type 0} (o : Option A) (r : Status) (f : A → Flow B) {b : B}
    → (or_leave o r >>= f) ≡ go b
    → (a : A) × (o ≡ some a) × (f a ≡ go b)
>>=-eq-go none r f e = cc
>>=-eq-go (some a) r f e = (a, refl, e)

if-eq-go :
    {A : Type 0} (b : Bool) (r : Status) (m : Flow A) {x : A}
    → (if b then leave r else m) ≡ go x
    → (b ≡ false) × (m ≡ go x)
if-eq-go true r m e = cc
if-eq-go false r m e = (refl, e)

go-injective : {A : Type 0} {x y : A} → go x ≡ go y → x ≡ y
go-injective e = cc

length-start_code : (w : Bytes) (header : ℕ) → length (start_code w ++ header ∷ []) ≤ 5
length-start_code [] header = omega arith
length-start_code (x ∷ w) header = omega arith

prefixed-IsWithin :
    (n header : ℕ) (o : OutBuf) → 5 ≤ room o → IsWithin n o → IsWithin n (prefixed o header)
prefixed-IsWithin n header o h w =
    put-IsWithin n o (start_code o.written ++ header ∷ []) w
      (omega (arith, length-start_code o.written header))

-- the unit's body is stored only where it fits, with one byte to spare
copy_body-Advances : (n len : ℕ) (s s' : Conv) → copy_body len s ≡ go s' → Advances n 0 s s'
unfolding copy_body
copy_body-Advances n len s s' e =
    let (fits, e') = if-eq-go (ltb (room s.out) len) ok _ e in
    let ((bs, src), c, q) = >>=-eq-go (custom_copy (len - 1) s.src) error _ e' in
    copied bs src fits c (go-injective q)
  where
    copied :
        (bs : Bytes) (src : Chain)
        → ltb (room s.out) len ≡ false
        → custom_copy (len - 1) s.src ≡ some (bs, src)
        → record s { src = src; out = put s.out bs } ≡ s'
        → Advances n 0 s s'
    copied bs src fits c q =
        let (k, l) = length-custom_copy (len - 1) s.src bs src c in
        subst (Advances n 0 s) q (record {
          within = λ w. put-IsWithin n s.out bs w (omega (arith, ltb→le (room s.out) len fits, k));
          consumed = omega (arith, l);
        })

write_nal-Advances :
    (n len header : ℕ) (s s' : Conv) → write_nal len header s ≡ go s' → Advances n 0 s s'
unfolding write_nal
write_nal-Advances n len header s s' e =
    let (fits, e') = if-eq-go (ltb (room s.out) 5) ok _ e in
    let r = copy_body-Advances n len (record s { out = prefixed s.out header }) s' e' in
    record {
      within = λ w. r.within (prefixed-IsWithin n header s.out (ltb→le (room s.out) 5 fits) w);
      consumed = r.consumed;
    }

Advances-trans :
    {n j k : ℕ} {s t u : Conv} → Advances n j s t → Advances n k t u → Advances n (j + k) s u
Advances-trans a b = record {
  within = λ w. b.within (a.within w);
  consumed = omega (arith, a.consumed, b.consumed);
}

-- a copy that moves the position and stores nothing
copy-Advances :
    (n k : ℕ) (s : Conv) (bs : Bytes) (src : Chain)
    → custom_copy k s.src ≡ some (bs, src)
    → Advances n k s (record s { src = src })
copy-Advances n k s bs src e = record {
  within = λ w. w;
  consumed = omega (arith, (length-custom_copy k s.src bs src e).1);
}

module _ (ngx : Nginx) (codec : Option CodecCtx) where
  add_sps_pps-Advances :
      (n nal_type : ℕ) (s : Conv) → Advances n 0 s (add_sps_pps ngx codec nal_type s)
  unfolding add_sps_pps
  add_sps_pps-Advances n nal_type s = ground (arith, append_sps_pps-IsWithin ngx n codec s.out)

  place_nal-Advances :
      (n len header : ℕ) (s s' : Conv)
      → place_nal ngx codec len header s ≡ go s'
      → Advances n 0 s s'
  unfolding place_nal
  place_nal-Advances n len header s s' e =
      elim (Bool-cases (leb 7 (header % 2 ^ 5) && leb (header % 2 ^ 5) 9)) [
        | inl skipped ↦
            let ((bs, src), c, q) =
              >>=-eq-go (custom_copy (len - 1) s.src) error _ (rw skipped at e) in
            let a = copy-Advances n (len - 1) s bs src c in
            subst (Advances n 0 s) (go-injective q)
              (record { within = a.within; consumed = omega (arith, a.consumed) })
        | inr kept ↦ Advances-trans (add_aud-Advances n (header % 2 ^ 5) s) (
            Advances-trans (add_sps_pps-Advances n (header % 2 ^ 5) _)
              (write_nal-Advances n len header _ s' (rw kept at e)))
      ]

  nal_unit-Advances :
      (n len : ℕ) (s s' : Conv) → nal_unit ngx codec len s ≡ go s' → Advances n 0 s s'
  unfolding nal_unit
  nal_unit-Advances n len s s' e =
      let ((hd, src), c, e') = >>=-eq-go (custom_copy 1 s.src) ok _ e in
      let a = copy-Advances n 1 s hd src c in
      let b = place_nal-Advances n len (byte hd) (record s { src = src }) s' e' in
      record {
        within = λ w. b.within (a.within w);
        consumed = omega (arith, a.consumed, b.consumed);
      }

  -- A round that goes on has used up the bytes of the unit's length at least.
  pub step-Advances :
      (n nal_bytes : ℕ) (s s' : Conv)
      → step ngx codec nal_bytes s ≡ go s'
      → Advances n nal_bytes s s'
  unfolding step
  step-Advances n nal_bytes s s' e =
      let ((rlen, src), c, e') = >>=-eq-go (custom_copy nal_bytes s.src) ok _ e in
      let a = copy-Advances n nal_bytes s rlen src c in
      elim (Bool-cases (load (ngx.rmemcpy rlen) == 0)) [
        | inl blank ↦ subst (Advances n nal_bytes s) (go-injective (rw blank at e')) a
        | inr unit ↦
            let b =
              nal_unit-Advances n (load (ngx.rmemcpy rlen)) (record s { src = src }) s'
                (rw unit at e') in
            record {
              within = λ w. b.within (a.within w);
              consumed = omega (arith, a.consumed, b.consumed);
            }
      ]
