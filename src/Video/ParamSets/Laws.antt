-- ===== src/Video/ParamSets/Laws.antt =====
-- What `append_sps_pps` does to the buffer on every path, and what it appends when the
-- configuration is well formed.
use server_side_custom_video.Prelude.{
  ℕ, zero, suc, ◌≤◌, ◌≡◌, refl, ap, true, false, Option, none, some, Bytes, arith, length, ltb,
  Bool-cases, Option-cases, inl, inr, ltb→le, [], ◌∷◌,
}
use server_side_custom_video.Chain.{Chain, custom_copy}
use server_side_custom_video.Chain.Copy.{custom_copy-Splits}
use server_side_custom_video.Nginx.{Nginx, CodecCtx}
use server_side_custom_video.Video.Out.{OutBuf, IsWithin, put-IsWithin, room}
use server_side_custom_video.Video.ParamSets.{
  Copying, Step, ◌>>=◌, fetch, need_room, store, long_prefix, copy_set, copy_nal, copy_nals,
  copy_param_sets, done, resume, finish, append_header, append_sps_pps,
}

-- A step that keeps the buffer within `n` bytes, whether it succeeds or not.
record Keeps {A : Type 0} (n : ℕ) (m : Step A) : Type 0 where
  within : (s : Copying) → IsWithin n s.out → IsWithin n (m s).1.out

-- how a step goes on after one that succeeds, and stops after one that fails
pub bind_some :
    {A B : Type 0} (m : Step A) (f : A → Step B) (s : Copying) {a : A} {s' : Copying}
    → m s ≡ (some a, s')
    → (m >>= f) s ≡ f a s'
unfolding ◌>>=◌
bind_some m f s e = ap (resume f) e

pub bind_none :
    {A B : Type 0} (m : Step A) (f : A → Step B) (s : Copying) {s' : Copying}
    → m s ≡ (none, s')
    → (m >>= f) s ≡ (none, s')
unfolding ◌>>=◌
bind_none m f s e = ap (resume f) e

bind-Keeps :
    {A B : Type 0} {n : ℕ} (m : Step A) {f : A → Step B}
    → Keeps n m
    → ((a : A) → Keeps n (f a))
    → Keeps n (m >>= f)
bind-Keeps {n} m {f} hm hf = record {
  within = λ s w. elim (Option-cases (m s).0) [
    | inl e ↦ rw (bind_none m f s {s' = (m s).1} (λ i. (e i, (m s).1))) (hm.within s w)
    | inr (a, e) ↦
        rw (bind_some m f s {s' = (m s).1} (λ i. (e i, (m s).1)))
          ((hf a).within (m s).1 (hm.within s w))
  ];
}

done-Keeps : {n : ℕ} → Keeps n done
unfolding done
done-Keeps = record { within = λ s w. w }

fetch-Keeps : {n : ℕ} (k : ℕ) → Keeps n (fetch k)
unfolding fetch
fetch-Keeps k = record { within = λ s w. ground arith }

need_room-full : (k : ℕ) (s : Copying) → ltb (room s.out) k ≡ true → need_room k s ≡ (none, s)
unfolding need_room
need_room-full k s e = rw e refl

pub need_room-fits :
    (k : ℕ) (s : Copying) → ltb (room s.out) k ≡ false → need_room k s ≡ (some tt, s)
unfolding need_room
need_room-fits k s e = rw e refl

-- What a step does behind a guard that fails is nothing.
guarded-Keeps :
    {n : ℕ} (k : ℕ) (f : Step (Unit {0}))
    → ((s : Copying) → ltb (room s.out) k ≡ false → IsWithin n s.out → IsWithin n (f s).1.out)
    → Keeps n (need_room k >>= λ _. f)
guarded-Keeps {n} k f hf = record {
  within = λ s w. elim (Bool-cases (ltb (room s.out) k)) [
    | inl full ↦ rw (bind_none (need_room k) (λ _. f) s (need_room-full k s full)) w
    | inr fits ↦ rw (bind_some (need_room k) (λ _. f) s (need_room-fits k s fits)) (hf s fits w)
  ];
}

-- A store of no more bytes than there is room for.
store-IsWithin :
    (n k : ℕ) (bs : Bytes) (s : Copying)
    → ltb (room s.out) k ≡ false
    → length bs ≤ k
    → IsWithin n s.out
    → IsWithin n (store bs s).1.out
unfolding store
store-IsWithin n k bs s fits h w =
    put-IsWithin n s.out bs w (omega (arith, ltb→le (room s.out) k fits))

-- a copy of `k` bytes from the chain, stored where there is room for as many
copied-IsWithin :
    (n k : ℕ) (s : Copying)
    → ltb (room s.out) k ≡ false
    → IsWithin n s.out
    → IsWithin n ((fetch k >>= store) s).1.out
unfolding ◌>>=◌ fetch store
copied-IsWithin n k s fits w = elim (Option-cases (custom_copy k s.src)) [
  | inl e ↦ rw (e, fetch) w
  | inr ((bs, src), e) ↦
      rw (e, fetch)
        (put-IsWithin n s.out bs w
          (omega (arith, ltb→le (room s.out) k fits, (custom_copy-Splits k s.src bs src e).exact)))
]

copy_set-Keeps : {n : ℕ} (len : ℕ) → Keeps n (copy_set len)
unfolding copy_set ◌>>=◌ store
copy_set-Keeps {n} len = guarded-Keeps 4 _ λ s fits w.
    (guarded-Keeps len _ (copied-IsWithin n _)).within (store long_prefix s).1
      (store-IsWithin n 4 long_prefix s fits (omega arith) w)

module _ (ngx : Nginx) where
  copy_nal-Keeps : {n : ℕ} → Keeps n (copy_nal ngx)
  unfolding copy_nal
  copy_nal-Keeps = bind-Keeps (fetch 2) (fetch-Keeps 2) λ rlen. copy_set-Keeps _

  copy_nals-Keeps : {n : ℕ} (k : ℕ) → Keeps n (copy_nals ngx k)
  unfolding copy_nals
  copy_nals-Keeps zero = done-Keeps
  copy_nals-Keeps (suc k) = bind-Keeps (copy_nal ngx) copy_nal-Keeps λ _. copy_nals-Keeps k

  copy_param_sets-Keeps : {n : ℕ} → Keeps n (copy_param_sets ngx)
  unfolding copy_param_sets
  copy_param_sets-Keeps = bind-Keeps (fetch 10) (fetch-Keeps 10) λ _.
      bind-Keeps (fetch 1) (fetch-Keeps 1) λ sps.
        bind-Keeps (copy_nals ngx _) (copy_nals-Keeps _)
          λ _. bind-Keeps (fetch 1) (fetch-Keeps 1) λ pps. copy_nals-Keeps _

  out-finish : (r : Option (Unit {0}) × Copying) → (finish r).1 ≡ r.1.out
  out-finish (none, s) = refl
  out-finish (some _, s) = refl

  append_header-IsWithin :
      (n : ℕ) (c : Chain) (o : OutBuf) → IsWithin n o → IsWithin n (append_header ngx c o).1
  unfolding append_header
  append_header-IsWithin n [] o w = w
  append_header-IsWithin n (b ∷ next) o w =
      rw (out-finish (copy_param_sets ngx (record { src = b ∷ next; out = o })))
        (copy_param_sets-Keeps.within _ w)

  -- On every path, errors included, the buffer keeps its size and is not overrun.
  pub append_sps_pps-IsWithin :
      (n : ℕ) (codec : Option CodecCtx) (o : OutBuf)
      → IsWithin n o
      → IsWithin n (append_sps_pps ngx codec o).1
  unfolding append_sps_pps
  append_sps_pps-IsWithin n none o w = w
  append_sps_pps-IsWithin n (some codec) o w = append_header-IsWithin n codec.avc_header o w
