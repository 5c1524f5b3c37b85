-- ===== src/Video/ParamSets/Sets.antt =====
-- `append_sps_pps` on a well-formed AVC decoder configuration: every set, with its start code.
use server_side_custom_video.Prelude.{
  ℕ, ◌+◌, ◌%◌, ◌^◌, ◌≤◌, ◌<◌, ◌≡◌, refl, sym, ap, ◌∙◌, true, List, [], ◌∷◌, ◌++◌, Option, some,
  Bytes, arith, All, length, length-append, append_assoc, append-nil, le→ltb,
}
use server_side_custom_video.Chain.{Chain, payload}
use server_side_custom_video.Chain.Copy.{custom_copy-Reads}
use server_side_custom_video.Nginx.{Nginx, CodecCtx, Reverses}
use server_side_custom_video.Words.{load, big_endian, length-big_endian, load-reverse-big_endian}
use server_side_custom_video.Video.Out.{OutBuf, room, put}
use server_side_custom_video.Video.ParamSets.{
  Copying, ◌>>=◌, fetch, store, long_prefix, copy_set, copy_nal, copy_nals, copy_param_sets, done,
  finish, append_header, append_sps_pps,
}
use server_side_custom_video.Video.ParamSets.Laws.{bind_some, need_room-fits}

-- parameter sets with their lengths of two bytes, as the configuration holds them
abbrev pub coded_sets : List Bytes → Bytes
coded_sets [] = []
coded_sets (set ∷ sets) = big_endian 2 (length set) ++ (set ++ coded_sets sets)

abbrev pub IsParamSet : Bytes → Type 0
IsParamSet set = (0 < length set) × (length set < 256 ^ 2)

-- the same in Annex B form
abbrev pub printed_sets : List Bytes → Bytes
printed_sets [] = []
printed_sets (set ∷ sets) = long_prefix ++ set ++ printed_sets sets

-- A configuration: ten bytes that are skipped, the number of SPS in five bits and the SPS, the
-- number of PPS and the PPS, and what else may follow.
pub record IsConfig (sps pps : List Bytes) (config : Bytes) : Type 0 where
  pub skipped : Bytes
  pub sps_count : ℕ
  pub rest : Bytes
  pub ten : length skipped ≡ 10
  pub counted : sps_count % 2 ^ 5 ≡ length sps
  pub layout :
      config ≡ skipped ++ sps_count ∷ (coded_sets sps ++ (length pps ∷ (coded_sets pps ++ rest)))
  pub good_sps : All IsParamSet sps
  pub good_pps : All IsParamSet pps

pub IsConfig-pos :
    {sps pps : List Bytes} {config : Bytes} → IsConfig sps pps config → 0 < length config
IsConfig-pos {sps} {pps} g = omega (
  arith,
  ap length g.layout,
  g.ten,
  length-append g.skipped
      (g.sps_count ∷ (coded_sets sps ++ (length pps ∷ (coded_sets pps ++ g.rest)))),
)

-- a step that succeeded, with `rest` still to be read
record Stored (m : Option (Unit {0}) × Copying) (rest : Bytes) (o : OutBuf) : Type 0 where
  src : Chain
  result : m ≡ (some tt, record { src = src; out = o })
  behind : payload src ≡ rest

-- a copy of the bytes that come next
fetch_lem :
    (n : ℕ) (bs rest : Bytes) (s : Copying)
    → payload s.src ≡ bs ++ rest
    → length bs ≡ n
    → 0 < n
    → (src : Chain) × (fetch n s ≡ (some bs, record s { src = src })) × (payload src ≡ rest)
unfolding fetch
fetch_lem n bs rest s e l h =
    let r = custom_copy-Reads bs rest n s.src e l h in (r.next, rw (r.result, fetch) refl, r.behind)

copy_set_lem :
    (set rest : Bytes) (s : Copying)
    → payload s.src ≡ set ++ rest
    → 0 < length set
    → length s.out.written + (4 + length set) ≤ s.out.size
    → Stored (copy_set (length set) s) rest (put s.out (long_prefix ++ set))
unfolding copy_set ◌>>=◌ store
copy_set_lem set rest s e h f =
    let (src, q, b) = fetch_lem (length set) set rest s₂ e refl h in
    record {
      src = src;
      result =
          rw
            (
              need_room-fits 4 s (le→ltb (room s.out) 4 (omega arith)),
              need_room-fits (length set) s₂ (le→ltb (room s₂.out) (length set) room_for),
              q,
            )
            (ap (λ w. (some tt, record { src = src; out = record s.out { written = w } }))
              (append_assoc s.out.written long_prefix set));
      behind = b;
    }
  where
    s₂ : Copying
    s₂ = record s { out = put s.out long_prefix }

    room_for : length set ≤ room s₂.out
    room_for = omega (arith, length-append s.out.written long_prefix)

module _ (ngx : Nginx) (reverses : Reverses ngx) where
  copy_nal_lem :
      (set rest : Bytes) (s : Copying)
      → payload s.src ≡ big_endian 2 (length set) ++ (set ++ rest)
      → IsParamSet set
      → length s.out.written + (4 + length set) ≤ s.out.size
      → Stored (copy_nal ngx s) rest (put s.out (long_prefix ++ set))
  unfolding copy_nal
  copy_nal_lem set rest s e g f =
      let n = length set in
      let (src, q, b) =
        fetch_lem 2 (big_endian 2 n) (set ++ rest) s e (length-big_endian 2 n) (omega arith) in
      let value : load (ngx.rmemcpy (big_endian 2 n)) ≡ n =
        ap load (reverses (big_endian 2 n)) ∙ load-reverse-big_endian 2 n g.1 in
      let d = copy_set_lem set rest (record s { src = src }) b g.0 f in
      record {
        src = d.src;
        result = bind_some (fetch 2) _ s q ∙ rw value d.result;
        behind = d.behind;
      }

  copy_nals_lem :
      (sets : List Bytes) (rest : Bytes) (s : Copying)
      → payload s.src ≡ coded_sets sets ++ rest
      → All IsParamSet sets
      → length s.out.written + length (printed_sets sets) ≤ s.out.size
      → Stored (copy_nals ngx (length sets) s) rest (put s.out (printed_sets sets))
  unfolding copy_nals done
  copy_nals_lem [] rest s e g f = record {
    src = s.src;
    result =
        ap (λ w. (some tt, record { src = s.src; out = record s.out { written = w } }))
          (sym (append-nil s.out.written));
    behind = e;
  }
  copy_nals_lem (set ∷ sets) rest s e g f =
      let e' =
        e
        ∙ append_assoc (big_endian 2 (length set)) (set ++ coded_sets sets) rest
        ∙ ap (λ r. big_endian 2 (length set) ++ r) (append_assoc set (coded_sets sets) rest) in
      let now = long_prefix ++ set in
      let size = length-append now (printed_sets sets) in
      let d = copy_nal_lem set (coded_sets sets ++ rest) s e' g.0 (omega (arith, f, size)) in
      let s' : Copying = record { src = d.src; out = put s.out now } in
      let d' =
        copy_nals_lem sets rest s' d.behind g.1
          (omega (arith, f, size, length-append s.out.written now)) in
      record {
        src = d'.src;
        result =
            bind_some (copy_nal ngx) (λ _. copy_nals ngx (length sets)) s d.result
            ∙ d'.result
            ∙ ap (λ w. (some tt, record { src = d'.src; out = record s.out { written = w } }))
                (append_assoc s.out.written now (printed_sets sets));
        behind = d'.behind;
      }

  -- the four copies and the two loops over a configuration
  copy_param_sets_lem :
      (sps pps : List Bytes) (config : Bytes) (s : Copying)
      → IsConfig sps pps config
      → payload s.src ≡ config
      → length s.out.written + length (printed_sets sps ++ printed_sets pps) ≤ s.out.size
      → (rest : Bytes) × Stored
          (copy_param_sets ngx s)
          rest
          (put s.out (printed_sets sps ++ printed_sets pps))
  unfolding copy_param_sets
  copy_param_sets_lem sps pps config s g e f =
      let size = length-append (printed_sets sps) (printed_sets pps) in
      let pps_part = length pps ∷ (coded_sets pps ++ g.rest) in
      let (c₁, q₁, b₁) =
        fetch_lem 10 g.skipped (g.sps_count ∷ (coded_sets sps ++ pps_part)) s (e ∙ g.layout) g.ten
          (omega arith) in
      let (c₂, q₂, b₂) =
        fetch_lem 1 (g.sps_count ∷ []) (coded_sets sps ++ pps_part) (record s { src = c₁ }) b₁ refl
          (omega arith) in
      let d₃ =
        copy_nals_lem sps pps_part (record s { src = c₂ }) b₂ g.good_sps (omega (arith, f, size)) in
      let s₃ : Copying = record { src = d₃.src; out = put s.out (printed_sets sps) } in
      let (c₄, q₄, b₄) =
        fetch_lem 1 (length pps ∷ []) (coded_sets pps ++ g.rest) s₃ d₃.behind refl (omega arith) in
      let d₅ =
        copy_nals_lem pps g.rest (record s₃ { src = c₄ }) b₄ g.good_pps
          (omega (arith, f, size, length-append s.out.written (printed_sets sps))) in
      (
        g.rest,
        record {
          src = d₅.src;
          result =
              bind_some (fetch 10) _ s q₁
              ∙ bind_some (fetch 1) _ (record s { src = c₁ }) q₂
              ∙ bind_some (copy_nals ngx (g.sps_count % 2 ^ 5)) _ (record s { src = c₂ })
                  (rw g.counted d₃.result)
              ∙ bind_some (fetch 1) _ s₃ q₄
              ∙ d₅.result
              ∙ ap (λ w. (some tt, record { src = d₅.src; out = record s.out { written = w } }))
                  (append_assoc s.out.written (printed_sets sps) (printed_sets pps));
          behind = d₅.behind;
        },
      )

  append_header_lem :
      (c : Chain) (o : OutBuf) (sets : Bytes) {rest : Bytes}
      → 0 < length (payload c)
      → Stored (copy_param_sets ngx (record { src = c; out = o })) rest (put o sets)
      → append_header ngx c o ≡ (true, put o sets)
  unfolding append_header
  append_header_lem [] o sets h d = absurd (omega arith)
  append_header_lem (b ∷ next) o sets h d = ap finish d.result

  -- For a well-formed configuration `append_sps_pps` returns NGX_OK and appends its SPS and then
  -- its PPS, each behind a four-byte start code, wherever they fit.
  pub append_sps_pps_lem :
      (sps pps : List Bytes) (codec : CodecCtx) (o : OutBuf)
      → IsConfig sps pps (payload codec.avc_header)
      → length o.written + length (printed_sets sps ++ printed_sets pps) ≤ o.size
      → append_sps_pps ngx (some codec) o ≡ (true, put o (printed_sets sps ++ printed_sets pps))
  unfolding append_sps_pps
  append_sps_pps_lem sps pps codec o g f =
      let start : Copying = record { src = codec.avc_header; out = o } in
      append_header_lem codec.avc_header o (printed_sets sps ++ printed_sets pps) (IsConfig-pos g)
        (copy_param_sets_lem sps pps (payload codec.avc_header) start g refl f).1
