-- ===== src/Video/AnnexB/Frame.antt =====
-- The loop over a well-formed message prints its pieces, however the message is cut into buffers.
use server_side_custom_video.Prelude.{
  ℕ, zero, suc, ◌+◌, ◌^◌, ◌≤◌, ◌<◌, ◌≡◌, refl, ap, ◌∙◌, ◌||◌, Bool, true, false, List, [], ◌∷◌,
  ◌++◌, Option, some, Bytes, arith, All, length, length-append, append_assoc, Bool-cases, inl, inr,
}
use server_side_custom_video.Chain.{Chain, payload}
use server_side_custom_video.Chain.Copy.{IsSettled, settled_empty}
use server_side_custom_video.Nginx.{Nginx, CodecCtx, Reverses}
use server_side_custom_video.Words.{big_endian, length-big_endian}
use server_side_custom_video.Video.Out.{OutBuf}
use server_side_custom_video.Video.Convert.{Flow, go, leave, Status, Conv, step, loop, at_end}
use server_side_custom_video.Video.Convert.Loop.{loop-at_end, loop_leave, loop_next}
use server_side_custom_video.Video.AnnexB.{
  Item, blank, nal, avcc, IsCoded, nal_type, is_dropped, opens_unit, delimit, refresh, still_fresh,
  coded, pieces, Piece, print, prints,
}
use server_side_custom_video.Video.AnnexB.Pieces.{prints-append, length-prints}
use server_side_custom_video.Video.AnnexB.Unit.{Appends, Went}
use server_side_custom_video.Video.AnnexB.Round.{
  step_lost, step_blank, step_unit, place_dropped, place_kept,
}

prints_unit :
    (sets before : Bytes) (ds rs ps : List Piece) (header : ℕ) (body : Bytes)
    → prints sets before (ds ++ rs ++ coded header body ∷ ps)
      ≡ prints sets (print sets (prints sets (prints sets before ds) rs) (coded header body)) ps
prints_unit sets before ds rs ps header body =
    prints-append sets before (ds ++ rs) (coded header body ∷ ps)
    ∙ ap (λ w. prints sets (print sets w (coded header body)) ps) (prints-append sets before ds rs)

Went-step :
    {m m' : Flow Conv} {rest : Bytes} {aud sps : Bool} {o : OutBuf}
    → m ≡ m'
    → Went m' rest aud sps o
    → Went m rest aud sps o
Went-step e w = record {
  src = w.src;
  result = e ∙ w.result;
  behind = w.behind;
  settled = w.settled;
}

shorter_rest : (header : ℕ) (body rest : Bytes) → length rest ≤ length (header ∷ (body ++ rest))
shorter_rest header body rest = omega (arith, length-append body rest)

-- a message, from the length of its first unit on
unit_first :
    (k header : ℕ) (body : Bytes) (items : List Item) (tail : Bytes) (c : Chain)
    → payload c ≡ avcc k (nal header body ∷ items) ++ tail
    → payload c ≡ big_endian k (length body + 1) ++ header ∷ (body ++ (avcc k items ++ tail))
unit_first k header body items tail c e =
    e
    ∙ append_assoc (big_endian k (length body + 1)) (header ∷ (body ++ avcc k items)) tail
    ∙ ap (λ r. big_endian k (length body + 1) ++ header ∷ r) (append_assoc body (avcc k items) tail)

module _ (ngx : Nginx) (reverses : Reverses ngx) (codec : Option CodecCtx) (sets : Bytes)
    (appends : Appends ngx codec sets) (k : ℕ) (field : 0 < k) where
  -- The loop has come to a state where `tail` is left of the message, with `printed` behind it.
  pub record Comes (fuel : ℕ) (s : Conv) (printed tail : Bytes) : Type 0 where
    pub last : Conv
    pub rounds_left : ℕ
    pub same : loop ngx codec fuel k s ≡ loop ngx codec rounds_left k last
    pub enough : length (payload last.src) < rounds_left
    pub unread : payload last.src ≡ tail
    pub settled : IsSettled last.src
    pub holds : last.out.written ≡ printed
    pub sized : last.out.size ≡ s.out.size

  more_to_read :
      (c : Chain) (n : ℕ) (rest : Bytes) → payload c ≡ big_endian k n ++ rest → at_end c ≡ false
  more_to_read [] n rest e =
      absurd
        (omega (arith, ap length e, length-append (big_endian k n) rest, length-big_endian k n))
  more_to_read (b ∷ next) n rest e = refl

  -- the state that a round leaves
  abbrev left_by :
      {m : Flow Conv} {rest : Bytes} {aud sps : Bool} {o : OutBuf} → Went m rest aud sps o → Conv
  left_by {aud} {sps} {o} w = record { src = w.src; out = o; aud_sent = aud; sps_pps_sent = sps }

  -- one round, and what comes after it
  Comes-round :
      (fuel n : ℕ) (s : Conv) (back rest tail printed : Bytes) {aud sps : Bool} {o : OutBuf}
      → payload s.src ≡ big_endian k n ++ back
      → length rest ≤ length back
      → length (payload s.src) < suc fuel
      → o.size ≡ s.out.size
      → (w : Went (step ngx codec k s) rest aud sps o)
      → (length (payload w.src) < fuel → Comes fuel (left_by w) printed tail)
      → Comes (suc fuel) s printed tail
  Comes-round fuel n s back rest tail printed e l m z w c = record {
    last = d.last;
    rounds_left = d.rounds_left;
    same = loop_next ngx codec k fuel s (more_to_read s.src n back e) w.result ∙ d.same;
    enough = d.enough;
    unread = d.unread;
    settled = d.settled;
    holds = d.holds;
    sized = d.sized ∙ z;
  }
    where
      shorter : length (payload w.src) < fuel
      shorter = omega (
        arith,
        ap length e,
        ap length w.behind,
        length-append (big_endian k n) back,
        length-big_endian k n,
      )

      d : Comes fuel (left_by w) printed tail
      d = c shorter

  pub loop-Comes :
      (items : List Item) (tail : Bytes) (fuel : ℕ) (s : Conv)
      → All (IsCoded k) items
      → payload s.src ≡ avcc k items ++ tail
      → IsSettled s.src
      → length (payload s.src) < fuel
      → length (prints sets s.out.written (pieces s.aud_sent s.sps_pps_sent items)) + 1 ≤ s.out.size
      → Comes fuel s (prints sets s.out.written (pieces s.aud_sent s.sps_pps_sent items)) tail
  unfolding pieces
  loop-Comes [] tail fuel s good e d m f = record {
    last = s;
    rounds_left = fuel;
    same = refl;
    enough = m;
    unread = e;
    settled = d;
    holds = refl;
    sized = refl;
  }
  loop-Comes (blank ∷ items) tail zero s good e d m f = absurd (omega arith)
  loop-Comes (blank ∷ items) tail (suc fuel) s good e d m f =
      let e' = e ∙ append_assoc (big_endian k 0) (avcc k items) tail in
      let w = step_blank ngx reverses codec k (avcc k items ++ tail) s e' field in
      Comes-round fuel 0 s (avcc k items ++ tail) (avcc k items ++ tail) tail _ e' (omega arith) m
        refl w (λ m'. loop-Comes items tail fuel _ good.1 w.behind w.settled m' f)
  loop-Comes (nal header body ∷ items) tail zero s good e d m f = absurd (omega arith)
  loop-Comes (nal header body ∷ items) tail (suc fuel) s good e d m f =
      let rest = avcc k items ++ tail in
      let e' = unit_first k header body items tail s.src e in
      let (src, q, b) = step_unit ngx reverses codec k header body rest s e' field good.0.1 in
      elim (Bool-cases (is_dropped (nal_type header))) [
        | inl dropped ↦
            let w = Went-step q (
              place_dropped ngx reverses codec header body rest (record s { src = src }) dropped b
                good.0.0) in
            rw dropped (
              Comes-round fuel (length body + 1) s (header ∷ (body ++ rest)) rest tail _ e'
                (shorter_rest header body rest) m refl w
                (λ m'. loop-Comes items tail fuel _ good.1 w.behind w.settled m' (rw dropped at f)))
        | inr kept ↦
            let g = rw (kept, prints_unit) at f in
            let t = nal_type header in
            let ahead =
              prints sets (prints sets s.out.written (delimit s.aud_sent t))
                (refresh s.sps_pps_sent t) in
            let later = pieces (s.aud_sent || opens_unit t) (still_fresh s.sps_pps_sent t) items in
            let w = Went-step q (
              place_kept ngx reverses codec sets header body rest (record s { src = src }) appends
                kept b good.0.0
                (omega
                  (arith, g, length-prints sets (print sets ahead (coded header body)) later))) in
            rw (kept, prints_unit)
              (Comes-round fuel (length body + 1) s (header ∷ (body ++ rest)) rest tail _ e'
                (shorter_rest header body rest) m refl w
                (λ m'. loop-Comes items tail fuel _ good.1 w.behind w.settled m' g))
      ]

  at_end_settled : (c : Chain) → IsSettled c → payload c ≡ [] → at_end c ≡ true
  at_end_settled c d e = ap at_end (settled_empty c d e)

  -- With nothing left to read the loop ends with what is printed.
  pub Comes-ends :
      (fuel : ℕ) (s : Conv) (printed : Bytes)
      → Comes fuel s printed []
      → (o : OutBuf) × (loop ngx codec fuel k s ≡ some (go o)) × (o.written ≡ printed)
  Comes-ends fuel s printed c = (c.last.out, c.same ∙ last_round c.rounds_left c.enough, c.holds)
    where
      last_round :
          (r : ℕ)
          → length (payload c.last.src) < r
          → loop ngx codec r k c.last ≡ some (go c.last.out)
      last_round zero h = absurd (omega arith)
      last_round (suc r) h =
          loop-at_end ngx codec k r c.last (at_end_settled c.last.src c.settled c.unread)

  -- A unit of one byte at the end of the message: the copy of its empty body fails at NULL.
  pub Comes-lost :
      (fuel header : ℕ) (s : Conv) (printed : Bytes)
      → 1 < 256 ^ k
      → Comes fuel s printed (big_endian k 1 ++ header ∷ [])
      → (r : Status) × (loop ngx codec fuel k s ≡ some (leave r))
  Comes-lost fuel header s printed f c =
      let (q, e) = last_round c.rounds_left c.enough in (q, c.same ∙ e)
    where
      at_unit : (r : Status) × (step ngx codec k c.last ≡ leave r)
      at_unit = step_lost ngx reverses codec k header c.last c.unread field f

      last_round :
          (r : ℕ)
          → length (payload c.last.src) < r
          → (q : Status) × (loop ngx codec r k c.last ≡ some (leave q))
      last_round zero h = absurd (omega arith)
      last_round (suc r) h = (
        at_unit.0,
        loop_leave ngx codec k r c.last (more_to_read c.last.src 1 (header ∷ []) c.unread)
            at_unit.1,
      )
