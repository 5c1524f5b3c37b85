-- ===== src/Video/AnnexB/Unit.antt =====
-- The parts of a round: the delimiter, the parameter sets and the unit itself.
use server_side_custom_video.Prelude.{
  ℕ, ◌+◌, ◌-◌, ◌≤◌, ◌<◌, ◌≡◌, sym, ap, ◌∙◌, Bool, true, false, ◌||◌, [], ◌∷◌, ◌++◌, Option, Bytes,
  arith, length, length-append, append_assoc, le→ltb,
}
use server_side_custom_video.Chain.{Chain, payload}
use server_side_custom_video.Chain.Copy.{IsSettled, Reads, custom_copy-Reads}
use server_side_custom_video.Nginx.{Nginx, CodecCtx}
use server_side_custom_video.Video.Out.{OutBuf, room, put, aud_nal, append_aud}
use server_side_custom_video.Video.ParamSets.{append_sps_pps}
use server_side_custom_video.Video.Convert.{
  Flow, go, Conv, add_aud, add_sps_pps, start_code, copy_body, prefixed, write_nal,
}
use server_side_custom_video.Video.AnnexB.{
  is_dropped, opens_unit, coded, delimit, refresh, still_fresh, print, prints,
}

-- the buffer with other bytes in it
abbrev pub holding : OutBuf → Bytes → OutBuf
holding o w = record o { written = w }

pub add_aud_lem :
    (sets : Bytes) (t : ℕ) (s : Conv)
    → is_dropped t ≡ false
    → length (prints sets s.out.written (delimit s.aud_sent t)) ≤ s.out.size
    → add_aud t s ≡ record s {
      out = holding s.out (prints sets s.out.written (delimit s.aud_sent t));
      aud_sent = s.aud_sent || opens_unit t;
    }
unfolding add_aud append_aud
add_aud_lem sets t s d h = ground (arith, length-append s.out.written aud_nal)

-- what `append_sps_pps` does for parameter sets that are well formed, wherever they fit
abbrev pub Appends : Nginx → Option CodecCtx → Bytes → Type 0
Appends ngx codec sets =
    (o : OutBuf)
    → length o.written + length sets ≤ o.size
    → append_sps_pps ngx codec o ≡ (true, put o sets)

pub add_sps_pps_lem :
    (ngx : Nginx) (codec : Option CodecCtx) (sets : Bytes) (t : ℕ) (s : Conv)
    → Appends ngx codec sets
    → length (prints sets s.out.written (refresh s.sps_pps_sent t)) ≤ s.out.size
    → add_sps_pps ngx codec t s ≡ record s {
      out = holding s.out (prints sets s.out.written (refresh s.sps_pps_sent t));
      sps_pps_sent = still_fresh s.sps_pps_sent t;
    }
unfolding add_sps_pps
add_sps_pps_lem ngx codec sets t s a h = ground (arith, a s.out, length-append s.out.written sets)

-- what a round leaves behind, with `rest` still to be read
pub record Went (m : Flow Conv) (rest : Bytes) (aud sps : Bool) (o : OutBuf) : Type 0 where
  pub src : Chain
  pub result : m ≡ go (record { src = src; out = o; aud_sent = aud; sps_pps_sent = sps })
  pub behind : payload src ≡ rest
  pub settled : IsSettled src

length-start_code : (w : Bytes) → 3 ≤ length (start_code w)
length-start_code [] = omega arith
length-start_code (x ∷ w) = omega arith

pub write_nal_lem :
    (sets : Bytes) (header : ℕ) (body rest : Bytes) (s : Conv)
    → payload s.src ≡ body ++ rest
    → 0 < length body
    → length (print sets s.out.written (coded header body)) + 1 ≤ s.out.size
    → Went
        (write_nal (length body + 1) header s)
        rest
        s.aud_sent
        s.sps_pps_sent
        (holding s.out (print sets s.out.written (coded header body)))
unfolding write_nal copy_body
write_nal_lem sets header body rest s e h f = record {
  src = r.next;
  result =
      rw (le→ltb (room s.out) 5 roomy, le→ltb (room (prefixed s.out header)) (length body + 1) fits)
        (rw r.result (ap (λ w. go (record s { src = r.next; out = holding s.out w })) joined));
  behind = r.behind;
  settled = r.settled;
}
  where
    w : Bytes
    w = s.out.written

    code : Bytes
    code = start_code w

    r : Reads body rest (length body + 1 - 1) s.src
    r = custom_copy-Reads body rest (length body + 1 - 1) s.src e (omega arith) (omega arith)

    joined : w ++ (code ++ header ∷ []) ++ body ≡ w ++ code ++ header ∷ body
    joined =
        append_assoc w (code ++ header ∷ []) body
        ∙ ap (λ x. w ++ x) (append_assoc code (header ∷ []) body)
        ∙ sym (append_assoc w code (header ∷ body))

    total : length (w ++ code ++ header ∷ body) ≡ length w + length code + 1 + length body
    total = omega (arith, length-append (w ++ code) (header ∷ body), length-append w code)

    long : 3 ≤ length code
    long = length-start_code w

    roomy : 5 ≤ room s.out
    roomy = omega (arith, f, total, long)

    fits : length body + 1 ≤ room (prefixed s.out header)
    fits =
        omega
          (arith, f, total, length-append w (code ++ header ∷ []), length-append code (header ∷ []))
