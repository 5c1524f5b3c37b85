-- ===== src/Log/Kept.antt =====
-- What becomes of the lines that were logged.
use server_side_custom_video.Prelude.{
  and_split, ◌≡◌, refl, sym, ap, ◌∙◌, ℕ, Bool, true, false, not, ◌&&◌, List, [], ◌∷◌, ◌++◌, Bytes,
  ltb, arith, append_assoc, append-nil, if◌then◌else◌,
}
use server_side_custom_video.Config.{equals}
use server_side_custom_video.Log.{
  LogSystem, Files, LogCall, log_message, check_and_roll, max_log_file_size, put_archive, line,
  archive_name, roll, log_call, log_run,
}

-- the archives one behind another
abbrev archived : List (Bytes × Bytes) → Bytes
archived [] = []
archived ((name, bytes) ∷ rest) = bytes ++ archived rest

-- all that is in the files
abbrev pub contents : Files → Bytes
contents f = archived f.archives ++ f.log

-- a name that none of the archives has
abbrev absent : Bytes → List (Bytes × Bytes) → Bool
absent name [] = true
absent name ((other, bytes) ∷ rest) = not (equals name other) && absent name rest

abbrev all_absent : List Bytes → List (Bytes × Bytes) → Bool
all_absent [] archives = true
all_absent (name ∷ names) archives = absent name archives && all_absent names archives

-- none of the names is this one
abbrev unlike : Bytes → List Bytes → Bool
unlike name [] = true
unlike name (other ∷ names) = not (equals other name) && unlike name names

abbrev pub all_differ : List Bytes → Bool
all_differ [] = true
all_differ (name ∷ names) = unlike name names && all_differ names

module _ (S : LogSystem) where
  -- the names that the calls would give to a copy
  abbrev pub names : List LogCall → List Bytes
  names [] = []
  names (log_message is_open seconds microseconds message ∷ cs) = names cs
  names (check_and_roll is_open copies truncates seconds ∷ cs) = archive_name S seconds ∷ names cs

  -- the lines of the calls that could open the log
  abbrev pub lines : List LogCall → Bytes
  lines [] = []
  lines (log_message true seconds microseconds message ∷ cs) =
      line S seconds microseconds message ++ lines cs
  lines (log_message false seconds microseconds message ∷ cs) = lines cs
  lines (check_and_roll is_open copies truncates seconds ∷ cs) = lines cs

-- every log that is too long can be copied and truncated
abbrev pub rolls : List LogCall → Bool
rolls [] = true
rolls (log_message is_open seconds microseconds message ∷ cs) = rolls cs
rolls (check_and_roll is_open copies truncates seconds ∷ cs) = copies && truncates && rolls cs

archived-append :
    (files : List (Bytes × Bytes)) (name bytes : Bytes)
    → archived (files ++ (name, bytes) ∷ []) ≡ archived files ++ bytes
archived-append [] name bytes = append-nil bytes
archived-append ((other, old) ∷ files) name bytes =
    ap (λ z. old ++ z) (archived-append files name bytes)
    ∙ sym (append_assoc old (archived files) bytes)

put_archive-absent :
    (name bytes : Bytes) (files : List (Bytes × Bytes))
    → absent name files ≡ true
    → put_archive name bytes files ≡ files ++ (name, bytes) ∷ []
unfolding put_archive
put_archive-absent name bytes [] h = refl
put_archive-absent name bytes ((other, old) ∷ files) h =
    let (differs, later) = and_split (not (equals name other)) (absent name files) h in
    ground (arith, put_archive-absent name bytes files later)

absent-append :
    (n name bytes : Bytes) (files : List (Bytes × Bytes))
    → absent n files ≡ true
    → not (equals n name) ≡ true
    → absent n (files ++ (name, bytes) ∷ []) ≡ true
absent-append n name bytes [] h u = ground (arith, u)
absent-append n name bytes ((other, old) ∷ files) h u =
    let (differs, later) = and_split (not (equals n other)) (absent n files) h in
    rw (differs, absent-append n name bytes files later u) refl

all_absent-append :
    (ns : List Bytes) (files : List (Bytes × Bytes)) (name bytes : Bytes)
    → all_absent ns files ≡ true
    → unlike name ns ≡ true
    → all_absent ns (files ++ (name, bytes) ∷ []) ≡ true
all_absent-append [] files name bytes h u = refl
all_absent-append (n ∷ ns) files name bytes h u =
    let (first, later) = and_split (absent n files) (all_absent ns files) h in
    let (differs, others) = and_split (not (equals n name)) (unlike name ns) u in
    rw
      (
        absent-append n name bytes files first differs,
        all_absent-append ns files name bytes later others,
      )
      refl

module _ (S : LogSystem) where
  -- a roll that succeeds, with a name of its own, keeps what there is
  roll-contents :
      (seconds : ℕ) (ns : List Bytes) (f : Files)
      → absent (archive_name S seconds) f.archives ≡ true
      → contents (roll S true true seconds f) ≡ contents f
  roll-contents seconds ns f h =
      append-nil (archived (put_archive (archive_name S seconds) f.log f.archives))
      ∙ ap archived (put_archive-absent (archive_name S seconds) f.log f.archives h)
      ∙ archived-append f.archives (archive_name S seconds) f.log

  roll-absent :
      (b : Bool) (seconds : ℕ) (ns : List Bytes) (f : Files)
      → absent (archive_name S seconds) f.archives ≡ true
      → unlike (archive_name S seconds) ns ≡ true
      → all_absent ns f.archives ≡ true
      → let g = if b then roll S true true seconds f else f in
        (contents g ≡ contents f) × (all_absent ns g.archives ≡ true)
  roll-absent true seconds ns f h u a = (
    roll-contents seconds ns f h,
    rw (put_archive-absent (archive_name S seconds) f.log f.archives h)
        (all_absent-append ns f.archives (archive_name S seconds) f.log a u),
  )
  roll-absent false seconds ns f h u a = (refl, a)

  log_run-contents :
      (cs : List LogCall) (f : Files)
      → rolls cs ≡ true
      → all_differ (names S cs) ≡ true
      → all_absent (names S cs) f.archives ≡ true
      → contents (log_run S cs f) ≡ contents f ++ lines S cs
  unfolding log_run log_call
  log_run-contents [] f r d a = sym (append-nil (contents f))
  log_run-contents (log_message true seconds microseconds message ∷ cs) f r d a =
      let l = line S seconds microseconds message in
      log_run-contents cs (record f { log = f.log ++ l }) r d a
      ∙ rw
          (
            ← append_assoc (archived f.archives) f.log l,
            append_assoc (archived f.archives ++ f.log) l (lines S cs),
          )
          refl
  log_run-contents (log_message false seconds microseconds message ∷ cs) f r d a =
      log_run-contents cs f r d a
  log_run-contents (check_and_roll is_open true true seconds ∷ cs) f r d a =
      let name = archive_name S seconds in
      let (differs, later) = and_split (unlike name (names S cs)) (all_differ (names S cs)) d in
      let (first, others) =
        and_split (absent name f.archives) (all_absent (names S cs) f.archives) a in
      let b = is_open && ltb max_log_file_size (S.tellp f.log) in
      let g = if b then roll S true true seconds f else f in
      let (kept, fresh) = roll-absent b seconds (names S cs) f first differs others in
      log_run-contents cs g r later fresh ∙ ap (λ z. z ++ lines S cs) kept
  log_run-contents (check_and_roll is_open true false seconds ∷ cs) f r d a = ground (arith, r)
  log_run-contents (check_and_roll is_open false truncates seconds ∷ cs) f r d a = ground (arith, r)

none-absent : (ns : List Bytes) → all_absent ns [] ≡ true
none-absent [] = refl
none-absent (n ∷ ns) = none-absent ns

-- From a log that has not been copied yet, for any calls of `logMessage` and `CheckAndRollLogFile`,
-- if each call of the latter can copy and truncate the log and no two of them have the same
-- name for a copy: the copies one behind another and the log are what the log was and, in their
-- order, the lines of all calls that could open it. So no line is lost and none is there twice.
pub log-keeps :
    (S : LogSystem) (cs : List LogCall) (log : Bytes)
    → rolls cs ≡ true
    → all_differ (names S cs) ≡ true
    → contents (log_run S cs (record { log = log; archives = [] })) ≡ log ++ lines S cs
log-keeps S cs log r d =
    log_run-contents S cs (record { log = log; archives = [] }) r d (none-absent (names S cs))
