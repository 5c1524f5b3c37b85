-- ===== src/Decoder/Copy.antt =====
-- The planes that `copyDeocodedFrame` packs.
use server_side_custom_video.Prelude.{
  ℕ, ◌+◌, ◌*◌, ◌/◌, ◌≤◌, ◌≡◌, refl, sym, ap, ap₂, subst, ◌∙◌, List, [], ◌∷◌, ◌++◌, Option, some,
  Bytes, length, drop, arith, length-append, length-drop, drop-drop, append-nil, append_assoc,
}
use server_side_custom_video.Audio.Memory.{read_at, write_at, ◌>>=◌, read_at_lem, write_at_lem}
use server_side_custom_video.Decoder.{Plane, Picture, copy_lines, copy_decoded_frame}

-- the lines of a plane, each with the bytes that fill it up
abbrev pub laid_out : List (Bytes × Bytes) → Bytes
laid_out [] = []
laid_out ((line, fill) ∷ rows) = line ++ (fill ++ laid_out rows)

-- the lines alone
abbrev pub packed : List (Bytes × Bytes) → Bytes
packed [] = []
packed ((line, fill) ∷ rows) = line ++ packed rows

-- A plane with these lines of `width` bytes; the last need not be filled up.
abbrev pub Filled : (width line_size : ℕ) → List (Bytes × Bytes) → Type 0
Filled width line_size [] = Unit {0}
Filled width line_size ((line, fill) ∷ []) = length line ≡ width
Filled width line_size ((line, fill) ∷ row ∷ rows) =
    (length line ≡ width) × (width + length fill ≡ line_size) × Filled width line_size (row ∷ rows)

pub record IsPlane (lines width : ℕ) (rows : List (Bytes × Bytes)) (plane : Plane) : Type 0 where
  pub count : length rows ≡ lines
  pub bytes : plane.bytes ≡ laid_out rows
  pub filled : Filled width plane.line_size rows

add_assoc : (a b c : ℕ) → a + b + c ≡ a + (b + c)
add_assoc a b c = omega arith

one_line :
    (front line rest done old : Bytes) (width : ℕ) {A : Type 0} (next : Bytes → Option A)
    → length line ≡ width
    → length line ≤ length old
    → (read_at (front ++ (line ++ rest)) (length front) width >>= λ l.
        write_at (done ++ old) (length done) l >>= next)
      ≡ next (done ++ (line ++ drop (length line) old))
one_line front line rest done old width next e h =
    ap (λ r. r >>= λ l. write_at (done ++ old) (length done) l >>= next)
      (ap (read_at (front ++ (line ++ rest)) (length front)) (sym e) ∙ read_at_lem front line rest)
    ∙ ap (λ w. w >>= next) (write_at_lem done line old h)

moved :
    (n width ls : ℕ) {x x' b b' c c' : Bytes} {a a' t t' k k' : ℕ}
    → x ≡ x'
    → a ≡ a'
    → b ≡ b'
    → t ≡ t'
    → copy_lines n width a (record { bytes = x; line_size = ls }) b t ≡ some (c, k)
    → c ≡ c'
    → k ≡ k'
    → copy_lines n width a' (record { bytes = x'; line_size = ls }) b' t' ≡ some (c', k')
moved n width ls ex ea eb et h ec ek = rw (← ex, ← ea, ← eb, ← et, ← ec, ← ek) h

copy_lines-packed :
    (rows : List (Bytes × Bytes)) (width line_size : ℕ) (front done old : Bytes)
    → Filled width line_size rows
    → length (packed rows) ≤ length old
    → copy_lines
        (length rows)
        width
        (length front)
        (record { bytes = front ++ laid_out rows; line_size = line_size })
        (done ++ old)
        (length done)
      ≡ some (
        done ++ (packed rows ++ drop (length (packed rows)) old),
        length done + length (packed rows),
      )
unfolding copy_lines
copy_lines-packed [] width ls front done old f h = ap (λ n. some (done ++ old, n)) (omega arith)
copy_lines-packed ((line, fill) ∷ []) width ls front done old f h =
    one_line front line (fill ++ []) done old width (λ b. some (b, length done + width)) f
      (omega (arith, length-append line []))
    ∙ rw (append-nil line, f) refl
copy_lines-packed ((line, fill) ∷ row ∷ rows) width ls front done old (e, f, g) h =
    one_line front line (fill ++ laid_out (row ∷ rows)) done old width
      (λ b.
        copy_lines (length (row ∷ rows)) width (length front + ls)
          (record { bytes = front ++ laid_out ((line, fill) ∷ row ∷ rows); line_size = ls }) b
          (length done + width))
      e (omega (arith, length-append line (packed (row ∷ rows))))
    ∙ moved (length (row ∷ rows)) width ls
        (append_assoc front (line ++ fill) (laid_out (row ∷ rows))
          ∙ ap (λ z. front ++ z) (append_assoc line fill (laid_out (row ∷ rows))))
        (omega (arith, length-append front (line ++ fill), length-append line fill))
        (append_assoc done line (drop (length line) old)) (omega (arith, length-append done line))
        (copy_lines-packed (row ∷ rows) width ls (front ++ (line ++ fill)) (done ++ line)
          (drop (length line) old) g
          (omega (arith, length-append line (packed (row ∷ rows)), length-drop (length line) old)))
        (rw
          (
            length-append line (packed (row ∷ rows)),
            drop-drop (length line) (length (packed (row ∷ rows))) old,
            append_assoc done line,
            append_assoc line,
          )
          refl)
        (omega (arith, length-append done line, length-append line (packed (row ∷ rows))))

copy_plane :
    (lines width : ℕ) (rows : List (Bytes × Bytes)) (plane : Plane) (done old : Bytes)
    → IsPlane lines width rows plane
    → length (packed rows) ≤ length old
    → copy_lines lines width 0 plane (done ++ old) (length done)
      ≡ some (
        done ++ (packed rows ++ drop (length (packed rows)) old),
        length done + length (packed rows),
      )
copy_plane lines width rows plane done old p h =
    subst
      (λ n.
        copy_lines n width 0 plane (done ++ old) (length done)
        ≡ some (
          done ++ (packed rows ++ drop (length (packed rows)) old),
          length done + length (packed rows),
        ))
      p.count
      (subst
        (λ x.
          copy_lines (length rows) width 0 (record { bytes = x; line_size = plane.line_size })
            (done ++ old) (length done)
          ≡ some (
            done ++ (packed rows ++ drop (length (packed rows)) old),
            length done + length (packed rows),
          ))
        (sym p.bytes) (copy_lines-packed rows width plane.line_size [] done old p.filled h))

length-packed :
    (width line_size : ℕ) (rows : List (Bytes × Bytes))
    → Filled width line_size rows
    → length (packed rows) ≡ length rows * width
length-packed width ls [] f = omega arith
length-packed width ls ((line, fill) ∷ []) f = omega (arith, f, length-append line [])
length-packed width ls ((line, fill) ∷ row ∷ rows) (e, f, g) =
    grind
      (arith, e, length-append line (packed (row ∷ rows)), length-packed width ls (row ∷ rows) g)

length-plane :
    (lines width : ℕ) (rows : List (Bytes × Bytes)) (plane : Plane)
    → IsPlane lines width rows plane
    → length (packed rows) ≡ lines * width
length-plane lines width rows plane p =
    length-packed width plane.line_size rows p.filled ∙ ap (λ n. n * width) p.count

-- For planes that have the lines of a picture, each line as long as the plane's pitch says, and a
-- buffer that is large enough: the lines of the three planes stand in the buffer one behind another
-- with nothing between them, the rest of the buffer is as it was, and the result is their size.
pub copy_decoded_frame-packed :
    (picture : Picture) (ys us vs : List (Bytes × Bytes)) (buffer : Bytes)
    → IsPlane picture.height picture.width ys picture.y
    → IsPlane (picture.height / 2) (picture.width / 2) us picture.u
    → IsPlane (picture.height / 2) (picture.width / 2) vs picture.v
    → picture.height * picture.width + 2 * (picture.height / 2 * (picture.width / 2))
      ≤ length buffer
    → let size = picture.height * picture.width + 2 * (picture.height / 2 * (picture.width / 2)) in
      copy_decoded_frame picture buffer
      ≡ some (packed ys ++ (packed us ++ (packed vs ++ drop size buffer)), size)
unfolding copy_decoded_frame
copy_decoded_frame-packed picture ys us vs buffer py pu pv h =
    let ny = length (packed ys) in
    let nu = length (packed us) in
    let nv = length (packed vs) in
    let ey = length-plane picture.height picture.width ys picture.y py in
    let eu = length-plane (picture.height / 2) (picture.width / 2) us picture.u pu in
    let ev = length-plane (picture.height / 2) (picture.width / 2) vs picture.v pv in
    let rest = drop nu (drop ny buffer) in
    let first : copy_lines picture.height picture.width 0 picture.y buffer 0
        ≡ some (packed ys ++ drop ny buffer, ny) =
      copy_plane picture.height picture.width ys picture.y [] buffer py (omega (arith, ey))
      ∙ ap (λ n. some (packed ys ++ drop ny buffer, n)) (omega arith) in
    let second =
      copy_plane (picture.height / 2) (picture.width / 2) us picture.u (packed ys) (drop ny buffer)
        pu (omega (arith, ey, eu, length-drop ny buffer)) in
    let third =
      moved (picture.height / 2) (picture.width / 2) picture.v.line_size refl refl
        (append_assoc (packed ys) (packed us) rest) (length-append (packed ys) (packed us))
        (copy_plane (picture.height / 2) (picture.width / 2) vs picture.v (packed ys ++ packed us)
          rest pv
          (omega (arith, ey, eu, ev, length-drop nu (drop ny buffer), length-drop ny buffer)))
        (append_assoc (packed ys) (packed us) (packed vs ++ drop nv rest)
          ∙ ap (λ z. packed ys ++ (packed us ++ (packed vs ++ z)))
              (drop-drop nu nv (drop ny buffer) ∙ drop-drop ny (nu + nv) buffer))
        (ap (λ n. n + nv) (length-append (packed ys) (packed us))) in
    let whole : ny + (nu + nv)
        ≡ picture.height * picture.width + 2 * (picture.height / 2 * (picture.width / 2)) =
      omega (arith, ey, eu, ev) in
    ap
      (λ r. r >>= λ (b, n).
        copy_lines (picture.height / 2) (picture.width / 2) 0 picture.u b n >>= λ (c, k).
        copy_lines (picture.height / 2) (picture.width / 2) 0 picture.v c k)
      first
    ∙ ap (λ r. r >>= λ (c, k). copy_lines (picture.height / 2) (picture.width / 2) 0 picture.v c k)
        second
    ∙ third
    ∙ ap₂ (λ d n. some (packed ys ++ (packed us ++ (packed vs ++ drop d buffer)), n)) whole
        (add_assoc ny nu nv ∙ whole)
