-- ===== src/Jitter/Size.antt =====
-- The jitter buffer's size, however often the buffer runs empty.
use native.Mathlib.Nat.{pow-succ'}
use server_side_custom_video.Prelude.{
  ℕ, suc, ◌*◌, ◌^◌, ◌-◌, ◌≤◌, ◌<◌, ◌≡◌, refl, sym, ap, ◌∙◌, ◌⊎◌, inl, inr, List, [], ◌∷◌, length,
  arith,
}
use server_side_custom_video.Jitter.{Buffering, start_buffering, resize_buffer, fill_in, refill}

-- what a size may become: doubled so often, and from below the maximum each time
pub record Doubled (max jb rounds result : ℕ) : Type 0 where
  pub doublings : ℕ
  pub few : doublings ≤ rounds
  pub value : result ≡ jb * 2 ^ doublings
  pub bounded : (result ≡ jb) ⊎ (result < 2 * max)

pow-suc : (a k : ℕ) → a * 2 ^ suc k ≡ a * 2 * 2 ^ k
pow-suc a k = grind (arith, pow-succ' 2 k)

Doubled-same : (max : ℕ) {b c n r : ℕ} → Doubled max c n r → c ≡ b → Doubled max b (suc n) r
Doubled-same max d e = record {
  doublings = d.doublings;
  few = omega (arith, d.few);
  value = d.value ∙ ap (λ z. z * 2 ^ d.doublings) e;
  bounded = elim d.bounded [ inl same ↦ inl (same ∙ e) | inr l ↦ inr l ];
}

Doubled-twice :
    (max : ℕ) {b c n r : ℕ} → Doubled max c n r → c ≡ b * 2 → b < max → Doubled max b (suc n) r
Doubled-twice max {b} d e low = record {
  doublings = suc d.doublings;
  few = omega (arith, d.few);
  value = d.value ∙ ap (λ z. z * 2 ^ d.doublings) e ∙ sym (pow-suc b d.doublings);
  bounded = elim d.bounded [ inl same ↦ inr (omega arith) | inr l ↦ inr l ];
}

module _ (max time_to_increase : ℕ) where
  -- one round
  fill_in-size :
      (now later : ℕ) (b : Buffering)
      → max ≤ 2 ^ 15
      → let r = (fill_in max time_to_increase now later b).jb_size in
        (r ≡ b.jb_size) ⊎ ((r ≡ b.jb_size * 2) × (b.jb_size < max))
  unfolding fill_in resize_buffer
  fill_in-size now later b m = ground arith

  refill-Doubled :
      (clock : List (ℕ × ℕ)) (b : Buffering)
      → max ≤ 2 ^ 15
      → Doubled max b.jb_size (length clock) (refill max time_to_increase clock b).jb_size
  unfolding refill
  refill-Doubled [] b m = record {
    doublings = 0;
    few = omega arith;
    value = omega arith;
    bounded = inl refl;
  }
  refill-Doubled ((now, later) ∷ clock) b m =
      let c = fill_in max time_to_increase now later b in
      let d = refill-Doubled clock c m in
      elim (fill_in-size now later b m) [
        | inl same ↦ Doubled-same max d same
        | inr (twice, low) ↦ Doubled-twice max d twice low
      ]

  first-size :
      (initial start now later : ℕ)
      → (fill_in max time_to_increase now later (start_buffering initial start)).jb_size ≡ initial
  unfolding fill_in resize_buffer
  first-size initial start now later = ground arith

-- However often the buffer runs empty, and at whatever times, with a maximum of at most 32768: the
-- size is the initial one doubled some times, not at the first round, so it never wraps around or
-- shrinks, and it is the initial one or less than twice the maximum.
pub jb_size-doublings :
    (max time_to_increase initial start : ℕ) (clock : List (ℕ × ℕ))
    → max ≤ 2 ^ 15
    → let size = (refill max time_to_increase clock (start_buffering initial start)).jb_size in
      ((k : ℕ) × (k ≤ length clock - 1) × (size ≡ initial * 2 ^ k))
      × ((size ≡ initial) ⊎ (size < 2 * max))
unfolding refill
jb_size-doublings max ti initial start [] m = ((0, omega arith, omega arith), inl refl)
jb_size-doublings max ti initial start ((now, later) ∷ clock) m =
    let b = fill_in max ti now later (start_buffering initial start) in
    let d = refill-Doubled max ti clock b m in
    let e = first-size max ti initial start now later in
    (
      (d.doublings, omega (arith, d.few), d.value ∙ ap (λ z. z * 2 ^ d.doublings) e),
      elim d.bounded [ inl same ↦ inl (same ∙ e) | inr l ↦ inr l ],
    )
