-- ===== src/Tracker/Refit.antt =====
-- `refit` of the tracker on samples in range: no panic, and the line that it stores.
use esp_clock_sync.Prelude.{
  ℕ, ◌+◌, ◌*◌, ◌^◌, ◌≤◌, ◌<◌, ◌≡◌, refl, ◌∙◌, false, inl, inr, arith, length, somes, All,
  Bool-cases, ltb, ret,
}
use esp_clock_sync.Prelude.Int.{
  ℤ, pos, neg_part, ◌+ℤ◌, quot, abs, eqb_ℤ, int_laws, pos_of_nonneg, pos_zero_add,
}
use esp_clock_sync.Prelude.Words.{div_i-ret}
use esp_clock_sync.Tracker.{Tracker, min_samples, fit_line, refit}
use esp_clock_sync.Tracker.Fit.{
  InRange, total_dx, total_y, total_dx_bound, total_y_bound, sums-ret, mean_bound,
}
use esp_clock_sync.Tracker.Moments.{total_num, total_den, total_den_nonneg, moments-ret}
use esp_clock_sync.Tracker.Line.{
  IsLine, IsRefit, line_of, set_line-ret, line_of-IsRefit, same-IsRefit,
}

eqb_ℤ_pos : (a : ℤ) → neg_part a ≡ 0 → eqb_ℤ a (pos 0) ≡ false → (d : ℕ) × (a ≡ pos d) × (0 < d)
eqb_ℤ_pos a h e = let (d, is) = pos_of_nonneg a (omega int_laws) in (d, is, ground arith)

module _ (t : Tracker) (v : IsLine t) (ha : abs t.last_x < 2 ^ 56)
    (h : All InRange (somes t.samples)) (few : length (somes t.samples) ≤ 256) where
  -- Where the samples differ in time, the line is that of the two sums.
  fit_line-line_of :
      (sum_dx sum_y : ℤ) (k : ℕ)
      → 0 < k
      → k ≤ 256
      → abs sum_dx ≤ k * 2 ^ 57
      → abs sum_y ≤ k * 2 ^ 56
      → eqb_ℤ (total_den t.last_x (quot sum_dx (pos k)) (somes t.samples)) (pos 0) ≡ false
      → (d : ℕ) × (fit_line t sum_dx sum_y k
          ≡ ret (
              line_of t
                (quot sum_dx (pos k))
                (quot sum_y (pos k))
                (pos 0
                  +ℤ total_num t.last_x
                      (quot sum_dx (pos k))
                      (quot sum_y (pos k))
                      (somes t.samples))
                d))
        × (total_den t.last_x (quot sum_dx (pos k)) (somes t.samples) ≡ pos d)
  unfolding fit_line
  fit_line-line_of sum_dx sum_y k pos_k hk p q wide =
      let mean_dx = quot sum_dx (pos k) in
      let bx = mean_bound sum_dx k (2 ^ 57) pos_k p in
      let by = mean_bound sum_y k (2 ^ 56) pos_k q in
      let num = total_num t.last_x (quot sum_dx (pos k)) (quot sum_y (pos k)) (somes t.samples) in
      let den = total_den t.last_x (quot sum_dx (pos k)) (somes t.samples) in
      let loop =
        moments-ret t.last_x (quot sum_dx (pos k)) (quot sum_y (pos k)) ha bx by (somes t.samples)
          (pos 0) (pos 0) 0 h (omega arith) (omega arith) (omega arith) in
      let (d, is, pos_d) =
        eqb_ℤ_pos den (total_den_nonneg t.last_x mean_dx (somes t.samples)) wide in
      (
        d,
        rw
            (
              div_i-ret 128 sum_dx k pos_k (omega arith, omega arith),
              div_i-ret 128 sum_y k pos_k (omega arith, omega arith),
              loop,
              pos_zero_add den,
              wide,
              is,
            )
            (set_line-ret t (quot sum_dx (pos k)) (quot sum_y (pos k)) (pos 0 +ℤ num) d ha bx by
              pos_d),
        is,
      )

  fit_line-IsRefit :
      (sum_dx sum_y : ℤ) (k : ℕ)
      → 0 < k
      → k ≤ 256
      → abs sum_dx ≤ k * 2 ^ 57
      → abs sum_y ≤ k * 2 ^ 56
      → (t' : Tracker) × (fit_line t sum_dx sum_y k ≡ ret t') × IsRefit t t'
  unfolding fit_line
  fit_line-IsRefit sum_dx sum_y k pos_k hk p q =
      let bx = mean_bound sum_dx k (2 ^ 57) pos_k p in
      let by = mean_bound sum_y k (2 ^ 56) pos_k q in
      let num = total_num t.last_x (quot sum_dx (pos k)) (quot sum_y (pos k)) (somes t.samples) in
      let den = total_den t.last_x (quot sum_dx (pos k)) (somes t.samples) in
      let divides_x = div_i-ret 128 sum_dx k pos_k (omega arith, omega arith) in
      let divides_y = div_i-ret 128 sum_y k pos_k (omega arith, omega arith) in
      let loop =
        moments-ret t.last_x (quot sum_dx (pos k)) (quot sum_y (pos k)) ha bx by (somes t.samples)
          (pos 0) (pos 0) 0 h (omega arith) (omega arith) (omega arith) in
      elim (Bool-cases
        (eqb_ℤ (total_den t.last_x (quot sum_dx (pos k)) (somes t.samples)) (pos 0))) [
          | inl flat ↦
              (t, rw (divides_x, divides_y, loop, pos_zero_add den, flat) refl, same-IsRefit t v)
          | inr wide ↦
              let (d, runs, at_d) = fit_line-line_of sum_dx sum_y k pos_k hk p q wide in
              (
                line_of t (quot sum_dx (pos k)) (quot sum_y (pos k)) (pos 0 +ℤ num) d,
                runs,
                line_of-IsRefit t (quot sum_dx (pos k)) (quot sum_y (pos k)) (pos 0 +ℤ num) d ha bx
                    by,
              )
        ]

  -- `refit` up to its line.
  refit-fit_line :
      8 ≤ length (somes t.samples)
      → refit t
        ≡ fit_line t
            (total_dx t.last_x (somes t.samples))
            (total_y (somes t.samples))
            (length (somes t.samples))
  unfolding refit
  refit-fit_line many =
      let loop =
        sums-ret t.last_x (somes t.samples) (pos 0) (pos 0) 0 ha h (omega arith) (omega arith)
          (omega arith) in
      let zero_k : 0 + length (somes t.samples) ≡ length (somes t.samples) = omega arith in
      let long : ltb (length (somes t.samples)) min_samples ≡ false = ground arith in
      rw
        (
          loop,
          zero_k,
          long,
          pos_zero_add (total_dx t.last_x (somes t.samples)),
          pos_zero_add (total_y (somes t.samples)),
        )
        refl

  -- From eight samples on, not all at one time, `refit` stores the line of their sums.
  pub refit-line_of :
      8 ≤ length (somes t.samples)
      → eqb_ℤ
          (total_den t.last_x
            (quot (total_dx t.last_x (somes t.samples)) (pos (length (somes t.samples))))
            (somes t.samples))
          (pos 0)
        ≡ false
      → let k = length (somes t.samples) in
        let mean_dx = quot (total_dx t.last_x (somes t.samples)) (pos k) in
        let mean_y = quot (total_y (somes t.samples)) (pos k) in
        (d : ℕ) × (refit t
          ≡ ret (
              line_of t mean_dx mean_y
                (pos 0 +ℤ total_num t.last_x mean_dx mean_y (somes t.samples))
                d))
        × IsRefit t (
            line_of t mean_dx mean_y
              (pos 0 +ℤ total_num t.last_x mean_dx mean_y (somes t.samples))
              d)
        × (total_den t.last_x mean_dx (somes t.samples) ≡ pos d)
  refit-line_of many wide =
      let ss = somes t.samples in
      let k = length (somes t.samples) in
      let px = total_dx_bound t.last_x (somes t.samples) ha h in
      let py = total_y_bound (somes t.samples) h in
      let sum_dx = total_dx t.last_x (somes t.samples) in
      let sum_y = total_y (somes t.samples) in
      let (d, runs, at_d) =
        fit_line-line_of (total_dx t.last_x (somes t.samples)) (total_y (somes t.samples))
          (length (somes t.samples)) (omega arith) few px py wide in
      (
        d,
        refit-fit_line many ∙ runs,
        line_of-IsRefit t _ _ _ d ha (mean_bound sum_dx k (2 ^ 57) (omega arith) px)
            (mean_bound sum_y k (2 ^ 56) (omega arith) py),
        at_d,
      )

  -- `refit` ends with no panic, and with a line within its bounds.
  pub refit-IsRefit : (t' : Tracker) × (refit t ≡ ret t') × IsRefit t t'
  unfolding refit
  refit-IsRefit =
      let k = length (somes t.samples) in
      let loop =
        sums-ret t.last_x (somes t.samples) (pos 0) (pos 0) 0 ha h (omega arith) (omega arith)
          (omega arith) in
      let zero_k : 0 + length (somes t.samples) ≡ length (somes t.samples) = omega arith in
      elim (Bool-cases (ltb (length (somes t.samples)) min_samples)) [
        | inl short ↦ (t, rw (loop, zero_k, short) refl, same-IsRefit t v)
        | inr long ↦
            let (t', runs, fit) =
              fit_line-IsRefit (total_dx t.last_x (somes t.samples)) (total_y (somes t.samples))
                (length (somes t.samples)) (ground arith) few
                (total_dx_bound t.last_x (somes t.samples) ha h)
                (total_y_bound (somes t.samples) h) in
            (t', refit-fit_line (ground arith) ∙ runs, fit)
      ]
