-- ===== src/Estimator/History.antt =====
-- `observe` keeps the window of the newest 256 samples and the fit to it, through any history.
use mathlib.Core.List.{append_assoc, append-nil}
use esp_clock_sync.Prelude.{
  ℕ, ◌*◌, ◌+◌, ◌%◌, ◌≤◌, ◌≡◌, refl, sym, ap, ap₂, ◌∙◌, List, [], ◌∷◌, ◌++◌, some, arith, ltb,
  if◌then◌else◌, length, set, somes, All, All-append, All-left, All-right, length-append,
  Bool-cases, inl, inr, Exec, ret, ◌>>=◌,
}
use esp_clock_sync.Prelude.Int.{ℤ, pos, negsuc, ◌≤ℤ◌, quot}
use esp_clock_sync.Window.{Holds, keep_last}
use esp_clock_sync.Window.Push.{
  Holds-push, Holds-rotation, Holds-sizes, Holds-new, keep_last-snoc, keep_last-All, keep_last_all,
}
use esp_clock_sync.Estimator.{Sample, Estimator, window, u32_max, new, refit, observe}
use esp_clock_sync.Estimator.Offsets.{InRange, total_rotate}
use esp_clock_sync.Estimator.Means.{mean_of}
use esp_clock_sync.Estimator.Drift.{drift_between_bounds}
use esp_clock_sync.Estimator.Residuals.{residual_us, root_le}
use esp_clock_sync.Estimator.Fit.{Fits, refit_short, refit-Fits}

-- The estimator holds the samples `xs`, oldest first, and from eight samples on its offset is the
-- mean of theirs, and its residual at most twice any bound of theirs.
pub record Inv (e : Estimator) (xs : List Sample) : Type 0 where
  pub holds : Holds window e.samples e.head e.n xs
  pub in_range : All InRange xs
  pub offset : 8 ≤ length xs → e.offset_ns ≡ mean_of xs
  pub drift_low : negsuc 999_999 ≤ℤ e.drift_ppb
  pub drift_high : e.drift_ppb ≤ℤ pos 1_000_000
  pub residual : e.residual_us_p95 ≤ u32_max
  pub within :
      8 ≤ length xs
      → (r : ℕ) → All (λ s. residual_us (mean_of xs) s ≤ r) xs
      → e.residual_us_p95 ≤ r * 2

pub new-Inv : Inv new []
unfolding new
new-Inv = record {
  holds = Holds-new window (omega arith);
  in_range = tt;
  offset = λ k. absurd (omega arith);
  drift_low = omega arith;
  drift_high = omega arith;
  residual = omega arith;
  within = λ k r all. absurd (omega arith);
}

All-rotate : (P : Sample → Type 0) (xs ys : List Sample) → All P (ys ++ xs) → All P (xs ++ ys)
All-rotate P xs ys h = All-append P xs ys (All-right P ys xs h) (All-left P ys xs h)

mean_of_rotate : (xs ys : List Sample) → mean_of (xs ++ ys) ≡ mean_of (ys ++ xs)
mean_of_rotate xs ys =
    ap₂ (λ t k. quot t (pos k)) (total_rotate xs ys)
      (omega (arith, length-append xs ys, length-append ys xs))

module _ (e : Estimator) (xs newer older : List Sample)
    (holds : Holds window e.samples e.head e.n xs) (h : All InRange xs)
    (array : somes e.samples ≡ newer ++ older) (held : xs ≡ older ++ newer) where
  -- The fit does not depend on the order of the array.
  Fits-Inv : (e' : Estimator) → Fits (somes e.samples) e e' → Inv e' xs
  Fits-Inv e' fits = record {
    holds = rw (fits.samples, fits.head, fits.n) holds;
    in_range = h;
    offset =
        λ k. fits.offset_ns ∙ ap mean_of array ∙ mean_of_rotate newer older ∙ sym (ap mean_of held);
    drift_low = rw fits.drift_ppb (drift_between_bounds fits.oldest fits.newest).0;
    drift_high = rw fits.drift_ppb (drift_between_bounds fits.oldest fits.newest).1;
    residual = rw fits.residual_us_p95 (omega arith);
    within = λ k r all.
        let mean_at : mean_of xs ≡ mean_of (somes e.samples) =
          ap mean_of held ∙ mean_of_rotate older newer ∙ sym (ap mean_of array) in
        let shown : All (λ s. residual_us (mean_of (somes e.samples)) s ≤ r) (older ++ newer) =
          rw (mean_at, held) at all in
        let turn : (m : ℤ)
            → All (λ s. residual_us m s ≤ r) (older ++ newer)
            → All (λ s. residual_us m s ≤ r) (somes e.samples) =
          λ m q. rw array (All-rotate (λ s. residual_us m s ≤ r) newer older q) in
        let turned = turn (mean_of (somes e.samples)) shown in
        let below =
          root_le (mean_of (somes e.samples)) (somes e.samples) fits.root r fits.root_below
            turned in
        rw fits.residual_us_p95 (ground arith);
  }

  array-InRange : All InRange (somes e.samples)
  array-InRange = rw array (All-rotate InRange newer older (rw held at h))

  length_array : length (somes e.samples) ≡ length xs
  length_array =
      rw (array, held) (omega (arith, length-append newer older, length-append older newer))

  refit-Inv :
      negsuc 999_999 ≤ℤ e.drift_ppb
      → e.drift_ppb ≤ℤ pos 1_000_000
      → e.residual_us_p95 ≤ u32_max
      → length xs ≤ 256
      → (e' : Estimator) × (refit e ≡ ret e') × Inv e' xs × (e'.last_update_us ≡ e.last_update_us)
  refit-Inv lo hi r k256 = elim (Bool-cases (ltb (length xs) 8)) [
    | inl short ↦ (
      e,
      refit_short e array-InRange (ground (arith, length_array)),
      record {
        holds = holds;
        in_range = h;
        offset = λ k. absurd (ground arith);
        drift_low = lo;
        drift_high = hi;
        residual = r;
        within = λ k m all. absurd (ground arith);
      },
      refl,
    )
    | inr long ↦
        let (e', runs, fits) =
          refit-Fits e array-InRange (ground (arith, length_array)) (omega (arith, length_array)) in
        (e', runs, Fits-Inv e' fits, fits.last_update_us)
  ]

-- An observation in range ends with no panic: the estimator then holds the newest 256 samples, and
-- from eight on its offset is the mean of theirs.
pub observe-Inv :
    (e : Estimator) (xs : List Sample) (s : Sample)
    → Inv e xs
    → InRange s
    → (e' : Estimator) × (observe e s ≡ ret e')
      × Inv e' (keep_last window (xs ++ s ∷ []))
      × (e'.last_update_us ≡ s.local_us)
unfolding observe
observe-Inv e xs s v h =
    let sizes = Holds-sizes window _ _ _ xs v.holds in
    let holds = Holds-push window _ _ _ xs s v.holds in
    let ys = keep_last window (xs ++ s ∷ []) in
    let (newer, older, array, held) = Holds-rotation window _ _ _ ys holds in
    let ranges : All InRange ys =
      keep_last-All InRange window (xs ++ s ∷ [])
        (All-append InRange xs (s ∷ []) v.in_range (h, tt)) in
    let sizes' = Holds-sizes window _ _ _ ys holds in
    let pushed : Estimator = record e {
      samples = set e.samples e.head (some s);
      head = (e.head + 1) % window;
      n = if ltb e.n window then e.n + 1 else e.n;
      last_update_us = s.local_us;
    } in
    let (e', runs, inv, last) =
      refit-Inv pushed ys newer older holds ranges array held v.drift_low v.drift_high v.residual
        (omega arith) in
    (e', ground (arith, runs), inv, last)

-- The observations of a history, one after the other.
pub observe_all : Estimator → List Sample → Exec Estimator
observe_all e [] = ret e
observe_all e (s ∷ ss) = observe e s >>= λ e'. observe_all e' ss

observe_all-Inv :
    (ss : List Sample) (e : Estimator) (ys : List Sample)
    → Inv e (keep_last window ys)
    → All InRange ss
    → (e' : Estimator) × (observe_all e ss ≡ ret e') × Inv e' (keep_last window (ys ++ ss))
unfolding observe_all
observe_all-Inv [] e ys v h = (e, refl, rw append-nil v)
observe_all-Inv (s ∷ ss) e ys v h =
    let (e', runs, inv, last) = observe-Inv e (keep_last window ys) s v h.0 in
    let next : Inv e' (keep_last window (ys ++ s ∷ [])) =
      rw (keep_last-snoc window ys s (omega arith)) at inv in
    let (e'', more, final) = observe_all-Inv ss e' (ys ++ s ∷ []) next h.1 in
    (e'', rw runs more, rw append_assoc at final)

-- After any history of samples in range a new estimator has not panicked, it holds the newest 256
-- of them, and from eight samples on its offset is the mean of theirs and its reported residual is at
-- most twice any bound of their residuals in µs.
pub observe_all-new :
    (ss : List Sample)
    → All InRange ss
    → (e : Estimator) × (observe_all new ss ≡ ret e) × Inv e (keep_last window ss)
observe_all-new ss h =
    observe_all-Inv ss new [] (rw (keep_last_all {A = Sample} window [] (omega arith)) new-Inv) h
