-- ===== src/Tracker/Exact.antt =====
-- The tracker predicts a value that has been constant for a window exactly.
use esp_clock_sync.Prelude.{
  ◌+◌, ◌%◌, ◌≤◌, ◌≡◌, refl, ap, ◌∙◌, arith, List, [], ◌∷◌, ◌++◌, some, ltb, if◌then◌else◌, length,
  set, somes, All, All-append, All-left, All-right, length-append, ret, bind_ret, bind_then, ◌>>=◌,
}
use esp_clock_sync.Prelude.Int.{ℤ, pos, ◌+ℤ◌, ◌-ℤ◌, shr, -ℤ_parts, int_laws}
use esp_clock_sync.Prelude.Words.{FitsI, checked_i, checked_i-ret, wrap_i-fits}
use esp_clock_sync.Window.{keep_last}
use esp_clock_sync.Window.Push.{
  Holds-push, Holds-rotation, Holds-sizes, keep_last-All, keep_last_all, keep_last-snoc,
}
use esp_clock_sync.Tracker.{Tracker, Sample, window, new, observe, on_line, predict}
use esp_clock_sync.Tracker.Fit.{InRange}
use esp_clock_sync.Tracker.Line.{IsLine}
use esp_clock_sync.Tracker.History.{Inv, new-Inv, observe_all, observe_all-Inv}
use esp_clock_sync.Tracker.Constant.{IsConstant, IsSpread, IsFlat, times_zero, refit-IsFlat}

-- A flat line predicts its value at every time.
predict-IsFlat :
    (t : Tracker) (c x : ℤ)
    → 8 ≤ t.n
    → IsLine t
    → IsFlat t c
    → FitsI 62 x
    → predict t x ≡ ret (some c)
unfolding predict on_line shr checked_i
predict-IsFlat t c x k v flat hx =
    let d = -ℤ_parts x t.mean_x in
    let hm = v.mean_x in
    let hy = v.mean_y in
    let at_c = flat.mean_y in
    let same : t.mean_y +ℤ pos 0 ≡ t.mean_y = omega int_laws in
    rw
      (
        checked_i-ret 128 (x -ℤ t.mean_x) (omega arith, omega arith),
        flat.slope,
        times_zero (x -ℤ t.mean_x),
        same,
        checked_i-ret 128 t.mean_y (omega arith, omega arith),
        wrap_i-fits 64 t.mean_y (omega arith) (omega arith, omega arith),
      )
      (ground (arith, at_c))

module _ (t : Tracker) (xs : List Sample) (s : Sample) (c : ℤ) (v : Inv t xs) (h : InRange s) where
  pub observe-IsFlat :
      8 ≤ length (keep_last window (xs ++ s ∷ []))
      → IsConstant c (keep_last window (xs ++ s ∷ []))
      → IsSpread (keep_last window (xs ++ s ∷ []))
      → (t' : Tracker) × (observe t s.0 s.1 ≡ ret t') × IsLine t' × IsFlat t' c × (8 ≤ t'.n)
  unfolding observe
  observe-IsFlat many constant spread =
      let sizes = Holds-sizes window _ _ _ xs v.holds in
      let holds = Holds-push window _ _ _ xs s v.holds in
      let ys = keep_last window (xs ++ s ∷ []) in
      let (newer, older, array, held) = Holds-rotation window _ _ _ ys holds in
      let ranges : All InRange ys =
        keep_last-All InRange window (xs ++ s ∷ [])
          (All-append InRange xs (s ∷ []) v.in_range (h, tt)) in
      let sizes' = Holds-sizes window _ _ _ ys holds in
      let pushed : Tracker = record t {
        samples = set t.samples t.head (some s);
        head = (t.head + 1) % window;
        n = if ltb t.n window then t.n + 1 else t.n;
        last_x = s.0;
      } in
      let swap : (P : Sample → Type 0) → All P ys → All P (somes pushed.samples) = λ P all.
        let both : All P (older ++ newer) = rw held at all in
        rw array
          (All-append P newer older (All-right P older newer both) (All-left P older newer both)) in
      let back : (P : Sample → Type 0) → All P (somes pushed.samples) → All P ys = λ P all.
        let both : All P (newer ++ older) = rw array at all in
        rw held
          (All-append P older newer (All-right P newer older both) (All-left P newer older both)) in
      let len : length (somes pushed.samples) ≡ length ys =
        rw (array, held) (omega (arith, length-append newer older, length-append older newer)) in
      let (t', runs, is, flat) =
        refit-IsFlat pushed c
          (record { slope = v.line.slope; mean_x = v.line.mean_x; mean_y = v.line.mean_y }) h.0
          (swap InRange ranges) (omega arith) (omega arith) (swap (λ u. u.1 ≡ c) constant)
          (λ x all. spread x (back (λ u. u.0 ≡ x) all)) in
      let same_n = is.n in (t', ground (arith, runs), is.line, flat, omega (arith, is.n, sizes'.0))

observe_all-append :
    (ss us : List Sample) (t : Tracker)
    → observe_all t (ss ++ us) ≡ (observe_all t ss >>= λ t'. observe_all t' us)
unfolding observe_all
observe_all-append [] us t = refl
observe_all-append (s ∷ ss) us t =
    bind_then (observe t s.0 s.1) (λ t'. observe_all t' (ss ++ us)) (λ t'. observe_all t' ss)
      (λ t'. observe_all t' us) (λ t'. observe_all-append ss us t')

pub observe_all-snoc :
    (ss : List Sample) (t t1 : Tracker) (s : Sample)
    → observe_all t ss ≡ ret t1
    → observe_all t (ss ++ s ∷ []) ≡ observe t1 s.0 s.1
unfolding observe_all
observe_all-snoc ss t t1 s h =
    observe_all-append ss (s ∷ []) t
    ∙ ap (λ e. e >>= λ t'. observe t' s.0 s.1 >>= ret) h
    ∙ bind_ret (observe t1 s.0 s.1)

-- Once the newest samples of a history, 256 of them or as many as there are and at least eight, have
-- one value and not all one time, the tracker, which has not panicked, predicts exactly that value at
-- every time of 62 bits, whatever came before.
pub observe_all-predict_constant :
    (ss : List Sample) (s : Sample) (c x : ℤ)
    → All InRange ss
    → InRange s
    → 8 ≤ length (keep_last window (ss ++ s ∷ []))
    → IsConstant c (keep_last window (ss ++ s ∷ []))
    → IsSpread (keep_last window (ss ++ s ∷ []))
    → FitsI 62 x
    → (t : Tracker) × (observe_all new (ss ++ s ∷ []) ≡ ret t) × (predict t x ≡ ret (some c))
observe_all-predict_constant ss s c x h hs many constant spread hx =
    let (t1, before, inv) =
      observe_all-Inv ss new [] (rw (keep_last_all {A = Sample} window [] (omega arith)) new-Inv)
        h in
    let snoc : keep_last window (keep_last window ss ++ s ∷ []) ≡ keep_last window (ss ++ s ∷ []) =
      keep_last-snoc window ss s (omega arith) in
    let (t, runs, line, flat, eight) =
      observe-IsFlat t1 (keep_last window ss) s c inv hs (rw snoc many) (rw snoc constant)
        (rw snoc spread) in
    (t, observe_all-snoc ss new t1 s before ∙ runs, predict-IsFlat t c x eight line flat hx)
