-- ===== src/Tracker/History.antt =====
-- `observe` of the tracker keeps the window of the newest 256 samples and a line within its bounds,
-- through any history.
use mathlib.Core.List.{append_assoc, append-nil}
use esp_clock_sync.Prelude.{
  ◌+◌, ◌^◌, ◌%◌, ◌≤◌, ◌<◌, ◌≡◌, refl, List, [], ◌∷◌, ◌++◌, some, arith, ltb, if◌then◌else◌, length,
  set, somes, All, All-append, All-left, All-right, length-append, Exec, ret, ◌>>=◌,
}
use esp_clock_sync.Prelude.Int.{abs}
use esp_clock_sync.Window.{Holds, keep_last}
use esp_clock_sync.Window.Push.{
  Holds-push, Holds-rotation, Holds-sizes, Holds-new, keep_last-snoc, keep_last-All,
}
use esp_clock_sync.Tracker.{Tracker, Sample, window, new, refit, observe}
use esp_clock_sync.Tracker.Fit.{InRange}
use esp_clock_sync.Tracker.Line.{IsLine}
use esp_clock_sync.Tracker.Refit.{refit-IsRefit}

-- The tracker holds the samples `xs`, oldest first, and its line is within the bounds.
pub record Inv (t : Tracker) (xs : List Sample) : Type 0 where
  pub holds : Holds window t.samples t.head t.n xs
  pub in_range : All InRange xs
  pub line : IsLine t

pub new-Inv : Inv new []
unfolding new
new-Inv = record {
  holds = Holds-new window (omega arith);
  in_range = tt;
  line = record {
    slope = (omega arith, omega arith);
    mean_x = (omega arith, omega arith);
    mean_y = (omega arith, omega arith);
  };
}

refit-Inv :
    (t : Tracker) (xs newer older : List Sample)
    → Holds window t.samples t.head t.n xs
    → All InRange xs
    → IsLine t
    → abs t.last_x < 2 ^ 56
    → somes t.samples ≡ newer ++ older
    → xs ≡ older ++ newer
    → length xs ≤ 256
    → (t' : Tracker) × (refit t ≡ ret t') × Inv t' xs
refit-Inv t xs newer older holds h line last array held few =
    let range : All InRange (older ++ newer) = rw held at h in
    let shown : All InRange (somes t.samples) = rw array (
      All-append InRange newer older (All-right InRange older newer range)
        (All-left InRange older newer range)) in
    let len : length (somes t.samples) ≡ length xs =
      rw (array, held) (omega (arith, length-append newer older, length-append older newer)) in
    let (t', runs, fit) = refit-IsRefit t line last shown (omega arith) in
    (
      t',
      runs,
      record { holds = rw (fit.samples, fit.head, fit.n) holds; in_range = h; line = fit.line },
    )

observe-Inv :
    (t : Tracker) (xs : List Sample) (s : Sample)
    → Inv t xs
    → InRange s
    → (t' : Tracker) × (observe t s.0 s.1 ≡ ret t') × Inv t' (keep_last window (xs ++ s ∷ []))
unfolding observe
observe-Inv t xs s v h =
    let sizes = Holds-sizes window _ _ _ xs v.holds in
    let holds = Holds-push window _ _ _ xs s v.holds in
    let ys = keep_last window (xs ++ s ∷ []) in
    let (newer, older, array, held) = Holds-rotation window _ _ _ ys holds in
    let ranges : All InRange ys =
      keep_last-All InRange window (xs ++ s ∷ [])
        (All-append InRange xs (s ∷ []) v.in_range (h, tt)) in
    let sizes' = Holds-sizes window _ _ _ ys holds in
    let pushed : Tracker = record t {
      samples = set t.samples t.head (some s);
      head = (t.head + 1) % window;
      n = if ltb t.n window then t.n + 1 else t.n;
      last_x = s.0;
    } in
    let (t', runs, inv) =
      refit-Inv pushed ys newer older holds ranges
        (record { slope = v.line.slope; mean_x = v.line.mean_x; mean_y = v.line.mean_y }) h.0 array
        held (omega arith) in
    (t', ground (arith, runs), inv)

-- The observations of a history, one after the other.
unfoldable pub observe_all : Tracker → List Sample → Exec Tracker
observe_all t [] = ret t
observe_all t (s ∷ ss) = observe t s.0 s.1 >>= λ t'. observe_all t' ss

pub observe_all-Inv :
    (ss : List Sample) (t : Tracker) (ys : List Sample)
    → Inv t (keep_last window ys)
    → All InRange ss
    → (t' : Tracker) × (observe_all t ss ≡ ret t') × Inv t' (keep_last window (ys ++ ss))
unfolding observe_all
observe_all-Inv [] t ys v h = (t, refl, rw append-nil v)
observe_all-Inv (s ∷ ss) t ys v h =
    let (t', runs, inv) = observe-Inv t (keep_last window ys) s v h.0 in
    let next : Inv t' (keep_last window (ys ++ s ∷ [])) =
      rw (keep_last-snoc window ys s (omega arith)) at inv in
    let (t'', more, final) = observe_all-Inv ss t' (ys ++ s ∷ []) next h.1 in
    (t'', rw runs more, rw append_assoc at final)
