-- ===== src/Tracker/Forecast.antt =====
-- What the tracker predicts after any history: the least-squares line of its window.
use esp_clock_sync.Tracker.{Tracker}
