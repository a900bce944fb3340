-- ===== src/Client/Anchor.antt =====
-- The conversions through the anchor of the latest beacon.
use esp_clock_sync.Prelude.{ℕ, ◌+◌, ◌-◌, ◌/◌, ◌^◌, ◌≤◌, ◌<◌, ◌≡◌, refl, ap, ◌∙◌, some, arith}
use esp_clock_sync.Prelude.Int.{pos, ◌+ℤ◌, ◌-ℤ◌, int_laws, -ℤ_parts}
use esp_clock_sync.Prelude.Words.{signed-small, wrap_i-fits, wrap_u-small}
use esp_clock_sync.Estimator.Queries.{synced_ns_at-local_us_at}
use esp_clock_sync.Client.Handle.{own_tsf_at, synced_ns_at_own_tsf}
use esp_clock_sync.Client.{Client, BeaconAnchor}
use esp_clock_sync.Client.Conversions.{shift_tsf, own_tsf_to_ap_tsf}

add_sub : (b t a : ℕ) → a ≤ b + t → pos b +ℤ (pos t -ℤ pos a) ≡ pos (b + t - a)
add_sub b t a h = omega int_laws

shift_tsf-some :
    (a b t : ℕ)
    → a < 2 ^ 63
    → b < 2 ^ 63
    → t < 2 ^ 63
    → a ≤ b + t
    → b + t < a + 2 ^ 63
    → shift_tsf a b t ≡ some (b + t - a)
unfolding shift_tsf
shift_tsf-some a b t ha hb ht low high =
    let d = -ℤ_parts (pos t) (pos a) in
    rw
      (
        signed-small 64 a (omega arith),
        signed-small 64 b (omega arith),
        signed-small 64 t (omega arith),
        wrap_i-fits 64 (pos t -ℤ pos a) (omega arith) (omega arith),
        add_sub b t a low,
        wrap_i-fits 64 (pos (b + t - a)) (omega arith) (omega arith),
        wrap_u-small 64 (b + t - a) (omega arith),
      )
      (ground arith)

-- The time at which the server's clock will read `server_ns`, asked for and then converted back, is
-- at most 999 ns before it. The TSF clocks and the answer are below 2^63, so that the wrapping
-- arithmetic is exact.
pub synced_ns_at_own_tsf-own_tsf_at :
    (c : Client) (a : BeaconAnchor) (offset server_ns : ℕ)
    → c.latest_beacon ≡ some a
    → 8 ≤ c.udp_est.n
    → c.udp_est.offset_ns ≡ pos offset
    → offset ≤ server_ns
    → server_ns < offset + 2 ^ 63
    → server_ns < 2 ^ 73
    → a.own_tsf_us < 2 ^ 63
    → a.ap_tsf_us < 2 ^ 63
    → a.ap_tsf_us ≤ a.own_tsf_us + (server_ns - offset) / 1_000
    → a.own_tsf_us + (server_ns - offset) / 1_000 < a.ap_tsf_us + 2 ^ 63
    → (t p : ℕ) × (own_tsf_at c server_ns ≡ some t)
      × (synced_ns_at_own_tsf c t ≡ some p)
      × (p ≤ server_ns)
      × (server_ns < p + 1_000)
unfolding own_tsf_at synced_ns_at_own_tsf own_tsf_to_ap_tsf
synced_ns_at_own_tsf-own_tsf_at c a offset s anchor k e_o lo near hs ha hb early late =
    let (u, p, at_u, at_p, below, above, e_u) =
      synced_ns_at-local_us_at c.udp_est offset s k e_o lo hs in
    let to_own =
      shift_tsf-some a.ap_tsf_us a.own_tsf_us u hb ha (omega arith) (omega arith) (omega arith) in
    let back : shift_tsf a.own_tsf_us a.ap_tsf_us (a.own_tsf_us + u - a.ap_tsf_us) ≡ some u =
      shift_tsf-some a.own_tsf_us a.ap_tsf_us (a.own_tsf_us + u - a.ap_tsf_us) ha hb (omega arith)
        (omega arith) (omega arith)
      ∙ ap some (omega arith) in
    (
      a.own_tsf_us + u - a.ap_tsf_us,
      p,
      rw (at_u, anchor, to_own) refl,
      rw (anchor, back, at_p) refl,
      below,
      above,
    )
