-- ===== src/Firmware/Connection.antt =====
-- crates/clock-sync-firmware/src/main.rs, `connection`: the calls of the WiFi driver in a round, given
-- its answers. The name and the password of the network, which every configuration has, are left out.
-- The loop of the test rig is the same but for the access point that it asks for.
use esp_clock_sync.Prelude.{
  ℕ, ◌≡◌, refl, Bool, true, false, List, [], ◌∷◌, ◌++◌, Option, none, if◌then◌else◌, Exec, ret,
  panic, ◌>>=◌,
}

-- What the driver answers in a round.
pub record Answers : Type 0 where
  pub connected : Bool
  pub started : Bool
  pub set_config_ok : Bool
  pub start_ok : Bool
  pub connect_ok : Bool

pub data Call : Type 0 where
  wait_disconnected : Call
  sleep_ms : (n : ℕ) → Call
  set_config : (bssid : Option (List ℕ)) → Call
  start_async : Call
  connect_async : Call

-- `unwrap` of a result
abbrev pub unwrap : Bool → List Call → Exec (List Call)
unwrap ok calls = if ok then ret calls else panic

abbrev pub await_loss : Answers → List Call
await_loss a = if a.connected then wait_disconnected ∷ sleep_ms 2_000 ∷ [] else []

abbrev pub bring_up : Option (List ℕ) → Answers → Exec (List Call)
bring_up bssid a =
    let start = unwrap a.start_ok (set_config bssid ∷ start_async ∷ []) in
    let configured = if a.set_config_ok then start else panic in
    if a.started then ret [] else configured

abbrev pub attempt : Answers → List Call
attempt a = if a.connect_ok then connect_async ∷ [] else connect_async ∷ sleep_ms 3_000 ∷ []

-- One round, with the access point to ask for.
unfoldable pub connection_round : Option (List ℕ) → Answers → Exec (List Call)
connection_round bssid a = do up ← bring_up bssid a; ret (await_loss a ++ (up ++ attempt a))

abbrev pub connection : Answers → Exec (List Call)
connection a = connection_round none a

-- Every attempt to connect finds the controller started: it was so, or a start comes before.
abbrev pub IsOrdered : Bool → List Call → Type 0
IsOrdered up [] = Unit
IsOrdered up (wait_disconnected ∷ calls) = IsOrdered up calls
IsOrdered up (sleep_ms n ∷ calls) = IsOrdered up calls
IsOrdered up (set_config bssid ∷ calls) = (up ≡ false) × IsOrdered up calls
IsOrdered up (start_async ∷ calls) = IsOrdered true calls
IsOrdered up (connect_async ∷ calls) = (up ≡ true) × IsOrdered up calls

-- The answers, as one record.
abbrev answers : Bool → Bool → Bool → Bool → Bool → Answers
answers c s f t k = record {
  connected = c;
  started = s;
  set_config_ok = f;
  start_ok = t;
  connect_ok = k;
}

-- Where the driver takes the configuration and the start, a round ends with no panic. It configures
-- the controller only before it starts it, and connects only once it is started.
pub connection_round-IsOrdered :
    (bssid : Option (List ℕ)) (c s k : Bool)
    → (calls : List Call) × (connection_round bssid (answers c s true true k) ≡ ret calls)
      × IsOrdered s calls
unfolding connection_round
connection_round-IsOrdered bssid true true true = (_, refl, (refl, tt))
connection_round-IsOrdered bssid true true false = (_, refl, (refl, tt))
connection_round-IsOrdered bssid true false true = (_, refl, (refl, (refl, tt)))
connection_round-IsOrdered bssid true false false = (_, refl, (refl, (refl, tt)))
connection_round-IsOrdered bssid false true true = (_, refl, (refl, tt))
connection_round-IsOrdered bssid false true false = (_, refl, (refl, tt))
connection_round-IsOrdered bssid false false true = (_, refl, (refl, (refl, tt)))
connection_round-IsOrdered bssid false false false = (_, refl, (refl, (refl, tt)))
