-- ===== src/Client/Install.antt =====
-- crates/clock-sync-client/src/lib.rs, `install`: its steps, and what a failure leaves behind. What
-- the sniffer and the spawner answer is an argument. A `StaticCell` panics when it is set again.
use esp_clock_sync.Prelude.{Bool, true, false, if◌then◌else◌, ◌≡◌, Exec, ret, panic, ◌>>=◌}

pub record Setup : Type 0 where
  pub sniffer_storage : Bool
  pub promiscuous_mode : Bool
  pub receive_cb : Bool
  pub client : Bool
  pub consume_samples : Bool
  pub poll_ap_bssid : Bool

abbrev pub new_setup : Setup
new_setup = record {
  sniffer_storage = false;
  promiscuous_mode = false;
  receive_cb = false;
  client = false;
  consume_samples = false;
  poll_ap_bssid = false;
}

pub data InstallError : Type 0 where
  promiscuous : InstallError
  spawn : InstallError

-- `Ok` with the handle, or the error.
pub data Outcome : Type 0 where
  ok : Outcome
  err : (e : InstallError) → Outcome

-- The sniffer's answer and those of the spawner, in the order of the calls.
pub record Answers : Type 0 where
  pub set_promiscuous_mode : Bool
  pub spawn_consume_samples : Bool
  pub spawn_poll_ap_bssid : Bool

abbrev pub answers_of : Bool → Bool → Bool → Answers
answers_of p c l = record {
  set_promiscuous_mode = p;
  spawn_consume_samples = c;
  spawn_poll_ap_bssid = l;
}

abbrev pub init_cell : Bool → Exec Bool
init_cell stored = if stored then panic else ret true

abbrev spawn_poll : Setup → Answers → Setup × Outcome
spawn_poll s answers =
    if answers.spawn_poll_ap_bssid then (record s { poll_ap_bssid = true }, ok) else (s, err spawn)

abbrev spawn_tasks : Setup → Answers → Setup × Outcome
spawn_tasks s answers =
    if answers.spawn_consume_samples
    then spawn_poll (record s { consume_samples = true }) answers
    else (s, err spawn)

abbrev register : Setup → Answers → Exec (Setup × Outcome)
register s answers = do
  stored ← init_cell s.client
  ret (
      spawn_tasks (record s { promiscuous_mode = true; receive_cb = true; client = stored })
        answers)

unfoldable pub install : Setup → Answers → Exec (Setup × Outcome)
install s answers = do
  stored ← init_cell s.sniffer_storage
  let s' = record s { sniffer_storage = stored }
  let registered = register s' answers
  if answers.set_promiscuous_mode then registered else ret (s', err promiscuous)

-- What is set up when the outcome is known, the six parts in their order.
abbrev pub setup_of : Bool → Bool → Bool → Bool → Bool → Bool → Setup
setup_of storage mode cb handle consume poll = record {
  sniffer_storage = storage;
  promiscuous_mode = mode;
  receive_cb = cb;
  client = handle;
  consume_samples = consume;
  poll_ap_bssid = poll;
}

-- All of it; the stored sniffer alone; or the sniffer in promiscuous mode with its callback and the
-- handle, and the first task where it is the second that cannot be spawned.
abbrev pub IsOutcome : Answers → Setup → Outcome → Type 0
IsOutcome answers s ok = s ≡ setup_of true true true true true true
IsOutcome answers s (err promiscuous) = s ≡ setup_of true false false false false false
IsOutcome answers s (err spawn) =
    s ≡ setup_of true true true true answers.spawn_consume_samples false
