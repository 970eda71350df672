-- ===== src/Workers.antt =====
-- src/ws_collab/workers.py: the registry of workers and the monitor of their health. Times are whole
-- seconds and arguments; a status record is what the monitor reads of a worker, the texts of its
-- task, its last status and its errors included. What the monitor publishes is a list of notices.
pub mod Alerts
use ws_collab.Prelude.{
  ℕ, ◌-◌, Bool, true, false, not, ◌&&◌, Option, none, some, List, [], ◌∷◌, ◌++◌, ltb, if◌then◌else◌,
  length, keep_if, last_items, ◌==◌, Text, text_eq,
}
use ws_collab.Dict
use ws_collab.Dict.{Dict, values, get, put}

pub data State : Type 0 where
  healthy warn overdue unresponsive terminated : State

abbrev pub is_state : State → State → Bool
is_state State.healthy State.healthy = true
is_state State.warn State.warn = true
is_state State.overdue State.overdue = true
is_state State.unresponsive State.unresponsive = true
is_state State.terminated State.terminated = true
is_state _ _ = false

pub record Config : Type 0 where
  pub worker_warn_seconds : ℕ
  pub worker_overdue_seconds : ℕ
  pub worker_unresponsive_seconds : ℕ

-- `WorkerRecord`; `activation_cadence` is what the field `meta` declares of the cadence.
pub record WorkerRecord : Type 0 where
  pub worker_id : Text
  pub task : Text
  pub registered_at : ℕ
  pub last_status_at : ℕ
  pub last_status : Text
  pub last_state : State
  pub last_alert_state : Option State
  pub errors : List Text
  pub activation_cadence : Bool
  pub terminated_confirmed : Bool

pub data Severity : Type 0 where
  info warning danger : Severity

pub data Notice : Type 0 where
  worker_registered : Text → Text → Notice
  worker_status : Text → Text → Notice
  state_changed : Text → State → State → Notice
  confirmed_terminated : Text → Text → Notice
  recovered : Text → State → Notice
  raised : Text → State → Severity → Bool → Notice
  team_raised : ℕ → Notice
  team_recovered : Notice

pub record Monitor : Type 0 where
  pub workers : Dict Text WorkerRecord
  pub team_alerted : Bool
  pub published : List Notice
  pub announced : List Text

-- `age`: the time since the last status, not below 0.
unfoldable pub age : ℕ → WorkerRecord → ℕ
age now r = now - r.last_status_at

-- `WorkerRecord(worker_id=worker_id)` at a time.
unfoldable pub new_record : ℕ → Text → WorkerRecord
new_record now worker_id = record {
  worker_id = worker_id;
  task = [];
  registered_at = now;
  last_status_at = now;
  last_status = [];
  last_state = healthy;
  last_alert_state = none;
  errors = [];
  activation_cadence = false;
  terminated_confirmed = false;
}

unfoldable pub record_of : ℕ → Text → Monitor → WorkerRecord
record_of now worker_id m = elim (Dict.get m.workers worker_id) [
  | none ↦ new_record now worker_id
  | some r ↦ r
]

unfoldable pub publish : Notice → Monitor → Monitor
publish n m = record m { published = m.published ++ n ∷ [] }

-- `register`; `cadence` is the cadence that the new metadata declares, if any.
unfoldable pub register : ℕ → Text → Text → Option Bool → Monitor → Monitor
register now worker_id task cadence m =
    let r = record_of now worker_id m in
    publish (worker_registered worker_id task) (record m {
      workers = Dict.put m.workers worker_id (record r {
        task = if task == [] then r.task else task;
        last_status_at = now;
        terminated_confirmed = false;
        activation_cadence = elim cadence [ none ↦ r.activation_cadence | some b ↦ b ];
      });
    })

-- `confirm_terminated`
unfoldable pub confirm_terminated : ℕ → Text → Text → Monitor → Monitor
confirm_terminated now worker_id operator m =
    let r = record_of now worker_id m in
    publish (confirmed_terminated worker_id operator) (record m {
      workers =
          Dict.put m.workers worker_id
            (record r { terminated_confirmed = true; last_state = terminated });
    })

-- `_state_for`
unfoldable pub state_for : Config → ℕ → WorkerRecord → State
state_for c now r =
    if r.terminated_confirmed
    then terminated
    else if ltb c.worker_unresponsive_seconds (age now r)
    then unresponsive
    else if ltb c.worker_overdue_seconds (age now r)
    then overdue
    else if ltb c.worker_warn_seconds (age now r)
    then warn
    else healthy

-- `_maybe_alert`: the new alert state of the record, the notice, and whether it is announced.
pub record Alert : Type 0 where
  pub worker : WorkerRecord
  pub notice : Option Notice
  pub announce : Bool

abbrev pub is_calm : State → Bool
is_calm State.healthy = true
is_calm State.terminated = true
is_calm _ = false

-- `last_alert_state not in (None, STATE_OK)`
abbrev pub is_alarmed : Option State → Bool
is_alarmed none = false
is_alarmed (some s) = not (is_state s healthy)

abbrev pub was : Option State → State → Bool
was none s = false
was (some t) s = is_state t s

abbrev pub severity_of : State → Bool → Severity
severity_of s on_activation =
    if on_activation then info else if is_state s unresponsive then danger else warning

unfoldable pub maybe_alert : WorkerRecord → State → Alert
maybe_alert r s =
    if is_calm s
    then record {
      worker = record r { last_alert_state = some healthy };
      notice = if is_alarmed r.last_alert_state then some (recovered r.worker_id s) else none;
      announce = false;
    }
    else if was r.last_alert_state s
    then record { worker = r; notice = none; announce = false }
    else record {
      worker = record r { last_alert_state = some s };
      notice = some (
          raised r.worker_id s (severity_of s r.activation_cadence)
            (is_state s unresponsive && not r.activation_cadence));
      announce = is_state s unresponsive && not r.activation_cadence;
    }

-- What one record adds to a cycle: the record after it, what is published and announced, and what
-- is emitted.
pub record Visit : Type 0 where
  pub worker : WorkerRecord
  pub published : List Notice
  pub announced : List Text
  pub emitted : List Notice

abbrev pub listed : Option Notice → List Notice
listed none = []
listed (some n) = n ∷ []

-- One round of the loop of `evaluate`.
unfoldable pub visit : Config → ℕ → WorkerRecord → Visit
visit c now r =
    let new_state = state_for c now r in
    let a = maybe_alert (record r { last_state = new_state }) new_state in
    if is_state new_state r.last_state
    then record { worker = r; published = []; announced = []; emitted = [] }
    else record {
      worker = a.worker;
      published = state_changed r.worker_id r.last_state new_state ∷ listed a.notice;
      announced = if a.announce then r.worker_id ∷ [] else [];
      emitted = listed a.notice;
    }

unfoldable pub visit_all : Config → ℕ → Dict Text WorkerRecord → Monitor → List Notice × Monitor
visit_all c now [] m = ([], m)
visit_all c now ((k, r) ∷ rest) m =
    let v = visit c now r in
    let x = visit_all c now rest (record m {
      published = m.published ++ v.published;
      announced = m.announced ++ v.announced;
    }) in
    (v.emitted ++ x.0, record x.1 { workers = (k, v.worker) ∷ x.1.workers })

abbrev pub is_down : State → Bool
is_down State.overdue = true
is_down State.unresponsive = true
is_down _ = false

unfoldable pub all_down : Config → ℕ → List WorkerRecord → Bool
all_down c now [] = true
all_down c now (r ∷ rs) = is_down (state_for c now r) && all_down c now rs

-- The records that `_check_team_failure` counts, and those that it judges.
unfoldable pub active_records : List WorkerRecord → List WorkerRecord
active_records = keep_if (λ r. not r.terminated_confirmed)

unfoldable pub judged_records : List WorkerRecord → List WorkerRecord
judged_records rs = keep_if (λ r. not r.activation_cadence) (active_records rs)

-- `_check_team_failure`, once its records are judged: none judged, nothing concluded.
unfoldable pub team_notice : ℕ → List WorkerRecord → Bool → Bool → Option Notice
team_notice count [] down alerted = none
team_notice count (r ∷ rs) down alerted =
    if down && not alerted
    then some (team_raised count)
    else if not down && alerted
    then some team_recovered
    else none

unfoldable pub check_team_failure : Config → ℕ → List WorkerRecord → Monitor → List Notice × Monitor
check_team_failure c now records m =
    let judged = judged_records records in
    let down = all_down c now judged in
    elim (team_notice (length (active_records records)) judged down m.team_alerted) [
      | none ↦ ([], m)
      | some n ↦ (n ∷ [], publish n (record m { team_alerted = down }))
    ]

-- `evaluate`
unfoldable pub evaluate : Config → ℕ → Monitor → List Notice × Monitor
evaluate c now m =
    let v = visit_all c now m.workers (record m { workers = [] }) in
    let t = check_team_failure c now (values v.1.workers) v.1 in (v.0 ++ t.0, t.1)

-- The last 25 errors, where there are new ones.
unfoldable pub with_errors : List Text → List Text → List Text
with_errors old [] = old
with_errors old (e ∷ es) = last_items 25 (old ++ e ∷ es)

-- `record_status`
unfoldable pub record_status : Config → ℕ → Text → Text → List Text → Monitor → Monitor
record_status c now worker_id status errors m =
    let r = record_of now worker_id m in
    (evaluate c now (
      publish (worker_status worker_id status) (record m {
        workers = Dict.put m.workers worker_id (record r {
          last_status_at = now;
          last_status = status;
          terminated_confirmed = false;
          errors = with_errors r.errors errors;
        });
      }))).1
