-- ===== src/Examples/Guards.antt =====
-- Each property of the security checks, the worker monitor, the broker and the identifiers at a
-- concrete state.
use ws_collab.Errors.{ok}
use ws_collab.Prelude.{
  ℕ, ◌<◌, ◌≡◌, refl, Bool, true, false, none, some, [], arith, keep_if, nat_eq, Text, codes,
  text_eq,
}
use ws_collab.Event.Validate.{Draft, validate_new_event}
use ws_collab.Event.{Event}
use ws_collab.Event.Validate.Admission.{IsAdmitted, IsEventOf, validate_new_event-IsAdmitted}
use ws_collab.Json.{str, null}
use ws_collab.Vad.{Settings, start, process}
use ws_collab.Vad.Gate.{IsTurn, IsWithin, process-IsTurn, process-IsWithin}
use ws_collab.Security
use ws_collab.Security.{
  TokenBucket, Session, cookie_value, authenticate_session, create_session, destroy_session, Config,
  Security,
}
use ws_collab.Security.Sessions.{
  authenticate_session-create_session, authenticate_session-destroy_session,
}
use ws_collab.Workers
use ws_collab.Workers.{Monitor, evaluate, register}
use ws_collab.Workers.Alerts.{evaluate-evaluate}
use ws_collab.Broker
use ws_collab.Broker.Publish.{subscribe-Reach, publish-IsDelivered, IsDelivered}
use ws_collab.Dict
use ws_collab.Dict.{values, Dict}
use ws_collab.Broker.{matches, subscribe, publish, run_put, queue_get, Broker}
use ws_collab.Broker.Delivery.{done, next, published, put_run, taken, IsOrderly}
use ws_collab.Ids.Ulid.{Clock, next_clock, new_event_id, event_id_timestamp_ms}
use ws_collab.Ids.Order.{event_id_timestamp_ms-new_event_id}
use ws_collab.Ids.Rising.{IsBefore, new_event_id-rises}

abbrev bucket : TokenBucket
bucket = record { rate = 2; capacity = 10; tokens = 3; updated = 100 }

abbrev hex : Text → Text
hex t = codes "0a"

abbrev guard : Security.Security
guard = record {
  config = record {
    trusted_origins = [];
    is_loopback_only = true;
    dev_insecure = false;
    admin_remote = false;
    rate_limit_rps = 5;
    max_body_bytes = 100;
    max_ws_message_bytes = 100;
    max_connections = 2;
  };
  buckets = [];
  sessions = [];
  connections = 0;
}

authenticate_session-create_session_example :
    (let made =
        create_session 10
          (codes "s1")
          (codes "c1")
          (codes "t")
          (codes "admin")
          (codes "l")
          60
          guard in
      authenticate_session hex 20 (some (cookie_value hex made.0)) made.1)
    ≡ (let made =
          create_session 10
            (codes "s1")
            (codes "c1")
            (codes "t")
            (codes "admin")
            (codes "l")
            60
            guard in
        (
          some (
            record { is_session = true; id = codes "s1"; role = codes "admin"; label = codes "l" },
            made.0,
          ),
          made.1,
        ))
authenticate_session-create_session_example =
    authenticate_session-create_session hex 10 20 (codes "s1") (codes "c1") (codes "t")
      (codes "admin") (codes "l") 60 guard (refl, (refl, tt)) (omega arith)

abbrev session : Session
session = record {
  sid = codes "s1";
  role = codes "admin";
  label = codes "l";
  csrf = codes "c1";
  created_at = codes "t";
  expires_at = 70;
}

authenticate_session-destroy_session_example :
    (authenticate_session hex 20
      (some (cookie_value hex session))
      (destroy_session (codes "s1") guard)).0
    ≡ none
authenticate_session-destroy_session_example =
    authenticate_session-destroy_session hex 20 session guard (refl, (refl, tt))

abbrev thresholds : Workers.Config
thresholds = record {
  worker_warn_seconds = 10;
  worker_overdue_seconds = 20;
  worker_unresponsive_seconds = 30;
}

abbrev team : Monitor
team =
    register 5 (codes "w1") (codes "build") none
      (record { workers = []; team_alerted = false; published = []; announced = [] })

evaluate-evaluate_example :
    evaluate thresholds 50 (evaluate thresholds 50 team).1 ≡ ([], (evaluate thresholds 50 team).1)
evaluate-evaluate_example = evaluate-evaluate thresholds 50 team

abbrev on_chat : ℕ → Text
on_chat e = codes "chat"

abbrev open_loop : ℕ → Bool
open_loop l = false

abbrev first : Broker.Broker ℕ on_chat
first = record { subs = []; tasks = []; counter = 0; max_queue = 1 }

abbrev second : Broker.Broker ℕ on_chat
second = (subscribe ℕ on_chat none 0 none first).1

abbrev third : Broker.Broker ℕ on_chat
third = publish ℕ on_chat open_loop 7 second

abbrev last : Broker.Broker ℕ on_chat
last = queue_get ℕ on_chat 1 (run_put ℕ on_chat 1 7 third)

subscribe-Reach_example :
    IsOrderly ℕ on_chat last
    × ((subscribe ℕ on_chat none 0 none first).0.id < (subscribe ℕ on_chat none 3 none last).0.id)
    × (Dict.get last.subs (subscribe ℕ on_chat none 3 none last).0.id ≡ none)
subscribe-Reach_example =
    subscribe-Reach ℕ on_chat none none 0 3 none none first last
      (record { positive = omega arith; bounded = tt; distinct = tt })
      (next (published open_loop 7 second)
        (next (put_run 1 7 third) (next (taken 1 (run_put ℕ on_chat 1 7 third)) (done last))))

publish-IsDelivered_example :
    IsDelivered ℕ on_chat open_loop 7
      (keep_if (λ s. matches ℕ on_chat s 7) (values second.subs))
      second
      third
publish-IsDelivered_example = publish-IsDelivered ℕ on_chat open_loop 7 second

abbrev clock : Clock
clock = record { last_ms = 1700000000000; last_rand = 5 }

new_event_id-rises_example :
    IsBefore
      (new_event_id 1600000000000 9 clock).0
      (new_event_id 1500000000000 7 (new_event_id 1600000000000 9 clock).1).0
new_event_id-rises_example =
    new_event_id-rises 1600000000000 1500000000000 9 7 clock (omega arith) (omega arith)
      (unfold new_event_id next_clock in omega arith)

event_id_timestamp_ms-new_event_id_example :
    event_id_timestamp_ms (new_event_id 1800000000000 9 clock).0
    ≡ some (new_event_id 1800000000000 9 clock).1.last_ms
event_id_timestamp_ms-new_event_id_example =
    event_id_timestamp_ms-new_event_id 1800000000000 9 clock
      (unfold new_event_id next_clock in omega arith)

abbrev draft : Draft
draft = record {
  stream = str (codes "prompt");
  type = str (codes "PROMPT_SET");
  payload = null;
  source_id = [];
  source_kind = str (codes "agent");
  correlation_id = null;
  idempotency_key = str (codes "k");
}

validate_new_event-IsAdmitted_example :
    IsAdmitted []
      (codes "a")
      (codes "t")
      draft
      (validate_new_event [] (codes "a") (codes "t") draft)
    × ((e : Event)
        → IsEventOf [] (codes "a") (codes "t") draft e
        → validate_new_event [] (codes "a") (codes "t") draft ≡ ok e)
validate_new_event-IsAdmitted_example =
    validate_new_event-IsAdmitted [] (codes "a") (codes "t") draft

abbrev settings : Settings
settings = record {
  base_threshold = 20;
  hunt_floor = 7;
  silence_ms = 600;
  frame_ms = 20;
  min_speech_ms = 200;
  hunt_after_ms = 2500;
  hunt_ramp_ms = 6000;
}

process-IsTurn_example :
    IsTurn settings 30
      (start settings)
      (process settings 30 (start settings)).0
      (process settings 30 (start settings)).1
process-IsTurn_example = process-IsTurn settings 30 (start settings)

process-IsWithin_example : IsWithin settings (process settings 30 (start settings)).1.threshold
process-IsWithin_example =
    process-IsWithin settings 30 (start settings) (omega arith)
      (unfold start in (omega arith, omega arith))
