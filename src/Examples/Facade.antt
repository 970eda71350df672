-- ===== src/Examples/Facade.antt =====
-- Runs of the prompt, the store and the service, on small inputs.
use ws_collab.Texts.{strip, is_space_char, lstrip, rstrip_cons, rstrip}
use ws_collab.Stream.Appending.{written_event}
use ws_collab.Stream.Append.{append_new, key_of, find_seen}
use ws_collab.Prompt.{utf8_length, rollback}
use ws_collab.Prelude.{
  suc, ◌≤◌, ◌≡◌, refl, false, none, some, [], ◌∷◌, arith, length, take, nat_eq, Text, codes,
  text_eq,
}
use ws_collab.Broker
use ws_collab.Dict
use ws_collab.Errors.{ok}
use ws_collab.Json.{str, null, end, truthy}
use ws_collab.Event.{Event, ensure_identity}
use ws_collab.Event.Validate.{
  Draft, validate_new_event, streams, has_key, is_member, valid_source_kinds, validate_stream,
  valid_type, valid_data, valid_kind, valid_key, source_or_system, as_key, hosted_name, known_kind,
}
use ws_collab.Stream.{Stream}
use ws_collab.Store.{Store, is_hosted, opened_stream, stream}
use ws_collab.Service.{Service, publish, with_data}
use ws_collab.Service.Publish.{publish-publish, IsRepeat}
use ws_collab.Examples.Codec.{python}
use ws_collab.Examples.Tokens64.{base64}
use ws_collab.Prompt
use ws_collab.Prompt.Versions.{rollback-saves, IsValid, saves, IsBack}

abbrev no_prompt : Prompt.Manager
no_prompt = record { file = none; published = [] }

abbrev digest : Text → Text
digest t = take 16 t

short : (t : Text) → length t ≤ 1 → IsValid digest 500 100 (codes "t") (codes "o") t
unfolding utf8_length
short [] h = refl
short (c ∷ []) h = ground arith
short (c ∷ d ∷ t) h = absurd (omega arith)

rollback-saves_example :
    (m1 : Prompt.Manager) × (m2 : Prompt.Manager) × ((saves digest 500 100
          (codes "t")
          (codes "o")
          (codes "a" ∷ codes "b" ∷ [])
          no_prompt
        ≡ ok m1)
      × ((rollback digest 500 100 (codes "t") 1 (codes "o") m1
            ≡ ok ((suc (length m1.published), digest (codes "a")), m2))
          × IsBack digest 500 100 (codes "t") (codes "o") (codes "a") m1 m2))
rollback-saves_example =
    rollback-saves digest 500 100 (codes "t") (codes "o") (codes "a") (codes "b" ∷ []) no_prompt tt
      (omega arith) (short (codes "a") (omega arith), (short (codes "b") (omega arith), tt))

abbrev statuses : Stream
statuses = record {
  name = codes "worker_statuses";
  rotate_max_bytes = 1000;
  retention_max_files = 2;
  seq = 0;
  gen = 0;
  active_start_seq = 1;
  segments = [];
  idempotency = [];
  disk = record { active = none; archived = []; sidecar = none };
}

abbrev one_open : Store
one_open = record {
  opened = (codes "worker_statuses", statuses) ∷ [];
  dynamic = [];
  rotate_max_bytes = 1000;
  retention_max_files = 2;
  files = [];
}

abbrev online : Draft
online = record {
  stream = str (codes "worker_statuses");
  type = str (codes "T");
  payload = null;
  source_id = codes "w";
  source_kind = str (codes "worker");
  correlation_id = null;
  idempotency_key = str (codes "k");
}

abbrev online_event : Event
online_event = record {
  stream = codes "worker_statuses";
  type = codes "T";
  payload = end;
  source_id = codes "w";
  source_kind = codes "worker";
  correlation_id = none;
  idempotency_key = some (codes "k");
  id = codes "a";
  seq = none;
  ts = codes "t";
  version = 1;
  extra = end;
}

abbrev serving : Service
serving = record {
  store = one_open;
  registered = [];
  broker = record { subs = []; tasks = []; counter = 0; max_queue = 10 };
}

online_valid : validate_new_event [] (codes "a") (codes "t") (with_data online) ≡ ok online_event
unfolding validate_new_event validate_stream valid_type valid_data valid_kind valid_key has_key
    streams is_member valid_source_kinds source_or_system ensure_identity strip lstrip rstrip
    rstrip_cons is_space_char as_key hosted_name known_kind with_data truthy
online_valid = refl

is_open : stream python base64 (codes "worker_statuses") one_open ≡ ok statuses
unfolding stream is_hosted has_key streams opened_stream Dict.get
is_open = refl

publish-publish_example :
    let sv1 = (publish python base64 (λ l. false) (codes "a") (codes "t") online serving).1 in
    (sv1.broker
      ≡ Broker.publish Event
          (λ x. x.stream)
          (λ l. false)
          (append_new python base64 (codes "a") (codes "t") online_event statuses).0.event
          serving.broker)
    × IsRepeat python base64
        (codes "worker_statuses")
        (written_event (codes "a") (codes "t") online_event statuses).id
        1
        sv1
        (publish python base64 (λ l. false) (codes "a") (codes "t") online sv1)
publish-publish_example =
    publish-publish python base64 (λ l. false) (codes "a") (codes "a") (codes "t") (codes "t")
      online online serving online_event online_event statuses (codes "k") online_valid online_valid
      refl is_open (unfold key_of in refl) (unfold key_of in refl)
      (unfold find_seen Dict.get in refl) (omega arith)
