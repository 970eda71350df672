-- ===== src/Routing.antt =====
-- src/ws_collab/audio/routing.py: which device feeds which engine. `saved` is the value that was dumped
-- to `routing.json`, none where there is no file. The settings that no operation reads hold any value.
-- Of a file that `_save` has not written, one that holds other values in place of the texts and truth
-- values of a route is read as an uncaught error.
pub mod Fallback
pub mod Reload
use ws_collab.Prelude.{
  Bool, true, false, not, ◌&&◌, ◌||◌, Option, none, some, List, [], ◌∷◌, ◌++◌, map, if◌then◌else◌,
  ◌==◌, nat_eq, Text, codes, text_eq,
}
use ws_collab.Texts.{is_in}
use ws_collab.Errors.{Error, Result, ok, raise, uncaught, ◌>>=◌}
use ws_collab.Json.{Json, Python, Fields, str, num, bool, arr, obj, end, field, get_field}
use ws_collab.Json.Values.{items_of, list_of, required_text, text_or, read_file}
use ws_collab.Dict
use ws_collab.Dict.{Dict, values, put}

-- The settings that are only kept: 1.0 is the number 1.
pub record Settings : Type 0 where
  pub gain : Json
  pub vad : Json
  pub language_hint : Json
  pub sample_rate : Json
  pub channels : Json
  pub audio_format : Json
  pub frame_ms : Json
  pub noise_reduction : Json
  pub echo_cancellation : Json

abbrev pub default_settings : Settings
default_settings = record {
  gain = num 1;
  vad = bool true;
  language_hint = str (codes "en");
  sample_rate = num 16000;
  channels = num 1;
  audio_format = str (codes "pcm_s16le");
  frame_ms = num 20;
  noise_reduction = bool false;
  echo_cancellation = bool false;
}

pub record Route : Type 0 where
  pub source : Text
  pub engine : Text
  pub device_id : Text
  pub id : Text
  pub settings : Settings
  pub diagnostic_eligible : Bool
  pub command_eligible : Bool
  pub tts_accuracy_eligible : Bool
  pub fallback_device_id : Text
  pub fallback_policy : Text

-- f"{self.source}->{self.engine}"
unfoldable pub route_id : Text → Text → Text
route_id source engine = source ++ codes "->" ++ engine

-- `Route(...)` with `__post_init__`
unfoldable pub new_route : Text → Text → Text → Route
new_route source engine device_id = record {
  source = source;
  engine = engine;
  device_id = device_id;
  id = route_id source engine;
  settings = default_settings;
  diagnostic_eligible = true;
  command_eligible = true;
  tts_accuracy_eligible = false;
  fallback_device_id = [];
  fallback_policy = codes "none";
}

pub data Setting : Type 0 where
  gain vad language_hint sample_rate channels audio_format frame_ms : Setting
  noise_reduction echo_cancellation : Setting

unfoldable pub put_setting : Settings → Setting → Json → Settings
put_setting s Setting.gain v = record s { gain = v }
put_setting s Setting.vad v = record s { vad = v }
put_setting s Setting.language_hint v = record s { language_hint = v }
put_setting s Setting.sample_rate v = record s { sample_rate = v }
put_setting s Setting.channels v = record s { channels = v }
put_setting s Setting.audio_format v = record s { audio_format = v }
put_setting s Setting.frame_ms v = record s { frame_ms = v }
put_setting s Setting.noise_reduction v = record s { noise_reduction = v }
put_setting s Setting.echo_cancellation v = record s { echo_cancellation = v }

-- One of the keyword arguments of `set_route`; `other` is one that is no setting of a route.
pub data Param : Type 0 where
  setting_is : Setting → Json → Param
  diagnostic_is command_is tts_accuracy_is : Bool → Param
  fallback_device_is fallback_policy_is : Text → Param
  other : Param

-- The keyword arguments have different names.
unfoldable pub policy_of : List Param → Text
policy_of [] = codes "none"
policy_of (fallback_policy_is policy ∷ params) = policy
policy_of (diagnostic_is b ∷ params) = policy_of params
policy_of (command_is b ∷ params) = policy_of params
policy_of (tts_accuracy_is b ∷ params) = policy_of params
policy_of (fallback_device_is d ∷ params) = policy_of params
policy_of (setting_is x v ∷ params) = policy_of params
policy_of (other ∷ params) = policy_of params

-- setattr(route, key, value)
unfoldable pub set_param : Route → Param → Route
set_param r (diagnostic_is b) = record r { diagnostic_eligible = b }
set_param r (command_is b) = record r { command_eligible = b }
set_param r (tts_accuracy_is b) = record r { tts_accuracy_eligible = b }
set_param r (fallback_device_is d) = record r { fallback_device_id = d }
set_param r (fallback_policy_is policy) = record r { fallback_policy = policy }
set_param r (setting_is x v) = record r { settings = put_setting r.settings x v }
set_param r other = r

unfoldable pub set_params : Route → List Param → Route
set_params r [] = r
set_params r (p ∷ params) = set_params (set_param r p) params

-- What `_audit_event` is called with.
pub data Audit : Type 0 where
  route_set : Text → Text → Text → Text → Audit
  route_deleted : Text → Text → Text → Audit
  route_fallback : Text → Text → Text → Audit

pub record Manager : Type 0 where
  pub routes : Dict Text Route
  pub saved : Option Json
  pub audits : List Audit

-- `_key`
unfoldable pub key : Text → Text → Text
key source engine = source ++ 31 ∷ engine

unfoldable pub eligible_json : Route → Fields
eligible_json r = field (codes "diagnostic_eligible") (bool r.diagnostic_eligible) (
    field (codes "command_eligible") (bool r.command_eligible) (
      field (codes "tts_accuracy_eligible") (bool r.tts_accuracy_eligible) (
        field (codes "fallback_device_id") (str r.fallback_device_id)
          (field (codes "fallback_policy") (str r.fallback_policy) end))))

-- `asdict(self)`
unfoldable pub route_json : Route → Json
route_json r = obj (
    field (codes "source") (str r.source) (
      field (codes "engine") (str r.engine) (
        field (codes "device_id") (str r.device_id) (
          field (codes "id") (str r.id) (
            field (codes "gain") r.settings.gain (
              field (codes "vad") r.settings.vad (
                field (codes "language_hint") r.settings.language_hint (
                  field (codes "sample_rate") r.settings.sample_rate (
                    field (codes "channels") r.settings.channels (
                      field (codes "audio_format") r.settings.audio_format (
                        field (codes "frame_ms") r.settings.frame_ms (
                          field (codes "noise_reduction") r.settings.noise_reduction (
                            field (codes "echo_cancellation") r.settings.echo_cancellation
                              (eligible_json r))))))))))))))

unfoldable pub routes_json : Dict Text Route → Json
routes_json routes =
    obj (field (codes "routes") (arr (items_of (map route_json (values routes)))) end)

-- `_save`
unfoldable pub save : Manager → Manager
save m = record m { saved = some (routes_json m.routes) }

unfoldable pub bool_of : Json → Result Bool
bool_of (bool b) = ok b
bool_of _ = uncaught

unfoldable pub bool_or : Fields → Text → Bool → Result Bool
bool_or fs k default = elim (get_field fs k) [ none ↦ ok default | some v ↦ bool_of v ]

-- A value of the entry, or the default of `Route`.
unfoldable pub value_or : Fields → Text → Json → Json
value_or fs k default = elim (get_field fs k) [ none ↦ default | some v ↦ v ]

unfoldable pub read_settings : Fields → Settings
read_settings fs = record {
  gain = value_or fs (codes "gain") (num 1);
  vad = value_or fs (codes "vad") (bool true);
  language_hint = value_or fs (codes "language_hint") (str (codes "en"));
  sample_rate = value_or fs (codes "sample_rate") (num 16000);
  channels = value_or fs (codes "channels") (num 1);
  audio_format = value_or fs (codes "audio_format") (str (codes "pcm_s16le"));
  frame_ms = value_or fs (codes "frame_ms") (num 20);
  noise_reduction = value_or fs (codes "noise_reduction") (bool false);
  echo_cancellation = value_or fs (codes "echo_cancellation") (bool false);
}

-- `Route(**{k: entry[k] for k in entry if k in Route.__annotations__})` with `__post_init__`; a route
-- without one of the first three is a TypeError.
unfoldable pub read_fields : Fields → Result Route
read_fields fs = do
  source ← required_text fs (codes "source")
  engine ← required_text fs (codes "engine")
  device_id ← required_text fs (codes "device_id")
  id ← text_or fs (codes "id") []
  diagnostic ← bool_or fs (codes "diagnostic_eligible") true
  command ← bool_or fs (codes "command_eligible") true
  accuracy ← bool_or fs (codes "tts_accuracy_eligible") false
  fallback ← text_or fs (codes "fallback_device_id") []
  policy ← text_or fs (codes "fallback_policy") (codes "none")
  ok (record {
    source = source;
    engine = engine;
    device_id = device_id;
    id = if id == [] then route_id source engine else id;
    settings = read_settings fs;
    diagnostic_eligible = diagnostic;
    command_eligible = command;
    tts_accuracy_eligible = accuracy;
    fallback_device_id = fallback;
    fallback_policy = policy;
  })

unfoldable pub read_route : Json → Result Route
read_route (obj fs) = read_fields fs
read_route _ = uncaught

-- The loop of `_load`.
unfoldable pub load_routes : Dict Text Route → List Json → Result (Dict Text Route)
load_routes routes [] = ok routes
load_routes routes (v ∷ vs) = do
  r ← read_route v
  load_routes (Dict.put routes (key r.source r.engine) r) vs

-- `payload.get("routes", [])`
unfoldable pub route_entries : Json → Result (List Json)
route_entries (obj fs) = elim (get_field fs (codes "routes")) [ none ↦ ok [] | some v ↦ list_of v ]
route_entries _ = uncaught

unfoldable pub load_value : Option Json → Result (Dict Text Route)
load_value none = ok []
load_value (some payload) = do vs ← route_entries payload; load_routes [] vs

-- `_load`: no routes where the file is missing or cannot be read.
unfoldable pub load : Python → Option Json → Result (Dict Text Route)
load py saved = load_value (read_file py saved)

unfoldable pub get_route : Manager → Text → Text → Option Route
get_route m source engine = Dict.get m.routes (key source engine)

unfoldable pub is_policy : Text → Bool
is_policy policy =
    policy == codes "none" || policy == codes "explicit_device" || policy == codes "fail"

-- `set_route`
unfoldable pub set_route :
    Text → Text → Text → Text → List Param → Manager → Result (Route × Manager)
set_route source engine device_id operator params m =
    let route = set_params (new_route source engine device_id) params in
    let put = record m { routes = Dict.put m.routes (key source engine) route } in
    if source == [] || engine == [] || device_id == []
    then raise Error.validation
    else if not (is_policy (policy_of params))
    then raise Error.validation
    else ok (
      route,
      record (save put) { audits = m.audits ++ route_set source engine device_id operator ∷ [] },
    )

-- `delete_route`
unfoldable pub delete_route : Text → Text → Text → Manager → Bool × Manager
delete_route source engine operator m = elim (Dict.get m.routes (key source engine)) [
  | none ↦ (false, m)
  | some route ↦ (
    true,
    record (save (record m { routes = Dict.pop m.routes (key source engine) })) {
      audits = m.audits ++ route_deleted source engine operator ∷ [];
    },
  )
]

-- The answer of `resolve`.
pub data Resolved : Type 0 where
  no_route no_fallback : Resolved
  device : Text → Route → Bool → Resolved

unfoldable pub resolve_route :
    Text → Text → List Text → Route → Manager → Result (Resolved × Manager)
resolve_route source engine available route m =
    if is_in available route.device_id
    then ok (device route.device_id route false, m)
    else if route.fallback_policy == codes "explicit_device"
        && is_in available route.fallback_device_id
    then ok (
      device route.fallback_device_id route true,
      record m { audits = m.audits ++ route_fallback source engine route.fallback_device_id ∷ [] },
    )
    else if route.fallback_policy == codes "fail"
    then raise Error.conflict
    else ok (no_fallback, m)

-- `resolve`
unfoldable pub resolve : Text → Text → List Text → Manager → Result (Resolved × Manager)
resolve source engine available m = elim (Dict.get m.routes (key source engine)) [
  | none ↦ ok (no_route, m)
  | some route ↦ resolve_route source engine available route m
]
