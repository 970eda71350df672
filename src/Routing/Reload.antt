-- ===== src/Routing/Reload.antt =====
-- The routes of src/ws_collab/audio/routing.py and the file that they are read back from.
use ws_collab.Errors.{ok, ◌>>=◌, Result, raise, uncaught}
use ws_collab.Prelude.{
  ◌≡◌, refl, sym, ap, subst, ◌∙◌, inl, inr, true, false, not, ◌||◌, Option, none, some, List, [],
  ◌∷◌, ◌++◌, map, append-nil, append_assoc, if◌then◌else◌, Bool-cases, Option-cases, All, ◌==◌,
  nat_eq, Text, codes, text_eq,
}
use ws_collab.Dict
use ws_collab.Json.{Python, IsJsonLines, get_field, Json, Fields, obj}
use ws_collab.Json.Values.{required_text, text_or, text_of, list_of, read_file, list_items-items_of}
use ws_collab.Dict.Keys.{
  Distinct, put_absent, Distinct-before, Distinct-put, All-put, Distinct-pop, All-pop,
}
use ws_collab.Dict.{Dict, values}
use ws_collab.Routing.{
  setting_is, put_setting, read_route, route_json, read_fields, eligible_json, read_settings,
  bool_or, bool_of, value_or, routes_json, load_value, route_entries, route_id, Manager, Route, key,
  set_param, set_params, load_routes, load, Param, Audit, diagnostic_is, command_is,
  tts_accuracy_is, fallback_device_is, fallback_policy_is, other, new_route, save, set_route,
  delete_route, policy_of, is_policy, route_set,
}

-- A route lies under the key of its source and engine, and has an identifier.
abbrev IsKeyed : Text × Route → Type 0
IsKeyed e = (e.0 ≡ key e.1.source e.1.engine) × ((e.1.id == []) ≡ false)

read_route-route_json : (r : Route) → (r.id == []) ≡ false → read_route (route_json r) ≡ ok r
unfolding read_route read_fields route_json eligible_json read_settings required_text text_or
    text_of bool_or bool_of value_or get_field
read_route-route_json r h = rw h refl

load_routes-route_json :
    (acc d : Dict Text Route)
    → Distinct (acc ++ d)
    → All IsKeyed d
    → load_routes acc (map route_json (values d)) ≡ ok (acc ++ d)
unfolding load_routes
load_routes-route_json acc [] h k = ap ok (sym (append-nil acc))
load_routes-route_json acc ((j, r) ∷ d) h k =
    let rest = map route_json (values d) in
    let here : Dict.put acc (key r.source r.engine) r ≡ acc ++ (j, r) ∷ [] =
      rw⁻¹ k.0.0 (put_absent acc j r (Distinct-before acc d j r h)) in
    let assoc = append_assoc acc ((j, r) ∷ []) d in
    ap (λ (x : Result Route). x >>= λ q. load_routes (Dict.put acc (key q.source q.engine) q) rest)
      (read_route-route_json r k.0.1)
    ∙ ap (λ x. load_routes x rest) here
    ∙ load_routes-route_json (acc ++ (j, r) ∷ []) d (subst Distinct (sym assoc) h) k.1
    ∙ ap ok assoc

-- The keys are apart and fit, and the file reads as the table does.
record IsKept (py : Python) (m : Manager) : Type 0 where
  distinct : Distinct m.routes
  keyed : All IsKeyed m.routes
  reloads : load py m.saved ≡ ok m.routes

has_id : (a b : Text) → (route_id a b == []) ≡ false
unfolding route_id
has_id [] b = refl
has_id (c ∷ a) b = refl

saved-IsKept :
    (py : Python) (d : Dict Text Route) (audits : List Audit)
    → IsJsonLines py
    → Distinct d
    → All IsKeyed d
    → IsKept py (record { routes = d; saved = some (routes_json d); audits = audits })
unfolding load load_value read_file route_entries routes_json list_of get_field
saved-IsKept py d audits w h k = record {
  distinct = h;
  keyed = k;
  reloads =
      rw
        (
          w.loads-dumps (routes_json d),
          list_items-items_of (map route_json (values d)),
          load_routes-route_json [] d h k,
        )
        refl;
}

HasId : Result Route → Type 0
HasId (ok r) = (r.id == []) ≡ false
HasId (raise x) = Unit
HasId uncaught = Unit

bind-HasId :
    {A : Type 0} (r : Result A) (f : A → Result Route) → ((x : A) → HasId (f x)) → HasId (r >>= f)
unfolding HasId
bind-HasId (ok x) f h = h x
bind-HasId (raise x) f h = tt
bind-HasId uncaught f h = tt

ok-HasId : (r : Route) → (r.id == []) ≡ false → HasId (ok r)
unfolding HasId
ok-HasId r h = h

filled : (id a b : Text) → ((if id == [] then route_id a b else id) == []) ≡ false
filled [] a b = has_id a b
filled (c ∷ id) a b = refl

read_fields-HasId : (fs : Fields) → HasId (read_fields fs)
unfolding read_fields
read_fields-HasId fs = bind-HasId (required_text fs (codes "source")) _ (λ source.
    bind-HasId (required_text fs (codes "engine")) _ (λ engine.
      bind-HasId (required_text fs (codes "device_id")) _ (λ device_id.
        bind-HasId (text_or fs (codes "id") []) _ (λ id.
          bind-HasId (bool_or fs (codes "diagnostic_eligible") true) _ (λ diagnostic.
            bind-HasId (bool_or fs (codes "command_eligible") true) _ (λ command.
              bind-HasId (bool_or fs (codes "tts_accuracy_eligible") false) _ (λ accuracy.
                bind-HasId (text_or fs (codes "fallback_device_id") []) _ (λ fallback.
                  bind-HasId (text_or fs (codes "fallback_policy") (codes "none")) _
                    (λ policy. ok-HasId _ (filled id source engine))))))))))

read_route-HasId : (v : Json) → HasId (read_route v)
unfolding read_route
read_route-HasId (obj fs) = read_fields-HasId fs
read_route-HasId Json.null = unfold HasId in tt
read_route-HasId (Json.bool b) = unfold HasId in tt
read_route-HasId (Json.num n) = unfold HasId in tt
read_route-HasId (Json.str t) = unfold HasId in tt
read_route-HasId (Json.arr items) = unfold HasId in tt

-- What is loaded is keyed.
Loaded : Result (Dict Text Route) → Type 0
Loaded (ok d) = Distinct d × All IsKeyed d
Loaded (raise x) = Unit
Loaded uncaught = Unit

bind-Loaded :
    (r : Result Route) (f : Route → Result (Dict Text Route))
    → HasId r
    → ((x : Route) → (x.id == []) ≡ false → Loaded (f x))
    → Loaded (r >>= f)
unfolding HasId Loaded
bind-Loaded (ok x) f h k = k x h
bind-Loaded (raise x) f h k = tt
bind-Loaded uncaught f h k = tt

load_routes-Loaded :
    (vs : List Json) (acc : Dict Text Route)
    → Distinct acc
    → All IsKeyed acc
    → Loaded (load_routes acc vs)
unfolding load_routes
load_routes-Loaded [] acc h k = unfold Loaded in (h, k)
load_routes-Loaded (v ∷ vs) acc h k = bind-Loaded (read_route v) _ (read_route-HasId v) (λ r i.
    load_routes-Loaded vs (Dict.put acc (key r.source r.engine) r)
      (Distinct-put acc (key r.source r.engine) r h)
      (All-put IsKeyed acc (key r.source r.engine) r (refl, i) k))

load_value-Loaded : (o : Option Json) → Loaded (load_value o)
unfolding load_value
load_value-Loaded none = unfold Loaded in (tt, tt)
load_value-Loaded (some v) = go (route_entries v)
  where
    go : (r : Result (List Json)) → Loaded (r >>= λ vs. load_routes [] vs)
    go (ok vs) = load_routes-Loaded vs [] tt tt
    go (raise x) = unfold Loaded in tt
    go uncaught = unfold Loaded in tt

keyed_params :
    (r : Route) (params : List Param)
    → ((set_params r params).source ≡ r.source)
      × ((set_params r params).engine ≡ r.engine)
      × ((set_params r params).id ≡ r.id)
unfolding set_params set_param
keyed_params r [] = (refl, refl, refl)
keyed_params r (setting_is x v ∷ params) =
    keyed_params (record r { settings = put_setting r.settings x v }) params
keyed_params r (diagnostic_is b ∷ params) =
    keyed_params (record r { diagnostic_eligible = b }) params
keyed_params r (command_is b ∷ params) = keyed_params (record r { command_eligible = b }) params
keyed_params r (tts_accuracy_is b ∷ params) =
    keyed_params (record r { tts_accuracy_eligible = b }) params
keyed_params r (fallback_device_is d ∷ params) =
    keyed_params (record r { fallback_device_id = d }) params
keyed_params r (fallback_policy_is p ∷ params) =
    keyed_params (record r { fallback_policy = p }) params
keyed_params r (other ∷ params) = keyed_params r params

-- What a call leaves: a call that raises changes nothing.
abbrev pub left_by : Manager → Result (Route × Manager) → Manager
left_by m (ok x) = x.1
left_by m (raise e) = m
left_by m uncaught = m

set_route-IsKept :
    (source engine device_id operator : Text) (params : List Param) (py : Python) (m : Manager)
    → IsJsonLines py
    → IsKept py m
    → IsKept py (left_by m (set_route source engine device_id operator params m))
unfolding set_route save new_route
set_route-IsKept source engine device_id operator params py m w s =
    let made = set_params (new_route source engine device_id) params in
    let (a, b, c) = keyed_params (new_route source engine device_id) params in
    let fits : key source engine ≡ key made.source made.engine = rw (a, b) refl in
    let named : (made.id == []) ≡ false = rw c (has_id source engine) in
    elim (Bool-cases (source == [] || engine == [] || device_id == [])) [
      | inl p ↦ rw (set_route, p) s
      | inr p ↦ elim (Bool-cases (not (is_policy (policy_of params)))) [
        | inl q ↦ rw (set_route, p, q) s
        | inr q ↦
            rw (set_route, p, q)
              (saved-IsKept py (Dict.put m.routes (key source engine) made)
                (m.audits ++ route_set source engine device_id operator ∷ []) w
                (Distinct-put m.routes (key source engine) made s.distinct)
                (All-put IsKeyed m.routes (key source engine) made (fits, named) s.keyed))
      ]
    ]

delete_route-IsKept :
    (source engine operator : Text) (py : Python) (m : Manager)
    → IsJsonLines py
    → IsKept py m
    → IsKept py (delete_route source engine operator m).1
unfolding delete_route save
delete_route-IsKept source engine operator py m w s =
    elim (Option-cases (Dict.get m.routes (key source engine))) [
      | inl p ↦ rw (delete_route, p) s
      | inr (r, p) ↦
          rw (delete_route, p)
            (saved-IsKept py (Dict.pop m.routes (key source engine)) _ w
              (Distinct-pop m.routes (key source engine) s.distinct)
              (All-pop IsKeyed m.routes (key source engine) s.keyed))
    ]

module _ (py : Python) where
  -- A manager that starts on a file, and the calls on it.
  pub data Reach : Manager → Type 0 where
    started :
        (saved : Option Json) (d : Dict Text Route)
        → load py saved ≡ ok d
        → Reach (record { routes = d; saved = saved; audits = [] })
    set :
        {m : Manager} (source engine device_id operator : Text) (params : List Param)
        → Reach m
        → Reach (left_by m (set_route source engine device_id operator params m))
    deleted :
        {m : Manager} (source engine operator : Text)
        → Reach m
        → Reach (delete_route source engine operator m).1

  Reach-IsKept : (m : Manager) → IsJsonLines py → Reach m → IsKept py m
  unfolding Loaded load
  Reach-IsKept _ w (started saved d p) =
      let (h, k) = subst Loaded p (load_value-Loaded (read_file py saved)) in
      record { distinct = h; keyed = k; reloads = p }
  Reach-IsKept _ w (set {m} source engine device_id operator params r) =
      set_route-IsKept source engine device_id operator params py m w (Reach-IsKept m w r)
  Reach-IsKept _ w (deleted {m} source engine operator r) =
      delete_route-IsKept source engine operator py m w (Reach-IsKept m w r)

  -- After any calls on a manager that has started on a file, loading the file that they have left gives
  -- the same routes, each with all its fields, in the same order.
  pub load-saved : (m : Manager) → IsJsonLines py → Reach m → load py m.saved ≡ ok m.routes
  load-saved m w r = (Reach-IsKept m w r).reloads
