-- ===== src/Mower/Commands.antt =====
-- Which requests `Mower.command` makes, and the activity behind an event.
use gardena_matter_mqtt_brid.Base.{
  ℕ, ◌≡◌, refl, ap, ◌∙◌, inl, inr, Bool, true, false, Option, none, some, [], ◌∷◌, arith,
  Bool-cases, ◌||◌, ◌&&◌,
}
use gardena_matter_mqtt_brid.Base.Exec.{Error, Result, ok, err, value_error, Result-cases}
use gardena_matter_mqtt_brid.Text.{Str, str, str_eq, starts_with, split_slash}
use gardena_matter_mqtt_brid.Json.{Json, string, obj, entries, Fields}
use gardena_matter_mqtt_brid.Json.Dict.{Dict, get, NodupKeys}
use gardena_matter_mqtt_brid.Mower.{
  Mower, nested_value, activity, gen1_activity, status_path, command, gen1_order, gen2_order,
  request, Order, supports_pause, start_action_durations,
}
use gardena_matter_mqtt_brid.Mower.Event.{apply_event, path_text, payload_of}
use gardena_matter_mqtt_brid.Mower.Effect.{apply_event-Applied, path_of}

-- The actions that a mower takes: the four starts and dock, and pause where the mower supports it.
abbrev pub is_start : Str → Bool
is_start action =
    str_eq (str "start_mowing") action
    || (str_eq (str "start_1h") action
        || (str_eq (str "start_3h") action || str_eq (str "start_6h") action))

abbrev pub accepts : Mower → Str → Bool
accepts m action =
    is_start action
    || (str_eq action (str "dock") || (supports_pause m && str_eq action (str "pause")))

abbrev is_some {ℓ} : {A : Type ℓ} → Option A → Bool
is_some none = false
is_some (some a) = true

durations_lem : (action : Str) → is_some (get action start_action_durations) ≡ is_start action
unfolding get
durations_lem action = ground arith

abbrev is_ok {ℓ} : {A : Type ℓ} → Result A → Bool
is_ok (ok a) = true
is_ok (err e) = false

gen2_lem :
    (action : Str) (d : Option ℕ)
    → is_ok (gen2_order action d)
      ≡ (is_some d || (str_eq action (str "dock") || str_eq action (str "pause")))
unfolding gen2_order
gen2_lem action none = ground arith
gen2_lem action (some d) = refl

gen1_lem :
    (generation action : Str) (d : Option ℕ)
    → is_ok (gen1_order generation action d) ≡ (is_some d || str_eq action (str "dock"))
unfolding gen1_order
gen1_lem generation action none = ground arith
gen1_lem generation action (some d) = ground arith

-- What `command` answers: a request for an accepted action, addressed to the mower and marked with
-- the given id, and a ValueError for any other.
abbrev pub Answers : Mower → Str → Str → Result Json → Type 0
Answers m request_id action (ok r) =
    (accepts m action ≡ true)
    × (nested_value r (str "entity" ∷ str "device" ∷ []) ≡ string m.device_id)
    × (nested_value r (str "request_id" ∷ []) ≡ string request_id)
Answers m request_id action (err e) = (accepts m action ≡ false) × (e ≡ value_error)

request_fields :
    (device service op id : Str) (o : Order)
    → (nested_value (request device service op id o) (str "entity" ∷ str "device" ∷ [])
        ≡ string device)
      × (nested_value (request device service op id o) (str "request_id" ∷ []) ≡ string id)
unfolding nested_value request get str str_eq
request_fields device service op id o = (refl, refl)

gen2_error :
    (action : Str) (d : Option ℕ) (e : Error) → gen2_order action d ≡ err e → e ≡ value_error
unfolding gen2_order
gen2_error action none e h = ground arith
gen2_error action (some d) e h = absurd (ground arith)

gen1_error :
    (generation action : Str) (d : Option ℕ) (e : Error)
    → gen1_order generation action d ≡ err e
    → e ≡ value_error
unfolding gen1_order
gen1_error generation action none e h = ground arith
gen1_error generation action (some d) e h = absurd (ground arith)

-- `command` answers every action: with a request to this mower under the given id exactly when the
-- action is a start, dock, or pause on a mower that supports it, and else with ValueError.
pub command-Answers :
    (m : Mower) (request_id action : Str)
    → Answers m request_id action (command m request_id action)
command-Answers m id action = elim (Bool-cases (str_eq m.generation (str "gen2"))) [
  | inl gen2 ↦ elim (Result-cases (gen2_order action d)) [
    | inl (o, e) ↦
        let fields = request_fields m.device_id (str "lwm2mserver") (str "execute") id o in
        let test = gen2_lem action d in
        unfold command supports_pause in ground (arith, gen2, e, durations_lem action)
    | inr (x, e) ↦
        let test = gen2_lem action d in
        let kind = gen2_error action d x e in
        unfold command supports_pause in ground (arith, gen2, e, durations_lem action)
  ]
  | inr gen1 ↦ elim (Result-cases (gen1_order m.generation action d)) [
    | inl (o, e) ↦
        let fields = request_fields m.device_id (str "lemonbeatd") (str "write") id o in
        let test = gen1_lem m.generation action d in
        unfold command supports_pause in ground (arith, gen1, e, durations_lem action)
    | inr (x, e) ↦
        let test = gen1_lem m.generation action d in
        let kind = gen1_error m.generation action d x e in
        unfold command supports_pause in ground (arith, gen1, e, durations_lem action)
  ]
]
  where
    d : Option ℕ
    d = get action start_action_durations

split_status :
    split_slash (str "lemonbeat/0/status") ≡ str "lemonbeat" ∷ str "0" ∷ str "status" ∷ []
unfolding split_slash str
split_status = refl

-- When a gen1 mower's status event is applied, its activity is the one of the status that the event
-- carries: `v` at key "vi" of the payload, sent to the path lemonbeat/0/status.
pub activity-apply_event :
    (show : Json → Str) (m m' : Mower) (message : Dict Json) (f p : Fields) (v : Json)
    → starts_with m.generation (str "gen1") ≡ true
    → get (str "entity") message ≡ some (obj f)
    → get (str "path") (entries f) ≡ some (string (str "lemonbeat/0/status"))
    → payload_of message ≡ obj p
    → NodupKeys (entries p)
    → get (str "vi") (entries p) ≡ some v
    → apply_event show m message ≡ (ok true, m')
    → activity m' ≡ gen1_activity v
activity-apply_event show m m' message f p v gen1 e path pe u vi h =
    let a = apply_event-Applied show m m' message f p e pe u h in
    let at : path_of show (entries f) ≡ str "lemonbeat" ∷ str "0" ∷ str "status" ∷ [] =
      ap
        (λ (o : Option Json).
          split_slash (path_text show (elim o [ none ↦ string [] | some w ↦ w ])))
        path
      ∙ split_status in
    let read : nested_value m'.state status_path ≡ v = rw (at, vi) at (a.reads (str "vi")) in
    let kept : m'.generation ≡ m.generation = ap (λ (x : Mower). x.generation) a.same in
    unfold activity in ground (arith, read, kept, gen1)
