-- ===== src/Discover.antt =====
-- gardena_local_mqtt/protocol.py, `gateway_messages` and `discover_mowers`: what the gateway's
-- WebSocket API says, and the mowers among the devices that it lists. `loads` is `json.loads`, none
-- when it raises ValueError or RecursionError; `dumps` is `json.dumps` and `show` is `str` of a value
-- that is no text.
pub mod Known
pub mod Ends
pub mod InTime
mod Tests
use gardena_matter_mqtt_brid.Base.{
  ℕ, zero, suc, ◌+◌, Bool, true, false, not, ◌&&◌, ◌||◌, Option, none, some, List, [], ◌∷◌, leb,
  length, if◌then◌else◌,
}
use gardena_matter_mqtt_brid.Base.Exec.{
  Exec, Result, ok, err, pure, raise, raise_if, gets, ◌>>=◌, ◌>>◌, timeout_error, out_of_fuel,
}
use gardena_matter_mqtt_brid.Text.{Str, str, str_eq, contains}
use gardena_matter_mqtt_brid.Json.{
  Json, bool, string, arr, obj, end, items, entries, dict, list, is_dict, is_str, truthy,
}
use gardena_matter_mqtt_brid.Json.Dict.{Dict, get, update}
use gardena_matter_mqtt_brid.Mower.{Mower, nested_value}
use gardena_matter_mqtt_brid.Mower.Event.{get_or}
use gardena_matter_mqtt_brid.Transport.{Conn}
use gardena_matter_mqtt_brid.Transport.Reads.{stream}
use gardena_matter_mqtt_brid.WebSocket.{send_text, receive_text}

-- MOWER_MODELS: the name and the generation of a model number.
abbrev pub mower_models : Dict (Str × Str)
mower_models =
    (str "488", (str "GARDENA smart SILENO pro/max/free", str "gen2"))
    ∷ (str "6146", (str "GARDENA smart SILENO", str "gen1"))
    ∷ (str "29694", (str "GARDENA smart SILENO city/life", str "gen1"))
    ∷ (str "53988", (str "GARDENA smart SILENO city/life LONA", str "gen1_lona"))
    ∷ []

-- What `gateway_messages` lets through of a dict.
abbrev pub is_message : Dict Json → Bool
is_message m =
    is_dict (get_or (str "entity") m (obj end))
    && (is_dict (get_or (str "payload") m (obj end))
        && is_str (get_or (str "request_id") m (string [])))

unfoldable pub messages_of : List Json → List (Dict Json)
messages_of [] = []
messages_of (obj f ∷ l) =
    let rest = messages_of l in if is_message (entries f) then entries f ∷ rest else rest
messages_of (_ ∷ l) = messages_of l

unfoldable pub gateway_messages : (Str → Option Json) → Str → List (Dict Json)
gateway_messages loads raw = elim (loads raw) [ some (arr l) ↦ messages_of (items l) | _ ↦ [] ]

abbrev device_request : Str → Str → Json
device_request service request_id = dict (
    (
      str "entity",
      dict ((str "service", string service) ∷ (str "path", string (str "devices")) ∷ []),
    )
    ∷ (str "op", string (str "read"))
    ∷ (str "request_id", string request_id)
    ∷ [])

-- The requests for the devices of both services.
unfoldable pub device_requests : Str → Str → Json
device_requests id1 id2 =
    list (device_request (str "lemonbeatd") id1 ∷ device_request (str "lwm2mserver") id2 ∷ [])

-- The devices so far, and the requests that wait for an answer.
pub record Found : Type 0 where
  pub devices : Dict Json
  pub pending : List Str

-- `pending.remove(id)`
unfoldable pub discard : Str → List Str → List Str
discard id [] = []
discard id (j ∷ ids) = let rest = discard id ids in if str_eq j id then rest else j ∷ rest

-- The entries of `message.get("payload", {})`, which `gateway_messages` let through as a dict.
abbrev pub payload_entries : Dict Json → Dict Json
payload_entries m = elim (get_or (str "payload") m (obj end)) [ obj f ↦ entries f | _ ↦ [] ]

abbrev pub answered : Str → Dict Json → Found → Found
answered id m s =
    if contains s.pending id
    then record {
      devices =
          if truthy (get_or (str "success") m (bool true))
          then update s.devices (payload_entries m)
          else s.devices;
      pending = discard id s.pending;
    }
    else s

abbrev pub note_answer : Option Json → Dict Json → Found → Found
note_answer (some (string id)) m s = answered id m s
note_answer _ m s = s

unfoldable pub note_message : Dict Json → Found → Found
note_message m s = note_answer (get (str "request_id") m) m s

unfoldable pub note_messages : List (Dict Json) → Found → Found
note_messages [] s = s
note_messages (m ∷ ms) s = note_messages ms (note_message m s)

abbrev pub is_nothing : List Str → Bool
is_nothing [] = true
is_nothing (_ ∷ _) = false

module _ (loads : Str → Option Json) where
  abbrev pub note_text : Option Str → Found → Found
  note_text none s = s
  note_text (some raw) s = note_messages (gateway_messages loads raw) s

  -- The loop of `discover_mowers`. A text that comes takes two bytes at least, so that one round more
  -- than there are bytes is enough; `masks` are the masks of the answers to pings.
  unfoldable pub collect_devices : (ℕ → List ℕ) → ℕ → ℕ → Found → Exec Conn Found
  collect_devices masks zero deadline s c = (err out_of_fuel, c)
  collect_devices masks (suc fuel) deadline s c =
      if is_nothing s.pending || leb deadline c.now
      then (ok s, c)
      else (do
        raw ← receive_text (masks fuel)
        collect_devices masks fuel deadline (note_text raw s))
          c

module _ (show : Json → Str) where
  -- `str(value or "")`
  abbrev pub text_or_empty : Json → Str
  text_or_empty (string s) = s
  text_or_empty v = if truthy v then show v else []

  abbrev pub model_number : Json → Str
  model_number data' =
      text_or_empty
        (nested_value data' (str "device" ∷ str "0" ∷ str "model_number" ∷ str "vs" ∷ []))

  abbrev pub mower_of : Str → Json → Str × Str → Mower
  mower_of device_id data' (name, generation) = record {
    device_id = device_id;
    model_number = model_number data';
    name = name;
    generation = generation;
    state = data';
    publisher_key = none;
    publisher_identifier = none;
  }

  abbrev pub with_device : Str → Json → Option (Str × Str) → List Mower → List Mower
  with_device device_id data' none rest = rest
  with_device device_id data' (some model) rest = mower_of device_id data' model ∷ rest

  -- The devices whose model is listed.
  unfoldable pub mowers_of : Dict Json → List Mower
  mowers_of [] = []
  mowers_of ((device_id, data') ∷ d) =
      with_device device_id data' (get (model_number data') mower_models) (mowers_of d)

abbrev pub asked : Str → Str → Found
asked id1 id2 = record { devices = []; pending = id1 ∷ id2 ∷ [] }

-- `discover_mowers(ws)`, with the ids of the requests and the masks of what is sent.
unfoldable pub discover_mowers :
    (Str → Option Json)
    → (Json → Str)
    → (Json → Str)
    → (ℕ → List ℕ)
    → List ℕ
    → Str
    → Str
    → Exec Conn (List Mower)
discover_mowers loads dumps show masks mask id1 id2 = do
  send_text mask (dumps (device_requests id1 id2))
  c ← gets (λ c. c)
  found ←
      collect_devices loads masks (suc (length (stream c.incoming))) (c.now + 30000) (asked id1 id2)
  raise_if (not (is_nothing found.pending)) timeout_error
  pure (mowers_of show found.devices)
