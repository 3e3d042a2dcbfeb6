-- ===== src/Discover/Known.antt =====
-- What `discover_mowers` finds: mowers of known models, each device once.
use gardena_matter_mqtt_brid.Base.{
  ℕ, zero, suc, ◌+◌, ◌≡◌, refl, inl, inr, true, false, ◌||◌, Option, none, some, List, [], ◌∷◌,
  arith, leb, Bool-cases, map, All,
}
use gardena_matter_mqtt_brid.Base.Exec.{ok, Run-cases}
use gardena_matter_mqtt_brid.Text.{Str, str, str_eq, contains}
use gardena_matter_mqtt_brid.Json.{Json, string, truthy, bool}
use gardena_matter_mqtt_brid.Json.Dict.{Dict, get, NodupKeys, update-NodupKeys}
use gardena_matter_mqtt_brid.Mower.{Mower}
use gardena_matter_mqtt_brid.Mower.Event.{get_or}
use gardena_matter_mqtt_brid.Transport.{Conn}
use gardena_matter_mqtt_brid.Transport.Progress.{left}
use gardena_matter_mqtt_brid.WebSocket.{send_text, receive_text}
use gardena_matter_mqtt_brid.Discover.{
  Found, mower_models, note_message, note_messages, gateway_messages, note_text, collect_devices,
  discover_mowers, mowers_of, model_number, is_nothing, device_requests, asked, payload_entries,
  answered, note_answer, with_device,
}

answered-NodupKeys :
    (id : Str) (m : Dict Json) (s : Found)
    → NodupKeys s.devices
    → NodupKeys (answered id m s).devices
answered-NodupKeys id m s h = elim (Bool-cases (contains s.pending id)) [
  | inr late ↦ rw late h
  | inl waits ↦ elim (Bool-cases (truthy (get_or (str "success") m (bool true)))) [
    | inl good ↦ rw (waits, good) (update-NodupKeys s.devices (payload_entries m) h)
    | inr bad ↦ rw (waits, bad) h
  ]
]

note_answer-NodupKeys :
    (o : Option Json) (m : Dict Json) (s : Found)
    → NodupKeys s.devices
    → NodupKeys (note_answer o m s).devices
note_answer-NodupKeys (some (string id)) m s h = answered-NodupKeys id m s h
note_answer-NodupKeys _ m s h = h

note_message-NodupKeys :
    (m : Dict Json) (s : Found) → NodupKeys s.devices → NodupKeys (note_message m s).devices
unfolding note_message
note_message-NodupKeys m s h = note_answer-NodupKeys (get (str "request_id") m) m s h

note_messages-NodupKeys :
    (ms : List (Dict Json)) (s : Found)
    → NodupKeys s.devices
    → NodupKeys (note_messages ms s).devices
unfolding note_messages
note_messages-NodupKeys [] s h = h
note_messages-NodupKeys (m ∷ ms) s h =
    note_messages-NodupKeys ms (note_message m s) (note_message-NodupKeys m s h)

note_text-NodupKeys :
    (loads : Str → Option Json) (raw : Option Str) (s : Found)
    → NodupKeys s.devices
    → NodupKeys (note_text loads raw s).devices
note_text-NodupKeys loads none s h = h
note_text-NodupKeys loads (some raw) s h = note_messages-NodupKeys (gateway_messages loads raw) s h

collect_devices-NodupKeys :
    (loads : Str → Option Json) (masks : ℕ → List ℕ) (fuel deadline : ℕ) (s t : Found) (c c' : Conn)
    → NodupKeys s.devices
    → collect_devices loads masks fuel deadline s c ≡ (ok t, c')
    → NodupKeys t.devices
unfolding collect_devices
collect_devices-NodupKeys loads masks zero deadline s t c c' h run = absurd (ground (arith, run))
collect_devices-NodupKeys loads masks (suc fuel) deadline s t c c' h run =
    elim (Bool-cases (is_nothing s.pending || leb deadline c.now)) [
      | inl over ↦ let same : s ≡ t = ground (arith, over, run) in rw same at h
      | inr waits ↦ elim (Run-cases (receive_text (masks fuel) c)) [
        | inr (x, c1, e) ↦ absurd (ground (arith, waits, e, run))
        | inl (raw, c1, e) ↦
            collect_devices-NodupKeys loads masks fuel deadline (note_text loads raw s) t c1 c'
              (note_text-NodupKeys loads raw s h) (rw (waits, e) at run)
      ]
    ]

-- A mower by its device id.
abbrev by_id : Mower → Str × Mower
by_id m = (m.device_id, m)

-- A mower of a listed model, which no publisher has named.
abbrev pub IsKnown : (Json → Str) → Mower → Type 0
IsKnown show m =
    (get (model_number show m.state) mower_models ≡ some (m.name, m.generation))
    × (m.model_number ≡ model_number show m.state)
    × (m.publisher_key ≡ none)
    × (m.publisher_identifier ≡ none)

with_device-IsKnown :
    (show : Json → Str) (id : Str) (data' : Json) (o : Option (Str × Str)) (ms : List Mower)
    → get (model_number show data') mower_models ≡ o
    → All (IsKnown show) ms
    → All (IsKnown show) (with_device show id data' o ms)
with_device-IsKnown show id data' none ms e h = h
with_device-IsKnown show id data' (some model) ms e h = ((e, refl, refl, refl), h)

mowers_of-IsKnown : (show : Json → Str) (d : Dict Json) → All (IsKnown show) (mowers_of show d)
unfolding mowers_of
mowers_of-IsKnown show [] = tt
mowers_of-IsKnown show ((id, data') ∷ d) =
    with_device-IsKnown show id data' _ (mowers_of show d) refl (mowers_of-IsKnown show d)

with_device-absent :
    (show : Json → Str) (id j : Str) (data' : Json) (o : Option (Str × Str)) (ms : List Mower)
    → str_eq j id ≡ false
    → get id (map by_id ms) ≡ none
    → get id (map by_id (with_device show j data' o ms)) ≡ none
with_device-absent show id j data' none ms other h = h
with_device-absent show id j data' (some model) ms other h = unfold get in rw other h

mowers_of-absent :
    (show : Json → Str) (id : Str) (d : Dict Json)
    → get id d ≡ none
    → get id (map by_id (mowers_of show d)) ≡ none
unfolding mowers_of
mowers_of-absent show id [] h = unfold get in refl
mowers_of-absent show id ((j, data') ∷ d) h = elim (Bool-cases (str_eq j id)) [
  | inl same ↦ absurd (unfold get in ground (arith, h, same))
  | inr other ↦
      with_device-absent show id j data' _ (mowers_of show d) other
        (mowers_of-absent show id d (unfold get in ground (arith, h, other)))
]

with_device-NodupKeys :
    (show : Json → Str) (id : Str) (data' : Json) (o : Option (Str × Str)) (ms : List Mower)
    → get id (map by_id ms) ≡ none
    → NodupKeys (map by_id ms)
    → NodupKeys (map by_id (with_device show id data' o ms))
with_device-NodupKeys show id data' none ms fresh h = h
with_device-NodupKeys show id data' (some model) ms fresh h = (fresh, h)

mowers_of-NodupKeys :
    (show : Json → Str) (d : Dict Json) → NodupKeys d → NodupKeys (map by_id (mowers_of show d))
unfolding mowers_of
mowers_of-NodupKeys show [] h = tt
mowers_of-NodupKeys show ((id, data') ∷ d) (fresh, h) =
    with_device-NodupKeys show id data' _ (mowers_of show d) (mowers_of-absent show id d fresh)
      (mowers_of-NodupKeys show d h)

-- When the discovery returns, every mower that it found has a model of MOWER_MODELS with the name and
-- the generation that stand there, goes by no publisher's key, and no two are the same device, however
-- often and under which requests the gateway listed it.
pub discover_mowers-IsKnown :
    (loads : Str → Option Json) (dumps show : Json → Str) (masks : ℕ → List ℕ) (mask : List ℕ)
    (id1 id2 : Str) (c c' : Conn) (ms : List Mower)
    → discover_mowers loads dumps show masks mask id1 id2 c ≡ (ok ms, c')
    → All (IsKnown show) ms × NodupKeys (map by_id ms)
unfolding discover_mowers
discover_mowers-IsKnown loads dumps show masks mask id1 id2 c c' ms run =
    elim (Run-cases (send_text mask (dumps (device_requests id1 id2)) c)) [
      | inr (x, c1, e) ↦ absurd (ground (arith, e, run))
      | inl (u, c1, e) ↦
          elim (Run-cases
            (collect_devices loads masks (suc (left c1)) (c1.now + 30000) (asked id1 id2) c1)) [
              | inr (x, c2, f) ↦ absurd (ground (arith, e, f, run))
              | inl (found, c2, f) ↦ elim (Bool-cases (is_nothing found.pending)) [
                | inr missing ↦ absurd (ground (arith, e, f, missing, run))
                | inl all ↦
                    let distinct =
                      collect_devices-NodupKeys loads masks (suc (left c1)) (c1.now + 30000)
                        (asked id1 id2) found c1 c2 tt f in
                    let same : mowers_of show found.devices ≡ ms = ground (arith, e, f, all, run) in
                    (
                      rw same at (mowers_of-IsKnown show found.devices),
                      rw same at (mowers_of-NodupKeys show found.devices distinct),
                    )
              ]
            ]
    ]
