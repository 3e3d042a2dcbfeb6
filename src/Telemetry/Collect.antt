-- ===== src/Telemetry/Collect.antt =====
-- gardena_local_mqtt/worker.py, `collect_existing`: the entities that the broker holds, once it has
-- confirmed both subscriptions and been quiet for a second.

pub mod Gathered
use gardena_matter_mqtt_brid.Base.{
  ℕ, ◌+◌, ◌*◌, ◌-◌, Bool, true, false, not, ◌&&◌, ◌||◌, Option, none, some, List, [], ◌∷◌, ◌++◌,
  map, ◌==◌, ltb, leb, length, if◌then◌else◌,
}
use gardena_matter_mqtt_brid.Base.Exec.{
  Result, ok, err, value_error, timeout_error, connection_error,
}
use gardena_matter_mqtt_brid.Text.{Str, str, str_eq}
use gardena_matter_mqtt_brid.Json.{Json}
use gardena_matter_mqtt_brid.Json.Dict.{Dict, put}
use gardena_matter_mqtt_brid.Mqtt.{parse_publish}
use gardena_matter_mqtt_brid.Telemetry.{Existing, is_empty}
use gardena_matter_mqtt_brid.Telemetry.Config.{validate_config}

-- A round of the loop: the clock when `select` returned, and what `mqtt.receive()` gave when the socket
-- was readable.
pub record Round : Type 0 where
  pub at : ℕ
  pub given : Option (Result (ℕ × ℕ × List ℕ))

-- The subscriptions that wait, the last time that something came, and the records by their topics.
pub record Gathering : Type 0 where
  pub pending : List ℕ
  pub quiet_since : ℕ
  pub records : Dict Existing

-- `pending.discard(id)`
unfoldable pub without : ℕ → List ℕ → List ℕ
without id [] = []
without id (j ∷ ids) = let rest = without id ids in if j == id then rest else j ∷ rest

-- A SUBACK that accepts.
abbrev pub suback : List ℕ → Gathering → Result Gathering
suback (hi ∷ lo ∷ code ∷ []) g =
    if not (code == 0)
    then err connection_error
    else ok (record g { pending = without (hi * 256 + lo) g.pending })
suback _ g = err connection_error

abbrev pub keep : Str → Option Existing → Gathering → Result Gathering
keep topic none g = ok g
keep topic (some r) g =
    let records = put topic r g.records in
    if ltb 256 (length records) then err value_error else ok (record g { records = records })

abbrev pub kept : Str → Result (Option Existing) → Gathering → Result Gathering
kept topic (ok o) g = keep topic o g
kept topic (err e) g = err e

module _ (loads : Str → Result Json) (prefix ha_prefix : Str) where
  abbrev pub published : Result (Str × Str × Bool) → Gathering → Result Gathering
  published (ok (topic, payload, retained)) g =
      if str_eq payload []
      then ok g
      else kept topic (validate_config loads topic payload prefix ha_prefix) g
  published (err e) g = err e

  -- A packet that came.
  unfoldable pub gather : Result (ℕ × ℕ × List ℕ) → Gathering → Result Gathering
  gather (ok (kind, flags, body)) g =
      if kind == 9
      then suback body g
      else if kind == 3
      then published (parse_publish flags body) g
      else ok g
  gather (err e) g = err e

  abbrev pub is_settled : Gathering → ℕ → Bool
  is_settled g now = is_empty g.pending && leb 1000 (now - g.quiet_since)

  -- The loop over the rounds that its ten seconds leave.
  unfoldable pub gather_all : List Round → Gathering → Result (List Existing)
  gather_all [] g = err timeout_error
  gather_all (r ∷ rs) g = elim r.given [
    | none ↦ if is_settled g r.at then ok (map (λ p. p.1) g.records) else gather_all rs g
    | some packet ↦ elim (gather packet (record g { quiet_since = r.at })) [
      | ok g' ↦ gather_all rs g'
      | err e ↦ err e
    ]
  ]

  -- `collect_existing` from the subscriptions on, whose ids are given.
  unfoldable pub collect_existing : ℕ → ℕ → ℕ → List Round → Result (List Existing)
  collect_existing id1 id2 now rounds =
      gather_all rounds (record { pending = id1 ∷ id2 ∷ []; quiet_since = now; records = [] })
