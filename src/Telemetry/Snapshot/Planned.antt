-- ===== src/Telemetry/Snapshot/Planned.antt =====
-- What the worker plans from a parsed snapshot.
use gardena_matter_mqtt_brid.Base.{
  ℕ, ◌≡◌, refl, Bool, true, Option, none, some, List, [], ◌∷◌, ◌++◌, map, All, arith,
}
use gardena_matter_mqtt_brid.Base.Exec.{Result, ok}
use gardena_matter_mqtt_brid.Text.{Str}
use gardena_matter_mqtt_brid.Json.{Json}
use gardena_matter_mqtt_brid.Json.Dict.{Dict, get}
use gardena_matter_mqtt_brid.Mower.{Mower}
use gardena_matter_mqtt_brid.Telemetry.{
  Device, Entity, Existing, sensors, fresh_records, plan_records, make_plan, name_mower,
  fresh_entity, readings, device_key,
}
use gardena_matter_mqtt_brid.Telemetry.Config.{is_some}
use gardena_matter_mqtt_brid.Telemetry.Collect.{Round, collect_existing}
use gardena_matter_mqtt_brid.Telemetry.Collect.Gathered.{collect_existing-HasTopic}
use gardena_matter_mqtt_brid.Telemetry.Plans.{readings-make_plan, texted}
use gardena_matter_mqtt_brid.Telemetry.Snapshot.{Member, parse_snapshot}
use gardena_matter_mqtt_brid.Telemetry.Snapshot.Parsed.{
  IsListed, IsReading, parse_snapshot-IsSnapshot,
}

-- What the worker plans from a parsed snapshot and from the entities that it collected of the broker
-- can be served at once: `readings` finds a value and a topic for every entity, whatever stands in the
-- snapshot and on the broker.
pub parsed-readings :
    (is_finite : Json → Result Bool) (show : Json → Str) (is_decimal : ℕ → Bool)
    (members : List Member) (loads : Str → Result Json) (hexdigest : Str → Str)
    (prefix ha_prefix : Str) (id1 id2 now : ℕ) (rounds : List Round) (devices : List Device)
    (existing : List Existing) (mowers named : List Mower) (plan : List Entity)
    → parse_snapshot is_finite show is_decimal members ≡ ok devices
    → collect_existing loads prefix ha_prefix id1 id2 now rounds ≡ ok existing
    → make_plan hexdigest prefix ha_prefix devices existing mowers ≡ ok (plan, named)
    → (values : List (Str × Str)) × (readings plan devices ≡ ok (map texted values))
parsed-readings is_finite show is_decimal members loads hexdigest prefix ha_prefix id1 id2 now
      rounds devices existing mowers named plan parsed collected planned =
    readings-make_plan hexdigest prefix ha_prefix devices existing mowers plan named
      (parse_snapshot-IsSnapshot is_finite show is_decimal members devices parsed).0
      (collect_existing-HasTopic loads prefix ha_prefix id1 id2 now rounds existing collected).0
      planned

is_some_lem : {A : Type 0} (o : Option A) → is_some o ≡ true → (a : A) × (o ≡ some a)
is_some_lem none h = absurd (ground (arith, h))
is_some_lem (some a) h = (a, refl)

fresh_records_made :
    (prefix ha_prefix key serial : Str) (values : Dict Str)
    → All (λ p. IsListed p.0) values
    → (es : List Entity) × (fresh_records prefix ha_prefix key serial values ≡ ok es)
unfolding fresh_records
fresh_records_made prefix ha_prefix key serial [] h = ([], refl)
fresh_records_made prefix ha_prefix key serial ((resource, v) ∷ values) (good, rest) =
    let (s, e) = is_some_lem (get resource sensors) good in
    let (es, f) = fresh_records_made prefix ha_prefix key serial values rest in
    (fresh_entity prefix ha_prefix key serial resource s ∷ es, ground (arith, e, f))

plan_records_made :
    (hexdigest : Str → Str) (prefix ha_prefix : Str) (ds : List Device)
    → All (λ d. IsReading d.values) ds
    → (es : List Entity) × (plan_records hexdigest prefix ha_prefix [] ds ≡ ok es)
unfolding plan_records
plan_records_made hexdigest prefix ha_prefix [] h = ([], refl)
plan_records_made hexdigest prefix ha_prefix (d ∷ ds) (good, rest) =
    let (es, e) =
      fresh_records_made prefix ha_prefix (device_key hexdigest prefix ha_prefix d) d.serial
        d.values good.1 in
    let (more, f) = plan_records_made hexdigest prefix ha_prefix ds rest in
    (es ++ more, ground (arith, e, f))

-- A snapshot that is parsed can always be planned with when the broker holds no entity and there is no
-- mower, however many devices it has, and the plan can be served at once.
pub parsed-make_plan :
    (is_finite : Json → Result Bool) (show : Json → Str) (is_decimal : ℕ → Bool)
    (members : List Member) (hexdigest : Str → Str) (prefix ha_prefix : Str) (devices : List Device)
    → parse_snapshot is_finite show is_decimal members ≡ ok devices
    → (plan : List Entity) × (values : List (Str × Str)) × (make_plan hexdigest prefix ha_prefix
          devices [] []
        ≡ ok (plan, []))
      × (readings plan devices ≡ ok (map texted values))
parsed-make_plan is_finite show is_decimal members hexdigest prefix ha_prefix devices parsed =
    let snapshot = parse_snapshot-IsSnapshot is_finite show is_decimal members devices parsed in
    let (plan, e) = plan_records_made hexdigest prefix ha_prefix devices snapshot.1 in
    let made : make_plan hexdigest prefix ha_prefix devices [] [] ≡ ok (plan, []) =
      unfold make_plan name_mower in ground (arith, e) in
    let (values, served) =
      readings-make_plan hexdigest prefix ha_prefix devices [] [] plan [] snapshot.0 tt made in
    (plan, values, made, served)
