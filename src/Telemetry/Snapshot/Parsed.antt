-- ===== src/Telemetry/Snapshot/Parsed.antt =====
-- What a parsed snapshot is, and that it can be planned with and read.
use mathlib.Core.Path.{subst}
use gardena_matter_mqtt_brid.Base.{
  ℕ, ◌≡◌, refl, ap, inl, inr, Bool, true, false, Option, none, some, List, [], ◌∷◌, ◌++◌, All,
  arith, Bool-cases,
}
use gardena_matter_mqtt_brid.Base.Exec.{Result, Result-cases, ok, err}
use gardena_matter_mqtt_brid.Text.{Str, str, str_eq}
use gardena_matter_mqtt_brid.Json.{Json, string}
use gardena_matter_mqtt_brid.Json.Dict.{Dict, get, put, NodupKeys, put-NodupKeys}
use gardena_matter_mqtt_brid.Mower.{or_null}
use gardena_matter_mqtt_brid.Telemetry.{Device, bind, sensors, unalias, has_serial, is_empty}
use gardena_matter_mqtt_brid.Telemetry.Config.{is_some}
use gardena_matter_mqtt_brid.Telemetry.Plans.{IsSnapshot}
use gardena_matter_mqtt_brid.Telemetry.Snapshot.{
  Member, same_parts, parent_of, parts_of, last_of, listed, resource_of, with_value, with_id,
  with_resource, read_value, read_values, with_values, with_serial, read_devices, distinct, checked,
  read_members, parse_snapshot, stored,
}

-- A resource of SENSORS.
abbrev pub IsListed : Str → Type 0
IsListed resource = is_some (get resource sensors) ≡ true

-- The values of a device: listed resources, none of them twice.
abbrev pub IsReading : Dict Str → Type 0
IsReading values = NodupKeys values × All (λ p. IsListed p.0) values

abbrev AllReading : Result (Dict Str) → Type 0
AllReading (ok values) = IsReading values
AllReading (err e) = Unit {0}

put-IsListed :
    (k v : Str) (d : Dict Str)
    → IsListed k
    → All (λ p. IsListed p.0) d
    → All (λ p. IsListed p.0) (put k v d)
unfolding put
put-IsListed k v [] h all = (h, tt)
put-IsListed k v ((j, w) ∷ d) h (first, rest) = elim (Bool-cases (str_eq j k)) [
  | inl same ↦ rw same (first, rest)
  | inr other ↦ rw other (first, put-IsListed k v d h rest)
]

module _ (is_finite : Json → Result Bool) (show : Json → Str) (is_decimal : ℕ → Bool)
    (documents : Dict (Dict Json)) where
  stored-reading :
      (resource : Str) (values : Dict Str) (r : Result Str)
      → IsListed resource
      → IsReading values
      → AllReading (stored is_finite show is_decimal documents resource values r)
  stored-reading resource values (ok text) listed (nodup, all) =
      (put-NodupKeys resource text values nodup, put-IsListed resource text values listed all)
  stored-reading resource values (err e) listed h = tt

  with_value-reading :
      (resource : Str) (values : Dict Str) (o : Option (Dict Json))
      → IsListed resource
      → IsReading values
      → AllReading (with_value is_finite show is_decimal documents resource values o)
  with_value-reading resource values none listed h = h
  with_value-reading resource values (some d) listed h = stored-reading resource values _ listed h

  with_id-reading :
      (parent : List Str) (resource : Str) (values : Dict Str) (o : Option Str)
      → IsListed resource
      → IsReading values
      → AllReading (with_id is_finite show is_decimal documents parent resource values o)
  with_id-reading parent resource values none listed h = h
  with_id-reading parent resource values (some id) listed h =
      with_value-reading resource values _ listed h

  with_resource-reading :
      (parent : List Str) (name : Str) (schema : Dict Json) (values : Dict Str) (o : Option Str)
      → ((resource : Str) → o ≡ some resource → IsListed resource)
      → IsReading values
      → AllReading (with_resource is_finite show is_decimal documents parent name schema values o)
  with_resource-reading parent name schema values none listed h = h
  with_resource-reading parent name schema values (some resource) listed h =
      with_id-reading parent resource values _ (listed resource refl) h

  listed_lem : (name resource : Str) → listed name ≡ some resource → IsListed resource
  listed_lem name resource e = elim (Bool-cases (is_some (get name sensors))) [
    | inr strange ↦ absurd (ground (arith, e, strange))
    | inl good ↦
        let same : name ≡ resource = ground (arith, e, good) in
        subst (λ (r : Str). IsListed r) same good
  ]

  resource_of_lem : (v : Json) (resource : Str) → resource_of v ≡ some resource → IsListed resource
  resource_of_lem (string name) resource e = listed_lem (unalias name) resource e
  resource_of_lem _ resource e = absurd (ground (arith, e))

  read_value-reading :
      (parent : List Str) (path : Str) (schema : Dict Json) (values : Dict Str)
      → IsReading values
      → AllReading (read_value is_finite show is_decimal documents parent path schema values)
  unfolding read_value
  read_value-reading parent path schema values h =
      elim (Bool-cases
        (same_parts (parent_of (parts_of path)) (parent ++ str "Value_description" ∷ []))) [
          | inr other ↦ rw other h
          | inl here ↦ rw here (
              with_resource-reading parent (last_of (parts_of path)) schema values
                (resource_of (or_null (get (str "name") schema)))
                (λ resource e. resource_of_lem (or_null (get (str "name") schema)) resource e) h)
        ]

  bind-reading :
      (r : Result (Dict Str)) (f : Dict Str → Result (Dict Str))
      → AllReading r
      → ((values : Dict Str) → IsReading values → AllReading (f values))
      → AllReading (bind r f)
  bind-reading (ok values) f h next = next values h
  bind-reading (err e) f h next = tt

  read_values-reading :
      (parent : List Str) (d : Dict (Dict Json)) (values : Dict Str)
      → IsReading values
      → AllReading (read_values is_finite show is_decimal documents parent d values)
  unfolding read_values
  read_values-reading parent [] values h = h
  read_values-reading parent ((path, schema) ∷ d) values h =
      bind-reading (read_value is_finite show is_decimal documents parent path schema values)
        (λ more. read_values is_finite show is_decimal documents parent d more)
        (read_value-reading parent path schema values h)
        (λ more next. read_values-reading parent d more next)

  abbrev AllRead : Result (List Device) → Type 0
  AllRead (ok devices) = All (λ d. IsReading d.values) devices
  AllRead (err e) = Unit {0}

  with_values-read :
      (serial : Str) (values : Dict Str) (ds : List Device)
      → IsReading values
      → All (λ d. IsReading d.values) ds
      → All
          (λ d. IsReading d.values)
          (with_values is_finite show is_decimal documents serial values ds)
  with_values-read serial [] ds h rest = rest
  with_values-read serial (p ∷ values) ds h rest = (h, rest)

  added :
      (r : Result (List Device)) (serial : Str) (values : Dict Str)
      → AllRead r
      → IsReading values
      → AllRead (
          bind r
            (λ devices. ok (with_values is_finite show is_decimal documents serial values devices)))
  added (ok devices) serial values h good = with_values-read serial values devices good h
  added (err e) serial values h good = tt

  bind-read :
      (r : Result (Dict Str)) (f : Dict Str → Result (List Device))
      → AllReading r
      → ((values : Dict Str) → IsReading values → AllRead (f values))
      → AllRead (bind r f)
  bind-read (ok values) f h next = next values h
  bind-read (err e) f h next = tt

  with_serial-read :
      (parent : List Str) (o : Option Str) (r : Result (List Device))
      → AllRead r
      → AllRead (with_serial is_finite show is_decimal documents parent o r)
  with_serial-read parent none r h = h
  with_serial-read parent (some serial) r h =
      bind-read (read_values is_finite show is_decimal documents parent documents [])
        (λ values.
          bind r
            (λ devices. ok (with_values is_finite show is_decimal documents serial values devices)))
        (read_values-reading parent documents [] (tt, tt))
        (λ values good. added r serial values h good)

  read_devices-read :
      (d : Dict (Dict Json)) → AllRead (read_devices is_finite show is_decimal documents d)
  unfolding read_devices
  read_devices-read [] = tt
  read_devices-read ((path, description) ∷ d) = with_serial-read _ _ _ (read_devices-read d)

snapshot_lem :
    (ds : List Device) → distinct ds ≡ true → All (λ d. IsReading d.values) ds → IsSnapshot ds
snapshot_lem [] h all = tt
snapshot_lem (d ∷ ds) h (first, rest) = elim (Bool-cases (has_serial ds d.serial)) [
  | inl twice ↦ absurd (ground (arith, h, twice))
  | inr once ↦ (once, first.0, snapshot_lem ds (ground (arith, h, once)) rest)
]

-- What the end of `parse_snapshot` lets through.
checked_lem :
    (r : Result (List Device)) (ds : List Device)
    → checked r ≡ ok ds
    → (r ≡ ok ds) × (distinct ds ≡ true) × (is_empty ds ≡ false)
checked_lem (err e) ds h = absurd (ground (arith, h))
checked_lem (ok es) ds h = elim (Bool-cases (distinct es)) [
  | inr twice ↦ absurd (ground (arith, h, twice))
  | inl once ↦ elim (Bool-cases (is_empty es)) [
    | inl empty ↦ absurd (ground (arith, h, once, empty))
    | inr full ↦
        let same : es ≡ ds = ground (arith, h, once, full) in
        (ap ok same, rw same at once, rw same at full)
  ]
]

-- A snapshot that is parsed has a device; no two devices have the same serial, no device has a resource
-- twice, and every resource is one of SENSORS.
pub parse_snapshot-IsSnapshot :
    (is_finite : Json → Result Bool) (show : Json → Str) (is_decimal : ℕ → Bool)
    (members : List Member) (devices : List Device)
    → parse_snapshot is_finite show is_decimal members ≡ ok devices
    → IsSnapshot devices × All (λ d. IsReading d.values) devices × (is_empty devices ≡ false)
unfolding parse_snapshot
parse_snapshot-IsSnapshot is_finite show is_decimal members devices run =
    elim (Result-cases (read_members 0 members [])) [
      | inr (x, e) ↦ absurd (ground (arith, run, e))
      | inl (documents, e) ↦
          let (made, once, full) =
            checked_lem (read_devices is_finite show is_decimal documents documents) devices
              (rw e at run) in
          let all : All (λ d. IsReading d.values) devices =
            rw made at (read_devices-read is_finite show is_decimal documents documents) in
          (snapshot_lem devices once all, all, full)
    ]
