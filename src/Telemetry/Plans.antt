-- ===== src/Telemetry/Plans.antt =====
-- What `make_plan` returns, and that `readings` can serve it.
use mathlib.Core.Path.{subst}
use gardena_matter_mqtt_brid.Base.{
  ◌≡◌, refl, sym, ap, ◌∙◌, ◌⊎◌, inl, inr, true, false, none, some, List, [], ◌∷◌, ◌++◌, map, arith,
  Bool-cases, Option-cases, if◌then◌else◌, All, All-map, All-append, append-nil,
}
use gardena_matter_mqtt_brid.Base.Exec.{ok, Result-cases}
use gardena_matter_mqtt_brid.Text.{Str, str, str_eq, str_eq_refl, str_eq→eq}
use gardena_matter_mqtt_brid.Json.{Json, string}
use gardena_matter_mqtt_brid.Json.Dict.{Dict, get, NodupKeys}
use gardena_matter_mqtt_brid.Mower.{Mower}
use gardena_matter_mqtt_brid.Telemetry.{
  Device, Entity, Existing, Sensor, fresh_entity, attach, adopt_records, fresh_records,
  fresh_config, sensors, plan_records, name_mower, make_plan, device_records, device_key, current,
  readings, state_topic, one_key, same_keys, is_one, is_empty, has_serial,
}

-- The serials of a snapshot differ, and no device lists a resource twice, as `parse_snapshot` makes
-- them.
abbrev pub IsSnapshot : List Device → Type 0
IsSnapshot [] = Unit
IsSnapshot (d ∷ ds) = (has_serial ds d.serial ≡ false) × NodupKeys d.values × IsSnapshot ds

-- An entity with a value in the devices and a text for a topic.
abbrev pub IsServed : List Device → Entity → Type 0
IsServed devices e =
    (v : Str) × (t : Str) × (get e.resource (current devices e.serial) ≡ some v)
    × (state_topic e ≡ ok (string t))

-- A text for a topic, with the value.
abbrev pub texted : Str × Str → Json × Str
texted (topic, value) = (string topic, value)

readings_served :
    (plan : List Entity) (devices : List Device)
    → All (IsServed devices) plan
    → (values : List (Str × Str)) × (readings plan devices ≡ ok (map texted values))
unfolding readings
readings_served [] devices h = ([], refl)
readings_served (e ∷ plan) devices ((v, t, hv, ht), rest) =
    let (values, r) = readings_served plan devices rest in
    ((t, v) ∷ values, ground (arith, hv, ht, r))

-- The records of existing entities are the same ones, with the device's serial added.
adopt_records_lem :
    (d : Device) (rs : List Existing) (es : List Entity)
    → adopt_records d rs ≡ ok es
    → es ≡ map (attach d.serial) rs
unfolding adopt_records
adopt_records_lem d [] es h = ground arith
adopt_records_lem d (r ∷ rs) es h = elim (Option-cases (get r.resource d.values)) [
  | inl e ↦ absurd (ground (arith, e))
  | inr (v, e) ↦ elim (Result-cases (adopt_records d rs)) [
    | inl (es', e') ↦ ground (arith, e, e', adopt_records_lem d rs es' e')
    | inr (x, e') ↦ absurd (ground (arith, e, e'))
  ]
]

abbrev pub HasTopic : Existing → Type 0
HasTopic r = (t : Str) × (get (str "state_topic") r.config ≡ some (string t))

current_one : (d : Device) → current (d ∷ []) d.serial ≡ d.values
unfolding current
current_one d = ground (arith, str_eq_refl d.serial)

IsServed-by :
    (d : Device) (e : Entity) (v t : Str)
    → e.serial ≡ d.serial
    → get e.resource d.values ≡ some v
    → get (str "state_topic") e.config ≡ some (string t)
    → IsServed (d ∷ []) e
IsServed-by d e v t s hv ht = (
  v,
  t,
  (ap (λ (x : Str). get e.resource (current (d ∷ []) x)) s
        ∙ ap (λ (x : Dict Str). get e.resource x) (current_one d))
      ∙ hv,
  rw (ht, state_topic),
)

-- Each of them has a value in the device.
adopt_records-IsServed :
    (d : Device) (rs : List Existing) (es : List Entity)
    → adopt_records d rs ≡ ok es
    → All HasTopic rs
    → All (IsServed (d ∷ [])) (map (attach d.serial) rs)
unfolding adopt_records
adopt_records-IsServed d [] es h topics = tt
adopt_records-IsServed d (r ∷ rs) es h ((t, ht), topics) =
    elim (Option-cases (get r.resource d.values)) [
      | inl e ↦ absurd (ground (arith, e))
      | inr (v, e) ↦ elim (Result-cases (adopt_records d rs)) [
        | inl (es', e') ↦ (
          IsServed-by d (attach d.serial r) v t refl e ht,
          adopt_records-IsServed d rs es' e' topics,
        )
        | inr (x, e') ↦ absurd (ground (arith, e, e'))
      ]
    ]

apart : (k j : Str) (l : Dict Str) {v : Str} → get k l ≡ none → k ≡ j → get j l ≡ some v → ⊥
apart k j l fresh e h = cc (fresh, e, h)

-- A list of entries without repeated keys is read back entry by entry.
get_entries : (l : Dict Str) → NodupKeys l → All (λ (p : Str × Str). get p.0 l ≡ some p.1) l
unfolding get
get_entries [] u = tt
get_entries ((k, v) ∷ l) (fresh, u) = (
  rw (str_eq_refl k),
  All-map (λ (p : Str × Str). get p.0 l ≡ some p.1) _ l later (get_entries l u),
)
  where
    later :
        (p : Str × Str)
        → get p.0 l ≡ some p.1
        → (if str_eq k p.0 then some v else get p.0 l) ≡ some p.1
    later p h = elim (Bool-cases (str_eq k p.0)) [
      | inl same ↦ absurd (apart k p.0 l fresh (str_eq→eq k p.0 same) h)
      | inr other ↦ rw other h
    ]

ok_inj {ℓ} : {A : Type ℓ} {a b : A} → ok a ≡ ok b → a ≡ b
ok_inj h = cc

fresh_topic :
    (prefix key resource : Str) (s : Sensor)
    → (t : Str) × (get (str "state_topic") (fresh_config prefix key resource s) ≡ some (string t))
unfolding fresh_config get str str_eq
fresh_topic prefix key resource s =
    (prefix ++ (str "/" ++ (key ++ (str "/" ++ (resource ++ str "/state")))), refl)

fresh-IsServed :
    (devices : List Device) (prefix ha_prefix key serial : Str) (l : Dict Str) (es : List Entity)
    → fresh_records prefix ha_prefix key serial l ≡ ok es
    → All (λ (p : Str × Str). get p.0 (current devices serial) ≡ some p.1) l
    → All (IsServed devices) es
unfolding fresh_records
fresh-IsServed devices prefix ha_prefix key serial [] es h served =
    subst (λ x. All (IsServed devices) x) (ok_inj h) tt
fresh-IsServed devices prefix ha_prefix key serial ((k, v) ∷ l) es h (hv, served) =
    elim (Option-cases (get k sensors)) [
      | inl e ↦ absurd (ground (arith, e))
      | inr (s, e) ↦ elim (Result-cases (fresh_records prefix ha_prefix key serial l)) [
        | inr (x, e') ↦ absurd (ground (arith, e, e'))
        | inl (es', e') ↦
            let first : Entity = fresh_entity prefix ha_prefix key serial k s in
            let shape : first ∷ es' ≡ es = ground (arith, e, e', h) in
            let topic = fresh_topic prefix key k s in
            subst (λ x. All (IsServed devices) x) shape
              (
                (v, topic.0, hv, rw (topic.1, state_topic)),
                fresh-IsServed devices prefix ha_prefix key serial l es' e' served,
              )
      ]
    ]

-- What a device's serial gives in `current`, for the devices of a list.
abbrev IsCurrent : List Device → Device → Type 0
IsCurrent devices d =
    (has_serial devices d.serial ≡ true)
    × (current devices d.serial ≡ d.values)
    × NodupKeys d.values

IsCurrent-later :
    (d : Device) (ds : List Device) (x : Device) → IsCurrent ds x → IsCurrent (d ∷ ds) x
unfolding current
IsCurrent-later d ds x (known, values, u) =
    (ground (arith, known), ground (arith, known, values), u)

snapshot-IsCurrent : (ds : List Device) → IsSnapshot ds → All (IsCurrent ds) ds
snapshot-IsCurrent [] h = tt
snapshot-IsCurrent (d ∷ ds) (new, u, h) = (
  (rw (str_eq_refl d.serial), unfold current in ground (arith, new, str_eq_refl d.serial), u),
  All-map (IsCurrent ds) (IsCurrent (d ∷ ds)) ds (IsCurrent-later d ds) (snapshot-IsCurrent ds h),
)

module _ (hexdigest : Str → Str) (prefix ha_prefix : Str) where
  fresh_plan-IsServed :
      (devices ds : List Device) (es : List Entity)
      → All (IsCurrent devices) ds
      → plan_records hexdigest prefix ha_prefix [] ds ≡ ok es
      → All (IsServed devices) es
  unfolding plan_records
  fresh_plan-IsServed devices [] es h p = subst (λ x. All (IsServed devices) x) (ok_inj p) tt
  fresh_plan-IsServed devices (d ∷ ds) es ((known, values, u), rest) p =
      elim (Result-cases (device_records hexdigest prefix ha_prefix [] d)) [
        | inr (x, e) ↦ absurd (ground (arith, e))
        | inl (es1, e) ↦ elim (Result-cases (plan_records hexdigest prefix ha_prefix [] ds)) [
          | inr (x, e') ↦ absurd (ground (arith, e, e'))
          | inl (es2, e') ↦
              let shape : es1 ++ es2 ≡ es = ground (arith, e, e', p) in
              subst (λ x. All (IsServed devices) x) shape
                (All-append (IsServed devices) es1 es2
                  (fresh-IsServed devices prefix ha_prefix (device_key hexdigest prefix ha_prefix d)
                    d.serial d.values es1 e
                    (subst
                      (λ (l : Dict Str). All (λ (q : Str × Str). get q.0 l ≡ some q.1) d.values)
                      (sym values) (get_entries d.values u)))
                  (fresh_plan-IsServed devices ds es2 rest e'))
        ]
      ]

  make_plan_steps :
      (devices : List Device) (existing : List Existing) (mowers : List Mower) (plan : List Entity)
      (named : List Mower)
      → make_plan hexdigest prefix ha_prefix devices existing mowers ≡ ok (plan, named)
      → (plan_records hexdigest prefix ha_prefix existing devices ≡ ok plan)
        × (name_mower hexdigest prefix ha_prefix mowers plan ≡ ok named)
        × ((is_empty existing ≡ true)
            ⊎ ((one_key existing ≡ true) × (is_one devices ≡ true) × (is_one mowers ≡ true)))
  make_plan_steps devices existing mowers plan named h =
      elim (Result-cases (plan_records hexdigest prefix ha_prefix existing devices)) [
        | inr (x, e) ↦ absurd (unfold make_plan in ground (arith, e))
        | inl (es, e) ↦ elim (Result-cases (name_mower hexdigest prefix ha_prefix mowers es)) [
          | inr (x, e') ↦ absurd (unfold make_plan in ground (arith, e, e'))
          | inl (ms, e') ↦ unfold make_plan in ground (arith, e, e', h)
        ]
      ]

  is_one_lem {ℓ} : {A : Type ℓ} (l : List A) → is_one l ≡ true → (x : A) × (l ≡ x ∷ [])
  is_one_lem [] h = cc
  is_one_lem (x ∷ []) h = (x, refl)
  is_one_lem (x ∷ y ∷ l) h = cc

  adopted_plan :
      (d : Device) (r : Existing) (rs : List Existing) (plan : List Entity)
      → plan_records hexdigest prefix ha_prefix (r ∷ rs) (d ∷ []) ≡ ok plan
      → adopt_records d (r ∷ rs) ≡ ok plan
  adopted_plan d r rs plan p = elim (Result-cases (adopt_records d (r ∷ rs))) [
    | inr (x, e) ↦ absurd (unfold plan_records in ground (arith, e))
    | inl (es, e) ↦
        e ∙ (sym (ap ok (append-nil es)) ∙ (unfold plan_records in ground (arith, e, p)))
  ]

  -- A plan that was made can be served at once: `readings` finds a value and a topic for each entity,
  -- for a snapshot's devices and existing entities that have a state topic.
  pub readings-make_plan :
      (devices : List Device) (existing : List Existing) (mowers : List Mower) (plan : List Entity)
      (named : List Mower)
      → IsSnapshot devices
      → All HasTopic existing
      → make_plan hexdigest prefix ha_prefix devices existing mowers ≡ ok (plan, named)
      → (values : List (Str × Str)) × (readings plan devices ≡ ok (map texted values))
  readings-make_plan devices [] mowers plan named snap topics h = readings_served plan devices (
      fresh_plan-IsServed devices devices plan (snapshot-IsCurrent devices snap)
        (make_plan_steps devices [] mowers plan named h).0)
  readings-make_plan devices (r ∷ rs) mowers plan named snap topics h =
      let (p, n, guards) = make_plan_steps devices (r ∷ rs) mowers plan named h in
      elim guards [
        | inl none_there ↦ absurd (cc)
        | inr (same, one, single) ↦
            let (d, shape) = is_one_lem devices one in
            let a = adopted_plan d r rs plan (rw shape at p) in
            let served =
              subst (λ x. All (IsServed (d ∷ [])) x) (sym (adopt_records_lem d (r ∷ rs) plan a))
                (adopt_records-IsServed d (r ∷ rs) plan a topics) in
            rw shape (readings_served plan (d ∷ []) served)
      ]

  -- A takeover keeps every existing entity as it is and adds the one device's serial; it happens
  -- only with one key, one device and one mower, and the mower then goes by the key of the first
  -- entity.
  pub make_plan_adopts :
      (devices : List Device) (r : Existing) (rs : List Existing) (mowers : List Mower)
      (plan : List Entity) (named : List Mower)
      → make_plan hexdigest prefix ha_prefix devices (r ∷ rs) mowers ≡ ok (plan, named)
      → (d : Device) × (m : Mower) × (devices ≡ d ∷ [])
        × (mowers ≡ m ∷ [])
        × (same_keys r.key rs ≡ true)
        × (plan ≡ map (attach d.serial) (r ∷ rs))
        × (named
            ≡ record m {
              publisher_key = some r.key;
              publisher_identifier = some (str "gardena_" ++ r.key);
            }
              ∷ [])
  make_plan_adopts devices r rs mowers plan named h =
      let (p, n, guards) = make_plan_steps devices (r ∷ rs) mowers plan named h in
      elim guards [
        | inl none_there ↦ absurd (cc)
        | inr (same, one, single) ↦
            let (d, shape) = is_one_lem devices one in
            let (m, single_shape) = is_one_lem mowers single in
            let a = adopted_plan d r rs plan (rw shape at p) in
            let made = adopt_records_lem d (r ∷ rs) plan a in
            (
              d,
              m,
              shape,
              single_shape,
              same,
              made,
              sym (ok_inj (unfold name_mower in (rw (single_shape, made) at n))),
            )
      ]
