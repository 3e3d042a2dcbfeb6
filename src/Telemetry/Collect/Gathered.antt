-- ===== src/Telemetry/Collect/Gathered.antt =====
-- What is collected of the broker's entities can be planned with.
use mathlib.Core.Path.{subst}
use gardena_matter_mqtt_brid.Base.{
  ℕ, ◌≡◌, refl, ap, ◌∙◌, inl, inr, if◌then◌else◌, true, ◌≤◌, Option, none, some, List, [], ◌∷◌,
  ◌++◌, ◌==◌, All, arith, Bool-cases, Option-cases, map, ltb, length, length-map,
}
use gardena_matter_mqtt_brid.Base.Exec.{Result, Result-cases, ok, err}
use gardena_matter_mqtt_brid.Text.{Str, str, str_eq, str_eq→eq, contains, without_prefix}
use gardena_matter_mqtt_brid.Json.{Json, string, obj, entries, equals_str, is_str}
use gardena_matter_mqtt_brid.Json.Dict.{Dict, get, put}
use gardena_matter_mqtt_brid.Mower.{or_null}
use gardena_matter_mqtt_brid.Mqtt.{parse_publish}
use gardena_matter_mqtt_brid.Telemetry.{Existing, Sensor, sensors, unalias}
use gardena_matter_mqtt_brid.Telemetry.Plans.{HasTopic}
use gardena_matter_mqtt_brid.Telemetry.Config.{
  only, allowed_fields, existing, is_some, names_only, resource_of, supported, with_state,
  with_device, with_config, with_key, validate_config, entity_key,
}
use gardena_matter_mqtt_brid.Telemetry.Collect.{
  Round, Gathering, suback, keep, gather, is_settled, gather_all, collect_existing,
}

get-only :
    (keys : List Str) (k : Str) (d : Dict Json)
    → contains keys k ≡ true
    → get k (only keys d) ≡ get k d
unfolding get only
get-only keys k [] h = refl
get-only keys k ((j, v) ∷ d) h = elim (Bool-cases (contains keys j)) [
  | inl here ↦ rw here (ap (λ r. if str_eq j k then some v else r) (get-only keys k d h))
  | inr gone ↦ elim (Bool-cases (str_eq j k)) [
    | inl same ↦ absurd (ground (arith, gone, h, ap (contains keys) (str_eq→eq j k same)))
    | inr other ↦ rw (gone, other) (get-only keys k d h)
  ]
]

without_prefix-nil : (p : Str) (c : ℕ) (q : Str) → without_prefix [] (p ++ (c ∷ q)) ≡ none
unfolding without_prefix
without_prefix-nil [] c q = refl
without_prefix-nil (b ∷ p) c q = refl

resource_of-nil : (prefix key : Str) → resource_of prefix key [] ≡ none
unfolding resource_of str
resource_of-nil prefix key = rw (without_prefix-nil prefix b'/' (key ++ str "/")) refl

-- An entity of the given topic that has a state topic and one of SENSORS for its resource.
abbrev pub IsUsable : Str → Existing → Type 0
IsUsable topic r =
    HasTopic r × (r.topic ≡ topic) × ((s : Sensor) × (get r.resource sensors ≡ some s))

abbrev AllUsable : Str → Result (Option Existing) → Type 0
AllUsable topic (ok (some r)) = IsUsable topic r
AllUsable topic _ = Unit {0}

is_some_lem : {A : Type 0} (o : Option A) → is_some o ≡ true → (a : A) × (o ≡ some a)
is_some_lem none h = absurd (ground (arith, h))
is_some_lem (some a) h = (a, refl)

supported-usable :
    (topic : Str) (original : Json) (config : Dict Json) (key t : Str) (o : Option Str)
    → get (str "state_topic") config ≡ some (string t)
    → AllUsable topic (supported topic original config key o)
supported-usable topic original config key t none e = tt
supported-usable topic original config key t (some resource) e =
    elim (Bool-cases (is_str (or_null (get (str "unique_id") config)))) [
      | inr bad ↦ rw bad tt
      | inl good ↦ elim (Bool-cases (is_some (get (unalias resource) sensors))) [
        | inr strange ↦ rw (good, strange) tt
        | inl listed ↦
            let has_topic : HasTopic (existing topic original config key (unalias resource)) = (
              t,
              get-only allowed_fields (str "state_topic") config
                    (unfold contains str str_eq in refl)
                  ∙ e,
            ) in
            rw (good, listed) (has_topic, refl, is_some_lem (get (unalias resource) sensors) listed)
      ]
    ]

-- Without a state topic the empty text is tried, which no resource fits.
untopical :
    (topic prefix : Str) (original : Json) (config : Dict Json) (key : Str)
    → AllUsable topic (with_state topic prefix original config key (string []))
untopical topic prefix original config key = rw (resource_of-nil prefix key) tt

with_state-usable :
    (topic prefix : Str) (original : Json) (config : Dict Json) (key : Str) (o : Option Json)
    → get (str "state_topic") config ≡ o
    → AllUsable topic
        (with_state topic prefix original config key (elim o [ none ↦ string [] | some v ↦ v ]))
with_state-usable topic prefix original config key none e =
    untopical topic prefix original config key
with_state-usable topic prefix original config key (some (string t)) e =
    supported-usable topic original config key t (resource_of prefix key t) e
with_state-usable topic prefix original config key (some _) e = tt

with_device-usable :
    (topic prefix : Str) (original : Json) (config : Dict Json) (key : Str) (d : Json)
    → AllUsable topic (with_device topic prefix original config key d)
with_device-usable topic prefix original config key (obj f) =
    elim (Bool-cases
      (equals_str (or_null (get (str "manufacturer") (entries f))) (str "GARDENA"))) [
        | inr other ↦ rw other tt
        | inl mine ↦
            elim (Bool-cases (
              names_only (str "gardena_" ++ key) (or_null (get (str "identifiers") (entries f))))) [
                | inr other ↦ rw (mine, other) tt
                | inl one ↦
                    rw (mine, one) (with_state-usable topic prefix original config key _ refl)
              ]
      ]
with_device-usable topic prefix original config key _ = tt

with_config-usable :
    (topic prefix key : Str) (r : Result Json) → AllUsable topic (with_config topic prefix key r)
with_config-usable topic prefix key (ok (obj f)) =
    with_device-usable topic prefix (obj f) (entries f) key _
with_config-usable topic prefix key (ok _) = tt
with_config-usable topic prefix key (err e) = tt

with_key-usable :
    (loads : Str → Result Json) (topic payload prefix : Str) (o : Option Str)
    → AllUsable topic (with_key loads topic payload prefix o)
with_key-usable loads topic payload prefix none = tt
with_key-usable loads topic payload prefix (some key) =
    with_config-usable topic prefix key (loads payload)

-- An entity that is taken for one of the publisher's keeps its topic, has a text for a state topic, and
-- a resource that is one of SENSORS.
pub validate_config-IsUsable :
    (loads : Str → Result Json) (topic payload prefix ha_prefix : Str) (r : Existing)
    → validate_config loads topic payload prefix ha_prefix ≡ ok (some r)
    → HasTopic r × (r.topic ≡ topic) × ((s : Sensor) × (get r.resource sensors ≡ some s))
unfolding validate_config
validate_config-IsUsable loads topic payload prefix ha_prefix r run =
    let usable = with_key-usable loads topic payload prefix (entity_key ha_prefix topic) in
    rw run at usable

-- The records of a round are usable, and at most 256.
abbrev IsGathered : Gathering → Type 0
IsGathered g = All (λ p. HasTopic p.1) g.records × (length g.records ≤ 256)

All-put :
    (k : Str) (r : Existing) (d : Dict Existing)
    → HasTopic r
    → All (λ p. HasTopic p.1) d
    → All (λ p. HasTopic p.1) (put k r d)
unfolding put
All-put k r [] h all = (h, tt)
All-put k r ((j, v) ∷ d) h (first, rest) = elim (Bool-cases (str_eq j k)) [
  | inl same ↦ rw same (h, rest)
  | inr other ↦ rw other (first, All-put k r d h rest)
]

-- Only the subscriptions that wait change at a SUBACK.
suback-IsGathered :
    (body : List ℕ) (g g' : Gathering) → IsGathered g → suback body g ≡ ok g' → IsGathered g'
suback-IsGathered (hi ∷ lo ∷ code ∷ []) g g' h run = elim (Bool-cases (code == 0)) [
  | inr refused ↦ absurd (ground (arith, run, refused))
  | inl fine ↦
      let same : g.records ≡ g'.records = ground (arith, run, fine) in
      subst (λ (l : Dict Existing). All (λ p. HasTopic p.1) l × (length l ≤ 256)) same h
]
suback-IsGathered [] g g' h run = absurd (ground (arith, run))
suback-IsGathered (a ∷ []) g g' h run = absurd (ground (arith, run))
suback-IsGathered (a ∷ b ∷ []) g g' h run = absurd (ground (arith, run))
suback-IsGathered (a ∷ b ∷ c ∷ d ∷ l) g g' h run = absurd (ground (arith, run))

All-values : (d : Dict Existing) → All (λ p. HasTopic p.1) d → All HasTopic (map (λ p. p.1) d)
All-values [] h = tt
All-values ((k, r) ∷ d) (h, rest) = (h, All-values d rest)

module _ (loads : Str → Result Json) (prefix ha_prefix : Str) where
  keep-IsGathered :
      (topic : Str) (r : Existing) (g g' : Gathering)
      → HasTopic r
      → IsGathered g
      → keep topic (some r) g ≡ ok g'
      → IsGathered g'
  keep-IsGathered topic r g g' t h run =
      elim (Bool-cases (ltb 256 (length (put topic r g.records)))) [
        | inl full ↦ absurd (ground (arith, run, full))
        | inr room ↦
            let more : IsGathered (record g { records = put topic r g.records }) =
              (All-put topic r g.records t h.0, ground (arith, room)) in
            let same : record g { records = put topic r g.records } ≡ g' =
              ground (arith, run, room) in
            subst (λ x. IsGathered x) same more
      ]

  gather-IsGathered :
      (given : Result (ℕ × ℕ × List ℕ)) (g g' : Gathering)
      → IsGathered g
      → gather loads prefix ha_prefix given g ≡ ok g'
      → IsGathered g'
  unfolding gather
  gather-IsGathered (err e) g g' h run = absurd (ground (arith, run))
  gather-IsGathered (ok (kind, flags, body)) g g' h run = elim (Bool-cases (kind == 9)) [
    | inl is_suback ↦ suback-IsGathered body g g' h (rw is_suback at run)
    | inr more ↦ elim (Bool-cases (kind == 3)) [
      | inr other ↦ let same : g ≡ g' = ground (arith, run, more, other) in rw same at h
      | inl is_publish ↦ elim (Result-cases (parse_publish flags body)) [
        | inr (x, e) ↦ absurd (ground (arith, run, more, is_publish, e))
        | inl ((topic, payload, retained), e) ↦ elim (Bool-cases (str_eq payload [])) [
          | inl empty ↦
              let same : g ≡ g' = ground (arith, run, more, is_publish, e, empty) in rw same at h
          | inr full ↦ elim (Result-cases (validate_config loads topic payload prefix ha_prefix)) [
            | inr (x, f) ↦ absurd (ground (arith, run, more, is_publish, e, full, f))
            | inl (none, f) ↦
                let same : g ≡ g' = ground (arith, run, more, is_publish, e, full, f) in
                rw same at h
            | inl (some r, f) ↦
                keep-IsGathered topic r g g'
                  (validate_config-IsUsable loads topic payload prefix ha_prefix r f).0 h
                  (rw (more, is_publish, e, full, f) at run)
          ]
        ]
      ]
    ]
  ]

  gather_all-IsGathered :
      (rounds : List Round) (g : Gathering) (l : List Existing)
      → IsGathered g
      → gather_all loads prefix ha_prefix rounds g ≡ ok l
      → All HasTopic l × (length l ≤ 256)
  unfolding gather_all
  gather_all-IsGathered [] g l h run = absurd (ground (arith, run))
  gather_all-IsGathered (r ∷ rounds) g l h run = elim (Option-cases r.given) [
    | inl idle ↦ elim (Bool-cases (is_settled loads prefix ha_prefix g r.at)) [
      | inr busy ↦ gather_all-IsGathered rounds g l h (rw (idle, busy) at run)
      | inl settled ↦
          let same : map (λ p. p.1) g.records ≡ l = ground (arith, run, idle, settled) in
          subst (λ (x : List Existing). All HasTopic x × (length x ≤ 256)) same
            (All-values g.records h.0, rw (length-map g.records (λ p. p.1)) h.1)
    ]
    | inr (packet, came) ↦
        elim (Result-cases
          (gather loads prefix ha_prefix packet (record g { quiet_since = r.at }))) [
            | inr (x, e) ↦ absurd (ground (arith, run, came, e))
            | inl (g1, e) ↦
                gather_all-IsGathered rounds g1 l
                  (gather-IsGathered packet (record g { quiet_since = r.at }) g1 h e)
                  (rw (came, e) at run)
          ]
  ]

-- When the broker's entities are collected, whatever else it sent meanwhile, each of them has a text
-- for a state topic, and they are at most 256.
pub collect_existing-HasTopic :
    (loads : Str → Result Json) (prefix ha_prefix : Str) (id1 id2 now : ℕ) (rounds : List Round)
    (l : List Existing)
    → collect_existing loads prefix ha_prefix id1 id2 now rounds ≡ ok l
    → All HasTopic l × (length l ≤ 256)
unfolding collect_existing
collect_existing-HasTopic loads prefix ha_prefix id1 id2 now rounds l run =
    gather_all-IsGathered loads prefix ha_prefix rounds _ l (tt, omega arith) run
