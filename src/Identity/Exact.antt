-- ===== src/Identity/Exact.antt =====
-- Which messages `publisher_mower_identity` recognizes, and what is collected of them.
use gardena_matter_mqtt_brid.Base.{
  ◌≡◌, refl, ap, inl, inr, Bool, true, false, Option, none, some, [], ◌∷◌, ◌++◌, arith, Bool-cases,
}
use gardena_matter_mqtt_brid.Base.Exec.{Result, ok, err}
use gardena_matter_mqtt_brid.Text.{without_prefix, Str, str, str_eq, str_eq→eq}
use gardena_matter_mqtt_brid.Json.{Json, obj, entries, equals_str}
use gardena_matter_mqtt_brid.Json.Dict.{Dict, get}
use gardena_matter_mqtt_brid.Mower.{or_null}
use gardena_matter_mqtt_brid.Mower.Event.{in_texts}
use gardena_matter_mqtt_brid.Identity.{
  Scope, is_key, key_of, checked_key, one_identifier, config_topic, state_topics, announced, keyed,
  identified, of_device, identity_of, loaded, publisher_mower_identity,
}

without_prefix_lem : (s p k : Str) → without_prefix s p ≡ some k → s ≡ p ++ k
unfolding without_prefix
without_prefix_lem s [] k h = ground (arith, h)
without_prefix_lem [] (p ∷ ps) k h = absurd (ground (arith, h))
without_prefix_lem (c ∷ s) (p ∷ ps) k h = ground (arith, h, without_prefix_lem s ps k)

checked_key_lem :
    (o : Option Str) (k : Str) → checked_key o ≡ some k → (o ≡ some k) × (is_key k ≡ true)
checked_key_lem none k h = absurd (ground (arith, h))
checked_key_lem (some j) k h = elim (Bool-cases (is_key j)) [
  | inl fits ↦ let same : j ≡ k = ground (arith, h, fits) in (ap some same, rw same at fits)
  | inr bad ↦ absurd (ground (arith, h, bad))
]

-- An identity whose identifier is its key after `gardena_`, and whose key has four hexadecimal digits.
abbrev pub IsExact : Str × Str → Type 0
IsExact (key, identifier) = (identifier ≡ str "gardena_" ++ key) × (is_key key ≡ true)

key_of-IsExact : (identifier k : Str) → key_of identifier ≡ some k → IsExact (k, identifier)
unfolding key_of
key_of-IsExact identifier k h =
    let (e, good) = checked_key_lem (without_prefix identifier (str "gardena_")) k h in
    (without_prefix_lem identifier (str "gardena_") k e, good)

-- What is returned of a message with the given topic.
abbrev pub IsNamed : Scope → Str → Str × Str → Type 0
IsNamed scope topic (key, identifier) =
    IsExact (key, identifier) × (topic ≡ config_topic scope identifier)

abbrev AllNamed : Scope → Str → Result (Option (Str × Str)) → Type 0
AllNamed scope topic (ok (some p)) = IsNamed scope topic p
AllNamed scope topic _ = Unit {0}

announced-named :
    (scope : Scope) (topic key identifier : Str) (r : Result Bool)
    → IsNamed scope topic (key, identifier)
    → AllNamed scope topic (announced key identifier r)
announced-named scope topic key identifier (ok true) h = h
announced-named scope topic key identifier (ok false) h = tt
announced-named scope topic key identifier (err e) h = tt

keyed-named :
    (scope : Scope) (topic : Str) (config : Dict Json) (identifier : Str) (o : Option Str)
    → key_of identifier ≡ o
    → AllNamed scope topic (keyed scope topic config identifier o)
keyed-named scope topic config identifier none e = tt
keyed-named scope topic config identifier (some key) e =
    elim (Bool-cases (str_eq topic (config_topic scope identifier))) [
      | inr other ↦ rw other tt
      | inl same ↦ rw same (
          announced-named scope topic key identifier
            (in_texts (or_null (get (str "state_topic") config)) (state_topics scope key))
            (key_of-IsExact identifier key e, str_eq→eq topic (config_topic scope identifier) same))
    ]

identified-named :
    (scope : Scope) (topic : Str) (config : Dict Json) (o : Option Str)
    → AllNamed scope topic (identified scope topic config o)
identified-named scope topic config none = tt
identified-named scope topic config (some identifier) =
    keyed-named scope topic config identifier _ refl

of_device-named :
    (scope : Scope) (topic : Str) (config : Dict Json) (d : Json)
    → AllNamed scope topic (of_device scope topic config d)
of_device-named scope topic config (obj f) =
    elim (Bool-cases
      (equals_str (or_null (get (str "manufacturer") (entries f))) (str "GARDENA"))) [
        | inr other ↦ rw other tt
        | inl same ↦ rw same (
            identified-named scope topic config
              (one_identifier (or_null (get (str "identifiers") (entries f)))))
      ]
of_device-named scope topic config _ = tt

loaded-named :
    (scope : Scope) (topic : Str) (o : Option Json) → AllNamed scope topic (loaded scope topic o)
unfolding identity_of
loaded-named scope topic (some (obj f)) = of_device-named scope topic (entries f) _
loaded-named scope topic _ = tt

identity-named :
    (loads : Str → Option Json) (scope : Scope) (topic payload : Str)
    → AllNamed scope topic (publisher_mower_identity loads scope topic payload)
unfolding publisher_mower_identity
identity-named loads scope topic payload = loaded-named scope topic (loads payload)

-- An identity is recognized only with the identifier `gardena_` and four hexadecimal digits, which are
-- its key, and only under the one topic of that identifier.
pub identity-IsNamed :
    (loads : Str → Option Json) (scope : Scope) (topic payload key identifier : Str)
    → publisher_mower_identity loads scope topic payload ≡ ok (some (key, identifier))
    → IsExact (key, identifier) × (topic ≡ config_topic scope identifier)
identity-IsNamed loads scope topic payload key identifier h =
    let named = identity-named loads scope topic payload in rw h at named
