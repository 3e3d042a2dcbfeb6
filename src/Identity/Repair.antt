-- ===== src/Identity/Repair.antt =====
-- The correction of a discovery message is made once.
use gardena_matter_mqtt_brid.Base.{
  ◌≡◌, refl, ap, inl, inr, true, false, Option, none, some, List, arith, Bool-cases, if◌then◌else◌,
  ◌∙◌,
}
use gardena_matter_mqtt_brid.Base.Exec.{Result-cases, ok}
use gardena_matter_mqtt_brid.Text.{Str, str, str_eq, str_eq_refl, contains}
use gardena_matter_mqtt_brid.Json.{
  Json, Fields, string, obj, entries, of_entries, entries-of_entries, equals_str,
}
use gardena_matter_mqtt_brid.Json.Dict.{Dict, get, put, get-put}
use gardena_matter_mqtt_brid.Mower.{or_null}
use gardena_matter_mqtt_brid.Identity.{
  Scope, identity_of, of_device, publisher_mower_identity, value_template, corrected_for,
  corrected_mower_status_discovery, identified, keyed, one_identifier, key_of,
}

-- A config with the template.
abbrev pub fixed : Fields → Json
fixed f = obj (of_entries (put (str "value_template") (string value_template) (entries f)))

get-fixed :
    (j : Str) (d : Dict Json)
    → str_eq (str "value_template") j ≡ false
    → get j (put (str "value_template") (string value_template) d) ≡ get j d
get-fixed j d other =
    ground (arith, get-put (str "value_template") j (string value_template) d, other)

module _ (scope : Scope) (topic : Str) (d e : Dict Json)
    (same : get (str "state_topic") d ≡ get (str "state_topic") e) where
  keyed-same :
      (identifier : Str) (o : Option Str)
      → keyed scope topic d identifier o ≡ keyed scope topic e identifier o
  keyed-same identifier none = refl
  keyed-same identifier (some key) = rw same refl

  identified-same : (o : Option Str) → identified scope topic d o ≡ identified scope topic e o
  identified-same none = refl
  identified-same (some identifier) = keyed-same identifier (key_of identifier)

  of_device-same : (v : Json) → of_device scope topic d v ≡ of_device scope topic e v
  of_device-same (obj f) =
      ap
        (λ r.
          if equals_str (or_null (get (str "manufacturer") (entries f))) (str "GARDENA")
          then r
          else ok none)
        (identified-same (one_identifier (or_null (get (str "identifiers") (entries f)))))
  of_device-same _ = refl

identity_of-fixed :
    (scope : Scope) (topic : Str) (d : Dict Json)
    → identity_of scope topic (put (str "value_template") (string value_template) d)
      ≡ identity_of scope topic d
unfolding identity_of
identity_of-fixed scope topic d =
    let same_device = get-fixed (str "device") d (unfold str str_eq in refl) in
    let same_state = get-fixed (str "state_topic") d (unfold str str_eq in refl) in
    ap
      (λ o.
        of_device scope topic (put (str "value_template") (string value_template) d) (or_null o))
      same_device
    ∙ of_device-same scope topic (put (str "value_template") (string value_template) d) d same_state
        (or_null (get (str "device") d))

template-fixed :
    (d : Dict Json)
    → equals_str
        (or_null
          (get (str "value_template") (put (str "value_template") (string value_template) d)))
        value_template
      ≡ true
unfolding equals_str
template-fixed d = ground (
  arith,
  get-put (str "value_template") (str "value_template") (string value_template) d,
  str_eq_refl (str "value_template"),
  str_eq_refl value_template,
)

identity-fixed :
    (loads : Str → Option Json) (scope : Scope) (topic payload text : Str) (f : Fields)
    → loads payload ≡ some (obj f)
    → loads text ≡ some (fixed f)
    → publisher_mower_identity loads scope topic text
      ≡ publisher_mower_identity loads scope topic payload
unfolding publisher_mower_identity
identity-fixed loads scope topic payload text f e e' =
    let d : Dict Json = put (str "value_template") (string value_template) (entries f) in
    let same = identity_of-fixed scope topic (entries f) in rw (e, e', entries-of_entries d) same

corrected-fixed :
    (loads : Str → Option Json) (dumps : Json → Str) (allowed : List Str) (text : Str) (f : Fields)
    (o : Option (Str × Str))
    → loads text ≡ some (fixed f)
    → corrected_for loads dumps allowed text o ≡ none
corrected-fixed loads dumps allowed text f none e = refl
corrected-fixed loads dumps allowed text f (some (k, i)) e =
    elim (Bool-cases (contains allowed k)) [
      | inr other ↦ rw other refl
      | inl mine ↦
          let d : Dict Json = put (str "value_template") (string value_template) (entries f) in
          rw (mine, e, entries-of_entries d, template-fixed (entries f)) refl
    ]

corrected_text :
    (loads : Str → Option Json) (dumps : Json → Str) (allowed : List Str) (payload text : Str)
    (f : Fields) (o : Option (Str × Str))
    → loads payload ≡ some (obj f)
    → corrected_for loads dumps allowed payload o ≡ some text
    → dumps (fixed f) ≡ text
corrected_text loads dumps allowed payload text f none e h = absurd (ground (arith, h))
corrected_text loads dumps allowed payload text f (some (k, i)) e h =
    elim (Bool-cases (contains allowed k)) [
      | inr other ↦ absurd (ground (arith, h, other))
      | inl mine ↦
          elim (Bool-cases
            (equals_str (or_null (get (str "value_template") (entries f))) value_template)) [
              | inl right ↦ absurd (ground (arith, h, mine, e, right))
              | inr wrong ↦ ground (arith, h, mine, e, wrong)
            ]
    ]

-- A discovery message that is a dict is corrected at most once: when there is a corrected text, and a
-- dict with the template is read back as it was written, the corrected message belongs to the same
-- identity, or none, as the old one, and is not corrected again.
pub correct-once :
    (loads : Str → Option Json) (dumps : Json → Str) (scope : Scope) (allowed : List Str)
    (topic payload text : Str) (f : Fields)
    → loads payload ≡ some (obj f)
    → loads (dumps (fixed f)) ≡ some (fixed f)
    → corrected_mower_status_discovery loads dumps scope allowed topic payload ≡ ok (some text)
    → (publisher_mower_identity loads scope topic text
        ≡ publisher_mower_identity loads scope topic payload)
      × (corrected_mower_status_discovery loads dumps scope allowed topic text ≡ ok none)
correct-once loads dumps scope allowed topic payload text f e e' run =
    elim (Result-cases (publisher_mower_identity loads scope topic payload)) [
      | inr (x, failed) ↦
          absurd (unfold corrected_mower_status_discovery in ground (arith, run, failed))
      | inl (o, found) ↦
          let same =
            corrected_text loads dumps allowed payload text f o e
              (unfold corrected_mower_status_discovery in ground (arith, run, found)) in
          let back : loads text ≡ some (fixed f) = rw same at e' in
          let identity = identity-fixed loads scope topic payload text f e back in
          let none_again = corrected-fixed loads dumps allowed text f o back in
          (
            identity,
            unfold corrected_mower_status_discovery in ground (arith, identity, found, none_again),
          )
    ]
