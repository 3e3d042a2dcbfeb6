-- ===== src/Worker/Controls.antt =====
-- The rollback clears what the discovery of a mower published.
use mathlib.Core.Path.{subst}
use gardena_matter_mqtt_brid.Base.{
  ◌≡◌, refl, sym, ◌⊎◌, inl, inr, true, false, List, [], ◌∷◌, ◌++◌, map, arith, Bool-cases, All,
  All-map,
}
use gardena_matter_mqtt_brid.Text.{Str, str, str_eq, str_eq→eq, contains, decimal}
use gardena_matter_mqtt_brid.Json.{Json}
use gardena_matter_mqtt_brid.Mower.{Mower, key}
use gardena_matter_mqtt_brid.Mower.Discovery.{discovery_messages}
use gardena_matter_mqtt_brid.Telemetry.{Entity}
use gardena_matter_mqtt_brid.Worker.{
  control_topics, clear_all, control_messages, keys_of, original_message, rollback_messages,
}

-- The message stands in the list.
abbrev pub IsSent : Str × Str → List (Str × Str) → Type 0
IsSent x [] = ⊥
IsSent x (y ∷ l) = (x ≡ y) ⊎ IsSent x l

IsSent-append_left : (x : Str × Str) (l k : List (Str × Str)) → IsSent x l → IsSent x (l ++ k)
IsSent-append_left x [] k h = absurd h
IsSent-append_left x (y ∷ l) k (inl e) = inl e
IsSent-append_left x (y ∷ l) k (inr h) = inr (IsSent-append_left x l k h)

IsSent-append_right : (x : Str × Str) (l k : List (Str × Str)) → IsSent x k → IsSent x (l ++ k)
IsSent-append_right x [] k h = h
IsSent-append_right x (y ∷ l) k h = inr (IsSent-append_right x l k h)

-- The discovery of a mower goes to the control topics of its key.
discovery_topics :
    (hexdigest : Str → Str) (dumps : Json → Str) (prefix ha_prefix availability : Str) (m : Mower)
    → map (λ x. x.0) (discovery_messages hexdigest dumps prefix ha_prefix availability m)
      ≡ control_topics ha_prefix (key hexdigest m)
unfolding discovery_messages str decimal
discovery_topics hexdigest dumps prefix ha_prefix availability m = refl

abbrev Clears : List (Str × Str) → Str → Type 0
Clears l t = IsSent (t, []) l

clear_all-Clears : (ts : List Str) → All (Clears (clear_all ts)) ts
clear_all-Clears [] = tt
clear_all-Clears (t ∷ ts) = (
  inl refl,
  All-map (Clears (clear_all ts)) (Clears (clear_all (t ∷ ts))) ts (λ x h. inr h)
      (clear_all-Clears ts),
)

control_messages-Clears :
    (ha_prefix : Str) (ks : List Str) (k : Str)
    → contains ks k ≡ true
    → All (Clears (control_messages ha_prefix ks)) (control_topics ha_prefix k)
control_messages-Clears ha_prefix [] k h = absurd (unfold contains in ground arith)
control_messages-Clears ha_prefix (j ∷ ks) k h =
    let first : List (Str × Str) = clear_all (control_topics ha_prefix j) in
    let later : List (Str × Str) = control_messages ha_prefix ks in
    elim (Bool-cases (str_eq j k)) [
      | inl same ↦
          subst (λ i. All (Clears (first ++ later)) (control_topics ha_prefix i))
            (str_eq→eq j k same)
            (All-map (Clears first) (Clears (first ++ later)) (control_topics ha_prefix j)
              (λ t c. IsSent-append_left (t, []) first later c)
              (clear_all-Clears (control_topics ha_prefix j)))
      | inr other ↦
          All-map (Clears later) (Clears (first ++ later)) (control_topics ha_prefix k)
            (λ t c. IsSent-append_right (t, []) first later c)
            (control_messages-Clears ha_prefix ks k (unfold contains in ground (arith, other, h)))
    ]

-- Each key of the plan is among the keys that are cleared.
contains-keys_of :
    (seen : List Str) (plan : List Entity) (k : Str)
    → contains seen k ≡ false
    → contains (map (λ (e : Entity). e.key) plan) k ≡ true
    → contains (keys_of seen plan) k ≡ true
unfolding contains
contains-keys_of seen [] k fresh h = absurd (ground arith)
contains-keys_of seen (e ∷ plan) k fresh h = elim (Bool-cases (contains seen e.key)) [
  | inl old ↦
      let other : str_eq e.key k ≡ false = elim (Bool-cases (str_eq e.key k)) [
        | inl same ↦
            let there : contains seen k ≡ true =
              subst (λ i. contains seen i ≡ true) (str_eq→eq e.key k same) old in
            absurd (ground (arith, there, fresh))
        | inr differs ↦ differs
      ] in
      rw old (contains-keys_of seen plan k fresh (ground (arith, other, h)))
  | inr new ↦ elim (Bool-cases (str_eq e.key k)) [
    | inl same ↦ rw (new, same) refl
    | inr other ↦
        rw (new, other)
          (contains-keys_of (e.key ∷ seen) plan k (rw other fresh) (ground (arith, other, h)))
  ]
]

-- A rollback clears every discovery topic of a mower that goes by a key of the plan: whichever topic
-- the mower's discovery is published under, the rollback sends an empty message to it.
pub rollback-discovery :
    (hexdigest : Str → Str) (dumps dumps' : Json → Str)
    (prefix ha_prefix availability availability' : Str) (m : Mower) (plan : List Entity)
    → contains (map (λ (e : Entity). e.key) plan) (key hexdigest m) ≡ true
    → All
        (λ t. IsSent (t, []) (rollback_messages dumps' availability' ha_prefix plan))
        (map (λ x. x.0) (discovery_messages hexdigest dumps prefix ha_prefix availability m))
rollback-discovery hexdigest dumps dumps' prefix ha_prefix availability availability' m plan h =
    let k : Str = key hexdigest m in
    let found = contains-keys_of [] plan k (unfold contains in refl) h in
    let cleared = control_messages-Clears ha_prefix (keys_of [] plan) k found in
    let all : List (Str × Str) = rollback_messages dumps' availability' ha_prefix plan in
    subst (λ ts. All (Clears all) ts)
      (sym (discovery_topics hexdigest dumps prefix ha_prefix availability m))
      (All-map (Clears (control_messages ha_prefix (keys_of [] plan))) (Clears all)
        (control_topics ha_prefix k)
        (λ t c.
          unfold rollback_messages in
          inr (
            IsSent-append_right (t, []) (map (original_message dumps') plan)
              (control_messages ha_prefix (keys_of [] plan)) c))
        cleared)
