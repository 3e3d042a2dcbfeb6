-- ===== src/Worker/Round/Keeps.antt =====
-- What a method keeps, whichever way it ends, and the publishing methods among them.
use gardena_matter_mqtt_brid.Base.{List, [], ◌∷◌, Option, none, some}
use gardena_matter_mqtt_brid.Base.Exec.{Exec, Result, ok, err, pure, lift, gets, continue, ◌>>=◌}
use gardena_matter_mqtt_brid.Text.{Str}
use gardena_matter_mqtt_brid.Json.{Json}
use gardena_matter_mqtt_brid.Mower.{Mower, activity}
use gardena_matter_mqtt_brid.Mower.Discovery.{
  send_each, send_activity, publish_activity, publish_discovery, legacy_messages,
  discovery_messages,
}
use gardena_matter_mqtt_brid.Telemetry.{Device, Entity, readings}
use gardena_matter_mqtt_brid.Telemetry.Publish.{send_all, send_values, topic_text, publish}

pub data Keeps {S : Type 0} (P : S → Type 0) {A : Type 0} (m : Exec S A) : Type 0 where
  keeps : ((s : S) → P s → P (m s).1) → Keeps P m

module _ {S : Type 0} where
  pub kept : {P : S → Type 0} {A : Type 0} {m : Exec S A} → Keeps P m → (s : S) → P s → P (m s).1
  kept (keeps k) = k

module _ {S : Type 0} (P : S → Type 0) where
  pub Keeps-pure : {A : Type 0} (a : A) → Keeps P (pure a)
  Keeps-pure a = keeps (λ s h. h)

  pub Keeps-lift : {A : Type 0} (r : Result A) → Keeps P (lift r)
  Keeps-lift r = keeps (λ s h. h)

  pub Keeps-gets : {A : Type 0} (f : S → A) → Keeps P (gets f)
  Keeps-gets f = keeps (λ s h. h)

  continue-kept :
      {A B : Type 0} (f : A → Exec S B) (r : Result A) (s : S)
      → ((a : A) → Keeps P (f a))
      → P s
      → P (continue r f s).1
  continue-kept f (ok a) s next h = kept (next a) s h
  continue-kept f (err e) s next h = h

  pub Keeps-bind :
      {A B : Type 0} {m : Exec S A} {f : A → Exec S B}
      → Keeps P m
      → ((a : A) → Keeps P (f a))
      → Keeps P (m >>= f)
  Keeps-bind {m = m} {f = f} (keeps k) next =
      keeps (λ s h. continue-kept f (m s).0 (m s).1 next (k s h))

  -- The publishing methods keep what each message keeps.
  module _ (send : Str → Str → Exec S (Unit {0})) (one : (t p : Str) → Keeps P (send t p)) where
    send_all-Keeps : (l : List (Str × Str)) → Keeps P (send_all send l)
    unfolding send_all
    send_all-Keeps [] = Keeps-pure tt
    send_all-Keeps ((t, p) ∷ l) = Keeps-bind (one t p) (λ u. send_all-Keeps l)

    send_values-Keeps : (l : List (Json × Str)) → Keeps P (send_values send l)
    send_values-Keeps [] = Keeps-pure tt
    send_values-Keeps ((t, p) ∷ l) =
        Keeps-bind (Keeps-lift (topic_text t))
          (λ topic. Keeps-bind (one topic p) (λ u. send_values-Keeps l))

    pub publish-Keeps :
        (dumps : Json → Str) (plan : List Entity) (devices : List Device) (availability : Str)
        → Keeps P (publish send dumps plan devices availability)
    unfolding publish
    publish-Keeps dumps plan devices availability =
        Keeps-bind (Keeps-lift (readings plan devices))
          (λ values. Keeps-bind (send_all-Keeps _) (λ u. send_values-Keeps values))

    module _ (digest : Str → Str) where
      send_each-Keeps : (l : List (Str × Str)) → Keeps P (send_each digest send l)
      send_each-Keeps [] = Keeps-pure tt
      send_each-Keeps ((t, p) ∷ l) = Keeps-bind (one t p) (λ u. send_each-Keeps l)

      send_activity-Keeps :
          (prefix : Str) (m : Mower) (a : Option Str)
          → Keeps P (send_activity digest send prefix m a)
      send_activity-Keeps prefix m none = Keeps-pure tt
      send_activity-Keeps prefix m (some a) = one _ a

      pub publish_discovery-Keeps :
          (dumps : Json → Str) (prefix ha_prefix availability : Str) (m : Mower)
          → Keeps P (publish_discovery digest send dumps prefix ha_prefix availability m)
      unfolding publish_discovery publish_activity
      publish_discovery-Keeps dumps prefix ha_prefix availability m =
          Keeps-bind (send_each-Keeps (legacy_messages digest ha_prefix m)) (λ u.
            Keeps-bind
              (send_each-Keeps (discovery_messages digest dumps prefix ha_prefix availability m))
              (λ v. Keeps-bind (Keeps-lift (activity m)) (send_activity-Keeps prefix m)))
