-- ===== src/Worker/Round/Waits.antt =====
-- What leaves the requests that were sent, and those that wait for an answer, alone.
use gardena_matter_mqtt_brid.Base.{◌≡◌, refl, ◌∙◌, Bool, true, false, List, [], ◌∷◌, arith}
use gardena_matter_mqtt_brid.Base.Exec.{Exec, lift, modify, ◌>>=◌}
use gardena_matter_mqtt_brid.Text.{Str, str}
use gardena_matter_mqtt_brid.Json.{Json}
use gardena_matter_mqtt_brid.Mower.{Mower}
use gardena_matter_mqtt_brid.Telemetry.{Device, Entity, make_plan}
use gardena_matter_mqtt_brid.Worker.{World, activate}
use gardena_matter_mqtt_brid.Worker.Loop.{Loop, send_message}
use gardena_matter_mqtt_brid.Worker.Round.{
  Running, Met, with_plan, in_charge, on_world, on_loop, take_charge, hand_over, discover_each,
  publish_all,
}
use gardena_matter_mqtt_brid.Worker.Round.Keeps.{
  Keeps, keeps, kept, Keeps-pure, Keeps-lift, Keeps-gets, Keeps-bind, publish-Keeps,
  publish_discovery-Keeps,
}

-- The same commands wait, and the same requests were sent.
pub record Waits (s t : Running) : Type 0 where
  pub same_pending : t.loop.pending ≡ s.loop.pending
  pub same_requests : t.loop.requests ≡ s.loop.requests

pub on_world-Waits : (s : Running) {A : Type 0} (m : Exec World A) → Keeps (Waits s) (on_world m)
on_world-Waits s m =
    keeps (λ t h. record { same_pending = h.same_pending; same_requests = h.same_requests })

modify-Waits :
    (s : Running) (f : Running → Running)
    → ((t : Running)
        → (((f t).loop.pending ≡ t.loop.pending) × ((f t).loop.requests ≡ t.loop.requests)))
    → Keeps (Waits s) (modify f)
modify-Waits s f same = keeps (λ t h. record {
  same_pending = (same t).0 ∙ h.same_pending;
  same_requests = (same t).1 ∙ h.same_requests;
})

-- What is kept of the loop by its messages: they change no request and no wait.
abbrev IsKept : Running → Loop → Type 0
IsKept s l = (l.pending ≡ s.loop.pending) × (l.requests ≡ s.loop.requests)

send_message-IsKept :
    (s : Running) (topic payload : Str) → Keeps (IsKept s) (send_message topic payload)
unfolding send_message
send_message-IsKept s topic payload = keeps (λ l h. ground (arith, h))

on_loop-Waits :
    (s : Running) {A : Type 0} (m : Exec Loop A) → Keeps (IsKept s) m → Keeps (Waits s) (on_loop m)
on_loop-Waits s m k = keeps (λ t h.
    let after = kept k t.loop (h.same_pending, h.same_requests) in
    record { same_pending = after.0; same_requests = after.1 })

module _ (strip : Str → Str) (show dumps : Json → Str) (digest : Str → Str)
    (prefix ha_prefix availability binding : Str) where
  take_charge-Waits :
      (s : Running) (planned : List Entity × List Mower) (devices : List Device)
      → Keeps (Waits s) (
          take_charge strip show dumps digest prefix ha_prefix availability binding planned devices)
  take_charge-Waits s (plan, mowers) devices =
      Keeps-bind (Waits s)
        (modify-Waits s
          (with_plan strip show dumps digest prefix ha_prefix availability binding plan mowers)
          (λ t. (refl, refl)))
        (λ u.
          Keeps-bind (Waits s) (on_world-Waits s (activate binding plan mowers devices)) (λ state.
            modify-Waits s
              (in_charge strip show dumps digest prefix ha_prefix availability binding state mowers)
              (λ t. (refl, refl))))

  pub hand_over-Waits :
      (s : Running) (i : Met)
      → Keeps (Waits s) (hand_over strip show dumps digest prefix ha_prefix availability binding i)
  unfolding hand_over
  hand_over-Waits s i = Keeps-bind (Waits s) (Keeps-lift (Waits s) i.handover) (λ devices.
      Keeps-bind (Waits s) (Keeps-lift (Waits s) i.retained) (λ existing.
        Keeps-bind (Waits s)
          {f = λ mowers. do
            planned ← lift (make_plan digest prefix ha_prefix devices existing mowers)
            take_charge strip show dumps digest prefix ha_prefix availability binding planned
                devices}
          (Keeps-gets (Waits s) (λ t. t.loop.mowers))
          (λ mowers.
            Keeps-bind (Waits s)
              (Keeps-lift (Waits s) (make_plan digest prefix ha_prefix devices existing mowers))
              (λ planned. take_charge-Waits s planned devices))))

  discover_each-Waits :
      (s : Running) (mowers : List Mower)
      → Keeps
          (Waits s)
          (discover_each strip show dumps digest prefix ha_prefix availability binding mowers)
  unfolding discover_each
  discover_each-Waits s [] = Keeps-pure (Waits s) tt
  discover_each-Waits s (m ∷ ms) =
      Keeps-bind (Waits s)
        (on_loop-Waits s _ (
          publish_discovery-Keeps (IsKept s) send_message (send_message-IsKept s) digest dumps
            prefix ha_prefix availability m))
        (λ u. discover_each-Waits s ms)

  pub publish_all-Waits :
      (s : Running) (b : Bool) (plan : List Entity) (devices : List Device)
      → Keeps
          (Waits s)
          (publish_all strip show dumps digest prefix ha_prefix availability binding b plan devices)
  publish_all-Waits s false plan devices = Keeps-pure (Waits s) tt
  publish_all-Waits s true plan devices =
      Keeps-bind (Waits s)
        (on_loop-Waits s _ (
          publish-Keeps (IsKept s) send_message (send_message-IsKept s) dumps plan devices
            availability))
        (λ u. Keeps-bind (Waits s) (Keeps-gets (Waits s) (λ t. t.loop.mowers)) (λ mowers.
          Keeps-bind (Waits s) (discover_each-Waits s mowers)
            (λ v. on_loop-Waits s _ (send_message-IsKept s availability (str "online")))))
