-- ===== src/Worker/Round/Before.antt =====
-- What a round has done up to the select: nothing waits or is asked of the gateway that did not before,
-- and the loop became active only when it was asked to.
use gardena_matter_mqtt_brid.Base.{
  ◌+◌, ◌≡◌, refl, ap, sym, ◌∙◌, ◌≢◌, ◌⊎◌, inl, inr, Bool, true, false, not, ◌&&◌, Option, none,
  some, List, [], ◌∷◌, arith, leb, Bool-cases,
}
use gardena_matter_mqtt_brid.Base.Exec.{Exec, lift, gets, modify, ◌>>=◌, ◌>>◌, Run-cases}
use gardena_matter_mqtt_brid.Text.{Str, str, str_eq, str_eq→eq}
use gardena_matter_mqtt_brid.Json.{Json}
use gardena_matter_mqtt_brid.Telemetry.{Device, Entity, readings}
use gardena_matter_mqtt_brid.Worker.{World, Migration, write_action, report, rollback}
use gardena_matter_mqtt_brid.Worker.Round.{
  Running, Met, on_world, wanted, mode_of, give_back, chosen, act, publish_all, publish_if, refresh,
  poll, poll_after, before_select,
}
use gardena_matter_mqtt_brid.Worker.Round.Keeps.{
  Keeps, keeps, kept, Keeps-pure, Keeps-lift, Keeps-gets, Keeps-bind,
}
use gardena_matter_mqtt_brid.Worker.Round.Waits.{
  Waits, on_world-Waits, hand_over-Waits, publish_all-Waits,
}

-- Nothing was published, and the loop is no more active than it was.
pub record Silent (s t : Running) : Type 0 where
  pub inactive : t.loop.active ≡ false
  pub same_messages : t.loop.messages ≡ s.loop.messages
  pub same_published : t.world.published ≡ s.world.published

abbrev pub AskedOver : Running → Type 0
AskedOver s = s.world.action ≡ some (str "activate")

-- A preview that is not asked to take over.
abbrev pub IsPreview : Running → Type 0
IsPreview s =
    (s.loop.active ≡ false) × (s.journal ≡ none) × (s.world.action ≢ some (str "activate"))

pub record Before (s t : Running) : Type 0 where
  pub waits : Waits s t
  pub only_asked : t.loop.active ≡ true → (s.loop.active ≡ true) ⊎ AskedOver s
  pub silent : IsPreview s → Silent s t

on_world-Before :
    (s : Running) {A : Type 0} (m : Exec World A)
    → ((w : World) → (m w).1.published ≡ w.published)
    → Keeps (Before s) (on_world m)
on_world-Before s m same = keeps (λ t h. record {
  waits = kept (on_world-Waits s m) t h.waits;
  only_asked = h.only_asked;
  silent = λ p. record {
    inactive = (h.silent p).inactive;
    same_messages = (h.silent p).same_messages;
    same_published = same t.world ∙ (h.silent p).same_published;
  };
})

report_silent : (mode : Str) (w : World) → (report mode w).1.published ≡ w.published
unfolding report
report_silent mode w = ground arith

write_action_silent : (w : World) → (write_action none w).1.published ≡ w.published
unfolding write_action
write_action_silent w = ground arith

wanted-some : (a : Option Str) (name : Str) → wanted a ≡ some name → a ≡ some name
wanted-some none name h = absurd (ground (arith, h))
wanted-some (some []) name h = absurd (ground (arith, h))
wanted-some (some (c ∷ s)) name h = h

Before-refl : (s : Running) → Before s s
Before-refl s = record {
  waits = record { same_pending = refl; same_requests = refl };
  only_asked = inl;
  silent = λ p. record { inactive = p.0; same_messages = refl; same_published = refl };
}

same_loop : (s t v : Running) → v.loop ≡ t.loop → v.world ≡ t.world → Before s t → Before s v
same_loop s t v l w h = record {
  waits = record {
    same_pending = ap (λ x. x.pending) l ∙ h.waits.same_pending;
    same_requests = ap (λ x. x.requests) l ∙ h.waits.same_requests;
  };
  only_asked = λ a. h.only_asked (sym (ap (λ x. x.active) l) ∙ a);
  silent = λ p. record {
    inactive = ap (λ x. x.active) l ∙ (h.silent p).inactive;
    same_messages = ap (λ x. x.messages) l ∙ (h.silent p).same_messages;
    same_published = ap (λ x. x.published) w ∙ (h.silent p).same_published;
  };
}

module _ (strip : Str → Str) (show dumps : Json → Str) (digest : Str → Str)
    (prefix ha_prefix availability binding : Str) where
  publish_all-Before :
      (s t : Running) (b : Bool) (plan : List Entity) (devices : List Device)
      → t.loop.active ≡ b
      → Before s t
      → Before s
          (publish_all strip show dumps digest prefix ha_prefix availability binding b plan devices
            t).1
  publish_all-Before s t false plan devices e h = h
  publish_all-Before s t true plan devices e h = record {
    waits =
        kept
          (publish_all-Waits strip show dumps digest prefix ha_prefix availability binding s true
            plan devices)
          t h.waits;
    only_asked = λ a. h.only_asked e;
    silent = λ p. absurd (ground (arith, e, (h.silent p).inactive));
  }

  refresh-Before :
      (s : Running) (i : Met)
      → Keeps (Before s) (refresh strip show dumps digest prefix ha_prefix availability binding i)
  unfolding refresh
  refresh-Before s i = Keeps-bind (Before s) (Keeps-lift (Before s) i.snapshot) (λ devices.
      Keeps-bind (Before s)
        {f = λ plan. do
          lift (readings plan devices)
          publish_if strip show dumps digest prefix ha_prefix availability binding plan devices
          active ← gets (λ t. t.loop.active)
          on_world (report (mode_of active))
          modify (λ t. record t { next_poll = i.polled + 30000 })}
        (Keeps-gets (Before s) (λ t. t.plan))
        (λ plan. Keeps-bind (Before s) (Keeps-lift (Before s) (readings plan devices)) (λ u.
          Keeps-bind (Before s)
            (keeps (λ t h. publish_all-Before s t t.loop.active plan devices refl h))
            (λ v.
              Keeps-bind (Before s)
                {f = λ active. do
                  on_world (report (mode_of active))
                  modify (λ t. record t { next_poll = i.polled + 30000 })}
                (Keeps-gets (Before s) (λ t. t.loop.active))
                (λ active.
                  Keeps-bind (Before s)
                    (on_world-Before s (report (mode_of active)) (report_silent (mode_of active)))
                    (λ w. keeps (λ t h.
                      same_loop s t (record t { next_poll = i.polled + 30000 }) refl refl h)))))))

  poll-Before :
      (s : Running) (i : Met)
      → Keeps (Before s) (poll strip show dumps digest prefix ha_prefix availability binding i)
  poll-Before s i = keeps (λ t h. elim (Bool-cases (leb t.next_poll i.clock)) [
    | inl due ↦ rw due (kept (refresh-Before s i) t h)
    | inr early ↦ rw early h
  ])

  poll_after-Before :
      (s : Running) (i : Met) (go_on : Bool)
      → Keeps
          (Before s)
          (poll_after strip show dumps digest prefix ha_prefix availability binding i go_on)
  poll_after-Before s i false = Keeps-pure (Before s) false
  poll_after-Before s i true =
      Keeps-bind (Before s) (poll-Before s i) (λ u. Keeps-pure (Before s) true)

  -- The state has a journal, so that it is no preview.
  give_back-Before :
      (s t : Running) (state : Option Migration)
      → s.journal ≡ state
      → Before s t
      → Before s (give_back strip show dumps digest prefix ha_prefix availability binding state t).1
  give_back-Before s t none e h = h
  give_back-Before s t (some j) e h = record {
    waits =
        kept
          (Keeps-bind (Waits s) (on_world-Waits s (rollback dumps availability ha_prefix j)) (λ u.
            Keeps-bind (Waits s) (on_world-Waits s (report (str "rolled_back")))
              (λ v. Keeps-pure (Waits s) false)))
          t h.waits;
    only_asked = λ a. h.only_asked (loop_kept a);
    silent = λ p. absurd (ground (arith, e, p.1));
  }
    where
      loop_kept :
          (give_back strip show dumps digest prefix ha_prefix availability binding
              (some j)
              t).1.loop.active
            ≡ true
          → t.loop.active ≡ true
      loop_kept a = ground (arith, a)

  chosen-Before :
      (s t : Running) (i : Met) (name : Str) (active : Bool) (state : Option Migration)
      → s.world.action ≡ some name
      → s.journal ≡ state
      → Before s t
      → Before s
          (chosen strip show dumps digest prefix ha_prefix availability binding i name active state
            t).1
  chosen-Before s t i name active state asked there h =
      elim (Bool-cases (str_eq name (str "activate") && not active)) [
        | inl over ↦
            let named : name ≡ str "activate" =
              str_eq→eq name (str "activate") (ground (arith, over)) in
            let asked_now : AskedOver s = asked ∙ ap some named in
            rw over (record {
              waits =
                  kept
                    (Keeps-bind (Waits s)
                      (hand_over-Waits strip show dumps digest prefix ha_prefix availability binding
                        s i)
                      (λ u. Keeps-pure (Waits s) true))
                    t h.waits;
              only_asked = λ a. inr asked_now;
              silent = λ p. absurd (p.2 asked_now);
            })
        | inr other ↦ elim (Bool-cases (str_eq name (str "rollback"))) [
          | inl back ↦ rw (other, back) (give_back-Before s t state there h)
          | inr neither ↦ rw (other, neither) h
        ]
      ]

  act-Before :
      (s : Running) (i : Met) (action : Option Str)
      → wanted s.world.action ≡ action
      → Before s s
      → Before s (act strip show dumps digest prefix ha_prefix availability binding i action s).1
  act-Before s i none e h = unfold act in h
  act-Before s i (some name) e h =
      let written = kept (on_world-Before s (write_action none) write_action_silent) s h in
      elim (Run-cases (write_action none s.world)) [
        | inr (x, w, run) ↦
            let after : Before s (record s { world = w }) = rw run at written in
            unfold act in rw run after
        | inl (u, w, run) ↦
            let after : Before s (record s { world = w }) = rw run at written in
            unfold act in
            rw run (
              chosen-Before s (record s { world = w }) i name s.loop.active s.journal
                (wanted-some s.world.action name e) refl after)
      ]

  pub before_select-Before :
      (s : Running) (i : Met)
      → Before s (before_select strip show dumps digest prefix ha_prefix availability binding i s).1
  before_select-Before s i =
      let acted = act-Before s i (wanted s.world.action) refl (Before-refl s) in
      elim (Run-cases (
        act strip show dumps digest prefix ha_prefix availability binding i (wanted s.world.action)
          s)) [
            | inr (x, t, run) ↦
                let after : Before s t = rw run at acted in unfold before_select in rw run after
            | inl (go_on, t, run) ↦
                let after : Before s t = rw run at acted in
                unfold before_select in rw run (kept (poll_after-Before s i go_on) t after)
          ]
