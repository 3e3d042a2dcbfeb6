-- ===== src/Worker/Round/Rounds.antt =====
-- What a whole round of the loop of `Worker.run` does.
use mathlib.Core.Path.{subst}
use gardena_matter_mqtt_brid.Base.{
  ◌≤◌, ◌≡◌, refl, sym, ap, ◌∙◌, ◌⊎◌, inl, inr, Bool, true, false, some, [], ◌∷◌, ◌++◌, length,
  arith,
}
use gardena_matter_mqtt_brid.Base.Exec.{Result, ok, err, Run-cases}
use gardena_matter_mqtt_brid.Text.{Str}
use gardena_matter_mqtt_brid.Json.{Json}
use gardena_matter_mqtt_brid.Mower.{Mower}
use gardena_matter_mqtt_brid.Worker.Loop.{Incoming, max_pending_commands, turn}
use gardena_matter_mqtt_brid.Worker.Loop.Turns.{Forwards, TurnDoes, turn-TurnDoes}
use gardena_matter_mqtt_brid.Worker.Round.{Running, Met, before_select, round}
use gardena_matter_mqtt_brid.Worker.Round.Before.{
  Before, IsPreview, AskedOver, before_select-Before,
}

-- What a round does: at most one request, that of its packet's command to the loop as the action and
-- the poll left it; at most 32 commands wait; the loop becomes active only when that was asked for; and
-- a preview that is not asked to take over sends nothing.
pub record RoundDoes (strip : Str → Str) (i : Met) (s t s' : Running) : Type 0 where
  pub asks :
      (s'.loop.requests ≡ s.loop.requests)
      ⊎ ((p : Incoming) × (m : Mower) × (q : Json) × (i.input.packet ≡ ok (some p))
          × Forwards strip p t.loop m q
          × ((s.loop.active ≡ true) ⊎ AskedOver s)
          × (s'.loop.requests ≡ s.loop.requests ++ q ∷ []))
  pub waiting :
      length s.loop.pending ≤ max_pending_commands → length s'.loop.pending ≤ max_pending_commands
  pub only_asked : s'.loop.active ≡ true → (s.loop.active ≡ true) ⊎ AskedOver s
  pub preview :
      IsPreview s
      → (s'.loop.requests ≡ s.loop.requests)
        × (s'.loop.messages ≡ s.loop.messages)
        × (s'.world.published ≡ s.world.published)

unmoved : (strip : Str → Str) (i : Met) (s t : Running) → Before s t → RoundDoes strip i s t t
unmoved strip i s t h = record {
  asks = inl h.waits.same_requests;
  waiting = λ few. omega (arith, ap (λ x. length x) h.waits.same_pending, few);
  only_asked = h.only_asked;
  preview = λ p. (h.waits.same_requests, (h.silent p).same_messages, (h.silent p).same_published);
}

turned :
    (strip : Str → Str) (i : Met) (s t s' : Running)
    → Before s t
    → TurnDoes strip i.input t.loop s'.loop
    → s'.world ≡ t.world
    → RoundDoes strip i s t s'
turned strip i s t s' h k w = record {
  asks = elim k.asks [
    | inl none_sent ↦ inl (none_sent ∙ h.waits.same_requests)
    | inr (p, m, q, there, f, sent) ↦ inr (
      p,
      m,
      q,
      there,
      f,
      h.only_asked f.is_active,
      sent ∙ ap (λ x. x ++ q ∷ []) h.waits.same_requests,
    )
  ];
  waiting = λ few. k.waiting (omega (arith, ap (λ x. length x) h.waits.same_pending, few));
  only_asked = λ a. h.only_asked (sym k.same_active ∙ a);
  preview = λ p. (
    (k.preview (h.silent p).inactive).0 ∙ h.waits.same_requests,
    (k.preview (h.silent p).inactive).1 ∙ (h.silent p).same_messages,
    ap (λ x. x.published) w ∙ (h.silent p).same_published,
  );
}

module _ (strip : Str → Str) (show dumps : Json → Str) (digest : Str → Str)
    (prefix ha_prefix availability binding : Str) where
  -- Every round of the loop, whichever way it ends and whatever its action and its poll meet, sends at
  -- most one request, the one that `command` makes of its packet, and this only for an action that the
  -- mower of the packet's topic takes, from a packet that was not retained, with fewer than 32 commands
  -- waiting, in a loop that is active once the action and the poll are done, and so was active before
  -- or was asked to take over; never do more than 32 wait; the loop becomes active only when it was
  -- asked to take over; and a preview that has no journal and was not asked to take over sends no
  -- request and publishes nothing.
  pub round-RoundDoes :
      (i : Met) (s s' : Running) (r : Result Bool)
      → round strip show dumps digest prefix ha_prefix availability binding i s ≡ (r, s')
      → RoundDoes strip i s
          (before_select strip show dumps digest prefix ha_prefix availability binding i s).1
          s'
  round-RoundDoes i s s' r h =
      let before =
        before_select-Before strip show dumps digest prefix ha_prefix availability binding s i in
      elim (Run-cases
        (before_select strip show dumps digest prefix ha_prefix availability binding i s)) [
          | inr (x, t, run) ↦
              let held : Before s t = rw run at before in
              let last : t ≡ s' = unfold round in ground (arith, run, h) in
              rw run (subst (λ v. RoundDoes strip i s t v) last (unmoved strip i s t held))
          | inl (false, t, run) ↦
              let held : Before s t = rw run at before in
              let last : t ≡ s' = unfold round in ground (arith, run, h) in
              rw run (subst (λ v. RoundDoes strip i s t v) last (unmoved strip i s t held))
          | inl (true, t, run) ↦
              let held : Before s t = rw run at before in
              elim (Run-cases (turn strip show digest prefix i.input t.loop)) [
                | inl (u, l, e) ↦
                    let last : record t { loop = l } ≡ s' =
                      unfold round in ground (arith, run, e, h) in
                    let does : TurnDoes strip i.input t.loop l =
                      turn-TurnDoes strip show digest prefix i.input t.loop l (ok u) e in
                    rw run (
                      subst (λ v. RoundDoes strip i s t v) last
                        (turned strip i s t (record t { loop = l }) held does refl))
                | inr (x, l, e) ↦
                    let last : record t { loop = l } ≡ s' =
                      unfold round in ground (arith, run, e, h) in
                    let does : TurnDoes strip i.input t.loop l =
                      turn-TurnDoes strip show digest prefix i.input t.loop l (err x) e in
                    rw run (
                      subst (λ v. RoundDoes strip i s t v) last
                        (turned strip i s t (record t { loop = l }) held does refl))
              ]
        ]
