-- ===== src/Worker/Loop/Turns.antt =====
-- What a turn of the loop can send from the select on, and how many commands wait.
use mathlib.Core.Path.{subst}
use gardena_matter_mqtt_brid.Base.{
  ℕ, ◌+◌, ◌≤◌, ◌<◌, ◌≡◌, refl, ap, ◌∙◌, ◌⊎◌, inl, inr, Bool, true, false, some, [], ◌∷◌, ◌++◌,
  length, arith, Option-cases, Bool-cases,
}
use gardena_matter_mqtt_brid.Base.Exec.{Result, ok, err, Run-cases, Result-cases}
use gardena_matter_mqtt_brid.Text.{Str}
use gardena_matter_mqtt_brid.Json.{Json}
use gardena_matter_mqtt_brid.Json.Dict.{get, put}
use gardena_matter_mqtt_brid.Mower.{Mower, command}
use gardena_matter_mqtt_brid.Mower.Commands.{Answers, accepts, command-Answers}
use gardena_matter_mqtt_brid.Worker.Loop.Quiet.{
  Quiet, Quiet-trans, Quiet-refl, length-put, length-unexpired, handle_messages-Quiet,
}
use gardena_matter_mqtt_brid.Worker.Loop.{
  Loop, Incoming, Input, max_pending_commands, admits, send_request, forward, handle_command,
  rest_of_turn, handle_messages, unexpired, turn, keep_alive,
}

-- The request of a command was sent: its topic is a mower's, its action one that the mower takes, the
-- loop is active with room to wait for an answer, and the packet was not a retained one.
pub record Forwards (strip : Str → Str) (p : Incoming) (l : Loop) (m : Mower) (r : Json)
    : Type 0 where
  pub addressed : get p.topic l.by_topic ≡ some m
  pub taken : accepts m (strip p.payload) ≡ true
  pub made : command m p.request_id (strip p.payload) ≡ ok r
  pub is_active : l.active ≡ true
  pub fresh : p.retained ≡ false
  pub room : length l.pending < max_pending_commands

abbrev waiting_for : Str → Json → Loop → Loop
waiting_for id r l = record l {
  requests = l.requests ++ r ∷ [];
  pending = put id (l.now + 30000) l.pending;
}

handle_command_cases :
    (strip : Str → Str) (p : Incoming) (l l' : Loop) (r : Result Bool)
    → handle_command strip p l ≡ (r, l')
    → (l' ≡ l)
      ⊎ ((m : Mower) × (q : Json) × Forwards strip p l m q × (l' ≡ waiting_for p.request_id q l))
handle_command_cases strip p l l' r h = elim (Option-cases (get p.topic l.by_topic)) [
  | inl absent ↦ inl (unfold handle_command in ground (arith, absent, h))
  | inr (m, found) ↦ elim (Bool-cases (admits l p)) [
    | inr closed ↦ inl (unfold handle_command in ground (arith, found, closed, h))
    | inl admitted ↦ elim (Result-cases (command m p.request_id (strip p.payload))) [
      | inr (e, made) ↦ inl (unfold handle_command in ground (arith, found, admitted, made, h))
      | inl (q, made) ↦ elim (Bool-cases l.ws_broken) [
        | inl broken ↦ inl (
            unfold handle_command forward send_request in
            ground (arith, found, admitted, made, broken, h))
        | inr works ↦
            let answers : Answers m p.request_id (strip p.payload) (ok q) =
              subst (λ x. Answers m p.request_id (strip p.payload) x) made
                (command-Answers m p.request_id (strip p.payload)) in
            inr (
              m,
              q,
              record {
                addressed = found;
                taken = answers.0;
                made = made;
                is_active = ground arith;
                fresh = ground arith;
                room = ground arith;
              },
              unfold handle_command forward send_request in
                  ground (arith, found, admitted, made, works, h),
            )
      ]
    ]
  ]
]

-- What a turn does from the select on: at most one request, that of its packet's command; at most 32
-- commands wait; and a loop that is not active (a preview) sends nothing.
pub record TurnDoes (strip : Str → Str) (i : Input) (l l' : Loop) : Type 0 where
  pub same_active : l'.active ≡ l.active
  pub asks :
      (l'.requests ≡ l.requests)
      ⊎ ((p : Incoming) × (m : Mower) × (q : Json) × (i.packet ≡ ok (some p))
          × Forwards strip p l m q
          × (l'.requests ≡ l.requests ++ q ∷ []))
  pub waiting : length l.pending ≤ max_pending_commands → length l'.pending ≤ max_pending_commands
  pub preview : l.active ≡ false → (l'.requests ≡ l.requests) × (l'.messages ≡ l.messages)

keep_alive-Quiet :
    (quiet_for : ℕ) (l l' : Loop) (r : Result (Unit {0}))
    → keep_alive quiet_for l ≡ (r, l')
    → Quiet l l'
unfolding keep_alive
keep_alive-Quiet quiet_for l l' r h = record {
  same_active = ground (arith, h);
  same_requests = ground (arith, h);
  fewer = ground (arith, h);
  silent = λ e. ground (arith, h);
}

module _ (strip : Str → Str) (show : Json → Str) (digest : Str → Str) (prefix : Str) where
  -- The part of the turn after the command.
  rest_of_turn-Quiet :
      (i : Input) (b : Bool) (l l' : Loop) (r : Result (Unit {0}))
      → rest_of_turn strip show digest prefix i b l ≡ (r, l')
      → Quiet l l'
  rest_of_turn-Quiet i false l l' r h = subst (λ v. Quiet l v) (ground arith) (Quiet-refl l)
  rest_of_turn-Quiet i true l l' r h = elim (Result-cases i.events) [
    | inr (x, came) ↦ subst (λ v. Quiet l v) (ground (arith, came, h)) (Quiet-refl l)
    | inl (events, came) ↦ elim (Run-cases (handle_messages show digest prefix events l)) [
      | inr (x, l1, e) ↦
          subst (λ v. Quiet l v) (ground (arith, came, e, h))
            (handle_messages-Quiet show digest prefix events l l1 (err x) e)
      | inl (u, l1, e) ↦
          Quiet-trans (handle_messages-Quiet show digest prefix events l l1 (ok u) e) (
            Quiet-trans
              (record {
                same_active = refl;
                same_requests = refl;
                fewer = length-unexpired l1.now l1.pending;
                silent = λ e'. refl;
              })
              (keep_alive-Quiet i.quiet_for (record l1 { pending = unexpired l1.now l1.pending }) l'
                r (ground (arith, came, e, h))))
    ]
  ]

  Quiet-turn :
      (i : Input) (l l1 l' : Loop)
      → l1 ≡ record l { now = i.clock }
      → Quiet l1 l'
      → TurnDoes strip i l l'
  Quiet-turn i l l1 l' same q = record {
    same_active = q.same_active ∙ ap (λ x. x.active) same;
    asks = inl (q.same_requests ∙ ap (λ x. x.requests) same);
    waiting = λ h. omega (arith, q.fewer, ap (λ (x : Loop). length x.pending) same);
    preview = λ e. (
      q.same_requests ∙ ap (λ x. x.requests) same,
      q.silent (ap (λ x. x.active) same ∙ e) ∙ ap (λ x. x.messages) same,
    );
  }

  asking_turn :
      (i : Input) (p : Incoming) (m : Mower) (q : Json) (l l1 l' : Loop)
      → i.packet ≡ ok (some p)
      → Forwards strip p l m q
      → l1 ≡ waiting_for p.request_id q (record l { now = i.clock })
      → Quiet l1 l'
      → TurnDoes strip i l l'
  asking_turn i p m q l l1 l' there f same k = record {
    same_active = k.same_active ∙ ap (λ x. x.active) same;
    asks = inr (p, m, q, there, f, k.same_requests ∙ ap (λ x. x.requests) same);
    waiting = λ h. omega (
      arith,
      k.fewer,
      ap (λ (x : Loop). length x.pending) same,
      length-put p.request_id (i.clock + 30000) l.pending,
      f.room,
    );
    preview = λ e. absurd (ground (arith, f.is_active, e));
  }

  -- What follows the select in a round of the loop sends at most one request, the one that `command`
  -- makes of its packet, and this only for an action that the mower of the packet's topic takes, from
  -- a packet that was not retained, in an active loop with fewer than 32 commands waiting; never do
  -- more than 32 wait; and a preview sends neither requests nor messages there.
  pub turn-TurnDoes :
      (i : Input) (l l' : Loop) (r : Result (Unit {0}))
      → turn strip show digest prefix i l ≡ (r, l')
      → TurnDoes strip i l l'
  turn-TurnDoes i l l' r h = elim (Result-cases i.packet) [
    | inr (x, broken) ↦
        let last : l0 ≡ l' = unfold turn in ground (arith, broken, h) in
        Quiet-turn i l l0 l' refl (subst (λ v. Quiet l0 v) last (Quiet-refl l0))
    | inl (packet, received) ↦ elim (Option-cases packet) [
      | inl absent ↦
          Quiet-turn i l l0 l' refl
            (rest_of_turn-Quiet i true l0 l' r (unfold turn in ground (arith, received, absent, h)))
      | inr (p, there) ↦ elim (Run-cases (handle_command strip p l0)) [
        | inr (x, l1, e) ↦
            let last : l1 ≡ l' = unfold turn in ground (arith, received, there, e, h) in
            elim (handle_command_cases strip p l0 l1 (err x) e) [
              | inl same ↦ Quiet-turn i l l1 l' same (subst (λ v. Quiet l1 v) last (Quiet-refl l1))
              | inr (m, q, f, same) ↦
                  asking_turn i p m q l l1 l' (received ∙ ap ok there) (before_clock p m q f) same
                    (subst (λ v. Quiet l1 v) last (Quiet-refl l1))
            ]
        | inl (b, l1, e) ↦
            let k =
              rest_of_turn-Quiet i b l1 l' r
                (unfold turn in ground (arith, received, there, e, h)) in
            elim (handle_command_cases strip p l0 l1 (ok b) e) [
              | inl same ↦ Quiet-turn i l l1 l' same k
              | inr (m, q, f, same) ↦
                  asking_turn i p m q l l1 l' (received ∙ ap ok there) (before_clock p m q f) same k
            ]
      ]
    ]
  ]
    where
      l0 : Loop
      l0 = record l { now = i.clock }

      before_clock :
          (p : Incoming) (m : Mower) (q : Json) → Forwards strip p l0 m q → Forwards strip p l m q
      before_clock p m q f = record {
        addressed = f.addressed;
        taken = f.taken;
        made = f.made;
        is_active = f.is_active;
        fresh = f.fresh;
        room = f.room;
      }
