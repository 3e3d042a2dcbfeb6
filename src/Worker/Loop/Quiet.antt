-- ===== src/Worker/Loop/Quiet.antt =====
-- What the parts of a turn that are no command leave alone.
use mathlib.Core.Path.{subst}
use gardena_matter_mqtt_brid.Base.{
  ℕ, suc, ◌≤◌, ◌≡◌, refl, ◌∙◌, inl, inr, Bool, false, ◌&&◌, Option, some, List, [], ◌∷◌, ◌++◌,
  length, arith,
}
use gardena_matter_mqtt_brid.Base.Exec.{Result, ok, err, Run-cases, Result-cases}
use gardena_matter_mqtt_brid.Text.{Str, str}
use gardena_matter_mqtt_brid.Json.{Json, string}
use gardena_matter_mqtt_brid.Json.Dict.{Dict, get, put, remove}
use gardena_matter_mqtt_brid.Mower.{Mower}
use gardena_matter_mqtt_brid.Mower.Event.{apply_event}
use gardena_matter_mqtt_brid.Mower.Discovery.{publish_activity}
use gardena_matter_mqtt_brid.Worker.Loop.{
  Loop, send_message, update_mowers, handle_messages, unexpired, pop_request, announce,
}

pub length-put : (k : Str) (v : ℕ) (d : Dict ℕ) → length (put k v d) ≤ suc (length d)
unfolding put
length-put k v [] = omega arith
length-put k v ((j, w) ∷ d) = ground (arith, length-put k v d)

length-remove : (k : Str) (d : Dict ℕ) → length (remove k d) ≤ length d
unfolding remove
length-remove k [] = omega arith
length-remove k ((j, w) ∷ d) = ground (arith, length-remove k d)

pub length-unexpired : (now : ℕ) (d : Dict ℕ) → length (unexpired now d) ≤ length d
unfolding unexpired
length-unexpired now [] = omega arith
length-unexpired now ((j, w) ∷ d) = ground (arith, length-unexpired now d)

-- What the parts of a turn that are no command leave alone.
pub record Quiet (l l' : Loop) : Type 0 where
  pub same_active : l'.active ≡ l.active
  pub same_requests : l'.requests ≡ l.requests
  pub fewer : length l'.pending ≤ length l.pending
  pub silent : l.active ≡ false → l'.messages ≡ l.messages

pub Quiet-trans : {a b c : Loop} → Quiet a b → Quiet b c → Quiet a c
Quiet-trans h k = record {
  same_active = k.same_active ∙ h.same_active;
  same_requests = k.same_requests ∙ h.same_requests;
  fewer = omega (arith, h.fewer, k.fewer);
  silent = λ e. k.silent (h.same_active ∙ e) ∙ h.silent e;
}

pub Quiet-refl : (l : Loop) → Quiet l l
Quiet-refl l = record {
  same_active = refl;
  same_requests = refl;
  fewer = omega arith;
  silent = λ e. refl;
}

pop_request-shorter : (message : Dict Json) (d : Dict ℕ) → length (pop_request message d) ≤ length d
pop_request-shorter message d = shorter (get (str "request_id") message)
  where
    shorter :
        (o : Option Json)
        → length (elim o as (λ x. Dict ℕ) [ some (string id) ↦ remove id d | _ ↦ d ]) ≤ length d
    shorter o = grind (arith, length-remove)

module _ (show : Json → Str) (digest : Str → Str) (prefix : Str) where
  announce-Quiet :
      (b : Bool) (m : Mower) (l l' : Loop) (r : Result (Unit {0}))
      → announce show digest prefix (b && l.active) m l ≡ (r, l')
      → Quiet l l'
  unfolding publish_activity send_message
  announce-Quiet b m l l' r h = record {
    same_active = ground arith;
    same_requests = ground arith;
    fewer = ground arith;
    silent = λ e. ground arith;
  }

  update_mowers-Quiet :
      (message : Dict Json) (seen ms : List Mower) (l l' : Loop) (r : Result (Unit {0}))
      → update_mowers show digest prefix message seen ms l ≡ (r, l')
      → Quiet l l'
  unfolding update_mowers
  update_mowers-Quiet message seen [] l l' r h =
      let last : record l { mowers = seen } ≡ l' = ground arith in
      subst (λ v. Quiet l v) last
        (record {
          same_active = refl;
          same_requests = refl;
          fewer = omega arith;
          silent = λ e. refl;
        })
  update_mowers-Quiet message seen (m ∷ ms) l l' r h =
      let m' : Mower = (apply_event show m message).1 in
      let l1 : Loop = record l { mowers = seen ++ m' ∷ ms } in
      let first : Quiet l l1 = record {
        same_active = refl;
        same_requests = refl;
        fewer = omega arith;
        silent = λ e. refl;
      } in
      elim (Result-cases (apply_event show m message).0) [
        | inr (x, e) ↦ subst (λ v. Quiet l v) (ground (arith, e, h)) first
        | inl (b, e) ↦ elim (Run-cases (announce show digest prefix (b && l1.active) m' l1)) [
          | inr (x, l2, e2) ↦
              subst (λ v. Quiet l v) (ground (arith, e, e2, h))
                (Quiet-trans first (announce-Quiet b m' l1 l2 (err x) e2))
          | inl (u, l2, e2) ↦
              Quiet-trans (Quiet-trans first (announce-Quiet b m' l1 l2 (ok u) e2)) (
                update_mowers-Quiet message (seen ++ m' ∷ []) ms l2 l' r (ground (arith, e, e2, h)))
        ]
      ]

  pub handle_messages-Quiet :
      (messages : List (Dict Json)) (l l' : Loop) (r : Result (Unit {0}))
      → handle_messages show digest prefix messages l ≡ (r, l')
      → Quiet l l'
  unfolding handle_messages
  handle_messages-Quiet [] l l' r h = subst (λ v. Quiet l v) (ground arith) (Quiet-refl l)
  handle_messages-Quiet (message ∷ rest) l l' r h =
      let l1 : Loop = record l { pending = pop_request message l.pending } in
      let first : Quiet l l1 = record {
        same_active = refl;
        same_requests = refl;
        fewer = pop_request-shorter message l.pending;
        silent = λ e. refl;
      } in
      elim (Run-cases (update_mowers show digest prefix message [] l1.mowers l1)) [
        | inr (x, l2, e2) ↦
            subst (λ v. Quiet l v) (ground (arith, e2, h))
              (Quiet-trans first (update_mowers-Quiet message [] l1.mowers l1 l2 (err x) e2))
        | inl (u, l2, e2) ↦
            Quiet-trans
              (Quiet-trans first (update_mowers-Quiet message [] l1.mowers l1 l2 (ok u) e2))
              (handle_messages-Quiet rest l2 l' r (ground (arith, e2, h)))
      ]
