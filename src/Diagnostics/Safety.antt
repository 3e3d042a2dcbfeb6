-- ===== src/Diagnostics/Safety.antt =====
-- What a report that passed `sanitize` can hold.
use mathlib.Core.Path.{subst}
use gardena_matter_mqtt_brid.Base.{
  ℕ, suc, ◌^◌, ◌<◌, ◌≤◌, ◌≡◌, refl, ap, inl, inr, true, List, [], ◌∷◌, map, All, length, ltb, arith,
  Bool-cases,
}
use gardena_matter_mqtt_brid.Base.Exec.{ok, Result-cases}
use gardena_matter_mqtt_brid.Text.{Str, str, contains}
use gardena_matter_mqtt_brid.Json.{Json, arr, obj, items, entries, equals_str}
use gardena_matter_mqtt_brid.Json.Dict.{Dict}
use gardena_matter_mqtt_brid.Diagnostics.{
  stages, kinds, numbers, number, one_of, read, number_fields, Event, sanitize_event,
  sanitize_events, history, Report, sanitize,
}

abbrev IsBounded : Str × ℕ → Type 0
IsBounded (k, n) = n < 2 ^ 63

abbrev IsListed : Event → Type 0
IsListed e = (contains stages e.stage ≡ true) × (contains kinds e.kind ≡ true) × (e.time < 2 ^ 63)

-- Only the listed stages, kinds and fields, and numbers below 2 ^ 63.
pub record IsSafe (r : Report) : Type 0 where
  pub stage_listed : contains stages r.stage ≡ true
  pub fields_listed : map (λ f. f.0) r.fields ≡ numbers
  pub fields_bounded : All IsBounded r.fields
  pub events_listed : All IsListed r.events
  pub short : length r.events ≤ 32

number_lem : (v : Json) (n : ℕ) → number v ≡ ok n → n < 2 ^ 63
unfolding number
number_lem v n h = ground arith

one_of_lem :
    (texts : List Str) (v : Json) (s : Str) → one_of texts v ≡ ok s → contains texts s ≡ true
unfolding one_of
one_of_lem texts v s h = ground arith

number_fields_lem :
    (d : Dict Json) (ks : List Str) (l : List (Str × ℕ))
    → number_fields d ks ≡ ok l
    → (map (λ f. f.0) l ≡ ks) × All IsBounded l
unfolding number_fields
number_fields_lem d [] l h =
    let same : [] ≡ l = ground arith in
    subst (λ t. (map (λ (f : Str × ℕ). f.0) t ≡ []) × All IsBounded t) same (refl, tt)
number_fields_lem d (k ∷ ks) l h = elim (Result-cases (number (read k d))) [
  | inr (x, e) ↦ absurd (ground (arith, e, h))
  | inl (n, e) ↦ elim (Result-cases (number_fields d ks)) [
    | inr (x, e2) ↦ absurd (ground (arith, e, e2, h))
    | inl (rest, e2) ↦
        let same : (k, n) ∷ rest ≡ l = ground (arith, e, e2, h) in
        let (keys, bounded) = number_fields_lem d ks rest e2 in
        subst (λ t. (map (λ (f : Str × ℕ). f.0) t ≡ k ∷ ks) × All IsBounded t) same
          (ap (λ t. k ∷ t) keys, (number_lem (read k d) n e, bounded))
  ]
]

sanitize_event-IsListed : (v : Json) (e : Event) → sanitize_event v ≡ ok e → IsListed e
sanitize_event-IsListed (obj f) e h =
    elim (Result-cases (one_of stages (read (str "stage") (entries f)))) [
      | inr (x, e1) ↦ absurd (unfold sanitize_event in ground (arith, e1, h))
      | inl (s, e1) ↦ elim (Result-cases (one_of kinds (read (str "kind") (entries f)))) [
        | inr (x, e2) ↦ absurd (unfold sanitize_event in ground (arith, e1, e2, h))
        | inl (k, e2) ↦ elim (Result-cases (number (read (str "time") (entries f)))) [
          | inr (x, e3) ↦ absurd (unfold sanitize_event in ground (arith, e1, e2, e3, h))
          | inl (t, e3) ↦
              let same : record { time = t; stage = s; kind = k } ≡ e =
                unfold sanitize_event in ground (arith, e1, e2, e3, h) in
              subst (λ x. IsListed x) same
                (one_of_lem stages _ s e1, one_of_lem kinds _ k e2, number_lem _ t e3)
        ]
      ]
    ]
sanitize_event-IsListed v e h = absurd (unfold sanitize_event in ground arith)

sanitize_events-IsListed :
    (l : List Json) (es : List Event)
    → sanitize_events l ≡ ok es
    → All IsListed es × (length es ≡ length l)
unfolding sanitize_events
sanitize_events-IsListed [] es h =
    let same : [] ≡ es = ground arith in
    subst (λ (t : List Event). All IsListed t × (length t ≡ 0)) same (tt, refl)
sanitize_events-IsListed (v ∷ l) es h = elim (Result-cases (sanitize_event v)) [
  | inr (x, e) ↦ absurd (ground (arith, e, h))
  | inl (a, e) ↦ elim (Result-cases (sanitize_events l)) [
    | inr (x, e2) ↦ absurd (ground (arith, e, e2, h))
    | inl (rest, e2) ↦
        let same : a ∷ rest ≡ es = ground (arith, e, e2, h) in
        let (listed, len) = sanitize_events-IsListed l rest e2 in
        subst (λ (t : List Event). All IsListed t × (length t ≡ length (v ∷ l))) same
          ((sanitize_event-IsListed v a e, listed), ap suc len)
  ]
]

history_lem : (v : Json) (es : List Event) → history v ≡ ok es → All IsListed es × (length es ≤ 32)
history_lem (arr l) es h = elim (Bool-cases (ltb 32 (length (items l)))) [
  | inl many ↦ absurd (ground arith)
  | inr few ↦
      let (listed, len) = sanitize_events-IsListed (items l) es (ground arith) in
      (listed, ground arith)
]
history_lem v es h = absurd (ground arith)

-- A report that `sanitize` returns holds a listed stage, exactly the listed numbers, each below
-- 2 ^ 63, and at most 32 events, each with a listed stage and kind and a time below 2 ^ 63, whatever
-- the gateway sent.
pub sanitize-IsSafe : (v : Json) (r : Report) → sanitize v ≡ ok r → IsSafe r
sanitize-IsSafe (obj f) r h =
    elim (Bool-cases (equals_str (read (str "version") (entries f)) (str "0.2.2"))) [
      | inr other ↦ absurd (unfold sanitize in ground (arith, other, h))
      | inl known ↦ elim (Result-cases (one_of stages (read (str "stage") (entries f)))) [
        | inr (x, e1) ↦ absurd (unfold sanitize in ground (arith, known, e1, h))
        | inl (s, e1) ↦ elim (Result-cases (number_fields (entries f) numbers)) [
          | inr (x, e2) ↦ absurd (unfold sanitize in ground (arith, known, e1, e2, h))
          | inl (ns, e2) ↦ elim (Result-cases (history (read (str "events") (entries f)))) [
            | inr (x, e3) ↦ absurd (unfold sanitize in ground (arith, known, e1, e2, e3, h))
            | inl (es, e3) ↦
                let same : record { stage = s; fields = ns; events = es } ≡ r =
                  unfold sanitize in ground (arith, known, e1, e2, e3, h) in
                let (keys, bounded) = number_fields_lem (entries f) numbers ns e2 in
                let (listed, few) = history_lem (read (str "events") (entries f)) es e3 in
                subst (λ x. IsSafe x) same
                  (record {
                    stage_listed = one_of_lem stages _ s e1;
                    fields_listed = keys;
                    fields_bounded = bounded;
                    events_listed = listed;
                    short = few;
                  })
          ]
        ]
      ]
    ]
sanitize-IsSafe v r h = absurd (unfold sanitize in ground arith)
