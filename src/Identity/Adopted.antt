-- ===== src/Identity/Adopted.antt =====
-- The identities that are collected, and the mower that takes one over.
use gardena_matter_mqtt_brid.Base.{
  ℕ, ◌+◌, ◌≤◌, ◌<◌, ◌≡◌, refl, ap, ◌∙◌, sym, inl, inr, Bool, true, false, Option, none, some, List,
  [], ◌∷◌, ◌++◌, arith, leb, ◌==◌, length, length-append, All, All-append, Bool-cases,
}
use gardena_matter_mqtt_brid.Base.Exec.{Result, Result-cases, ok, err, timeout_error}
use gardena_matter_mqtt_brid.Text.{Str, str, str_eq, str_eq→eq, str_eq_iff}
use gardena_matter_mqtt_brid.Json.{Json}
use gardena_matter_mqtt_brid.Json.Dict.{Dict, get, NodupKeys}
use gardena_matter_mqtt_brid.Mower.{Mower, key, device_identifier, or_text}
use gardena_matter_mqtt_brid.Mqtt.{parse_publish}
use gardena_matter_mqtt_brid.Identity.{
  Scope, is_key, publisher_mower_identity, Heard, has, note_identity, noted, hear, collect,
  collect_publisher_mower_identities, adopt_publisher_identities,
}
use gardena_matter_mqtt_brid.Identity.Exact.{IsExact, identity-IsNamed}

-- At most 64 identities that are exact, no key twice.
abbrev pub IsCollected : List (Str × Str) → Type 0
IsCollected identities = All IsExact identities × (length identities ≤ 64) × NodupKeys identities

unseen :
    (p : Str × Str) (l : List (Str × Str))
    → IsExact p
    → All IsExact l
    → has p l ≡ false
    → get p.0 l ≡ none
unfolding get
unseen p [] h k e = refl
unseen (k, i) ((j, w) ∷ l) h (first, rest) e = elim (Bool-cases (str_eq j k)) [
  | inr other ↦ rw other (unseen (k, i) l h rest (ground (arith, e, other)))
  | inl same ↦
      let keys : j ≡ k = str_eq→eq j k same in
      let names : w ≡ i = first.0 ∙ (ap (λ (t : Str). str "gardena_" ++ t) keys ∙ sym h.0) in
      let again : str_eq w i ≡ true = (str_eq_iff w i).1 names in
      absurd (ground (arith, e, same, again))
]

get-snoc :
    (k j v : Str) (l : Dict Str)
    → str_eq k j ≡ false
    → get j l ≡ none
    → get j (l ++ (k, v) ∷ []) ≡ none
unfolding get
get-snoc k j v [] other h = rw other refl
get-snoc k j v ((i, w) ∷ l) other h = ground (arith, h, other, get-snoc k j v l)

NodupKeys-snoc :
    (k v : Str) (l : Dict Str) → NodupKeys l → get k l ≡ none → NodupKeys (l ++ (k, v) ∷ [])
NodupKeys-snoc k v [] h e = (unfold get in refl, tt)
NodupKeys-snoc k v ((j, w) ∷ l) (fresh, h) e = elim (Bool-cases (str_eq j k)) [
  | inl same ↦ absurd (unfold get in ground (arith, e, same))
  | inr other ↦
      let apart : str_eq k j ≡ false = ground (arith, other, str_eq_iff j k, str_eq_iff k j) in
      (
        get-snoc k j v l apart fresh,
        NodupKeys-snoc k v l h (unfold get in ground (arith, e, other)),
      )
]

note_identity-IsCollected :
    (l l' : List (Str × Str)) (p : Str × Str)
    → IsCollected l
    → IsExact p
    → note_identity l (some p) ≡ ok l'
    → IsCollected l'
note_identity-IsCollected l l' (k, i) h exact run = elim (Bool-cases (has (k, i) l)) [
  | inl seen ↦ let same : l ≡ l' = ground (arith, run, seen) in rw same at h
  | inr fresh ↦ elim (Bool-cases (leb 64 (length l))) [
    | inl full ↦ absurd (ground (arith, run, fresh, full))
    | inr room ↦
        let same : l ++ (k, i) ∷ [] ≡ l' = ground (arith, run, fresh, room) in
        let absent = unseen (k, i) l exact h.0 fresh in
        let more : IsCollected (l ++ (k, i) ∷ []) = (
          All-append IsExact l ((k, i) ∷ []) h.0 (exact, tt),
          omega (arith, length-append l ((k, i) ∷ []), ltb_room l room),
          NodupKeys-snoc k i l h.2 absent,
        ) in
        rw same at more
  ]
]
  where
    ltb_room : (l : List (Str × Str)) → leb 64 (length l) ≡ false → length l < 64
    ltb_room l room = ground (arith, room)

module _ (loads : Str → Option Json) (scope : Scope) where
  noted-IsCollected :
      (l l' : List (Str × Str)) (topic payload : Str)
      → IsCollected l
      → noted l (publisher_mower_identity loads scope topic payload) ≡ ok l'
      → IsCollected l'
  noted-IsCollected l l' topic payload h run =
      elim (Result-cases (publisher_mower_identity loads scope topic payload)) [
        | inr (x, e) ↦ absurd (ground (arith, run, e))
        | inl (none, e) ↦ let same : l ≡ l' = ground (arith, run, e) in rw same at h
        | inl (some (k, i), e) ↦
            note_identity-IsCollected l l' (k, i) h
              (identity-IsNamed loads scope topic payload k i e).0 (rw e at run)
      ]

  hear-IsCollected :
      (l l' : List (Str × Str)) (r : Result (ℕ × ℕ × List ℕ))
      → IsCollected l
      → hear loads scope l r ≡ ok l'
      → IsCollected l'
  unfolding hear
  hear-IsCollected l l' (ok (kind, flags, body)) h run = elim (Bool-cases (kind == 3)) [
    | inr other ↦ let same : l ≡ l' = ground (arith, run, other) in rw same at h
    | inl is_publish ↦ elim (Result-cases (parse_publish flags body)) [
      | inr (x, e) ↦ absurd (ground (arith, run, is_publish, e))
      | inl ((topic, payload, retained), e) ↦
          noted-IsCollected l l' topic payload h (rw (is_publish, e) at run)
    ]
  ]
  hear-IsCollected l l' (err timeout_error) h run =
      let same : l ≡ l' = ground (arith, run) in rw same at h
  hear-IsCollected l l' (err _) h run = absurd (ground (arith, run))

  collect-IsCollected :
      (deadline : ℕ) (hs : List Heard) (l l' : List (Str × Str))
      → IsCollected l
      → collect loads scope deadline hs l ≡ ok l'
      → IsCollected l'
  unfolding collect
  collect-IsCollected deadline [] l l' h run =
      let same : l ≡ l' = ground (arith, run) in rw same at h
  collect-IsCollected deadline (x ∷ hs) l l' h run = elim (Bool-cases (leb deadline x.at)) [
    | inl over ↦ let same : l ≡ l' = ground (arith, run, over) in rw same at h
    | inr more ↦ elim (Result-cases (hear loads scope l x.given)) [
      | inr (y, e) ↦ absurd (ground (arith, run, more, e))
      | inl (l1, e) ↦
          collect-IsCollected deadline hs l1 l' (hear-IsCollected l l1 x.given h e)
            (rw (more, e) at run)
    ]
  ]

of_nothing : (l : List (Str × Str)) → [] ≡ l → IsCollected l
of_nothing [] e = (tt, omega arith, tt)
of_nothing (p ∷ l) e = absurd (ground (arith, e))

-- Whatever the broker sends and whichever reads fail, the identities that are collected are at most 64,
-- no two have the same key, and each is exact: `gardena_` and its key of four hexadecimal digits.
pub collected-IsCollected :
    (loads : Str → Option Json) (scope : Scope) (connected : Bool) (now : ℕ) (hs : List Heard)
    (l : List (Str × Str))
    → collect_publisher_mower_identities loads scope connected now hs ≡ ok l
    → All IsExact l × (length l ≤ 64) × NodupKeys l
unfolding collect_publisher_mower_identities
collected-IsCollected loads scope true now hs l run =
    collect-IsCollected loads scope (now + 2000) hs [] l (tt, omega arith, tt) run
collected-IsCollected loads scope false now hs l run = of_nothing l (ground (arith, run))

named_key : (k fallback : Str) → is_key k ≡ true → or_text (some k) fallback ≡ k
named_key [] fallback h = absurd (ground (arith, h))
named_key (c ∷ k) fallback h = refl

named_identifier :
    (k fallback : Str) → or_text (some (str "gardena_" ++ k)) fallback ≡ str "gardena_" ++ k
unfolding str
named_identifier k fallback = refl

-- When one identity is collected and there is one mower, the mower takes it over: it keeps its device
-- and its state, and goes by the publisher's key and by the identifier `gardena_` and that key.
pub adopt-keys :
    (loads : Str → Option Json) (scope : Scope) (connected : Bool) (now : ℕ) (hs : List Heard)
    (k i : Str) (m : Mower) (hexdigest : Str → Str)
    → collect_publisher_mower_identities loads scope connected now hs ≡ ok ((k, i) ∷ [])
    → (m' : Mower) × (adopt_publisher_identities (m ∷ []) ((k, i) ∷ []) ≡ (true, m' ∷ []))
      × (key hexdigest m' ≡ k)
      × (device_identifier hexdigest m' ≡ str "gardena_" ++ k)
      × (m'.device_id ≡ m.device_id)
      × (m'.state ≡ m.state)
unfolding adopt_publisher_identities key device_identifier
adopt-keys loads scope connected now hs k i m hexdigest run =
    let exact = (collected-IsCollected loads scope connected now hs ((k, i) ∷ []) run).0.0 in
    (
      record m { publisher_key = some k; publisher_identifier = some i },
      refl,
      named_key k _ exact.1,
      rw exact.0 (named_identifier k _),
      refl,
      refl,
    )
