-- ===== src/Json/Dict.antt =====
-- Python's dicts, keyed by texts and in insertion order, and the laws of their operations.
use gardena_matter_mqtt_brid.Base.{
  ◌≡◌, refl, Option, none, some, List, [], ◌∷◌, arith, if◌then◌else◌, Bool-cases, inl, inr,
}
use gardena_matter_mqtt_brid.Text.{Str, str_eq, str_eq_iff, str_eq→eq}

abbrev pub Dict {ℓ} : Type ℓ → Type ℓ
Dict V = List (Str × V)

module _ {ℓ} {V : Type ℓ} where
  -- `d.get(k)`
  unfoldable pub get : Str → Dict V → Option V
  get k [] = none
  get k ((j, v) ∷ d) = if str_eq j k then some v else get k d

  -- `d[k] = v`
  unfoldable pub put : Str → V → Dict V → Dict V
  put k v [] = (k, v) ∷ []
  put k v ((j, w) ∷ d) = if str_eq j k then (j, v) ∷ d else (j, w) ∷ put k v d

  -- `d.update(e)`
  unfoldable pub update : Dict V → Dict V → Dict V
  update d [] = d
  update d ((k, v) ∷ e) = update (put k v d) e

  -- `d.pop(k)` on a dict that holds `k` once.
  unfoldable pub remove : Str → Dict V → Dict V
  remove k [] = []
  remove k ((j, v) ∷ d) = if str_eq j k then d else (j, v) ∷ remove k d

  pub get-put :
      (k j : Str) (v : V) (d : Dict V)
      → get j (put k v d) ≡ (if str_eq k j then some v else get j d)
  unfolding get put
  get-put k j v [] = refl
  get-put k j v ((i, w) ∷ d) =
      ground (arith, get-put k j v d, str_eq_iff i k, str_eq_iff i j, str_eq_iff k j)

module _ {ℓ} {V : Type ℓ} where
  -- What `json.loads` guarantees of a dict: no key stands in it twice.
  abbrev pub NodupKeys : Dict V → Type ℓ
  NodupKeys [] = Unit
  NodupKeys ((k, v) ∷ d) = (get k d ≡ none) × NodupKeys d

  abbrev pub or_else : Option V → Option V → Option V
  or_else none o = o
  or_else (some v) o = some v

  pub get-update :
      (j : Str) (d e : Dict V) → NodupKeys e → get j (update d e) ≡ or_else (get j e) (get j d)
  unfolding update get
  get-update j d [] u = refl
  get-update j d ((k, v) ∷ e) (fresh, u) = elim (Bool-cases (str_eq k j)) [
    | inl same ↦
        let absent : get j e ≡ none = rw (← str_eq→eq k j same) fresh in
        ground (arith, get-update j (put k v d) e u, get-put k j v d)
    | inr other ↦ ground (arith, get-update j (put k v d) e u, get-put k j v d)
  ]

  pub put-NodupKeys : (k : Str) (v : V) (d : Dict V) → NodupKeys d → NodupKeys (put k v d)
  unfolding put
  put-NodupKeys k v [] h = (unfold get in refl, tt)
  put-NodupKeys k v ((j, w) ∷ d) (fresh, h) = elim (Bool-cases (str_eq j k)) [
    | inl same ↦ rw same (fresh, h)
    | inr other ↦
        let absent : get j (put k v d) ≡ none =
          ground (arith, get-put k j v d, fresh, other, str_eq_iff j k, str_eq_iff k j) in
        rw other (absent, put-NodupKeys k v d h)
  ]

  pub update-NodupKeys : (d e : Dict V) → NodupKeys d → NodupKeys (update d e)
  unfolding update
  update-NodupKeys d [] h = h
  update-NodupKeys d ((k, v) ∷ e) h = update-NodupKeys (put k v d) e (put-NodupKeys k v d h)
