-- ===== src/Mower/Effect.antt =====
-- What `apply_event` does to the state of a mower, read back by `_nested_value`.
use mathlib.Core.Path.{subst}
use gardena_matter_mqtt_brid.Base.{
  ◌≡◌, refl, sym, ap, ◌∙◌, ◌≢◌, ◌⊎◌, inl, inr, Bool, true, false, Option, none, some, List, [], ◌∷◌,
  ◌++◌, arith, Bool-cases, if◌then◌else◌,
}
use gardena_matter_mqtt_brid.Base.Exec.{ok}
use gardena_matter_mqtt_brid.Text.{
  Str, str, str_eq, str_eq_iff, str_eq→eq, str_eq_refl, split_slash,
}
use gardena_matter_mqtt_brid.Json.{
  Json, null, bool, int, float, string, arr, obj, entries, of_entries, entries-of_entries, Fields,
  end, equals_str,
}
use gardena_matter_mqtt_brid.Json.Dict.{
  Dict, get, put, update, get-put, get-update, NodupKeys, or_else,
}
use gardena_matter_mqtt_brid.Mower.{Mower, or_null, nested_value}
use gardena_matter_mqtt_brid.Mower.Event.{
  get_or, merge_at, apply_event, apply_to, concerns, path_text, payload_of,
}

pub nested_null : (q : List Str) → nested_value null q ≡ null
unfolding nested_value
nested_null [] = refl
nested_null (p ∷ q) = refl

nested_empty : (k : Str) (q : List Str) → nested_value (obj end) (k ∷ q) ≡ null
unfolding nested_value get
nested_empty k q = nested_null q

nested_obj :
    (l : Dict Json) (k : Str) (q : List Str)
    → nested_value (obj (of_entries l)) (k ∷ q) ≡ nested_value (or_null (get k l)) q
unfolding nested_value
nested_obj l k q = ap (λ (d : Dict Json). nested_value (or_null (get k d)) q) (entries-of_entries l)

-- A missing key and the dict that `setdefault` makes for it look alike below.
nested_default :
    (l : Dict Json) (part k : Str) (q : List Str)
    → nested_value (get_or part l (obj end)) (k ∷ q) ≡ nested_value (or_null (get part l)) (k ∷ q)
nested_default l part k q = pick (get part l)
  where
    pick :
        (o : Option Json)
        → nested_value (elim o [ none ↦ obj end | some v ↦ v ]) (k ∷ q)
          ≡ nested_value (or_null o) (k ∷ q)
    pick none = nested_empty k q ∙ sym (nested_null (k ∷ q))
    pick (some v) = refl

-- Two paths that part at some key.
abbrev pub Diverges : List Str → List Str → Type 0
Diverges (a ∷ p) (b ∷ q) = (a ≢ b) ⊎ Diverges p q
Diverges p q = ⊥

-- One level of the merge, seen through a path that goes on below.
nested_put :
    (f : Dict Json) (part b : Str) (child : Json) (q : List Str)
    → nested_value (obj (of_entries (put part child f))) (b ∷ q)
      ≡ (if str_eq part b then nested_value child q else nested_value (or_null (get b f)) q)
nested_put f part b child q =
    nested_obj (put part child f) b q ∙ rw (get-put part b child f) (split (str_eq part b))
  where
    split :
        (t : Bool)
        → nested_value (or_null (if t then some child else get b f)) q
          ≡ (if t then nested_value child q else nested_value (or_null (get b f)) q)
    split true = refl
    split false = refl

merged_put :
    (path : List Str) (part b : Str) (f : Fields) (payload : Json) (q : List Str)
    → nested_value (merge_at (part ∷ path) (obj f) payload).1 (b ∷ q) ≡ (
        if str_eq part b
        then nested_value (merge_at path (get_or part (entries f) (obj end)) payload).1 q
        else nested_value (or_null (get b (entries f))) q)
unfolding merge_at
merged_put path part b f payload q =
    let child : Json = (merge_at path (get_or part (entries f) (obj end)) payload).1 in
    nested_put (entries f) part b child q

pub nested_get :
    (f : Fields) (b : Str) (q : List Str)
    → nested_value (obj f) (b ∷ q) ≡ nested_value (or_null (get b (entries f))) q
unfolding nested_value
nested_get f b q = refl

Diverges-below : (path q : List Str) → Diverges path q → (k : Str) × (r : List Str) × (q ≡ k ∷ r)
Diverges-below (a ∷ p) (b ∷ q) d = (b, q, refl)
Diverges-below [] q d = absurd d
Diverges-below (a ∷ p) [] d = absurd d

below :
    (part b : Str) (path q : List Str) (l : Dict Json) (payload : Json)
    → (part ≢ b) ⊎ Diverges path q
    → (Diverges path q
        → nested_value (merge_at path (get_or part l (obj end)) payload).1 q
          ≡ nested_value (get_or part l (obj end)) q)
    → (if str_eq part b
        then nested_value (merge_at path (get_or part l (obj end)) payload).1 q
        else nested_value (or_null (get b l)) q)
      ≡ nested_value (or_null (get b l)) q
below part b path q l payload d ih = elim (Bool-cases (str_eq part b)) [
  | inr other ↦ rw other
  | inl same ↦
      let e : part ≡ b = str_eq→eq part b same in
      elim d [
        | inl apart ↦ absurd (apart e)
        | inr deeper ↦
            let (k, r, shape) = Diverges-below path q deeper in
            rw same (
              ih deeper
              ∙ subst
                  (λ (t : List Str).
                    nested_value (get_or part l (obj end)) t
                    ≡ nested_value (or_null (get part l)) t)
                  (sym shape) (nested_default l part k r)
              ∙ ap (λ (x : Str). nested_value (or_null (get x l)) q) e)
      ]
]

-- Nothing changes along a path that parts from the one of the event.
merge_frame :
    (path q : List Str) (target payload : Json)
    → Diverges path q
    → nested_value (merge_at path target payload).1 q ≡ nested_value target q
merge_frame [] q target payload d = absurd d
merge_frame (part ∷ path) [] target payload d = absurd d
merge_frame (part ∷ path) (b ∷ q) (obj f) payload d =
    merged_put path part b f payload q
    ∙ below part b path q (entries f) payload d
        (λ h. merge_frame path q (get_or part (entries f) (obj end)) payload h)
    ∙ sym (nested_get f b q)
merge_frame (part ∷ path) (b ∷ q) null payload d = unfold merge_at in refl
merge_frame (part ∷ path) (b ∷ q) (bool x) payload d = unfold merge_at in refl
merge_frame (part ∷ path) (b ∷ q) (int x) payload d = unfold merge_at in refl
merge_frame (part ∷ path) (b ∷ q) (float x) payload d = unfold merge_at in refl
merge_frame (part ∷ path) (b ∷ q) (string x) payload d = unfold merge_at in refl
merge_frame (part ∷ path) (b ∷ q) (arr x) payload d = unfold merge_at in refl

same_null : (a b : Option Json) → or_null (or_else a b) ≡ or_null (or_else a (some (or_null b)))
same_null none b = refl
same_null (some v) b = refl

default_below :
    (path : List Str) (part k : Str) (l : Dict Json)
    → nested_value (get_or part l (obj end)) (path ++ k ∷ [])
      ≡ nested_value (or_null (get part l)) (path ++ k ∷ [])
default_below [] part k l = nested_default l part k []
default_below (a ∷ path) part k l = nested_default l part a (path ++ k ∷ [])

update_reads :
    (f p : Fields) (k : Str)
    → NodupKeys (entries p)
    → nested_value (obj (of_entries (update (entries f) (entries p)))) (k ∷ [])
      ≡ or_null (or_else (get k (entries p)) (some (nested_value (obj f) (k ∷ []))))
update_reads f p k u =
    nested_obj (update (entries f) (entries p)) k []
    ∙ (ends (get k (update (entries f) (entries p)))
        ∙ (ap or_null (get-update k (entries f) (entries p) u)
            ∙ (same_null (get k (entries p)) (get k (entries f))
                ∙ ap (λ (x : Json). or_null (or_else (get k (entries p)) (some x)))
                    (sym (nested_get f k [] ∙ ends (get k (entries f)))))))
  where
    ends : (o : Option Json) → nested_value (or_null o) [] ≡ or_null o
    ends o = unfold nested_value in refl

-- A merge that returned true replaced the values of the payload at the end of the path.
merge_reads :
    (path : List Str) (target : Json) (p : Fields) (k : Str)
    → NodupKeys (entries p)
    → (merge_at path target (obj p)).0 ≡ ok true
    → nested_value (merge_at path target (obj p)).1 (path ++ k ∷ [])
      ≡ or_null (or_else (get k (entries p)) (some (nested_value target (path ++ k ∷ []))))
unfolding get nested_value
merge_reads [] (obj f) p k u h = unfold merge_at in update_reads f p k u
merge_reads [] target p k u h = absurd (unfold merge_at in ground arith)
merge_reads (part ∷ path) (obj f) p k u h =
    merged_put path part part f (obj p) (path ++ k ∷ [])
    ∙ rw (str_eq_refl part) (
        merge_reads path (get_or part (entries f) (obj end)) p k u (unfold merge_at in h)
        ∙ ap (λ (x : Json). or_null (or_else (get k (entries p)) (some x)))
            (default_below path part k (entries f)))
merge_reads (part ∷ path) target p k u h = absurd (unfold merge_at in ground arith)

equals_str_null :
    (o : Option Json) (t : Str) → equals_str (or_null o) t ≡ true → o ≡ some (string t)
unfolding equals_str
equals_str_null none t h = cc
equals_str_null (some (string s)) t h = ground (arith, str_eq_iff s t)
equals_str_null (some null) t h = cc
equals_str_null (some (bool x)) t h = cc
equals_str_null (some (int x)) t h = cc
equals_str_null (some (float x)) t h = cc
equals_str_null (some (arr x)) t h = cc
equals_str_null (some (obj x)) t h = cc

concerns_named :
    (m : Mower) (entity message : Dict Json)
    → concerns m entity message ≡ ok true
    → get (str "device") entity ≡ some (string m.device_id)
concerns_named m entity message h =
    equals_str_null (get (str "device") entity) m.device_id (ground arith)

module _ (show : Json → Str) where
  -- The path of an event, as the loop of `apply_event` walks it.
  abbrev pub path_of : Dict Json → List Str
  path_of entity = split_slash (path_text show (get_or (str "path") entity (string [])))

  -- What an event that was applied has done to a mower.
  pub record Applied (m : Mower) (entity message : Dict Json) (p : Fields) (m' : Mower)
      : Type 0 where
    pub named : get (str "device") entity ≡ some (string m.device_id)
    pub reads :
        (k : Str)
        → nested_value m'.state (path_of entity ++ k ∷ [])
          ≡ or_null
              (or_else (get k (entries p)) (some (nested_value m.state (path_of entity ++ k ∷ []))))
    pub frame :
        (q : List Str)
        → Diverges (path_of entity) q
        → nested_value m'.state q ≡ nested_value m.state q
    pub same : m' ≡ record m { state = m'.state }

  apply_to_steps :
      (m m' : Mower) (entity message : Dict Json)
      → apply_to show m entity message ≡ (ok true, m')
      → let (r, state) = merge_at (path_of entity) m.state (payload_of message) in
        (concerns m entity message ≡ ok true) × (r ≡ ok true) × (m' ≡ record m { state = state })
  unfolding apply_to
  apply_to_steps m m' entity message h = ground arith

  -- An event that `apply_event` accepts names the mower; each key of its payload is then read back
  -- at the event's path, every key of a path that parts from it keeps its value, and nothing of
  -- the mower but its state changes.
  pub apply_event-Applied :
      (m m' : Mower) (message : Dict Json) (f p : Fields)
      → get (str "entity") message ≡ some (obj f)
      → payload_of message ≡ obj p
      → NodupKeys (entries p)
      → apply_event show m message ≡ (ok true, m')
      → Applied m (entries f) message p m'
  apply_event-Applied m m' message f p e pe u h =
      let (c, r, same) =
        apply_to_steps m m' (entries f) message (unfold apply_event in ground (arith, e)) in
      let path : List Str = path_of (entries f) in
      let target : m'.state ≡ (merge_at path m.state (payload_of message)).1 =
        ap (λ (x : Mower). x.state) same in
      let done : (merge_at path m.state (obj p)).0 ≡ ok true = rw pe at r in
      let moved : m'.state ≡ (merge_at path m.state (obj p)).1 = rw pe at target in
      record {
        named = concerns_named m (entries f) message c;
        reads = λ k. rw moved (merge_reads path m.state p k u done);
        frame = λ q d. rw moved (merge_frame path q m.state (obj p) d);
        same = same ∙ ap (λ (x : Json). record m { state = x }) (sym target);
      }
