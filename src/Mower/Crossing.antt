-- ===== src/Mower/Crossing.antt =====
-- `apply_event` on a path that runs through a value which is no dict.
use gardena_matter_mqtt_brid.Base.{
  ◌≡◌, refl, ap, ◌∙◌, ◌≢◌, inl, inr, true, false, some, List, [], ◌∷◌, ◌++◌, arith, Option-cases,
}
use gardena_matter_mqtt_brid.Base.Exec.{ok, err, attribute_error}
use gardena_matter_mqtt_brid.Text.{Str, str}
use gardena_matter_mqtt_brid.Json.{Json, null, obj, entries, end, is_dict, Fields}
use gardena_matter_mqtt_brid.Json.Dict.{Dict, get}
use gardena_matter_mqtt_brid.Mower.{Mower, nested_value}
use gardena_matter_mqtt_brid.Mower.Event.{
  get_or, merge_at, apply_event, apply_to, concerns, payload_of,
}
use gardena_matter_mqtt_brid.Mower.Effect.{nested_null, nested_get, path_of}

-- Neither a dict nor None.
abbrev pub IsLeaf : Json → Type 0
IsLeaf v = (is_dict v ≡ false) × (v ≢ null)

get_or-some : (k : Str) (l : Dict Json) (w : Json) → get k l ≡ some w → get_or k l (obj end) ≡ w
get_or-some k l w e = rw (e, get_or)

merge_level :
    (part : Str) (path : List Str) (f : Fields) (payload : Json)
    → (merge_at (part ∷ path) (obj f) payload).0
      ≡ (merge_at path (get_or part (entries f) (obj end)) payload).0
unfolding merge_at
merge_level part path f payload = refl

merge_raises :
    (pre post : List Str) (part : Str) (target payload : Json)
    → IsLeaf (nested_value target pre)
    → (merge_at (pre ++ part ∷ post) target payload).0 ≡ err attribute_error
merge_raises [] post part (obj f) payload h = absurd (unfold nested_value in cc (h.0))
merge_raises [] post part target payload h = unfold merge_at in refl
merge_raises (a ∷ pre) post part (obj f) payload h = elim (Option-cases (get a (entries f))) [
  | inl missing ↦ absurd (h.1 (nested_get f a pre ∙ rw missing (nested_null pre)))
  | inr (w, e) ↦
      let inner = merge_raises pre post part w payload (rw e at (rw (nested_get f a pre) at h)) in
      merge_level a (pre ++ part ∷ post) f payload
      ∙ (ap (λ (t : Json). (merge_at (pre ++ part ∷ post) t payload).0)
            (get_or-some a (entries f) w e)
          ∙ inner)
]
merge_raises (a ∷ pre) post part target payload h = absurd (h.1 (unfold nested_value in refl))

-- An event for this mower whose path goes on below a value that is neither a dict nor None makes
-- `apply_event` raise AttributeError.
pub apply_event_raises :
    (show : Json → Str) (m : Mower) (message : Dict Json) (f : Fields) (pre post : List Str)
    (part : Str)
    → get (str "entity") message ≡ some (obj f)
    → concerns m (entries f) message ≡ ok true
    → path_of show (entries f) ≡ pre ++ part ∷ post
    → IsLeaf (nested_value m.state pre)
    → (apply_event show m message).0 ≡ err attribute_error
apply_event_raises show m message f pre post part e c path h =
    let inner = merge_raises pre post part m.state (payload_of message) h in
    let walked : (merge_at (path_of show (entries f)) m.state (payload_of message)).0
        ≡ err attribute_error =
      rw path inner in
    unfold apply_event apply_to in ground (arith, e, c, walked)
