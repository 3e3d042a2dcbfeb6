-- ===== src/Options/Checked.antt =====
-- What the settings are once `options` returns them.
use gardena_matter_mqtt_brid.Base.{
  ℕ, ◌≡◌, ◌≤◌, refl, ap, ◌∙◌, inl, inr, Bool, true, false, ◌||◌, ◌&&◌, Option, none, some, [],
  arith, leb, ltb, length, Bool-cases,
}
use gardena_matter_mqtt_brid.Base.Exec.{Result, Result-cases, ok, err}
use gardena_matter_mqtt_brid.Text.{Str, str, str_eq, str_eq_refl}
use gardena_matter_mqtt_brid.Json.{ℤ, pos, negsuc, Json, string, int}
use gardena_matter_mqtt_brid.Json.Dict.{Dict, get, put, get-put}
use gardena_matter_mqtt_brid.Mower.Event.{get_or}
use gardena_matter_mqtt_brid.Telemetry.{bind, is_empty}
use gardena_matter_mqtt_brid.Options.{
  is_host_name, validate_host, stripped, set_host, is_credential, check_credential, long_enough,
  check_device, is_prefix, set_if_prefix, set_prefix, set_port, options,
}

bind_lem :
    {A B : Type 0} (r : Result A) (f : A → Result B) (b : B)
    → bind r f ≡ ok b
    → (a : A) × (r ≡ ok a) × (f a ≡ ok b)
bind_lem (ok a) f b h = (a, refl, h)
bind_lem (err e) f b h = absurd (ground (arith, h))

put_here : (k : Str) (v : Json) (d : Dict Json) → get k (put k v d) ≡ some v
put_here k v d = ground (arith, get-put k k v d, str_eq_refl k)

put_apart :
    (k j : Str) (v w : Json) (d : Dict Json)
    → str_eq k j ≡ false
    → get j d ≡ some w
    → get j (put k v d) ≡ some w
put_apart k j v w d other h = ground (arith, get-put k j v d, other, h)

-- An address or a host's name, of at most 253 characters.
abbrev pub IsHost : (Str → Bool) → Str → Type 0
IsHost is_address h =
    (is_empty h ≡ false) × (length h ≤ 253) × ((is_address h || is_host_name h) ≡ true)

module _ (is_address : Str → Bool) where
  -- A host that is accepted is the text that was given, and is a host.
  pub validate_host-IsHost :
      (v : Json) (h : Str)
      → validate_host is_address v ≡ ok h
      → (v ≡ string h) × IsHost is_address h
  unfolding validate_host
  validate_host-IsHost (string s) h run = elim (Bool-cases (is_empty s || ltb 253 (length s))) [
    | inl bad ↦ absurd (ground (arith, run, bad))
    | inr fits ↦ elim (Bool-cases (is_address s || is_host_name s)) [
      | inr other ↦ absurd (ground (arith, run, fits, other))
      | inl good ↦
          let same : s ≡ h = ground (arith, run, fits, good) in
          let host : IsHost is_address s = (ground (arith, fits), ground (arith, fits), good) in
          (ap string same, rw same at host)
    ]
  ]
  validate_host-IsHost _ h run = absurd (ground (arith, run))

  set_host_lem :
      (strip : Str → Str) (name : Str) (c c' : Dict Json)
      → set_host is_address strip name c ≡ ok c'
      → (h : Str) × IsHost is_address h × (c' ≡ put name (string h) c)
  unfolding set_host
  set_host_lem strip name c c' run = of_value (get_or name c (string [])) run
    where
      of_value :
          (v : Json)
          → stripped is_address strip name c v ≡ ok c'
          → (h : Str) × IsHost is_address h × (c' ≡ put name (string h) c)
      of_value (string s) run = elim (Result-cases (validate_host is_address (string (strip s)))) [
        | inr (x, e) ↦ absurd (ground (arith, run, e))
        | inl (h, e) ↦ (h, (validate_host-IsHost (string (strip s)) h e).1, ground (arith, run, e))
      ]
      of_value _ run = absurd (ground (arith, run))

set_prefix_lem :
    (name default : Str) (c c' : Dict Json)
    → set_prefix name default c ≡ ok c'
    → (p : Str) × (is_prefix p ≡ true) × (c' ≡ put name (string p) c)
unfolding set_prefix
set_prefix_lem name default c c' run = of_value (get_or name c (string default)) run
  where
    of_value :
        (v : Json)
        → set_if_prefix name c v ≡ ok c'
        → (p : Str) × (is_prefix p ≡ true) × (c' ≡ put name (string p) c)
    of_value (string s) run = elim (Bool-cases (is_prefix s)) [
      | inr bad ↦ absurd (ground (arith, run, bad))
      | inl good ↦ (s, good, ground (arith, run, good))
    ]
    of_value _ run = absurd (ground (arith, run))

set_port_lem :
    (to_int : Json → Result ℤ) (c c' : Dict Json)
    → set_port to_int c ≡ ok c'
    → (n : ℕ) × (1 ≤ n) × (n ≤ 65535) × (c' ≡ put (str "mqtt_broker_port") (int (pos n)) c)
unfolding set_port
set_port_lem to_int c c' run =
    elim (Result-cases (to_int (get_or (str "mqtt_broker_port") c (int (pos 1883))))) [
      | inr (x, e) ↦ absurd (ground (arith, run, e))
      | inl (negsuc n, e) ↦ absurd (ground (arith, run, e))
      | inl (pos n, e) ↦ elim (Bool-cases (leb 1 n && leb n 65535)) [
        | inr bad ↦ absurd (ground (arith, run, e, bad))
        | inl good ↦ (n, ground (arith, good), ground (arith, good), ground (arith, run, e, good))
      ]
    ]

credential_lem : (name : Str) (c c' : Dict Json) → check_credential name c ≡ ok c' → c ≡ c'
unfolding check_credential
credential_lem name c c' run = elim (Bool-cases (is_credential (get_or name c (string [])))) [
  | inl good ↦ ground (arith, run, good)
  | inr bad ↦ absurd (ground (arith, run, bad))
]

device_lem : (strip : Str → Str) (c c' : Dict Json) → check_device strip c ≡ ok c' → c ≡ c'
unfolding check_device
device_lem strip c c' run = of_value (get (str "device_id") c) run
  where
    of_value : (o : Option Json) → long_enough strip c o ≡ ok c' → c ≡ c'
    of_value none run = absurd (ground (arith, run))
    of_value (some (string s)) run = elim (Bool-cases (ltb (length (strip s)) 8)) [
      | inl short ↦ absurd (ground (arith, run, short))
      | inr fits ↦ ground (arith, run, fits)
    ]
    of_value (some _) run = absurd (ground (arith, run))

-- The five settings as the last three steps leave them.
settled :
    (c : Dict Json) (h b p q : Str) (n : ℕ)
    → get (str "gateway_host") c ≡ some (string h)
    → get (str "mqtt_broker_host") c ≡ some (string b)
    → (d : Dict Json)
    → d
      ≡ put
          (str "mqtt_broker_port")
          (int (pos n))
          (put (str "mqtt_ha_prefix") (string q) (put (str "mqtt_topic_prefix") (string p) c))
    → (get (str "gateway_host") d ≡ some (string h))
      × (get (str "mqtt_broker_host") d ≡ some (string b))
      × (get (str "mqtt_topic_prefix") d ≡ some (string p))
      × (get (str "mqtt_ha_prefix") d ≡ some (string q))
      × (get (str "mqtt_broker_port") d ≡ some (int (pos n)))
settled c h b p q n eh eb d e =
    let c1 : Dict Json = put (str "mqtt_topic_prefix") (string p) c in
    let c2 : Dict Json = put (str "mqtt_ha_prefix") (string q) c1 in
    let apart_h =
      put_apart (str "mqtt_broker_port") (str "gateway_host") (int (pos n)) (string h) c2
        (unfold str str_eq in refl)
        (put_apart (str "mqtt_ha_prefix") (str "gateway_host") (string q) (string h) c1
          (unfold str str_eq in refl)
          (put_apart (str "mqtt_topic_prefix") (str "gateway_host") (string p) (string h) c
            (unfold str str_eq in refl) eh)) in
    let apart_b =
      put_apart (str "mqtt_broker_port") (str "mqtt_broker_host") (int (pos n)) (string b) c2
        (unfold str str_eq in refl)
        (put_apart (str "mqtt_ha_prefix") (str "mqtt_broker_host") (string q) (string b) c1
          (unfold str str_eq in refl)
          (put_apart (str "mqtt_topic_prefix") (str "mqtt_broker_host") (string p) (string b) c
            (unfold str str_eq in refl) eb)) in
    let apart_p =
      put_apart (str "mqtt_broker_port") (str "mqtt_topic_prefix") (int (pos n)) (string p) c2
        (unfold str str_eq in refl)
        (put_apart (str "mqtt_ha_prefix") (str "mqtt_topic_prefix") (string q) (string p) c1
          (unfold str str_eq in refl) (put_here (str "mqtt_topic_prefix") (string p) c)) in
    let apart_q =
      put_apart (str "mqtt_broker_port") (str "mqtt_ha_prefix") (int (pos n)) (string q) c2
        (unfold str str_eq in refl) (put_here (str "mqtt_ha_prefix") (string q) c1) in
    (
      rw e apart_h,
      rw e apart_b,
      rw e apart_p,
      rw e apart_q,
      rw e (put_here (str "mqtt_broker_port") (int (pos n)) c2),
    )

-- The settings that `options` returns have two hosts, each an address or a host's name of at most 253
-- characters, two topic prefixes that are not empty, no longer than 200 characters and without `+`,
-- `#`, NUL and slashes at their ends, and a port from 1 to 65535, whatever stands in options.json.
pub options-IsHost :
    (is_address : Str → Bool) (strip : Str → Str) (to_int : Json → Result ℤ) (c d : Dict Json)
    → options is_address strip to_int c ≡ ok d
    → (h : Str) × (b : Str) × (p : Str) × (q : Str) × (n : ℕ) × (IsHost is_address h
        × IsHost is_address b
        × (is_prefix p ≡ true)
        × (is_prefix q ≡ true)
        × (1 ≤ n)
        × (n ≤ 65535))
      × ((get (str "gateway_host") d ≡ some (string h))
          × (get (str "mqtt_broker_host") d ≡ some (string b))
          × (get (str "mqtt_topic_prefix") d ≡ some (string p))
          × (get (str "mqtt_ha_prefix") d ≡ some (string q))
          × (get (str "mqtt_broker_port") d ≡ some (int (pos n))))
unfolding options
options-IsHost is_address strip to_int c d run =
    let (c1, e1, r1) = bind_lem (set_host is_address strip (str "gateway_host") c) _ d run in
    let (c2, e2, r2) = bind_lem (set_host is_address strip (str "mqtt_broker_host") c1) _ d r1 in
    let (c3, e3, r3) = bind_lem (check_credential (str "device_id") c2) _ d r2 in
    let (c4, e4, r4) = bind_lem (check_credential (str "mqtt_broker_user") c3) _ d r3 in
    let (c5, e5, r5) = bind_lem (check_credential (str "mqtt_broker_password") c4) _ d r4 in
    let (c6, e6, r6) = bind_lem (check_device strip c5) _ d r5 in
    let (c7, e7, r7) = bind_lem (set_prefix (str "mqtt_topic_prefix") (str "gardena") c6) _ d r6 in
    let (c8, e8, r8) =
      bind_lem (set_prefix (str "mqtt_ha_prefix") (str "homeassistant") c7) _ d r7 in
    let (h, host, f1) = set_host_lem is_address strip (str "gateway_host") c c1 e1 in
    let (b, broker, f2) = set_host_lem is_address strip (str "mqtt_broker_host") c1 c2 e2 in
    let (p, prefix, f7) = set_prefix_lem (str "mqtt_topic_prefix") (str "gardena") c6 c7 e7 in
    let (q, ha_prefix, f8) = set_prefix_lem (str "mqtt_ha_prefix") (str "homeassistant") c7 c8 e8 in
    let (n, low, high, f9) = set_port_lem to_int c8 d r8 in
    let same : c2 ≡ c6 =
      credential_lem (str "device_id") c2 c3 e3
      ∙ (credential_lem (str "mqtt_broker_user") c3 c4 e4
          ∙ (credential_lem (str "mqtt_broker_password") c4 c5 e5 ∙ device_lem strip c5 c6 e6)) in
    let at_h : get (str "gateway_host") c2 ≡ some (string h) =
      rw (f2, f1)
        (put_apart (str "mqtt_broker_host") (str "gateway_host") (string b) (string h) _
          (unfold str str_eq in refl) (put_here (str "gateway_host") (string h) c)) in
    let at_b : get (str "mqtt_broker_host") c2 ≡ some (string b) =
      rw f2 (put_here (str "mqtt_broker_host") (string b) c1) in
    let at_h6 : get (str "gateway_host") c6 ≡ some (string h) = rw same at at_h in
    let at_b6 : get (str "mqtt_broker_host") c6 ≡ some (string b) = rw same at at_b in
    let whole =
      f9
      ∙ ap (λ (x : Dict Json). put (str "mqtt_broker_port") (int (pos n)) x)
          (f8 ∙ ap (λ (x : Dict Json). put (str "mqtt_ha_prefix") (string q) x) f7) in
    (
      h,
      b,
      p,
      q,
      n,
      (host, broker, prefix, ha_prefix, low, high),
      settled c6 h b p q n at_h6 at_b6 d whole,
    )
