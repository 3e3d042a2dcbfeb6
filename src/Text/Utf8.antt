-- ===== src/Text/Utf8.antt =====
-- `str.encode()` and `bytes.decode("utf-8")` with the strict error handler.
use gardena_matter_mqtt_brid.Base.{
  ℕ, zero, suc, ◌+◌, ◌-◌, ◌*◌, ◌/◌, ◌%◌, ◌<◌, ◌≤◌, ◌≡◌, refl, ◌⊎◌, inl, inr, Bool, true, List, [],
  ◌∷◌, ◌++◌, arith, ltb, leb, ◌==◌, ◌&&◌, ◌||◌, if◌then◌else◌,
}
use gardena_matter_mqtt_brid.Base.Exec.{Result, Result-cases, ok, err, unicode_error}

-- The code points that UTF-8 can carry: all but the surrogates.
abbrev pub IsScalar : ℕ → Type 0
IsScalar c = (c < 0xd800) ⊎ ((0xdfff < c) × (c < 0x110000))

abbrev is_scalar : ℕ → Bool
is_scalar c = ltb c 0xd800 || (ltb 0xdfff c && ltb c 0x110000)

unfoldable pub encode_char : ℕ → List ℕ
encode_char c =
    if ltb c 0x80
    then c ∷ []
    else if ltb c 0x800
    then (0xc0 + c / 64) ∷ (0x80 + c % 64) ∷ []
    else if ltb c 0x10000
    then (0xe0 + c / 4096) ∷ (0x80 + c / 64 % 64) ∷ (0x80 + c % 64) ∷ []
    else (0xf0 + c / 262144) ∷ (0x80 + c / 4096 % 64) ∷ (0x80 + c / 64 % 64) ∷ (0x80 + c % 64) ∷ []

abbrev pub before {ℓ} : {A : Type ℓ} → List A → Result (List A) → Result (List A)
before out (ok l) = ok (out ++ l)
before out (err e) = err e

-- `text.encode()`
unfoldable pub encode : List ℕ → Result (List ℕ)
unfolding encode_char
encode [] = ok []
encode (c ∷ s) = if is_scalar c then before (encode_char c) (encode s) else err unicode_error

-- The decoder between two bytes: how many continuation bytes are missing, the bits read so far, and
-- the least code point that may be written in this many bytes.
pub record Reading : Type 0 where
  pub missing : ℕ
  pub bits : ℕ
  pub least : ℕ

abbrev pub at_start : Reading
at_start = record { missing = 0; bits = 0; least = 0 }

unfoldable pub decode_lead : ℕ → Result (Reading × List ℕ)
decode_lead b =
    if ltb b 0x80
    then ok (at_start, b ∷ [])
    else if ltb b 0xc0
    then err unicode_error
    else if ltb b 0xe0
    then ok (record { missing = 1; bits = b - 0xc0; least = 0x80 }, [])
    else if ltb b 0xf0
    then ok (record { missing = 2; bits = b - 0xe0; least = 0x800 }, [])
    else if ltb b 0xf8
    then ok (record { missing = 3; bits = b - 0xf0; least = 0x10000 }, [])
    else err unicode_error

unfoldable pub decode_next : ℕ → ℕ → ℕ → ℕ → Result (Reading × List ℕ)
unfolding decode_lead
decode_next zero bits least b = decode_lead b
decode_next (suc zero) bits least b =
    let c = bits * 64 + (b - 0x80) in
    if (leb 0x80 b && ltb b 0xc0) && (leb least c && is_scalar c)
    then ok (at_start, c ∷ [])
    else err unicode_error
decode_next (suc (suc n)) bits least b =
    if leb 0x80 b && ltb b 0xc0
    then ok (record { missing = suc n; bits = bits * 64 + (b - 0x80); least = least }, [])
    else err unicode_error

unfoldable pub decode_from : Reading → List ℕ → Result (List ℕ)
unfolding decode_next
decode_from r [] = if r.missing == 0 then ok [] else err unicode_error
decode_from r (b ∷ bs) = elim (decode_next r.missing r.bits r.least b) [
  | ok (r', out) ↦ before out (decode_from r' bs)
  | err e ↦ err e
]

-- `data.decode("utf-8")`
unfoldable pub decode : List ℕ → Result (List ℕ)
unfolding decode_from
decode bytes = decode_from at_start bytes

before_nil : (r : Result (List ℕ)) → before [] r ≡ r
before_nil (ok l) = refl
before_nil (err e) = refl

decode_char_1 :
    (c : ℕ) (rest : List ℕ)
    → c < 0x80
    → decode_from at_start (c ∷ rest) ≡ before (c ∷ []) (decode_from at_start rest)
unfolding decode_from
decode_char_1 c rest h = ground arith

decode_char_2 :
    (c : ℕ) (rest : List ℕ)
    → 0x80 ≤ c
    → c < 0x800
    → decode_from at_start ((0xc0 + c / 64) ∷ (0x80 + c % 64) ∷ rest)
      ≡ before (c ∷ []) (decode_from at_start rest)
unfolding decode_from
decode_char_2 c rest lo hi = ground arith

decode_char_3 :
    (c : ℕ) (rest : List ℕ)
    → 0x800 ≤ c
    → c < 0x10000
    → IsScalar c
    → decode_from at_start ((0xe0 + c / 4096) ∷ (0x80 + c / 64 % 64) ∷ (0x80 + c % 64) ∷ rest)
      ≡ before (c ∷ []) (decode_from at_start rest)
unfolding decode_from
decode_char_3 c rest lo hi s = ground arith

decode_char_4 :
    (c : ℕ) (rest : List ℕ)
    → 0x10000 ≤ c
    → c < 0x110000
    → decode_from at_start (
        (0xf0 + c / 262144)
        ∷ (0x80 + c / 4096 % 64)
        ∷ (0x80 + c / 64 % 64)
        ∷ (0x80 + c % 64)
        ∷ rest)
      ≡ before (c ∷ []) (decode_from at_start rest)
unfolding decode_from
decode_char_4 c rest lo hi = ground arith

-- One character is read back, whatever follows it.
decode_char :
    (c : ℕ) (rest : List ℕ)
    → is_scalar c ≡ true
    → decode_from at_start (encode_char c ++ rest) ≡ before (c ∷ []) (decode_from at_start rest)
unfolding encode_char
decode_char c rest h =
    ground (
      arith,
      decode_char_1 c rest,
      decode_char_2 c rest,
      decode_char_3 c rest,
      decode_char_4 c rest,
    )

pub decode-encode : (s b : List ℕ) → encode s ≡ ok b → decode b ≡ ok s
unfolding encode decode
decode-encode [] b h = ground arith
decode-encode (c ∷ s) b h = elim (Result-cases (encode s)) [
  | inl (bs, e) ↦ ground (arith, decode_char c bs, decode-encode s bs)
  | inr (x, e) ↦ ground arith
]
