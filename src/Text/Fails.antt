-- ===== src/Text/Fails.antt =====
-- Encoding and decoding fail in no other way than Python's.
use gardena_matter_mqtt_brid.Base.{ℕ, zero, suc, ◌≢◌, inl, inr, List, [], ◌∷◌, arith}
use gardena_matter_mqtt_brid.Base.Exec.{Result-cases, err, out_of_fuel}
use gardena_matter_mqtt_brid.Text.Utf8.{
  Reading, encode, decode, decode_from, decode_next, decode_lead,
}

pub encode-ne-out_of_fuel : (s : List ℕ) → encode s ≢ err out_of_fuel
unfolding encode
encode-ne-out_of_fuel [] h = ground (arith, h)
encode-ne-out_of_fuel (c ∷ s) h = elim (Result-cases (encode s)) [
  | inl (r, e) ↦ ground (arith, h, e)
  | inr (x, e) ↦ ground (arith, h, e, encode-ne-out_of_fuel s)
]

decode_next-ne : (m bits least b : ℕ) → decode_next m bits least b ≢ err out_of_fuel
unfolding decode_next decode_lead
decode_next-ne zero bits least b h = ground (arith, h)
decode_next-ne (suc zero) bits least b h = ground (arith, h)
decode_next-ne (suc (suc n)) bits least b h = ground (arith, h)

decode_from-ne : (bs : List ℕ) (r : Reading) → decode_from r bs ≢ err out_of_fuel
unfolding decode_from
decode_from-ne [] r h = ground (arith, h)
decode_from-ne (b ∷ bs) r h = elim (Result-cases (decode_next r.missing r.bits r.least b)) [
  | inr (x, e) ↦ decode_next-ne r.missing r.bits r.least b (ground (arith, h, e))
  | inl ((r', out), e) ↦ elim (Result-cases (decode_from r' bs)) [
    | inl (l, f) ↦ ground (arith, h, e, f)
    | inr (x, f) ↦ ground (arith, h, e, f, decode_from-ne bs r')
  ]
]

pub decode-ne-out_of_fuel : (bs : List ℕ) → decode bs ≢ err out_of_fuel
unfolding decode
decode-ne-out_of_fuel bs h = decode_from-ne bs _ h
