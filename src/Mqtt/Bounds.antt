-- ===== src/Mqtt/Bounds.antt =====
-- What `receive` does on any input: it ends, and what it returns is bounded.
use gardena_matter_mqtt_brid.Base.{
  ℕ, zero, suc, ◌+◌, ◌*◌, ◌^◌, ◌≤◌, ◌≡◌, refl, sym, ap, ◌∙◌, ◌≢◌, ◌⊎◌, inl, inr, ltb, bit_and, ◌==◌,
  List, [], ◌∷◌, ◌++◌, arith, length, append_assoc, Bool-cases,
}
use gardena_matter_mqtt_brid.Base.Exec.{ok, err, Run-cases, out_of_fuel, value_error}
use gardena_matter_mqtt_brid.Mqtt.Length.{pow_step}
use gardena_matter_mqtt_brid.Transport.{max_packet_bytes, start_packet}
use gardena_matter_mqtt_brid.Transport.Reads.{stream, recv_exact_takes, recv_exact-ne-out_of_fuel}
use gardena_matter_mqtt_brid.Mqtt.{MqttClient, read_bytes, read_byte, read_length, receive}
use gardena_matter_mqtt_brid.Mqtt.Receive.{started, receive_steps}

-- The bytes that a client still has to come.
abbrev pub to_come : MqttClient → List ℕ
to_come s = stream s.conn.incoming

-- A call took `bytes` from the socket and wrote nothing.
pub record Consumed (s : MqttClient) (bytes : List ℕ) (s' : MqttClient) : Type 0 where
  pub taken : to_come s ≡ bytes ++ to_come s'
  pub silent : s'.conn.sent ≡ s.conn.sent

Consumed-trans :
    {s s1 s2 : MqttClient} (xs ys : List ℕ)
    → Consumed s xs s1
    → Consumed s1 ys s2
    → Consumed s (xs ++ ys) s2
Consumed-trans {s2 = s2} xs ys h k = record {
  taken = cc (h.taken, k.taken, append_assoc xs ys (to_come s2));
  silent = k.silent ∙ h.silent;
}

read_bytes-Consumed :
    (n : ℕ) (s s' : MqttClient) (bytes : List ℕ)
    → read_bytes n s ≡ (ok bytes, s')
    → (length bytes ≡ n) × Consumed s bytes s'
read_bytes-Consumed n s s' bytes h =
    let (e, t) = recv_exact_takes n s.conn s'.conn bytes (unfold read_bytes in ground arith) in
    (e, record { taken = t.same_stream; silent = t.same_sent })

read_byte-Consumed : (s s' : MqttClient) (b : ℕ) → read_byte s ≡ (ok b, s') → Consumed s (b ∷ []) s'
read_byte-Consumed s s' b h = elim (Run-cases (read_bytes 1 s)) [
  | inr (x, s1, e) ↦ absurd (unfold read_byte in ground (arith, e))
  | inl ([], s1, e) ↦ absurd (unfold read_byte in ground (arith, e))
  | inl (c ∷ [], s1, e) ↦
      let k = (read_bytes-Consumed 1 s s1 (c ∷ []) e).1 in
      unfold read_byte in ground (arith, e, h, k.taken, k.silent)
  | inl (c ∷ d ∷ cs, s1, e) ↦ absurd (omega (arith, (read_bytes-Consumed 1 s s1 (c ∷ d ∷ cs) e).0))
]

read_length-Consumed :
    (fuel m acc n : ℕ) (s s' : MqttClient)
    → read_length fuel m acc s ≡ (ok n, s')
    → (bytes : List ℕ) × (length bytes ≤ fuel) × Consumed s bytes s'
read_length-Consumed zero m acc n s s' h = absurd (unfold read_length in ground arith)
read_length-Consumed (suc fuel) m acc n s s' h = elim (Run-cases (read_byte s)) [
  | inr (x, s1, e) ↦ absurd (unfold read_length in ground (arith, e))
  | inl (b, s1, e) ↦
      let one = read_byte-Consumed s s1 b e in
      elim (Bool-cases (bit_and b 0x80 == 0)) [
        | inl last ↦ (
          b ∷ [],
          omega arith,
          unfold read_length in ground (arith, e, last, one.taken, one.silent),
        )
        | inr more ↦ elim (Bool-cases (ltb (128 ^ 3) (m * 128))) [
          | inl over ↦ absurd (unfold read_length in ground (arith, e, more, over))
          | inr room ↦
              let (bytes, l, k) =
                read_length-Consumed fuel (m * 128) (acc + bit_and b 0x7f * m) n s1 s'
                  (unfold read_length in ground (arith, e, more, room, h)) in
              (b ∷ bytes, omega arith, Consumed-trans (b ∷ []) bytes one k)
        ]
      ]
]

started_same :
    (s : MqttClient) → (to_come (started s) ≡ to_come s) × ((started s).conn.sent ≡ s.conn.sent)
unfolding started start_packet
started_same s = (refl, refl)

parts_bounded :
    (b n : ℕ) (bytes : List ℕ) (s s1 s2 s3 : MqttClient)
    → read_byte (started s) ≡ (ok b, s1)
    → read_length 4 1 0 s1 ≡ (ok n, s2)
    → n ≤ max_packet_bytes
    → read_bytes n s2 ≡ (ok bytes, s3)
    → (kind flags : ℕ) (body : List ℕ) (s' : MqttClient) → receive s ≡ (ok (kind, flags, body), s')
    → (head : List ℕ) × (length head ≤ 5)
      × (length body ≤ max_packet_bytes)
      × (to_come s ≡ head ++ (body ++ to_come s'))
      × (s'.conn.sent ≡ s.conn.sent)
parts_bounded b n bytes s s1 s2 s3 e e' fits e'' kind flags body s' h =
    let first = read_byte-Consumed (started s) s1 b e in
    let (digits, l, k) = read_length-Consumed 4 1 0 n s1 s2 e' in
    let (l', k') = read_bytes-Consumed n s2 s3 bytes e'' in
    let whole = Consumed-trans (b ∷ digits) bytes (Consumed-trans (b ∷ []) digits first k) k' in
    let run = sym (receive_steps b n bytes s s1 s2 s3 e e' fits e'') ∙ h in
    let same : bytes ≡ body = ground arith in
    let left : to_come s3 ≡ to_come s' = ground arith in
    let quiet : s3.conn.sent ≡ s'.conn.sent = ground arith in
    (
      b ∷ digits,
      omega arith,
      omega (arith, l', ap length same),
      cc (
        (started_same s).0,
        whole.taken,
        same,
        left,
        append_assoc (b ∷ digits) bytes (to_come s3),
      ),
      cc ((started_same s).1, whole.silent, quiet),
    )

-- A `receive` that returned took a header of at most five bytes and the body from the socket, in
-- their order, and nothing behind them; it wrote nothing, and no body passes MAX_PACKET_BYTES.
pub receive_bounded :
    (kind flags : ℕ) (body : List ℕ) (s s' : MqttClient)
    → receive s ≡ (ok (kind, flags, body), s')
    → (head : List ℕ) × (length head ≤ 5)
      × (length body ≤ max_packet_bytes)
      × (to_come s ≡ head ++ (body ++ to_come s'))
      × (s'.conn.sent ≡ s.conn.sent)
receive_bounded kind flags body s s' h = elim (Run-cases (read_byte (started s))) [
  | inr (x, s1, e) ↦ absurd (unfold receive started start_packet in ground (arith, e))
  | inl (b, s1, e) ↦ elim (Run-cases (read_length 4 1 0 s1)) [
    | inr (x, s2, e') ↦ absurd (unfold receive started start_packet in ground (arith, e, e'))
    | inl (n, s2, e') ↦ elim (Bool-cases (ltb max_packet_bytes n)) [
      | inl over ↦ absurd (unfold receive started start_packet in ground (arith, e, e', over))
      | inr fits ↦ elim (Run-cases (read_bytes n s2)) [
        | inr (x, s3, e'') ↦
            absurd (unfold receive started start_packet in ground (arith, e, e', fits, e''))
        | inl (bytes, s3, e'') ↦
            parts_bounded b n bytes s s1 s2 s3 e e' (ground arith) e'' kind flags body s' h
      ]
    ]
  ]
]

read_byte-ne-out_of_fuel : (s : MqttClient) → (read_byte s).0 ≢ err out_of_fuel
read_byte-ne-out_of_fuel s h =
    let inner = recv_exact-ne-out_of_fuel 1 s.conn in unfold read_byte read_bytes in ground arith

read_bytes-ne-out_of_fuel : (n : ℕ) (s : MqttClient) → (read_bytes n s).0 ≢ err out_of_fuel
unfolding read_bytes
read_bytes-ne-out_of_fuel n s = ground (arith, recv_exact-ne-out_of_fuel n s.conn)

one_digit :
    (fuel m acc b : ℕ) (s s1 : MqttClient)
    → read_byte s ≡ (ok b, s1)
    → ((read_length (suc fuel) m acc s).0 ≡ ok (acc + bit_and b 0x7f * m))
      ⊎ ((read_length (suc fuel) m acc s).0 ≡ err value_error)
      ⊎ (read_length (suc fuel) m acc s ≡ read_length fuel (m * 128) (acc + bit_and b 0x7f * m) s1)
one_digit fuel m acc b s s1 e = unfold read_length in ground (arith, e)

next_digit :
    (fuel m acc b : ℕ) (s s1 : MqttClient)
    → read_byte s ≡ (ok b, s1)
    → (read_length (suc fuel) (m * 128) (acc + bit_and b 0x7f * m) s1).0 ≢ err out_of_fuel
    → (read_length (suc (suc fuel)) m acc s).0 ≢ err out_of_fuel
next_digit fuel m acc b s s1 e inner p = ground (arith, one_digit (suc fuel) m acc b s s1 e)

read_length-ne-out_of_fuel :
    (fuel m acc : ℕ) (s : MqttClient)
    → 128 ^ 4 ≤ m * 128 ^ suc fuel
    → (read_length (suc fuel) m acc s).0 ≢ err out_of_fuel
read_length-ne-out_of_fuel zero m acc s h p = elim (Run-cases (read_byte s)) [
  | inr (x, s1, e) ↦
      let inner = read_byte-ne-out_of_fuel s in unfold read_length in ground (arith, e)
  | inl (b, s1, e) ↦ unfold read_length in ground (arith, e)
]
read_length-ne-out_of_fuel (suc fuel) m acc s h p = elim (Run-cases (read_byte s)) [
  | inr (x, s1, e) ↦
      let inner = read_byte-ne-out_of_fuel s in unfold read_length in ground (arith, e)
  | inl (b, s1, e) ↦
      let inner =
        read_length-ne-out_of_fuel fuel (m * 128) (acc + bit_and b 0x7f * m) s1
          (omega (arith, ap (λ (t : ℕ). m * t) (pow_step (suc fuel)))) in
      next_digit fuel m acc b s s1 e inner p
]

-- `receive` ends on every input: none of its loops runs out of rounds.
pub receive-ne-out_of_fuel : (s : MqttClient) → (receive s).0 ≢ err out_of_fuel
receive-ne-out_of_fuel s p = elim (Run-cases (read_byte (started s))) [
  | inr (x, s1, e) ↦
      let inner = read_byte-ne-out_of_fuel (started s) in
      unfold receive started start_packet in ground (arith, e)
  | inl (b, s1, e) ↦ elim (Run-cases (read_length 4 1 0 s1)) [
    | inr (x, s2, e') ↦
        let inner = read_length-ne-out_of_fuel 3 1 0 s1 (omega arith) in
        unfold receive started start_packet in ground (arith, e, e')
    | inl (n, s2, e') ↦
        let inner = read_bytes-ne-out_of_fuel n s2 in
        unfold receive started start_packet in ground (arith, e, e')
  ]
]
