-- ===== src/Mqtt/Length.antt =====
-- The remaining length: what `_encode_remaining_length` writes, `receive` reads back.
use mathlib.Core.Path.{subst}
use native.Mathlib.Decide.{dec_lt}
use native.Mathlib.Nat.{div-add-mod}
use gardena_matter_mqtt_brid.Base.{
  ℕ, zero, suc, ◌+◌, ◌*◌, ◌/◌, ◌%◌, ◌^◌, ◌≤◌, ◌<◌, ◌≡◌, refl, ap, ◌∙◌, true, List, [], ◌∷◌, ◌++◌,
  arith, length,
}
use gardena_matter_mqtt_brid.Base.Bits.{low_seven, top_bit, set_top_bit}
use gardena_matter_mqtt_brid.Base.Exec.{ok}
use gardena_matter_mqtt_brid.Transport.Ready.{IsReady, recv_exact-IsReady}
use gardena_matter_mqtt_brid.Mqtt.{MqttClient, encode_rounds, read_bytes, read_byte, read_length}

-- What a read leaves of a client: only its socket has moved on, to `rest`.
pub record HasRead (s : MqttClient) (rest : List ℕ) (s' : MqttClient) : Type 0 where
  pub same : s' ≡ record s { conn = s'.conn }
  pub is_open : s'.connected ≡ s.connected
  pub ready : IsReady s'.conn rest
  pub sent : s'.conn.sent ≡ s.conn.sent

HasRead-trans :
    {s s1 s2 : MqttClient} (r1 r2 : List ℕ) → HasRead s r1 s1 → HasRead s1 r2 s2 → HasRead s r2 s2
HasRead-trans r1 r2 h k = record {
  same = ground (arith, h.same, k.same);
  is_open = k.is_open ∙ h.is_open;
  ready = k.ready;
  sent = k.sent ∙ h.sent;
}

pub read_bytes_ready :
    (bytes rest : List ℕ) (s : MqttClient)
    → s.connected ≡ true
    → IsReady s.conn (bytes ++ rest)
    → (s' : MqttClient) × (read_bytes (length bytes) s ≡ (ok bytes, s')) × HasRead s rest s'
read_bytes_ready bytes rest s is_open r =
    let (c', e, r', took) = recv_exact-IsReady bytes rest s.conn r in
    (
      record s { conn = c' },
      unfold read_bytes in ground (arith, is_open, e),
      record { same = refl; is_open = refl; ready = r'; sent = took.same_sent },
    )

pub read_byte_ready :
    (b : ℕ) (rest : List ℕ) (s : MqttClient)
    → s.connected ≡ true
    → IsReady s.conn (b ∷ rest)
    → (s' : MqttClient) × (read_byte s ≡ (ok b, s')) × HasRead s rest s'
unfolding read_byte
read_byte_ready b rest s is_open r =
    let (s', e, h) = read_bytes_ready (b ∷ []) rest s is_open r in (s', ground (arith, e), h)

encode_last : (rounds n : ℕ) → n < 128 → encode_rounds (suc rounds) n ≡ n ∷ []
unfolding encode_rounds
encode_last rounds n h = ground arith

encode_more :
    (rounds n : ℕ)
    → 128 ≤ n
    → encode_rounds (suc rounds) n ≡ (n % 128 + 128) ∷ encode_rounds rounds (n / 128)
unfolding encode_rounds
encode_more rounds n h = ground (arith, set_top_bit (n % 128))

last_digit :
    (fuel m acc b : ℕ) (s s' : MqttClient)
    → b < 128
    → read_byte s ≡ (ok b, s')
    → read_length (suc fuel) m acc s ≡ (ok (acc + b * m), s')
unfolding read_length
last_digit fuel m acc b s s' h e = unfold read_length in ground (arith, e, low_seven b, top_bit b)

inner_digit :
    (fuel m acc g : ℕ) (s s' : MqttClient)
    → g < 128
    → m * 128 ≤ 128 ^ 3
    → read_byte s ≡ (ok (g + 128), s')
    → read_length (suc fuel) m acc s ≡ read_length fuel (m * 128) (acc + g * m) s'
inner_digit fuel m acc g s s' h fits e =
    unfold read_length in ground (arith, e, low_seven (g + 128), top_bit (g + 128))

pub pow_step : (k : ℕ) → 128 ^ suc k ≡ 128 * 128 ^ k
pow_step k = omega arith

pow_pos : (k : ℕ) → 1 ≤ 128 ^ k
pow_pos zero = omega arith
pow_pos (suc k) = omega (arith, pow_step k, pow_pos k)

-- There is room for one more digit.
room_product : (m q : ℕ) → 1 ≤ q → m * (128 * (128 * q)) ≤ 128 ^ 4 → m * 128 ≤ 128 ^ 3
room_product m q h le = grind arith

room : (m k : ℕ) → m * 128 ^ suc (suc k) ≤ 128 ^ 4 → m * 128 ≤ 128 ^ 3
room m k h =
    let e : 128 ^ suc (suc k) ≡ 128 * (128 * 128 ^ k) =
      omega (arith, pow_step (suc k), pow_step k) in
    room_product m (128 ^ k) (pow_pos k) (rw e at h)

digits_sum : (acc n m : ℕ) → acc + n % 128 * m + n / 128 * (m * 128) ≡ acc + n * m
digits_sum acc n m = omega (arith, ap (λ (t : ℕ). t * m) (div-add-mod n 128))

-- The digits of `n` from the multiplier `m` on, of which `suc fuel` may come.
pub read_length_encoded :
    (fuel rounds n m acc : ℕ) (rest : List ℕ) (s : MqttClient)
    → n < rounds
    → n < 128 ^ suc fuel
    → m * 128 ^ suc fuel ≤ 128 ^ 4
    → s.connected ≡ true
    → IsReady s.conn (encode_rounds rounds n ++ rest)
    → (s' : MqttClient) × (read_length (suc fuel) m acc s ≡ (ok (acc + n * m), s'))
      × HasRead s rest s'
read_length_encoded fuel zero n m acc rest s hr hf hm is_open r = absurd (omega arith)
read_length_encoded zero (suc rounds) n m acc rest s hr hf hm is_open r =
    let (s', e, h) =
      read_byte_ready n rest s is_open
        (subst (λ l. IsReady s.conn (l ++ rest)) (encode_last rounds n (omega arith)) r) in
    (s', last_digit 0 m acc n s s' (omega arith) e, h)
read_length_encoded (suc fuel) (suc rounds) n m acc rest s hr hf hm is_open r =
    elim (dec_lt n 128) [
      | yes small ↦
          let (s', e, h) =
            read_byte_ready n rest s is_open
              (subst (λ l. IsReady s.conn (l ++ rest)) (encode_last rounds n small) r) in
          (s', last_digit (suc fuel) m acc n s s' small e, h)
      | no large ↦
          let (s1, e, h) =
            read_byte_ready (n % 128 + 128) (encode_rounds rounds (n / 128) ++ rest) s is_open
              (subst (λ l. IsReady s.conn (l ++ rest)) (encode_more rounds n (omega arith)) r) in
          let (s', e', h') =
            read_length_encoded fuel rounds (n / 128) (m * 128) (acc + n % 128 * m) rest s1
              (omega arith) (omega (arith, pow_step (suc fuel)))
              (omega (arith, ap (λ (t : ℕ). m * t) (pow_step (suc fuel)))) (h.is_open ∙ is_open)
              h.ready in
          (
            s',
            inner_digit (suc fuel) m acc (n % 128) s s1 (omega arith) (room m fuel hm) e
                ∙ e'
                ∙ ap (λ (t : ℕ). (ok t, s')) (digits_sum acc n m),
            HasRead-trans _ rest h h',
          )
    ]
