-- ===== src/Mqtt/Receive.antt =====
-- A whole packet: `receive` on a packet that arrives in time.
use mathlib.Core.Path.{subst}
use gardena_matter_mqtt_brid.Base.{
  ℕ, suc, ◌/◌, ◌^◌, ◌≤◌, ◌<◌, ◌≡◌, refl, ap, ◌∙◌, bit_and, true, List, ◌∷◌, ◌++◌, arith, length,
  append_assoc,
}
use gardena_matter_mqtt_brid.Base.Exec.{ok}
use gardena_matter_mqtt_brid.Transport.{patience, packet_timeout, start_packet, max_packet_bytes}
use gardena_matter_mqtt_brid.Transport.Reads.{stream}
use gardena_matter_mqtt_brid.Transport.Ready.{IsReady, IsFlowing, total_delay}
use gardena_matter_mqtt_brid.Mqtt.{
  MqttClient, encode_remaining_length, read_bytes, read_byte, read_length, receive,
}
use gardena_matter_mqtt_brid.Mqtt.Length.{
  HasRead, read_bytes_ready, read_byte_ready, read_length_encoded,
}

-- The bytes of an MQTT packet, as the standard lays them out.
abbrev pub packet : ℕ → List ℕ → List ℕ
packet header body = header ∷ (encode_remaining_length (length body) ++ body)

-- A client on whose socket `bytes` come, all of them within the packet and the socket timeouts.
pub record Delivers (s : MqttClient) (bytes : List ℕ) : Type 0 where
  pub is_open : s.connected ≡ true
  pub flowing : IsFlowing s.conn.incoming
  pub whole : stream s.conn.incoming ≡ bytes
  pub in_time : total_delay s.conn.incoming < packet_timeout
  pub patient : total_delay s.conn.incoming < patience s.conn.timeout

pub read_length_ready :
    (n : ℕ) (rest : List ℕ) (s : MqttClient)
    → n < 128 ^ 4
    → s.connected ≡ true
    → IsReady s.conn (encode_remaining_length n ++ rest)
    → (s' : MqttClient) × (read_length 4 1 0 s ≡ (ok n, s')) × HasRead s rest s'
unfolding encode_remaining_length
read_length_ready n rest s h is_open r =
    let (s', e, k) =
      read_length_encoded 3 (suc n) n 1 0 rest s (omega arith) h (omega arith) is_open r in
    (s', e ∙ ap (λ (t : ℕ). (ok t, s')) (omega arith), k)

unfoldable pub started : MqttClient → MqttClient
started s = record s { conn = (start_packet s.conn).1 }

started-IsReady :
    (s : MqttClient) (bytes : List ℕ) → Delivers s bytes → IsReady (started s).conn bytes
unfolding started start_packet
started-IsReady s bytes d = record {
  flowing = d.flowing;
  whole = d.whole;
  in_time = omega (arith, d.in_time);
  patient = d.patient;
}

-- `receive` in four steps.
pub receive_steps :
    (header n : ℕ) (body : List ℕ) (s s1 s2 s3 : MqttClient)
    → read_byte (started s) ≡ (ok header, s1)
    → read_length 4 1 0 s1 ≡ (ok n, s2)
    → n ≤ max_packet_bytes
    → read_bytes n s2 ≡ (ok body, s3)
    → receive s ≡ (ok (header / 16, bit_and header 0x0f, body), record s3 { last_io = s3.conn.now })
unfolding receive started start_packet
receive_steps header n body s s1 s2 s3 e1 e2 fits e3 = ground (arith, e1, e2, e3)

-- `receive` returns the type, the flags and the body of a packet that comes in time and is not too
-- long, and leaves what follows it in the socket.
pub receive-packet :
    (header : ℕ) (body rest : List ℕ) (s : MqttClient)
    → length body ≤ max_packet_bytes
    → Delivers s (packet header body ++ rest)
    → (s' : MqttClient) × (receive s ≡ (ok (header / 16, bit_and header 0x0f, body), s'))
      × (stream s'.conn.incoming ≡ rest)
      × (s'.conn.sent ≡ s.conn.sent)
receive-packet header body rest s fits d =
    let open0 : (started s).connected ≡ true = unfold started in d.is_open in
    let (s1, e1, h1) =
      read_byte_ready header ((encode_remaining_length (length body) ++ body) ++ rest) (started s)
        open0 (started-IsReady s _ d) in
    let (s2, e2, h2) =
      read_length_ready (length body) (body ++ rest) s1 (omega arith) (h1.is_open ∙ open0) (
        subst (λ l. IsReady s1.conn l)
          (append_assoc (encode_remaining_length (length body)) body rest) h1.ready) in
    let (s3, e3, h3) = read_bytes_ready body rest s2 (h2.is_open ∙ h1.is_open ∙ open0) h2.ready in
    (
      record s3 { last_io = s3.conn.now },
      receive_steps header (length body) body s s1 s2 s3 e1 e2 fits e3,
      h3.ready.whole,
      h3.sent ∙ h2.sent ∙ h1.sent ∙ (unfold started start_packet in refl),
    )
