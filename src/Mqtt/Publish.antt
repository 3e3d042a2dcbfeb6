-- ===== src/Mqtt/Publish.antt =====
-- What `publish` writes, and that the peer's `receive` and `parse_publish` read it back.
use mathlib.Core.Path.{subst}
use gardena_matter_mqtt_brid.Base.{
  ℕ, ◌/◌, ◌%◌, ◌≤◌, ◌≡◌, refl, sym, ap, ◌∙◌, inl, inr, bit_and, bit_or, Bool, true, false, List, [],
  ◌∷◌, ◌++◌, arith, length, length-append, append_cancel, take-length, drop-length, if◌then◌else◌,
}
use gardena_matter_mqtt_brid.Base.Exec.{ok, err, Result-cases}
use gardena_matter_mqtt_brid.Text.{Str, str_eq, any_char}
use gardena_matter_mqtt_brid.Text.Utf8.{encode, decode, decode-encode}
use gardena_matter_mqtt_brid.Transport.{max_packet_bytes, send_all}
use gardena_matter_mqtt_brid.Transport.Reads.{stream}
use gardena_matter_mqtt_brid.Mqtt.{
  MqttClient, encode_remaining_length, unpack_h, mqtt_string, send_packet, publish, receive,
  parse_topic, parse_publish, is_wildcard,
}
use gardena_matter_mqtt_brid.Mqtt.Receive.{packet, Delivers, receive-packet}

abbrev pub publish_header : Bool → ℕ
publish_header retain = bit_or 0x30 (if retain then 1 else 0)

-- The body of a PUBLISH packet of QoS 0: the topic behind its length, then the payload.
abbrev pub publish_body : List ℕ → List ℕ → List ℕ
publish_body topic payload = length topic / 256 ∷ length topic % 256 ∷ (topic ++ payload)

-- What was written by a call of `publish` that returned.
pub record Published (topic payload : Str) (retain : Bool) (s s' : MqttClient) : Type 0 where
  pub topic_bytes : List ℕ
  pub payload_bytes : List ℕ
  pub topic_encoded : encode topic ≡ ok topic_bytes
  pub payload_encoded : encode payload ≡ ok payload_bytes
  pub topic_fits : length topic_bytes ≤ 65535
  pub written :
      s'.conn.sent
      ≡ s.conn.sent ++ packet (publish_header retain) (publish_body topic_bytes payload_bytes)

mqtt_string_written :
    (text : Str) (raw out : List ℕ)
    → encode text ≡ ok raw
    → mqtt_string text ≡ ok out
    → (length raw ≤ 65535) × (out ≡ length raw / 256 ∷ length raw % 256 ∷ raw)
unfolding mqtt_string
mqtt_string_written text raw out e h = ground (arith, e)

mqtt_string_encoded :
    (text : Str) (out : List ℕ)
    → mqtt_string text ≡ ok out
    → (raw : List ℕ) × (encode text ≡ ok raw)
mqtt_string_encoded text out h = elim (Result-cases (encode text)) [
  | inl (raw, e) ↦ (raw, e)
  | inr (x, e) ↦ absurd (unfold mqtt_string in ground (arith, e))
]

send_packet_written :
    (header : ℕ) (body : List ℕ) (s s' : MqttClient)
    → send_packet header body s ≡ (ok tt, s')
    → s'.conn.sent ≡ s.conn.sent ++ packet header body
unfolding send_packet send_all
send_packet_written header body s s' h = ground arith

-- A `publish` that returned wrote one PUBLISH packet behind what was sent before.
pub publish_writes :
    (topic payload : Str) (retain : Bool) (s s' : MqttClient)
    → publish topic payload retain s ≡ (ok tt, s')
    → Published topic payload retain s s'
publish_writes topic payload retain s s' h = elim (Result-cases (mqtt_string topic)) [
  | inr (x, e) ↦ absurd (unfold publish in ground (arith, e))
  | inl (head, e) ↦ elim (Result-cases (encode payload)) [
    | inr (x, e') ↦ absurd (unfold publish in ground (arith, e, e'))
    | inl (pb, e') ↦
        let (tb, te) = mqtt_string_encoded topic head e in
        let (fits, shape) = mqtt_string_written topic tb head te e in
        let sent : send_packet (publish_header retain) (head ++ pb) s ≡ (ok tt, s') =
          unfold publish in ground (arith, e, e') in
        record {
          topic_bytes = tb;
          payload_bytes = pb;
          topic_encoded = te;
          payload_encoded = e';
          topic_fits = fits;
          written =
              ground
                (arith, shape, send_packet_written (publish_header retain) (head ++ pb) s s' sent);
        }
  ]
]

publish_flags :
    (retain : Bool)
    → (bit_and (publish_header retain) 0x0f ≡ (if retain then 1 else 0))
      × (publish_header retain / 16 ≡ 3)
publish_flags true = (refl, refl)
publish_flags false = (refl, refl)

parse_topic_plain :
    (topic payload : Str) (retain : Bool) (pb : List ℕ)
    → decode pb ≡ ok payload
    → str_eq topic [] ≡ false
    → any_char is_wildcard topic ≡ false
    → parse_topic (bit_and (publish_header retain) 0x0f) topic pb ≡ ok (topic, payload, retain)
unfolding parse_topic
parse_topic_plain topic payload true pb d nonempty plain = ground (arith, d, nonempty, plain)
parse_topic_plain topic payload false pb d nonempty plain = ground (arith, d, nonempty, plain)

cut_topic :
    (flags n : ℕ) (tb pb : List ℕ)
    → unpack_h (length tb / 256) (length tb % 256) ≡ n
    → n ≡ length tb
    → parse_publish flags (publish_body tb pb)
      ≡ elim (decode tb) [ ok topic ↦ parse_topic flags topic pb | err e ↦ err e ]
unfolding parse_publish
cut_topic flags n tb pb e e' =
    rw (e, e') (ground (arith, take-length tb pb, drop-length tb pb, length-append tb pb))

-- `parse_publish` undoes the layout of `publish_body`.
parse_publish_body :
    (topic payload : Str) (retain : Bool) (tb pb : List ℕ)
    → decode tb ≡ ok topic
    → decode pb ≡ ok payload
    → str_eq topic [] ≡ false
    → any_char is_wildcard topic ≡ false
    → parse_publish (bit_and (publish_header retain) 0x0f) (publish_body tb pb)
      ≡ ok (topic, payload, retain)
parse_publish_body topic payload retain tb pb td pd nonempty plain =
    cut_topic (bit_and (publish_header retain) 0x0f) (length tb) tb pb (omega arith) refl
    ∙ rw td (parse_topic_plain topic payload retain pb pd nonempty plain)

body_shorter :
    (header : ℕ) (body bytes : List ℕ) (limit : ℕ)
    → bytes ≡ packet header body
    → length bytes ≤ limit
    → length body ≤ limit
body_shorter header body bytes limit e h =
    omega (arith, ap length e, length-append (encode_remaining_length (length body)) body)

-- A message that one client publishes is received as it was sent: when the PUBLISH packet reaches a
-- client in time, its `receive` returns a packet of type 3 that `parse_publish` takes apart into the
-- topic, the payload and the retain flag given to `publish`, and what follows stays in its socket.
-- The topic is not empty and has no wildcard, and the packet is at most MAX_PACKET_BYTES long.
pub receive-publish :
    (topic payload : Str) (retain : Bool) (a a' b : MqttClient) (bytes rest : List ℕ)
    → publish topic payload retain a ≡ (ok tt, a')
    → a'.conn.sent ≡ a.conn.sent ++ bytes
    → length bytes ≤ max_packet_bytes
    → str_eq topic [] ≡ false
    → any_char is_wildcard topic ≡ false
    → Delivers b (bytes ++ rest)
    → (flags : ℕ) × (body : List ℕ) × (b' : MqttClient) × (receive b ≡ (ok (3, flags, body), b'))
      × (parse_publish flags body ≡ ok (topic, payload, retain))
      × (stream b'.conn.incoming ≡ rest)
receive-publish topic payload retain a a' b bytes rest sent same fits nonempty plain d =
    let p = publish_writes topic payload retain a a' sent in
    let header : ℕ = publish_header retain in
    let body : List ℕ = publish_body p.topic_bytes p.payload_bytes in
    let shape : bytes ≡ packet header body =
      append_cancel a.conn.sent bytes (packet header body) (sym same ∙ p.written) in
    let short : length body ≤ max_packet_bytes =
      body_shorter header body bytes max_packet_bytes shape fits in
    let (b', e, left, _) =
      receive-packet header body rest b short (subst (λ l. Delivers b (l ++ rest)) shape d) in
    (
      bit_and header 0x0f,
      body,
      b',
      e ∙ ap (λ (t : ℕ). (ok (t, bit_and header 0x0f, body), b')) (publish_flags retain).1,
      parse_publish_body topic payload retain p.topic_bytes p.payload_bytes
          (decode-encode topic p.topic_bytes p.topic_encoded)
          (decode-encode payload p.payload_bytes p.payload_encoded) nonempty plain,
      left,
    )
