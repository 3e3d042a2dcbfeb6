-- ===== src/Mqtt/Tests.antt =====
-- Concrete runs of the client, and its theorems at concrete inputs.
use gardena_matter_mqtt_brid.Base.{
  ℕ, ◌≡◌, refl, ◌≤◌, true, false, none, some, List, [], ◌∷◌, ◌++◌, arith, length,
}
use gardena_matter_mqtt_brid.Base.Exec.{ok, err, value_error, out_of_fuel}
use gardena_matter_mqtt_brid.Text.{Str, str_eq, any_char}
use gardena_matter_mqtt_brid.Text.Utf8.{encode}
use gardena_matter_mqtt_brid.Transport.{
  Arrival, chunk, eof, Conn, recv_exact, send_all, max_packet_bytes, start_packet,
}
use gardena_matter_mqtt_brid.Transport.Reads.{stream}
use gardena_matter_mqtt_brid.Mqtt.{
  MqttClient, encode_remaining_length, mqtt_string, send_packet, publish, read_bytes, read_byte,
  read_length, receive, parse_publish,
}
use gardena_matter_mqtt_brid.Mqtt.Receive.{Delivers}
use gardena_matter_mqtt_brid.Mqtt.Publish.{receive-publish}
use gardena_matter_mqtt_brid.Mqtt.Bounds.{receive_bounded, to_come, receive-ne-out_of_fuel}

abbrev quiet : List Arrival → Conn
quiet incoming = record {
  incoming = incoming;
  sent = [];
  timeout = some 15000;
  broken = false;
  now = 7;
  deadline = none;
}

abbrev client : List Arrival → MqttClient
client incoming = record {
  user = [];
  password = [];
  client_id = b'c' ∷ [];
  connected = true;
  conn = quiet incoming;
  last_io = 0;
}

encode_321 : encode_remaining_length 321 ≡ 0xc1 ∷ 0x02 ∷ []
unfolding encode_remaining_length
encode_321 = refl

-- The packet of `publish("t/é", "8", retain=True)`.
abbrev wire : List ℕ
wire = 0x31 ∷ 7 ∷ 0 ∷ 4 ∷ b't' ∷ b'/' ∷ 0xc3 ∷ 0xa9 ∷ b'8' ∷ []

abbrev topic : Str
topic = b't' ∷ b'/' ∷ 0xe9 ∷ []

abbrev sender : MqttClient
sender = record (client []) { conn = record (quiet []) { sent = wire }; last_io = 7 }

publish_run : publish topic (b'8' ∷ []) true (client []) ≡ (ok tt, sender)
unfolding publish mqtt_string encode send_packet encode_remaining_length send_all
publish_run = refl

-- The packet comes in two pieces, the second after 40 ms, and another packet begins behind it.
abbrev receiver : MqttClient
receiver =
    client (
      chunk 0 (0x31 ∷ 7 ∷ 0 ∷ [])
      ∷ chunk 40 (4 ∷ b't' ∷ b'/' ∷ 0xc3 ∷ 0xa9 ∷ b'8' ∷ 0xd0 ∷ [])
      ∷ [])

receiver-Delivers : Delivers receiver (wire ++ 0xd0 ∷ [])
receiver-Delivers = record {
  is_open = refl;
  flowing = (λ e. cc, (λ e. cc, tt));
  whole = refl;
  in_time = omega arith;
  patient = omega arith;
}

receive-publish_example :
    (flags : ℕ) × (body : List ℕ) × (b' : MqttClient) × (receive receiver
      ≡ (ok (3, flags, body), b'))
    × (parse_publish flags body ≡ ok (topic, b'8' ∷ [], true))
    × (stream b'.conn.incoming ≡ 0xd0 ∷ [])
unfolding str_eq any_char
receive-publish_example =
    receive-publish topic (b'8' ∷ []) true (client []) sender receiver wire (0xd0 ∷ []) publish_run
      refl (omega arith) refl refl receiver-Delivers

-- An empty packet of type 13, PINGRESP, and the end of the stream.
abbrev pinged : MqttClient
pinged = client (chunk 0 (0xd0 ∷ 0 ∷ []) ∷ eof 0 ∷ [])

abbrev after_ping : MqttClient
after_ping = record (client []) {
  conn = record (quiet (eof 0 ∷ [])) { deadline = some 15007 };
  last_io = 7;
}

receive_run : receive pinged ≡ (ok (13, 0, []), after_ping)
unfolding receive read_byte read_bytes read_length recv_exact start_packet
receive_run = refl

receive_bounded_example :
    (head : List ℕ) × (length head ≤ 5)
    × (length {A = ℕ} [] ≤ max_packet_bytes)
    × (to_come pinged ≡ head ++ ([] ++ to_come after_ping))
    × (after_ping.conn.sent ≡ pinged.conn.sent)
receive_bounded_example = receive_bounded 13 0 [] pinged after_ping receive_run

receive-ne-out_of_fuel_example : ¬ ((receive pinged).0 ≡ err out_of_fuel)
receive-ne-out_of_fuel_example = receive-ne-out_of_fuel pinged

-- A fifth length digit is refused.
five_digits :
    (receive (client (chunk 0 (0x30 ∷ 0x80 ∷ 0x80 ∷ 0x80 ∷ 0x80 ∷ 1 ∷ []) ∷ []))).0
    ≡ err value_error
unfolding receive read_byte read_bytes read_length recv_exact start_packet
five_digits = refl
