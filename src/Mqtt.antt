-- ===== src/Mqtt.antt =====
-- gardena_local_mqtt/protocol.py, `MqttClient`: an MQTT 3.1.1 QoS-0 client over one socket.
pub mod Length
pub mod Receive
mod Tests
pub mod Bounds
pub mod Publish
use gardena_matter_mqtt_brid.Base.{
  ℕ, zero, suc, ◌+◌, ◌-◌, ◌*◌, ◌/◌, ◌%◌, ◌^◌, bit_and, bit_or, Option, none, some, Bool, true,
  false, not, ◌&&◌, ◌||◌, List, [], ◌∷◌, ◌++◌, leb, ltb, ◌==◌, length, take, drop, if◌then◌else◌,
}
use gardena_matter_mqtt_brid.Base.Exec.{
  Exec, Result, ok, err, pure, raise, raise_if, lift, gets, modify, ◌>>=◌, ◌>>◌, value_error,
  connection_error, timeout_error, os_error, struct_error, index_error, out_of_fuel,
}
use gardena_matter_mqtt_brid.Text.{Str, str, any_char, str_eq}
use gardena_matter_mqtt_brid.Text.Utf8.{encode, decode}
use gardena_matter_mqtt_brid.Transport.{
  Conn, max_packet_bytes, packet_timeout, recv_exact, send_all, start_packet,
}

-- KEEPALIVE_SECONDS
abbrev pub keepalive_seconds : ℕ
keepalive_seconds = 60

-- `struct.pack("!H", n)`
unfoldable pub pack_h : ℕ → Result (List ℕ)
pack_h n = if leb n 65535 then ok (n / 256 ∷ n % 256 ∷ []) else err struct_error

-- `struct.unpack("!H", data)[0]` on two bytes
abbrev pub unpack_h : ℕ → ℕ → ℕ
unpack_h hi lo = hi * 256 + lo

-- `_encode_remaining_length`. A number loses a digit in each round, so `suc length` rounds are enough.
unfoldable pub encode_rounds : ℕ → ℕ → List ℕ
encode_rounds zero n = []
encode_rounds (suc fuel) n =
    let rest = encode_rounds fuel (n / 128) in
    if n / 128 == 0 then (n % 128) ∷ [] else bit_or (n % 128) 0x80 ∷ rest

unfoldable pub encode_remaining_length : ℕ → List ℕ
unfolding encode_rounds
encode_remaining_length n = encode_rounds (suc n) n

-- `_mqtt_string` of bytes, and of a text
unfoldable pub mqtt_bytes : List ℕ → Result (List ℕ)
unfolding pack_h
mqtt_bytes raw = elim (pack_h (length raw)) [ ok h ↦ ok (h ++ raw) | err e ↦ err e ]

unfoldable pub mqtt_string : Str → Result (List ℕ)
unfolding mqtt_bytes
mqtt_string value = elim (encode value) [ ok raw ↦ mqtt_bytes raw | err e ↦ err e ]

-- A client. `conn` is the socket while `connected`, that is, while `sock` is not `None`.
pub record MqttClient : Type 0 where
  pub user : Str
  pub password : Str
  pub client_id : Str
  pub connected : Bool
  pub conn : Conn
  pub last_io : ℕ

-- A call on the socket itself.
abbrev pub on_conn {ℓ} :
    {A : Type ℓ} → (Conn → Result A × Conn) → MqttClient → Result A × MqttClient
on_conn m s = let (r, c) = m s.conn in (r, record s { conn = c })

abbrev pub require_socket : MqttClient → Result (Unit {0}) × MqttClient
require_socket s = (if s.connected then ok tt else err connection_error, s)

-- `self.last_io = time.monotonic()`
abbrev pub touch : MqttClient → Result (Unit {0}) × MqttClient
touch s = (ok tt, record s { last_io = s.conn.now })

unfoldable pub send_packet : ℕ → List ℕ → Exec MqttClient Unit
send_packet header payload = do
  require_socket
  on_conn (send_all (header ∷ encode_remaining_length (length payload) ++ payload))
  touch

unfoldable pub publish : Str → Str → Bool → Exec MqttClient Unit
publish topic payload retain = do
  head ← lift (mqtt_string topic)
  body ← lift (encode payload)
  send_packet (bit_or 0x30 (if retain then 1 else 0)) (head ++ body)

-- `packet_id` is `secrets.randbelow(65535) + 1`.
unfoldable pub subscribe : ℕ → Str → Exec MqttClient ℕ
subscribe packet_id topic = do
  id ← lift (pack_h packet_id)
  name ← lift (mqtt_string topic)
  send_packet 0x82 (id ++ (name ++ 0 ∷ []))
  pure packet_id

unfoldable pub ping : Exec MqttClient Unit
ping = send_packet 0xc0 []

-- `self._recv_exact(length)`
unfoldable pub read_bytes : ℕ → Exec MqttClient (List ℕ)
read_bytes n = do require_socket; on_conn (recv_exact n)

abbrev first_of_bytes : List ℕ → Result ℕ
first_of_bytes [] = err index_error
first_of_bytes (b ∷ bs) = ok b

-- `self._recv_exact(1)[0]`
unfoldable pub read_byte : Exec MqttClient ℕ
read_byte = do bytes ← read_bytes 1; lift (first_of_bytes bytes)

-- The loop of `receive` over the digits of the remaining length. It raises at the fourth digit that
-- goes on, so four rounds are enough.
unfoldable pub read_length : ℕ → ℕ → ℕ → Exec MqttClient ℕ
read_length zero multiplier remaining = raise out_of_fuel
read_length (suc fuel) multiplier remaining = do
  digit ← read_byte
  if bit_and digit 0x80 == 0
      then pure (remaining + bit_and digit 0x7f * multiplier)
      else if ltb (128 ^ 3) (multiplier * 128)
      then raise value_error
      else read_length fuel (multiplier * 128) (remaining + bit_and digit 0x7f * multiplier)

unfoldable pub receive : Exec MqttClient (ℕ × ℕ × List ℕ)
receive = do
  on_conn start_packet
  first ← read_byte
  remaining ← read_length 4 1 0
  raise_if (ltb max_packet_bytes remaining) value_error
  body ← read_bytes remaining
  touch
  pure (first / 16, bit_and first 0x0f, body)

-- `c in "#+\x00"`
abbrev pub is_wildcard : ℕ → Bool
is_wildcard c = (c == b'#') || ((c == b'+') || (c == 0))

unfoldable pub parse_topic : ℕ → Str → List ℕ → Result (Str × Str × Bool)
parse_topic flags topic rest =
    if not (bit_and (flags / 2) 3 == 0)
    then err value_error
    else if str_eq topic [] || any_char is_wildcard topic
    then err value_error
    else elim (decode rest) [
      | ok payload ↦ ok (topic, payload, not (bit_and flags 1 == 0))
      | err e ↦ err e
    ]

-- `parse_publish(flags, body)`
unfoldable pub parse_publish : ℕ → List ℕ → Result (Str × Str × Bool)
parse_publish flags (hi ∷ lo ∷ body) =
    if ltb (length body) (unpack_h hi lo)
    then err value_error
    else elim (decode (take (unpack_h hi lo) body)) [
      | ok topic ↦ parse_topic flags topic (drop (unpack_h hi lo) body)
      | err e ↦ err e
    ]
parse_publish flags _ = err value_error

abbrev opt_string : Str → Result (List ℕ)
opt_string text = if str_eq text [] then ok [] else mqtt_string text

-- `packet_type != 2 or len(body) != 2 or body[1] != 0`, negated
abbrev connack_accepts : ℕ → List ℕ → Bool
connack_accepts packet_type (_ ∷ code ∷ []) = (packet_type == 2) && (code == 0)
connack_accepts packet_type _ = false

-- `except OSError: pass`, which ConnectionError and TimeoutError are too.
abbrev closed : Result (Unit {0}) → Result (Unit {0})
closed (ok _) = ok tt
closed (err os_error) = ok tt
closed (err connection_error) = ok tt
closed (err timeout_error) = ok tt
closed (err e) = err e

-- `dialled` is what `socket.create_connection` returned or raised.
abbrev dial : Result Conn → Exec MqttClient Unit
dial (ok c) s = (ok tt, record s { connected = true; conn = record c { timeout = some 15000 } })
dial (err e) s = (err e, s)

-- The flags of CONNECT: clean session, will, retained will, user name, password.
unfoldable pub connect_flags : Str → Str → ℕ
unfolding str_eq
connect_flags user password =
    let base = bit_or (bit_or 0x02 0x04) 0x20 in
    let named = if str_eq user [] then base else bit_or base 0x80 in
    if str_eq password [] then named else bit_or named 0x40

-- `connect`: the CONNECT packet with the will, and its CONNACK.
unfoldable pub connect : Result Conn → Str → Exec MqttClient Unit
connect dialled availability_topic = do
  dial dialled
  s ← gets (λ s. s)
  client ← lift (mqtt_string s.client_id)
  will ← lift (mqtt_string availability_topic)
  offline ← lift (mqtt_string (str "offline"))
  user ← lift (opt_string s.user)
  password ← lift (opt_string s.password)
  protocol ← lift (mqtt_string (str "MQTT"))
  keepalive ← lift (pack_h keepalive_seconds)
  send_packet 0x10 (
      protocol
      ++ (4 ∷ connect_flags s.user s.password ∷ []
          ++ (keepalive ++ (client ++ (will ++ (offline ++ (user ++ password)))))))
  (packet_type, _, body) ← receive
  raise_if (not (connack_accepts packet_type body)) connection_error

abbrev send_farewell : Exec MqttClient Unit
send_farewell s = let (r, s') = send_packet 0xe0 [] s in (closed r, s')

-- `close`: DISCONNECT, and only an `OSError` of it is swallowed.
unfoldable pub close : Exec MqttClient Unit
close s =
    if s.connected
    then (do send_farewell; modify (λ s. record s { connected = false })) s
    else (ok tt, s)
