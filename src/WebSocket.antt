-- ===== src/WebSocket.antt =====
-- gardena_local_mqtt/protocol.py, `WebSocketClient`: its frames. The client's state is its socket and
-- the attribute `_packet_deadline`, a `Conn`; `mask` is `secrets.token_bytes(4)`.
pub mod Frames
pub mod Receive
mod Tests
use gardena_matter_mqtt_brid.Base.{
  ℕ, zero, suc, ◌+◌, ◌*◌, ◌/◌, ◌%◌, ◌^◌, bit_and, bit_or, bit_xor, Bool, true, false, not, ◌&&◌,
  ◌||◌, Option, none, some, List, [], ◌∷◌, ◌++◌, ltb, leb, ◌==◌, length, if◌then◌else◌,
}
use gardena_matter_mqtt_brid.Base.Exec.{
  Exec, Result, ok, err, pure, raise, raise_if, lift, ◌>>=◌, ◌>>◌, value_error, connection_error,
  struct_error, os_error,
}
use gardena_matter_mqtt_brid.Text.{Str}
use gardena_matter_mqtt_brid.Text.Utf8.{encode, decode}
use gardena_matter_mqtt_brid.Transport.{Conn, recv_exact, send_all, start_packet, max_packet_bytes}

-- `mask[i % 4]`
abbrev pub mask_byte : List ℕ → ℕ → ℕ
mask_byte [] i = 0
mask_byte (m ∷ ms) zero = m
mask_byte (m ∷ ms) (suc i) = mask_byte ms i

-- `bytes(v ^ mask[i % 4] for i, v in enumerate(payload))`, from the index `i` on.
unfoldable pub masked : List ℕ → ℕ → List ℕ → List ℕ
masked mask i [] = []
masked mask i (v ∷ vs) = bit_xor v (mask_byte mask (i % 4)) ∷ masked mask (suc i) vs

-- `struct.pack("!H", n)` and `struct.pack("!Q", n)`
abbrev pub pack_short : ℕ → List ℕ
pack_short n = n / 256 % 256 ∷ n % 256 ∷ []

abbrev pub pack_long : ℕ → List ℕ
pack_long n =
    n / 256 ^ 7 % 256
    ∷ n / 256 ^ 6 % 256
    ∷ n / 256 ^ 5 % 256
    ∷ n / 256 ^ 4 % 256
    ∷ n / 256 ^ 3 % 256
    ∷ n / 256 ^ 2 % 256
    ∷ n / 256 % 256
    ∷ n % 256
    ∷ []

-- `struct.unpack(...)[0]` of a number sent highest byte first.
unfoldable pub unpack : ℕ → List ℕ → ℕ
unpack n [] = n
unpack n (b ∷ bs) = unpack (n * 256 + b) bs

unfoldable pub text_header : ℕ → Result (List ℕ)
text_header n =
    if ltb n 126
    then ok (0x81 ∷ bit_or 0x80 n ∷ [])
    else if leb n 65535
    then ok (0x81 ∷ 0xfe ∷ pack_short n)
    else if ltb n (2 ^ 64)
    then ok (0x81 ∷ 0xff ∷ pack_long n)
    else err struct_error

unfoldable pub send_text : List ℕ → Str → Exec Conn Unit
send_text mask text = do
  data' ← lift (encode text)
  header ← lift (text_header (length data'))
  send_all (header ++ (mask ++ masked mask 0 data'))

unfoldable pub send_control : List ℕ → ℕ → List ℕ → Exec Conn Unit
send_control mask opcode payload =
    send_all (bit_or 0x80 opcode ∷ bit_or 0x80 (length payload) ∷ (mask ++ masked mask 0 payload))

-- `first & 0x70 or not first & 0x80 or second & 0x80`
abbrev pub bad_flags : ℕ → ℕ → Bool
bad_flags first second =
    not (bit_and first 0x70 == 0) || (bit_and first 0x80 == 0 || not (bit_and second 0x80 == 0))

abbrev pub pair_of : List ℕ → Result (ℕ × ℕ)
pair_of (a ∷ b ∷ []) = ok (a, b)
pair_of _ = err value_error

unfoldable pub read_size : ℕ → Exec Conn ℕ
read_size n =
    if n == 126
    then (do bytes ← recv_exact 2; pure (unpack 0 bytes))
    else if n == 127
    then (do bytes ← recv_exact 8; pure (unpack 0 bytes))
    else pure n

-- What a frame's opcode asks for.
unfoldable pub answer : List ℕ → ℕ → List ℕ → Exec Conn (Option Str)
answer mask opcode payload =
    if opcode == 8
    then raise connection_error
    else if opcode == 9
    then (do send_control mask 0x0a payload; pure none)
    else if not (opcode == 1)
    then pure none
    else (do text ← lift (decode payload); pure (some text))

-- `receive_text()`. A frame with the mask bit was refused before the lines that would unmask it.
unfoldable pub receive_text : List ℕ → Exec Conn (Option Str)
receive_text mask = do
  start_packet
  head ← recv_exact 2
  (first, second) ← lift (pair_of head)
  raise_if (bad_flags first second) value_error
  size ← read_size (bit_and second 0x7f)
  raise_if (ltb max_packet_bytes size || (leb 8 (bit_and first 0x0f) && ltb 125 size)) value_error
  payload ← recv_exact size
  answer mask (bit_and first 0x0f) payload

-- `close()`: the goodbye may fail with an OSError, and the socket is closed; what is left of it is
-- what was written.
unfoldable pub close : List ℕ → Exec Conn Unit
close mask c =
    let (r, c') = send_control mask 8 [] c in
    elim r [
      | err os_error ↦ (ok tt, record c' { incoming = []; broken = true })
      | err e ↦ (err e, c')
      | ok u ↦ (ok tt, record c' { incoming = []; broken = true })
    ]
