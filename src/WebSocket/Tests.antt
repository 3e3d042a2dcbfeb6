-- ===== src/WebSocket/Tests.antt =====
-- A text that is sent and one that is received, and the theorems on frames at these.
use gardena_matter_mqtt_brid.Base.{ℕ, ◌≡◌, refl, false, none, some, List, [], ◌∷◌, ◌++◌, arith}
use gardena_matter_mqtt_brid.Base.Exec.{ok}
use gardena_matter_mqtt_brid.Text.Utf8.{encode}
use gardena_matter_mqtt_brid.Transport.{Arrival, chunk, Conn, send_all}
use gardena_matter_mqtt_brid.Transport.Reads.{stream}
use gardena_matter_mqtt_brid.WebSocket.{masked, text_header, send_text, receive_text, answer}
use gardena_matter_mqtt_brid.WebSocket.Frames.{read_frame, read_frame-send_text, IsMask}
use gardena_matter_mqtt_brid.WebSocket.Receive.{
  Brings, frame, receive_text-encode, receive_text-frame,
}

abbrev socket : List Arrival → Conn
socket incoming = record {
  incoming = incoming;
  sent = [];
  timeout = some 15000;
  broken = false;
  now = 7;
  deadline = none;
}

abbrev mask : List ℕ
mask = 1 ∷ 2 ∷ 3 ∷ 255 ∷ []

mask-IsMask : IsMask mask
mask-IsMask = (refl, (omega arith, (omega arith, (omega arith, (omega arith, tt)))))

-- "é!"
encode_run : encode (0xe9 ∷ b'!' ∷ []) ≡ ok (0xc3 ∷ 0xa9 ∷ b'!' ∷ [])
unfolding encode
encode_run = refl

abbrev sent : Conn
sent = record (socket []) { sent = 0x81 ∷ 0x83 ∷ 1 ∷ 2 ∷ 3 ∷ 255 ∷ 0xc2 ∷ 0xab ∷ 0x22 ∷ [] }

send_run : send_text mask (0xe9 ∷ b'!' ∷ []) (socket []) ≡ (ok tt, sent)
unfolding send_text encode text_header masked send_all
send_run = refl

read_frame-send_text_example :
    (bytes : List ℕ) × (sent.sent ≡ [] ++ bytes)
    × (read_frame (bytes ++ 9 ∷ []) ≡ some (0x81, 0xc3 ∷ 0xa9 ∷ b'!' ∷ [], 9 ∷ []))
read_frame-send_text_example =
    read_frame-send_text mask (0xe9 ∷ b'!' ∷ []) (socket []) sent (0xc3 ∷ 0xa9 ∷ b'!' ∷ []) (9 ∷ [])
      mask-IsMask encode_run send_run

-- The frame comes in two pieces.
abbrev receiver : Conn
receiver = socket (chunk 3 (0x81 ∷ 3 ∷ 0xc3 ∷ []) ∷ chunk 4 (0xa9 ∷ b'!' ∷ 8 ∷ []) ∷ [])

receiver-Brings : Brings receiver (frame 1 (0xc3 ∷ 0xa9 ∷ b'!' ∷ []) ++ 8 ∷ [])
receiver-Brings = record {
  flowing = (λ e. cc, (λ e. cc, tt));
  whole = refl;
  in_time = omega arith;
  patient = omega arith;
}

receive_text-encode_example :
    (c' : Conn) × (receive_text mask receiver ≡ (ok (some (0xe9 ∷ b'!' ∷ [])), c'))
    × (stream c'.incoming ≡ 8 ∷ [])
    × (c'.sent ≡ [])
receive_text-encode_example =
    receive_text-encode mask (0xe9 ∷ b'!' ∷ []) (0xc3 ∷ 0xa9 ∷ b'!' ∷ []) (8 ∷ []) receiver
      encode_run (omega arith) receiver-Brings

receive_text-frame_example :
    (c' : Conn) × (receive_text mask receiver ≡ answer mask 1 (0xc3 ∷ 0xa9 ∷ b'!' ∷ []) c')
    × (stream c'.incoming ≡ 8 ∷ [])
    × (c'.sent ≡ [])
receive_text-frame_example =
    receive_text-frame mask 1 (0xc3 ∷ 0xa9 ∷ b'!' ∷ []) (8 ∷ []) receiver
      (omega arith, omega arith, λ h. absurd (omega arith)) receiver-Brings
