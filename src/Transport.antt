-- ===== src/Transport.antt =====
-- gardena_local_mqtt/protocol.py, what `MqttClient` and `WebSocketClient` share: a socket with a
-- timeout, and the loop `_recv_exact` under a packet deadline. Times are milliseconds.
--
-- The peer is a schedule of arrivals, each after a delay: bytes, the end of the stream, or a failure
-- of the connection. `recv(n)` waits at most the timeout and returns at most `n` of the bytes.
pub mod Reads
pub mod Ready
pub mod Progress
pub mod InTime
use gardena_matter_mqtt_brid.Base.{
  ℕ, zero, suc, ◌+◌, ◌-◌, ◌*◌, min, Option, none, some, Bool, List, [], ◌∷◌, ◌++◌, leb, ltb, ◌==◌,
  length, take, drop, if◌then◌else◌,
}
use gardena_matter_mqtt_brid.Base.Exec.{
  Exec, Result, ok, err, pure, raise, raise_if, gets, modify, ◌>>=◌, ◌>>◌, timeout_error,
  connection_error, os_error, out_of_fuel,
}

abbrev pub max_packet_bytes : ℕ
max_packet_bytes = 256 * 1024

-- PACKET_TIMEOUT, 15 seconds
abbrev pub packet_timeout : ℕ
packet_timeout = 15000

pub data Arrival : Type 0 where
  chunk : ℕ → List ℕ → Arrival
  eof : ℕ → Arrival
  reset : ℕ → Arrival

-- A connected socket, the clock, and the attribute `_packet_deadline` that a read sets. `timeout` is
-- none for a blocking socket; a write fails if `broken`.
pub record Conn : Type 0 where
  pub incoming : List Arrival
  pub sent : List ℕ
  pub timeout : Option ℕ
  pub broken : Bool
  pub now : ℕ
  pub deadline : Option ℕ

-- What is left of a chunk after `n` of its bytes were taken.
abbrev pub put_back : List ℕ → List Arrival → List Arrival
put_back [] rest = rest
put_back (b ∷ bs) rest = chunk 0 (b ∷ bs) ∷ rest

abbrev wait_out : ℕ → Arrival → Arrival
wait_out t (chunk d bs) = chunk (d - t) bs
wait_out t (eof d) = eof (d - t)
wait_out t (reset d) = reset (d - t)

abbrev delay : Arrival → ℕ
delay (chunk d bs) = d
delay (eof d) = d
delay (reset d) = d

abbrev arrive : ℕ → Arrival → List Arrival → Exec Conn (List ℕ)
arrive n (chunk d bs) rest c =
    (ok (take n bs), record c { incoming = put_back (drop n bs) rest; now = c.now + d })
arrive n (eof d) rest c = (ok [], record c { incoming = eof 0 ∷ rest; now = c.now + d })
arrive n (reset d) rest c = (err os_error, record c { incoming = rest; now = c.now + d })

-- `sock.recv(n)` with the timeout `t`.
unfoldable pub recv : ℕ → ℕ → List Arrival → Exec Conn (List ℕ)
recv t n [] c = (err timeout_error, record c { now = c.now + t })
recv t n (a ∷ rest) c =
    if ltb t (delay a)
    then (err timeout_error, record c { incoming = wait_out t a ∷ rest; now = c.now + t })
    else arrive n a rest c

-- `old_timeout or PACKET_TIMEOUT`
abbrev pub patience : Option ℕ → ℕ
patience none = packet_timeout
patience (some t) = if t == 0 then packet_timeout else t

-- `getattr(self, "_packet_deadline", time.monotonic() + PACKET_TIMEOUT)`
abbrev pub deadline_of : Conn → ℕ
deadline_of c = elim c.deadline [ none ↦ c.now + packet_timeout | some t ↦ t ]

-- One round: the deadline, the read with its own timeout, and the end of the stream.
unfoldable pub recv_some : ℕ → Exec Conn (List ℕ)
unfolding recv
recv_some n c =
    if leb (deadline_of c) c.now
    then (err timeout_error, c)
    else (do
      bytes ← recv (min (deadline_of c - c.now) (patience c.timeout)) n c.incoming
      raise_if (length bytes == 0) connection_error
      pure bytes)
        c

-- A round brings a byte at least, so `n` rounds are enough for `n` bytes.
recv_loop : ℕ → ℕ → List ℕ → Exec Conn (List ℕ)
recv_loop fuel zero got c = (ok got, c)
recv_loop zero (suc n) got c = (err out_of_fuel, c)
recv_loop (suc fuel) (suc n) got c =
    let (r, c') = recv_some (suc n) c in
    elim r [
      | ok bytes ↦ recv_loop fuel (suc n - length bytes) (got ++ bytes) c'
      | err e ↦ (err e, c')
    ]

-- `_recv_exact(length)`
unfoldable pub recv_exact : ℕ → Exec Conn (List ℕ)
unfolding recv_loop recv_some
recv_exact n = recv_loop n n []

-- `sock.sendall(bytes)`
unfoldable pub send_all : List ℕ → Exec Conn Unit
send_all bytes c =
    if c.broken then (err os_error, c) else (ok tt, record c { sent = c.sent ++ bytes })

-- `self._packet_deadline = time.monotonic() + PACKET_TIMEOUT`
unfoldable pub start_packet : Exec Conn Unit
start_packet c = (ok tt, record c { deadline = some (c.now + packet_timeout) })
