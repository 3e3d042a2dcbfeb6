-- ===== src/Discover/Ends.antt =====
-- The discovery of the mowers ends on whatever the gateway sends.
use gardena_matter_mqtt_brid.Base.{
  ℕ, zero, suc, ◌+◌, ◌<◌, ◌≢◌, inl, inr, ◌||◌, Option, none, List, [], ◌∷◌, arith, leb, length,
  Bool-cases, not, ◌==◌,
}
use gardena_matter_mqtt_brid.Base.Exec.{err, Run-cases, out_of_fuel}
use gardena_matter_mqtt_brid.Text.{Str}
use gardena_matter_mqtt_brid.Text.Utf8.{encode, decode}
use gardena_matter_mqtt_brid.Text.Fails.{encode-ne-out_of_fuel, decode-ne-out_of_fuel}
use gardena_matter_mqtt_brid.Json.{Json}
use gardena_matter_mqtt_brid.Transport.{Conn}
use gardena_matter_mqtt_brid.Transport.Progress.{
  left, Reads, shrinks, ends, Reads-weaken, Reads-lift, Reads-pure, Reads-raise, Reads-raise_if,
  Reads-if, Reads-bind, recv_exact-Reads, send_all-Reads, start_packet-Reads,
}
use gardena_matter_mqtt_brid.WebSocket.{
  receive_text, read_size, answer, pair_of, text_header, send_text, send_control,
}
use gardena_matter_mqtt_brid.Discover.{
  Found, note_text, collect_devices, discover_mowers, is_nothing, device_requests, asked,
}

read_size-Reads : (n : ℕ) → Reads 0 (read_size n)
unfolding read_size
read_size-Reads n =
    Reads-if (n == 126)
      (Reads-bind (Reads-weaken 0 (omega arith) (recv_exact-Reads 2)) (λ bytes. Reads-pure _))
      (Reads-if (n == 127)
        (Reads-bind (Reads-weaken 0 (omega arith) (recv_exact-Reads 8)) (λ bytes. Reads-pure _))
        (Reads-pure n))

answer-Reads :
    (mask : List ℕ) (opcode : ℕ) (payload : List ℕ) → Reads 0 (answer mask opcode payload)
unfolding answer send_control
answer-Reads mask opcode payload = Reads-if (opcode == 8) (Reads-raise _ (λ e. ground (arith, e))) (
    Reads-if (opcode == 9) (Reads-bind (send_all-Reads _) (λ u. Reads-pure none)) (
      Reads-if (not (opcode == 1)) (Reads-pure none) (
        Reads-bind (Reads-lift (decode payload) (decode-ne-out_of_fuel payload))
          (λ text. Reads-pure _))))

pair_of-ne : (bytes : List ℕ) → pair_of bytes ≢ err out_of_fuel
pair_of-ne [] h = ground (arith, h)
pair_of-ne (a ∷ []) h = ground (arith, h)
pair_of-ne (a ∷ b ∷ []) h = ground (arith, h)
pair_of-ne (a ∷ b ∷ c ∷ l) h = ground (arith, h)

-- What comes is a frame, whose head has two bytes.
pub receive_text-Reads : (mask : List ℕ) → Reads 2 (receive_text mask)
unfolding receive_text
receive_text-Reads mask = Reads-bind start_packet-Reads (λ u.
    Reads-bind (recv_exact-Reads 2) (λ head.
      Reads-bind (Reads-lift (pair_of head) (pair_of-ne head)) (λ pair.
        Reads-bind (Reads-raise_if _ _ (λ e. ground (arith, e))) (λ v.
          Reads-bind (read_size-Reads _) (λ size.
            Reads-bind (Reads-raise_if _ _ (λ e. ground (arith, e))) (λ w.
              Reads-bind (Reads-weaken 0 (omega arith) (recv_exact-Reads size))
                (λ payload. answer-Reads mask _ payload)))))))

text_header-ne : (n : ℕ) → text_header n ≢ err out_of_fuel
unfolding text_header
text_header-ne n h = ground (arith, h)

send_text-Reads : (mask : List ℕ) (text : Str) → Reads 0 (send_text mask text)
unfolding send_text
send_text-Reads mask text =
    Reads-bind (Reads-lift (encode text) (encode-ne-out_of_fuel text)) (λ data'.
      Reads-bind (Reads-lift (text_header (length data')) (text_header-ne (length data')))
        (λ header. send_all-Reads _))

collect_devices-ends :
    (loads : Str → Option Json) (masks : ℕ → List ℕ) (fuel deadline : ℕ) (s : Found) (c : Conn)
    → left c < fuel
    → (collect_devices loads masks fuel deadline s c).0 ≢ err out_of_fuel
unfolding collect_devices
collect_devices-ends loads masks zero deadline s c h = absurd (omega arith)
collect_devices-ends loads masks (suc fuel) deadline s c h =
    elim (Bool-cases (is_nothing s.pending || leb deadline c.now)) [
      | inl over ↦ λ e. ground (arith, over, e)
      | inr waits ↦ elim (Run-cases (receive_text (masks fuel) c)) [
        | inr (x, c1, e) ↦
            λ bad. ends (receive_text-Reads (masks fuel)) c (ground (arith, waits, e, bad))
        | inl (raw, c1, e) ↦
            let less = shrinks (receive_text-Reads (masks fuel)) c c1 raw e in
            let later =
              collect_devices-ends loads masks fuel deadline (note_text loads raw s) c1
                (omega arith) in
            λ bad. later (rw (waits, e) at bad)
      ]
    ]

-- The discovery ends, whatever the gateway sends and however slowly: its loop never runs out of
-- rounds.
pub discover_mowers-ne-out_of_fuel :
    (loads : Str → Option Json) (dumps show : Json → Str) (masks : ℕ → List ℕ) (mask : List ℕ)
    (id1 id2 : Str) (c : Conn)
    → (discover_mowers loads dumps show masks mask id1 id2 c).0 ≢ err out_of_fuel
unfolding discover_mowers
discover_mowers-ne-out_of_fuel loads dumps show masks mask id1 id2 c bad =
    elim (Run-cases (send_text mask (dumps (device_requests id1 id2)) c)) [
      | inr (x, c1, e) ↦
          ends (send_text-Reads mask (dumps (device_requests id1 id2))) c (ground (arith, e, bad))
      | inl (u, c1, e) ↦
          elim (Run-cases
            (collect_devices loads masks (suc (left c1)) (c1.now + 30000) (asked id1 id2) c1)) [
              | inr (x, c2, f) ↦
                  collect_devices-ends loads masks (suc (left c1)) (c1.now + 30000) (asked id1 id2)
                    c1 (omega arith) (ground (arith, e, f, bad))
              | inl (found, c2, f) ↦ elim (Bool-cases (is_nothing found.pending)) [
                | inl all ↦ ground (arith, e, f, all, bad)
                | inr missing ↦ ground (arith, e, f, missing, bad)
              ]
            ]
    ]
