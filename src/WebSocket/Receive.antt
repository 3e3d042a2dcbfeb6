-- ===== src/WebSocket/Receive.antt =====
-- `receive_text` on the frames that a server sends.
use mathlib.Core.Path.{subst}
use gardena_matter_mqtt_brid.Base.{
  ℕ, ◌+◌, ◌^◌, ◌≤◌, ◌<◌, ◌≡◌, refl, ap, ◌∙◌, bit_and, true, false, ◌||◌, some, List, [], ◌∷◌, ◌++◌,
  ltb, leb, length, arith, append_assoc, if◌then◌else◌, inl, inr, Bool-cases, ◌&&◌, Bool,
}
use gardena_matter_mqtt_brid.Base.Exec.{ok}
use gardena_matter_mqtt_brid.Base.Bits.{agrees, agrees→eq, low_seven, top_bit}
use gardena_matter_mqtt_brid.Text.{Str}
use gardena_matter_mqtt_brid.Text.Utf8.{encode, decode-encode}
use gardena_matter_mqtt_brid.Transport.{
  Conn, recv_exact, start_packet, max_packet_bytes, packet_timeout, patience,
}
use gardena_matter_mqtt_brid.Transport.Reads.{stream}
use gardena_matter_mqtt_brid.Transport.Ready.{IsFlowing, total_delay, IsReady, recv_exact-IsReady}
use gardena_matter_mqtt_brid.WebSocket.{
  pack_short, pack_long, bad_flags, read_size, answer, receive_text,
}
use gardena_matter_mqtt_brid.WebSocket.Frames.{unpack_short, unpack_long}

-- The length field of a frame, after its first byte, and a whole frame without a mask.
abbrev pub size_field : ℕ → List ℕ
size_field n =
    if ltb n 126 then n ∷ [] else if leb n 65535 then 126 ∷ pack_short n else 127 ∷ pack_long n

abbrev pub frame : ℕ → List ℕ → List ℕ
frame opcode payload = (0x80 + opcode) ∷ (size_field (length payload) ++ payload)

-- A socket on which `bytes` come, all of them within the packet and the socket timeouts.
pub record Brings (c : Conn) (bytes : List ℕ) : Type 0 where
  pub flowing : IsFlowing c.incoming
  pub whole : stream c.incoming ≡ bytes
  pub in_time : total_delay c.incoming < packet_timeout
  pub patient : total_delay c.incoming < patience c.timeout

-- The frames that the client reads: a size within the limit, and a control frame of at most 125.
abbrev pub IsShort : ℕ → List ℕ → Type 0
IsShort opcode payload =
    (opcode < 16) × (length payload ≤ max_packet_bytes) × (8 ≤ opcode → length payload ≤ 125)

-- The bits of a first byte with FIN and no reserved bit.
first_table : agrees (λ x. bit_and (0x80 + x) 0x0f) (λ x. x) 16 ≡ true
unfolding agrees
first_table = refl

reserved_table : agrees (λ x. bit_and (0x80 + x) 0x70) (λ x. 0) 16 ≡ true
unfolding agrees
reserved_table = refl

fin_table : agrees (λ x. bit_and (0x80 + x) 0x80) (λ x. 128) 16 ≡ true
unfolding agrees
fin_table = refl

first_byte :
    (opcode : ℕ)
    → opcode < 16
    → (bit_and (0x80 + opcode) 0x0f ≡ opcode)
      × (bit_and (0x80 + opcode) 0x70 ≡ 0)
      × (bit_and (0x80 + opcode) 0x80 ≡ 128)
first_byte opcode h = (
  agrees→eq (λ x. bit_and (0x80 + x) 0x0f) (λ x. x) 16 first_table opcode h,
  agrees→eq (λ x. bit_and (0x80 + x) 0x70) (λ x. 0) 16 reserved_table opcode h,
  agrees→eq (λ x. bit_and (0x80 + x) 0x80) (λ x. 128) 16 fin_table opcode h,
)

second_byte : (n : ℕ) → n < 128 → (bit_and n 0x7f ≡ n) × (bit_and n 0x80 ≡ 0)
second_byte n h = (low_seven n (omega arith) ∙ omega arith, top_bit n (omega arith) ∙ omega arith)

-- The first of the length bytes and the rest of them.
abbrev sizes : ℕ → ℕ × List ℕ
sizes n =
    if ltb n 126 then (n, []) else if leb n 65535 then (126, pack_short n) else (127, pack_long n)

size_parts : (n : ℕ) → size_field n ≡ (sizes n).0 ∷ (sizes n).1
size_parts n = ground arith

lead_small : (n : ℕ) → (sizes n).0 < 128
lead_small n = ground arith

-- The length field `p` tells `n`.
abbrev Tells : ℕ → ℕ × List ℕ → Type 0
Tells n p =
    (rest : List ℕ) (c : Conn)
    → IsReady c (p.1 ++ rest)
    → (c' : Conn) × (read_size p.0 c ≡ (ok n, c')) × IsReady c' rest × (c'.sent ≡ c.sent)

small-Tells : (n : ℕ) → n < 126 → Tells n (n, [])
small-Tells n h rest c r = (c, unfold read_size in ground arith, r, refl)

short-Tells : (n : ℕ) → n < 65536 → Tells n (126, pack_short n)
short-Tells n h rest c r =
    let (c', e, ready, took) = recv_exact-IsReady (pack_short n) rest c r in
    (c', unfold read_size in ground (arith, e, unpack_short n h), ready, took.same_sent)

long-Tells : (n : ℕ) → n < 2 ^ 64 → Tells n (127, pack_long n)
long-Tells n h rest c r =
    let (c', e, ready, took) = recv_exact-IsReady (pack_long n) rest c r in
    (c', unfold read_size in ground (arith, e, unpack_long n h), ready, took.same_sent)

sizes-Tells : (n : ℕ) → n < 2 ^ 64 → Tells n (sizes n)
sizes-Tells n h = elim (Bool-cases (ltb n 126)) [
  | inl small ↦ rw small (small-Tells n (ground arith))
  | inr large ↦ elim (Bool-cases (leb n 65535)) [
    | inl short ↦ rw (large, short) (short-Tells n (ground arith))
    | inr long ↦ rw (large, long) (long-Tells n h)
  ]
]

started-IsReady : (c : Conn) (bytes : List ℕ) → Brings c bytes → IsReady (start_packet c).1 bytes
unfolding start_packet
started-IsReady c bytes d = record {
  flowing = d.flowing;
  whole = d.whole;
  in_time = omega (arith, d.in_time);
  patient = d.patient;
}

abbrev pub too_long : ℕ → ℕ → Bool
too_long opcode n = ltb max_packet_bytes n || (leb 8 opcode && ltb 125 n)

-- `receive_text` in four steps.
pub receive_text_steps :
    (mask : List ℕ) (a b n : ℕ) (payload : List ℕ) (c c1 c2 c3 : Conn)
    → recv_exact 2 (start_packet c).1 ≡ (ok (a ∷ b ∷ []), c1)
    → bad_flags a b ≡ false
    → read_size (bit_and b 0x7f) c1 ≡ (ok n, c2)
    → too_long (bit_and a 0x0f) n ≡ false
    → recv_exact n c2 ≡ (ok payload, c3)
    → receive_text mask c ≡ answer mask (bit_and a 0x0f) payload c3
unfolding receive_text start_packet
receive_text_steps mask a b n payload c c1 c2 c3 e1 flags e2 fits e3 = rw (e1, flags, e2, fits, e3)

good_flags : (opcode n : ℕ) → opcode < 16 → n < 128 → bad_flags (0x80 + opcode) n ≡ false
good_flags opcode n h k = ground (arith, first_byte opcode h, second_byte n k)

-- A frame that comes in time is answered by its opcode; what follows it is left, and until the answer
-- nothing was written.
pub receive_text-frame :
    (mask : List ℕ) (opcode : ℕ) (payload rest : List ℕ) (c : Conn)
    → IsShort opcode payload
    → Brings c (frame opcode payload ++ rest)
    → (c' : Conn) × (receive_text mask c ≡ answer mask opcode payload c')
      × (stream c'.incoming ≡ rest)
      × (c'.sent ≡ c.sent)
receive_text-frame mask opcode payload rest c (low, short, control) d =
    let n : ℕ = length payload in
    let second : ℕ = (sizes n).0 in
    let more : List ℕ = (sizes n).1 in
    let shape : frame opcode payload ++ rest
        ≡ ((0x80 + opcode) ∷ second ∷ []) ++ (more ++ (payload ++ rest)) =
      ap (λ l. (0x80 + opcode) ∷ ((l ++ payload) ++ rest)) (size_parts n)
      ∙ ap (λ l. (0x80 + opcode) ∷ second ∷ l) (append_assoc more payload rest) in
    let c0 : Conn = (start_packet c).1 in
    let (c1, e1, r1, t1) =
      recv_exact-IsReady ((0x80 + opcode) ∷ second ∷ []) (more ++ (payload ++ rest)) c0
        (subst (λ l. IsReady c0 l) shape (started-IsReady c _ d)) in
    let (c2, e2, r2, s2) = sizes-Tells n (omega arith) (payload ++ rest) c1 r1 in
    let (c3, e3, r3, t3) = recv_exact-IsReady payload rest c2 r2 in
    let bits : bit_and (0x80 + opcode) 0x0f ≡ opcode = (first_byte opcode low).0 in
    let bits2 : bit_and second 0x7f ≡ second = (second_byte second (lead_small n)).0 in
    let fits : too_long opcode n ≡ false = ground arith in
    let run =
      receive_text_steps mask (0x80 + opcode) second n payload c c1 c2 c3 e1
        (good_flags opcode second low (lead_small n)) (ap (λ t. read_size t c1) bits2 ∙ e2)
        (ap (λ t. too_long t n) bits ∙ fits) e3 in
    (
      c3,
      run ∙ ap (λ t. answer mask t payload c3) bits,
      r3.whole,
      t3.same_sent ∙ (s2 ∙ (t1.same_sent ∙ (unfold start_packet in refl))),
    )

-- A text frame that comes in time is returned as the text that its payload encodes, and nothing is
-- written.
pub receive_text-encode :
    (mask : List ℕ) (text : Str) (payload rest : List ℕ) (c : Conn)
    → encode text ≡ ok payload
    → length payload ≤ max_packet_bytes
    → Brings c (frame 1 payload ++ rest)
    → (c' : Conn) × (receive_text mask c ≡ (ok (some text), c'))
      × (stream c'.incoming ≡ rest)
      × (c'.sent ≡ c.sent)
receive_text-encode mask text payload rest c h fits d =
    let (c', e, left, quiet) =
      receive_text-frame mask 1 payload rest c (omega arith, fits, λ k. absurd (omega arith)) d in
    (c', e ∙ (unfold answer in ground (arith, decode-encode text payload h)), left, quiet)
