-- ===== src/WebSocket/Frames.antt =====
-- The frames that the client writes, read by RFC 6455's rules for what a client sends.
use mathlib.Core.Path.{subst}
use gardena_matter_mqtt_brid.Base.{
  ℕ, zero, suc, ◌%◌, ◌^◌, ◌<◌, ◌≡◌, refl, ap, ◌∙◌, bit_or, Option, none, some, List, [], ◌∷◌, ◌++◌,
  ltb, leb, ◌==◌, length, take, drop, All, All-append, arith, append_assoc, if◌then◌else◌,
  length-append, take-length, drop-length, inl, inr, Bool-cases,
}
use gardena_matter_mqtt_brid.Base.Exec.{ok, Result-cases}
use gardena_matter_mqtt_brid.Base.Bits.{bit_xor_twice, top_bit_set}
use gardena_matter_mqtt_brid.Text.{Str}
use gardena_matter_mqtt_brid.Text.Utf8.{encode, encode_char}
use gardena_matter_mqtt_brid.Transport.{Conn, send_all}
use gardena_matter_mqtt_brid.WebSocket.{
  mask_byte, masked, pack_short, pack_long, unpack, text_header, send_text,
}

abbrev pub IsByte : ℕ → Type 0
IsByte b = b < 256

mask_byte-IsByte : (mask : List ℕ) (i : ℕ) → All IsByte mask → IsByte (mask_byte mask i)
mask_byte-IsByte [] i h = omega arith
mask_byte-IsByte (m ∷ ms) zero (h, hs) = h
mask_byte-IsByte (m ∷ ms) (suc i) (h, hs) = mask_byte-IsByte ms i hs

-- Masking is its own inverse.
pub masked_twice :
    (mask : List ℕ) (i : ℕ) (data' : List ℕ)
    → All IsByte mask
    → All IsByte data'
    → masked mask i (masked mask i data') ≡ data'
unfolding masked
masked_twice mask i [] hm hd = refl
masked_twice mask i (v ∷ vs) hm (hv, hd) =
    let one = bit_xor_twice v (mask_byte mask (i % 4)) hv (mask_byte-IsByte mask (i % 4) hm) in
    cc (one, masked_twice mask (suc i) vs hm hd)

length-masked :
    (mask : List ℕ) (i : ℕ) (data' : List ℕ) → length (masked mask i data') ≡ length data'
unfolding masked
length-masked mask i [] = refl
length-masked mask i (v ∷ vs) = ap suc (length-masked mask (suc i) vs)

encode_char-IsByte : (c : ℕ) → c < 0x110000 → All IsByte (encode_char c)
unfolding encode_char
encode_char-IsByte c h = ground arith

encode-IsByte : (s b : List ℕ) → encode s ≡ ok b → All IsByte b
unfolding encode
encode-IsByte [] b h = let same : [] ≡ b = ground arith in subst (λ l. All IsByte l) same tt
encode-IsByte (c ∷ s) b h = elim (Result-cases (encode s)) [
  | inr (x, e) ↦ absurd (ground (arith, e))
  | inl (l, e) ↦
      let fits : c < 0x110000 = ground (arith, e) in
      let same : encode_char c ++ l ≡ b = ground (arith, e) in
      subst (λ t. All IsByte t) same
        (All-append IsByte (encode_char c) l (encode_char-IsByte c fits) (encode-IsByte s l e))
]

pub unpack_short : (n : ℕ) → n < 65536 → unpack 0 (pack_short n) ≡ n
unfolding unpack
unpack_short n h = omega arith

pub unpack_long : (n : ℕ) → n < 2 ^ 64 → unpack 0 (pack_long n) ≡ n
unfolding unpack
unpack_long n h = omega arith

abbrev extended : ℕ → List ℕ → Option (ℕ × List ℕ)
extended k l = if ltb (length l) k then none else some (unpack 0 (take k l), drop k l)

-- The length of a frame's payload, and what follows it.
abbrev sized : ℕ → List ℕ → Option (ℕ × List ℕ)
sized n l = if n == 126 then extended 2 l else if n == 127 then extended 8 l else some (n, l)

abbrev unmasked : ℕ → List ℕ → Option (List ℕ × List ℕ)
unmasked n (a ∷ b ∷ c ∷ d ∷ l) =
    if ltb (length l) n then none else some (masked (a ∷ b ∷ c ∷ d ∷ []) 0 (take n l), drop n l)
unmasked n l = none

abbrev unmask_sized : ℕ → Option (ℕ × List ℕ) → Option (ℕ × List ℕ × List ℕ)
unmask_sized first none = none
unmask_sized first (some (n, l)) = elim (unmasked n l) [
  | none ↦ none
  | some (payload, rest) ↦ some (first, payload, rest)
]

-- A server reads a frame: its first byte, its payload, which has to be masked, and what follows.
abbrev pub read_frame : List ℕ → Option (ℕ × List ℕ × List ℕ)
read_frame (first ∷ second ∷ l) =
    if ltb second 128 then none else unmask_sized first (sized (second % 128) l)
read_frame l = none

abbrev pub IsMask : List ℕ → Type 0
IsMask mask = (length mask ≡ 4) × All IsByte mask

unmasked-masked :
    (mask data' rest : List ℕ)
    → IsMask mask
    → All IsByte data'
    → unmasked (length data') (mask ++ (masked mask 0 data' ++ rest)) ≡ some (data', rest)
unmasked-masked (a ∷ b ∷ c ∷ d ∷ []) data' rest (four, hm) hd =
    let mask : List ℕ = a ∷ b ∷ c ∷ d ∷ [] in
    let len = length-masked mask 0 data' in
    let whole = length-append (masked mask 0 data') rest in
    let sent : List ℕ = masked mask 0 data' in
    let front = subst (λ k. take k (sent ++ rest) ≡ sent) len (take-length sent rest) in
    let back = subst (λ k. drop k (sent ++ rest) ≡ rest) len (drop-length sent rest) in
    let clear = masked_twice mask 0 data' hm hd in ground (arith, len, whole, front, back, clear)
unmasked-masked [] data' rest (four, hm) hd = absurd (omega arith)
unmasked-masked (a ∷ []) data' rest (four, hm) hd = absurd (omega arith)
unmasked-masked (a ∷ b ∷ []) data' rest (four, hm) hd = absurd (omega arith)
unmasked-masked (a ∷ b ∷ c ∷ []) data' rest (four, hm) hd = absurd (omega arith)
unmasked-masked (a ∷ b ∷ c ∷ d ∷ e ∷ ms) data' rest (four, hm) hd = absurd (omega arith)

short_header :
    (n : ℕ) (l : List ℕ)
    → n < 126
    → read_frame (0x81 ∷ bit_or 0x80 n ∷ l) ≡ unmask_sized 0x81 (some (n, l))
short_header n l h = rw (top_bit_set n (omega arith)) (ground (arith, top_bit_set n))

sized_read :
    (k n : ℕ) (bytes l : List ℕ)
    → length bytes ≡ k
    → unpack 0 bytes ≡ n
    → extended k (bytes ++ l) ≡ some (n, l)
sized_read k n bytes l len value =
    let front = subst (λ t. take t (bytes ++ l) ≡ bytes) len (take-length bytes l) in
    let back = subst (λ t. drop t (bytes ++ l) ≡ l) len (drop-length bytes l) in
    let whole = length-append bytes l in
    let got : unpack 0 (take k (bytes ++ l)) ≡ n = ap (unpack 0) front ∙ value in
    ground (arith, whole, len, got, back)

header_read :
    (n : ℕ) (header l : List ℕ)
    → text_header n ≡ ok header
    → read_frame (header ++ l) ≡ unmask_sized 0x81 (some (n, l))
header_read n header l h = elim (Bool-cases (ltb n 126)) [
  | inl small ↦
      let same : header ≡ 0x81 ∷ bit_or 0x80 n ∷ [] =
        unfold text_header in ground (arith, small, h) in
      ap (λ t. read_frame (t ++ l)) same ∙ short_header n l (ground arith)
  | inr large ↦ elim (Bool-cases (leb n 65535)) [
    | inl short ↦
        let same : header ≡ 0x81 ∷ 0xfe ∷ pack_short n =
          unfold text_header in ground (arith, large, short, h) in
        ap (λ t. read_frame (t ++ l)) same
        ∙ ap (unmask_sized 0x81)
            (sized_read 2 n (pack_short n) l refl (unpack_short n (ground arith)))
    | inr long ↦
        let fits : n < 2 ^ 64 = unfold text_header in ground (arith, large, long, h) in
        let same : header ≡ 0x81 ∷ 0xff ∷ pack_long n =
          unfold text_header in ground (arith, large, long, h) in
        ap (λ t. read_frame (t ++ l)) same
        ∙ ap (unmask_sized 0x81) (sized_read 8 n (pack_long n) l refl (unpack_long n fits))
  ]
]

-- What `send_text` writes is one frame that a server reads as the UTF-8 bytes of the text under the
-- first byte 0x81, a whole text message, with what follows the frame left over, for any mask of four
-- bytes.
pub read_frame-send_text :
    (mask : List ℕ) (text : Str) (c c' : Conn) (data' rest : List ℕ)
    → IsMask mask
    → encode text ≡ ok data'
    → send_text mask text c ≡ (ok tt, c')
    → (bytes : List ℕ) × (c'.sent ≡ c.sent ++ bytes)
      × (read_frame (bytes ++ rest) ≡ some (0x81, data', rest))
read_frame-send_text mask text c c' data' rest hm he h =
    elim (Result-cases (text_header (length data'))) [
      | inr (x, e) ↦ absurd (unfold send_text in ground (arith, he, e, h))
      | inl (header, e) ↦
          let bytes : List ℕ = header ++ (mask ++ masked mask 0 data') in
          let tail : List ℕ = mask ++ (masked mask 0 data' ++ rest) in
          let shape : bytes ++ rest ≡ header ++ tail =
            append_assoc header (mask ++ masked mask 0 data') rest
            ∙ ap (λ l. header ++ l) (append_assoc mask (masked mask 0 data') rest) in
          (
            bytes,
            unfold send_text send_all in ground (arith, he, e, h),
            ap read_frame shape
                ∙ (header_read (length data') header tail e
                    ∙ rw
                        (
                          unmasked-masked mask data' rest hm (encode-IsByte text data' he),
                          unmask_sized,
                        )
                        refl),
          )
    ]
