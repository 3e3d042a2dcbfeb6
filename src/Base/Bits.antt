-- ===== src/Base/Bits.antt =====
-- Masks and shifts on one byte as arithmetic; each is a table of at most 256 entries.
use Prim.Native.Nat.{ℕ, zero, suc, ◌+◌, ◌*◌, ◌/◌, ◌%◌, ◌<◌, bit_and, bit_or, bit_xor}
use mathlib.Core.Path.{◌≡◌, refl}
use mathlib.Core.Bool.{Bool, true, ◌&&◌}
use native.Mathlib.Omega.{arith}
use gardena_matter_mqtt_brid.Base.Tests.{◌==◌, if◌then◌else◌}

-- Two functions agree on the numbers below `n`.
unfoldable pub agrees : (ℕ → ℕ) → (ℕ → ℕ) → ℕ → Bool
agrees f g zero = true
agrees f g (suc n) = agrees f g n && (f n == g n)

pub agrees→eq : (f g : ℕ → ℕ) (n : ℕ) → agrees f g n ≡ true → (b : ℕ) → b < n → f b ≡ g b
unfolding agrees
agrees→eq f g zero table b h = absurd (omega arith)
agrees→eq f g (suc n) table b h = ground (arith, agrees→eq f g n (ground arith) b)

pub low_seven : (b : ℕ) → b < 256 → bit_and b 0x7f ≡ b % 128
unfolding agrees
low_seven = agrees→eq (λ b. bit_and b 0x7f) (λ b. b % 128) 256 refl

pub top_bit : (b : ℕ) → b < 256 → bit_and b 0x80 ≡ b / 128 * 128
unfolding agrees
top_bit = agrees→eq (λ b. bit_and b 0x80) (λ b. b / 128 * 128) 256 refl

pub set_top_bit : (b : ℕ) → b < 128 → bit_or b 0x80 ≡ b + 128
unfolding agrees
set_top_bit = agrees→eq (λ b. bit_or b 0x80) (λ b. b + 128) 128 refl

pub low_four : (b : ℕ) → b < 256 → bit_and b 0x0f ≡ b % 16
unfolding agrees
low_four = agrees→eq (λ b. bit_and b 0x0f) (λ b. b % 16) 256 refl

row : ℕ → ℕ
unfolding agrees
row a = if agrees (λ m. bit_xor (bit_xor a m) m) (λ m. a) 256 then 1 else 0

rows : agrees row (λ a. 1) 256 ≡ true
unfolding agrees row
rows = refl

-- A mask that is applied twice is undone.
pub bit_xor_twice : (a m : ℕ) → a < 256 → m < 256 → bit_xor (bit_xor a m) m ≡ a
bit_xor_twice a m ha hm =
    agrees→eq (λ x. bit_xor (bit_xor a x) x) (λ x. a) 256
      (unfold row in ground (arith, agrees→eq row (λ x. 1) 256 rows a ha)) m hm

pub top_bit_set : (b : ℕ) → b < 128 → bit_or 0x80 b ≡ b + 128
unfolding agrees
top_bit_set = agrees→eq (λ b. bit_or 0x80 b) (λ b. b + 128) 128 refl
