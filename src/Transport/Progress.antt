-- ===== src/Transport/Progress.antt =====
-- Methods of a socket that never run out of rounds, and the bytes that they take at least.
use gardena_matter_mqtt_brid.Base.{
  ℕ, ◌+◌, ◌≤◌, ◌≡◌, ◌≢◌, inl, inr, Bool, true, false, List, arith, length, length-append,
  if◌then◌else◌, ap,
}
use gardena_matter_mqtt_brid.Base.Exec.{
  Exec, Error, Result, ok, err, pure, raise, raise_if, lift, gets, ◌>>=◌, Run-cases, out_of_fuel,
}
use gardena_matter_mqtt_brid.Transport.{Conn, recv_exact, send_all, start_packet}
use gardena_matter_mqtt_brid.Transport.Reads.{stream, recv_exact_takes, recv_exact-ne-out_of_fuel}

-- How many bytes are to come.
abbrev pub left : Conn → ℕ
left c = length (stream c.incoming)

-- `m` ends, and takes `n` bytes at least when it returns.
pub data Reads (n : ℕ) {A : Type 0} (m : Exec Conn A) : Type 0 where
  reads :
      ((c c' : Conn) (a : A) → m c ≡ (ok a, c') → n + left c' ≤ left c)
      → ((c : Conn) → (m c).0 ≢ err out_of_fuel)
      → Reads n m

pub shrinks :
    {n : ℕ} {A : Type 0} {m : Exec Conn A}
    → Reads n m
    → (c c' : Conn) (a : A) → m c ≡ (ok a, c')
    → n + left c' ≤ left c
shrinks (reads k e) = k

pub ends :
    {n : ℕ} {A : Type 0} {m : Exec Conn A} → Reads n m → (c : Conn) → (m c).0 ≢ err out_of_fuel
ends (reads k e) = e

pub Reads-weaken : {n : ℕ} (k : ℕ) {A : Type 0} {m : Exec Conn A} → k ≤ n → Reads n m → Reads k m
Reads-weaken k h (reads r e) = reads (λ c c' a run. omega (arith, r c c' a run)) e

pub Reads-lift : {A : Type 0} (r : Result A) → r ≢ err out_of_fuel → Reads 0 (lift r)
Reads-lift r h = reads (λ c c' a run. ground (arith, run)) (λ c. h)

pub Reads-pure : {A : Type 0} (a : A) → Reads 0 (pure a)
Reads-pure a = reads (λ c c' b run. ground (arith, run)) (λ c h. ground (arith, h))

pub Reads-raise : {A : Type 0} (e : Error) → e ≢ out_of_fuel → Reads 0 {A = A} (raise e)
Reads-raise e h = reads (λ c c' b run. absurd (ground (arith, run))) (λ c k. ground (arith, k))

pub Reads-gets : {A : Type 0} (f : Conn → A) → Reads 0 (gets f)
Reads-gets f = reads (λ c c' b run. ground (arith, run)) (λ c h. ground (arith, h))

pub Reads-raise_if : (b : Bool) (e : Error) → e ≢ out_of_fuel → Reads 0 (raise_if b e)
Reads-raise_if true e h = Reads-raise e h
Reads-raise_if false e h = Reads-pure tt

pub Reads-if :
    {n : ℕ} {A : Type 0} (b : Bool) {m m' : Exec Conn A}
    → Reads n m
    → Reads n m'
    → Reads n (if b then m else m')
Reads-if true k l = k
Reads-if false k l = l

pub Reads-bind :
    {n k : ℕ} {A B : Type 0} {m : Exec Conn A} {f : A → Exec Conn B}
    → Reads n m
    → ((a : A) → Reads k (f a))
    → Reads (n + k) (m >>= f)
Reads-bind {m = m} {f = f} (reads r e) next =
    reads
      (λ c c' b run. elim (Run-cases (m c)) [
        | inl (a, c1, first) ↦
            let one = r c c1 a first in
            let rest = shrinks (next a) c1 c' b (rw first at run) in omega arith
        | inr (x, c1, first) ↦ absurd (ground (arith, run, first))
      ])
      (λ c h. elim (Run-cases (m c)) [
        | inl (a, c1, first) ↦ ends (next a) c1 (rw first at h)
        | inr (x, c1, first) ↦ e c (ground (arith, h, first))
      ])

pub recv_exact-Reads : (n : ℕ) → Reads n (recv_exact n)
recv_exact-Reads n =
    reads
      (λ c c' bytes run.
        let (size, took) = recv_exact_takes n c c' bytes run in
        omega (arith, size, ap length took.same_stream, length-append bytes (stream c'.incoming)))
      (recv_exact-ne-out_of_fuel n)

pub send_all-Reads : (bytes : List ℕ) → Reads 0 (send_all bytes)
unfolding send_all
send_all-Reads bytes = reads (λ c c' a run. ground (arith, run)) (λ c h. ground (arith, h))

pub start_packet-Reads : Reads 0 start_packet
unfolding start_packet
start_packet-Reads = reads (λ c c' a run. ground (arith, run)) (λ c h. ground (arith, h))
