-- ===== src/Transport/InTime.antt =====
-- Methods of a socket that wait no longer than the deadline of the packet.
use mathlib.Core.Path.{subst}
use gardena_matter_mqtt_brid.Base.{
  ℕ, zero, suc, ◌+◌, ◌-◌, ◌≤◌, ◌≡◌, sym, inl, inr, min, Bool, true, false, some, List, [], ◌∷◌,
  ◌++◌, arith, length, leb, if◌then◌else◌, Bool-cases,
}
use gardena_matter_mqtt_brid.Base.Exec.{
  Exec, Error, Result, err, pure, raise, raise_if, lift, ◌>>=◌, Run-cases,
}
use gardena_matter_mqtt_brid.Transport.{
  Arrival, chunk, eof, reset, Conn, recv, patience, deadline_of, recv_some, recv_loop, recv_exact,
  send_all,
}

-- The deadline of the packet is `t`, and it has not passed.
abbrev pub IsBefore : ℕ → Conn → Type 0
IsBefore t c = (c.deadline ≡ some t) × (c.now ≤ t)

-- `m` ends before the deadline, whichever way it ends.
pub data Ends (t : ℕ) {A : Type 0} (m : Exec Conn A) : Type 0 where
  ends : ((c : Conn) → IsBefore t c → IsBefore t (m c).1) → Ends t m

pub ended :
    {t : ℕ} {A : Type 0} {m : Exec Conn A}
    → Ends t m
    → (c : Conn) → IsBefore t c
    → IsBefore t (m c).1
ended (ends k) = k

module _ (t : ℕ) where
  pub Ends-lift : {A : Type 0} (r : Result A) → Ends t (lift r)
  Ends-lift r = ends (λ c h. h)

  pub Ends-pure : {A : Type 0} (a : A) → Ends t (pure a)
  Ends-pure a = ends (λ c h. h)

  pub Ends-raise : {A : Type 0} (e : Error) → Ends t {A = A} (raise e)
  Ends-raise e = ends (λ c h. h)

  pub Ends-raise_if : (b : Bool) (e : Error) → Ends t (raise_if b e)
  Ends-raise_if true e = ends (λ c h. h)
  Ends-raise_if false e = ends (λ c h. h)

  pub Ends-if :
      {A : Type 0} (b : Bool) {m n : Exec Conn A}
      → Ends t m
      → Ends t n
      → Ends t (if b then m else n)
  Ends-if true k l = k
  Ends-if false k l = l

  pub Ends-bind :
      {A B : Type 0} {m : Exec Conn A} {f : A → Exec Conn B}
      → Ends t m
      → ((a : A) → Ends t (f a))
      → Ends t (m >>= f)
  Ends-bind {m = m} {f = f} (ends k) next = ends (λ c h. elim (Run-cases (m c)) [
    | inl (a, c1, e) ↦ let one : IsBefore t c1 = rw e at (k c h) in rw e (ended (next a) c1 one)
    | inr (x, c1, e) ↦ let one : IsBefore t c1 = rw e at (k c h) in rw e one
  ])

  recv-Ends :
      (w n : ℕ) (l : List Arrival) (c : Conn)
      → c.deadline ≡ some t
      → c.now + w ≤ t
      → IsBefore t (recv w n l c).1
  unfolding recv
  recv-Ends w n [] c d h = (d, h)
  recv-Ends w n (chunk e bs ∷ rest) c d h = ground (arith, d, h)
  recv-Ends w n (eof e ∷ rest) c d h = ground (arith, d, h)
  recv-Ends w n (reset e ∷ rest) c d h = ground (arith, d, h)

  recv_some-Ends : (n : ℕ) → Ends t (recv_some n)
  unfolding recv_some
  recv_some-Ends n = ends (λ c h.
      let w : ℕ = min (deadline_of c - c.now) (patience c.timeout) in
      let at : deadline_of c ≡ t = ground (arith, h.0) in
      let within : c.now + w ≤ t = omega (arith, at, h.1) in
      let read = recv-Ends w n c.incoming c h.0 within in
      elim (Bool-cases (leb (deadline_of c) c.now)) [
        | inl over ↦ rw over h
        | inr more ↦ elim (Run-cases (recv w n c.incoming c)) [
          | inl (bs, c1, e) ↦
              let one : IsBefore t c1 = rw e at read in
              let same : (recv_some n c).1 ≡ c1 = ground (arith, more, e) in rw same one
          | inr (x, c1, e) ↦
              let one : IsBefore t c1 = rw e at read in
              let same : (recv_some n c).1 ≡ c1 = ground (arith, more, e) in rw same one
        ]
      ])

  recv_loop-Ends :
      (fuel n : ℕ) (got : List ℕ) (c : Conn) → IsBefore t c → IsBefore t (recv_loop fuel n got c).1
  unfolding recv_loop
  recv_loop-Ends fuel zero got c h = h
  recv_loop-Ends zero (suc n) got c h = h
  recv_loop-Ends (suc fuel) (suc n) got c h = elim (Run-cases (recv_some (suc n) c)) [
    | inl (bs, c1, e) ↦
        let one : IsBefore t c1 = rw e at (ended (recv_some-Ends (suc n)) c h) in
        let same : recv_loop (suc fuel) (suc n) got c
            ≡ recv_loop fuel (suc n - length bs) (got ++ bs) c1 =
          ground (arith, e) in
        subst (λ m. IsBefore t m.1) (sym same)
          (recv_loop-Ends fuel (suc n - length bs) (got ++ bs) c1 one)
    | inr (x, c1, e) ↦
        let one : IsBefore t c1 = rw e at (ended (recv_some-Ends (suc n)) c h) in
        let same : recv_loop (suc fuel) (suc n) got c ≡ (err x, c1) = ground (arith, e) in
        subst (λ m. IsBefore t m.1) (sym same) one
  ]

  pub recv_exact-Ends : (n : ℕ) → Ends t (recv_exact n)
  unfolding recv_exact
  recv_exact-Ends n = ends (λ c h. recv_loop-Ends n n [] c h)

  pub send_all-Ends : (bytes : List ℕ) → Ends t (send_all bytes)
  unfolding send_all
  send_all-Ends bytes = ends (λ c h. ground (arith, h))
