-- ===== src/Transport/Ready.antt =====
-- A socket on which the bytes come in time, and `_recv_exact` on it.
use mathlib.Core.Path.{subst}
use gardena_matter_mqtt_brid.Base.{
  ℕ, zero, suc, ◌+◌, ◌-◌, ◌≤◌, ◌<◌, ◌≡◌, refl, sym, ap, ◌∙◌, ◌≢◌, min, List, [], ◌∷◌, ◌++◌, arith,
  length, take, drop, length-append, append_inj,
}
use gardena_matter_mqtt_brid.Base.Exec.{ok}
use gardena_matter_mqtt_brid.Transport.{
  Arrival, chunk, eof, reset, Conn, put_back, recv, patience, deadline_of, recv_some, recv_loop,
  recv_exact,
}
use gardena_matter_mqtt_brid.Transport.Reads.{stream, Took, recv_exact_takes, recv_some_takes}

-- Every arrival brings bytes: no end of the stream, no failure.
abbrev pub IsFlowing : List Arrival → Type 0
IsFlowing [] = Unit
IsFlowing (chunk d bs ∷ rest) = (bs ≢ []) × IsFlowing rest
IsFlowing (eof d ∷ rest) = ⊥
IsFlowing (reset d ∷ rest) = ⊥

abbrev pub total_delay : List Arrival → ℕ
total_delay [] = 0
total_delay (chunk d bs ∷ rest) = d + total_delay rest
total_delay (eof d ∷ rest) = d
total_delay (reset d ∷ rest) = d

put_back-IsFlowing : (bs : List ℕ) (l : List Arrival) → IsFlowing l → IsFlowing (put_back bs l)
put_back-IsFlowing [] l h = h
put_back-IsFlowing (b ∷ bs) l h = (λ e. cc, h)

total_delay-put_back :
    (bs : List ℕ) (l : List Arrival) → total_delay (put_back bs l) ≡ total_delay l
total_delay-put_back [] l = refl
total_delay-put_back (b ∷ bs) l = omega arith

-- What is still to come, `bytes`, comes before the deadline and within the socket's timeout.
pub record IsReady (c : Conn) (bytes : List ℕ) : Type 0 where
  pub flowing : IsFlowing c.incoming
  pub whole : stream c.incoming ≡ bytes
  pub in_time : c.now + total_delay c.incoming < deadline_of c
  pub patient : total_delay c.incoming < patience c.timeout

recv_ready :
    (t n : ℕ) (l : List Arrival) (c : Conn)
    → IsFlowing l
    → total_delay l ≤ t
    → stream l ≢ []
    → (bytes : List ℕ) × (c' : Conn) × (recv t (suc n) l c ≡ (ok bytes, c'))
      × (0 < length bytes)
      × IsFlowing c'.incoming
      × (c'.now + total_delay c'.incoming ≡ c.now + total_delay l)
      × (total_delay c'.incoming ≤ total_delay l)
unfolding recv
recv_ready t n [] c f h ne = absurd (ne refl)
recv_ready t n (chunk d [] ∷ rest) c f h ne = absurd (f.0 refl)
recv_ready t n (chunk d (b ∷ bs) ∷ rest) c f h ne = (
  b ∷ take n bs,
  record c { incoming = put_back (drop n bs) rest; now = c.now + d },
  ground arith,
  omega arith,
  put_back-IsFlowing (drop n bs) rest f.1,
  omega (arith, total_delay-put_back (drop n bs) rest),
  omega (arith, total_delay-put_back (drop n bs) rest),
)
recv_ready t n (eof d ∷ rest) c f h ne = absurd f
recv_ready t n (reset d ∷ rest) c f h ne = absurd f

deadline_later : (c c' : Conn) (bytes : List ℕ) → Took c bytes c' → deadline_of c ≤ deadline_of c'
deadline_later c c' bytes t = ground (arith, t.same_deadline, t.later)

recv_some-IsReady :
    (n : ℕ) (c : Conn) (bytes : List ℕ)
    → IsReady c bytes
    → bytes ≢ []
    → (got : List ℕ) × (c' : Conn) × (recv_some (suc n) c ≡ (ok got, c'))
      × IsReady c' (stream c'.incoming)
unfolding recv_some
recv_some-IsReady n c bytes r ne =
    let t : ℕ = min (deadline_of c - c.now) (patience c.timeout) in
    let (got, c', e, pos, flow, time, less) =
      recv_ready t n c.incoming c r.flowing (omega (arith, r.in_time, r.patient))
        (λ h. ne (sym r.whole ∙ h)) in
    let main : recv_some (suc n) c ≡ (ok got, c') = ground (arith, e, r.in_time, pos) in
    let took = recv_some_takes (suc n) c c' got main in
    (
      got,
      c',
      main,
      record {
        flowing = flow;
        whole = refl;
        in_time = omega (arith, deadline_later c c' got took.0, r.in_time);
        patient = rw took.0.same_timeout (omega (arith, r.patient));
      },
    )

recv_loop-IsReady :
    (fuel n : ℕ) (got : List ℕ) (c : Conn) (bytes : List ℕ)
    → IsReady c bytes
    → n ≤ fuel
    → n ≤ length bytes
    → (out : List ℕ) × (c' : Conn) × (recv_loop fuel n got c ≡ (ok out, c'))
      × IsReady c' (stream c'.incoming)
unfolding recv_loop
recv_loop-IsReady fuel zero got c bytes r f l = (got, c, refl, rw r.whole r)
recv_loop-IsReady zero (suc n) got c bytes r f l = absurd (omega arith)
recv_loop-IsReady (suc fuel) (suc n) got c bytes r f l =
    let (bs, c1, e, r1) =
      recv_some-IsReady n c bytes r (λ h. absurd (omega (arith, ap length h))) in
    let took = recv_some_takes (suc n) c c1 bs e in
    let (out, c', e', r') =
      recv_loop-IsReady fuel (suc n - length bs) (got ++ bs) c1 (stream c1.incoming) r1
        (omega (arith, took.2))
        (omega (
          arith,
          took.1,
          ap length took.0.same_stream,
          ap length r.whole,
          length-append bs (stream c1.incoming),
        )) in
    (out, c', ground arith, r')

-- `_recv_exact` returns the next `n` bytes if they come in time, and the rest stays ready.
pub recv_exact-IsReady :
    (bytes rest : List ℕ) (c : Conn)
    → IsReady c (bytes ++ rest)
    → (c' : Conn) × (recv_exact (length bytes) c ≡ (ok bytes, c'))
      × IsReady c' rest
      × Took c bytes c'
unfolding recv_exact
recv_exact-IsReady bytes rest c r =
    let (out, c', e, r') =
      recv_loop-IsReady (length bytes) (length bytes) [] c (bytes ++ rest) r (omega arith)
        (omega (arith, length-append bytes rest)) in
    let (len, took) = recv_exact_takes (length bytes) c c' out e in
    let all : bytes ++ rest ≡ out ++ stream c'.incoming = sym r.whole ∙ took.same_stream in
    let (same, left) = append_inj bytes out rest (stream c'.incoming) (sym len) all in
    (
      c',
      e ∙ ap (λ (o : List ℕ). (ok o, c')) (sym same),
      subst (λ b. IsReady c' b) (sym left) r',
      subst (λ b. Took c b c') (sym same) took,
    )
