-- ===== src/Transport/Reads.antt =====
-- What `_recv_exact` returns on any schedule of arrivals, and on one that brings the bytes in time.
use gardena_matter_mqtt_brid.Base.{
  ℕ, zero, suc, ◌+◌, ◌-◌, ◌≤◌, ◌<◌, ◌≡◌, refl, ◌≢◌, inl, inr, min, List, [], ◌∷◌, ◌++◌, arith,
  length, take, drop, length-append, length-take, take-append-drop, append-nil, append_assoc,
}
use gardena_matter_mqtt_brid.Base.Exec.{ok, err, out_of_fuel, Run-cases}
use gardena_matter_mqtt_brid.Transport.{
  Arrival, chunk, eof, reset, Conn, put_back, recv, patience, deadline_of, recv_some, recv_loop,
  recv_exact,
}

-- The bytes that the peer still delivers, up to the end of the stream or a failure.
abbrev pub stream : List Arrival → List ℕ
stream [] = []
stream (chunk d bs ∷ rest) = bs ++ stream rest
stream (eof d ∷ rest) = []
stream (reset d ∷ rest) = []

pub stream-put_back :
    (bs : List ℕ) (rest : List Arrival) → stream (put_back bs rest) ≡ bs ++ stream rest
stream-put_back [] rest = refl
stream-put_back (b ∷ bs) rest = refl

-- What a read that returned `bytes` has done.
pub record Took (c : Conn) (bytes : List ℕ) (c' : Conn) : Type 0 where
  pub same_stream : stream c.incoming ≡ bytes ++ stream c'.incoming
  pub same_sent : c'.sent ≡ c.sent
  pub same_timeout : c'.timeout ≡ c.timeout
  pub same_broken : c'.broken ≡ c.broken
  pub same_deadline : c'.deadline ≡ c.deadline
  pub later : c.now ≤ c'.now

split_chunk :
    (n : ℕ) (bs : List ℕ) (rest : List Arrival)
    → bs ++ stream rest ≡ take n bs ++ stream (put_back (drop n bs) rest)
split_chunk n bs rest = cc (
  stream-put_back (drop n bs) rest,
  append_assoc (take n bs) (drop n bs) (stream rest),
  take-append-drop n bs,
)

recv_takes :
    (t n : ℕ) (l : List Arrival) (c c' : Conn) (bytes : List ℕ)
    → c.incoming ≡ l
    → recv t n l c ≡ (ok bytes, c')
    → length bytes ≢ 0
    → Took c bytes c' × (length bytes ≤ n) × (c'.now ≤ c.now + t)
unfolding recv
recv_takes t n [] c c' bytes e h ne = cc
recv_takes t n (chunk d bs ∷ rest) c c' bytes e h ne =
    ground (arith, split_chunk n bs rest, length-take n bs)
recv_takes t n (eof d ∷ rest) c c' bytes e h ne = ground arith
recv_takes t n (reset d ∷ rest) c c' bytes e h ne = ground arith

pub recv_some_takes :
    (n : ℕ) (c c' : Conn) (bytes : List ℕ)
    → recv_some n c ≡ (ok bytes, c')
    → Took c bytes c' × (length bytes ≤ n) × (0 < length bytes) × (c'.now ≤ deadline_of c)
unfolding recv_some
recv_some_takes n c c' bytes h =
    let t : ℕ = min (deadline_of c - c.now) (patience c.timeout) in
    ground (arith, recv_takes t n c.incoming c c' bytes refl)

-- A successful `_recv_exact` returned exactly the next bytes of the stream, as many as were asked.
recv_loop_takes :
    (fuel n : ℕ) (got : List ℕ) (c c' : Conn) (out : List ℕ)
    → recv_loop fuel n got c ≡ (ok out, c')
    → (bytes : List ℕ) × (out ≡ got ++ bytes) × (length bytes ≡ n) × Took c bytes c'
unfolding recv_loop
recv_loop_takes fuel zero got c c' out h = ([], ground (arith, append-nil got), refl, ground arith)
recv_loop_takes zero (suc n) got c c' out h = absurd (ground arith)
recv_loop_takes (suc fuel) (suc n) got c c' out h = elim (Run-cases (recv_some (suc n) c)) [
  | inl (bs, c1, e) ↦
      let (ds, p, q, took) =
        recv_loop_takes fuel (suc n - length bs) (got ++ bs) c1 c' out (ground arith) in
      let first = recv_some_takes (suc n) c c1 bs e in
      (
        bs ++ ds,
        ground (arith, append_assoc got bs ds),
        omega (arith, length-append bs ds),
        ground (arith, append_assoc bs ds (stream c'.incoming)),
      )
  | inr (x, c1, e) ↦ absurd (ground arith)
]

-- `_recv_exact` returns exactly the next bytes of the stream, as many as were asked for.
pub recv_exact_takes :
    (n : ℕ) (c c' : Conn) (bytes : List ℕ)
    → recv_exact n c ≡ (ok bytes, c')
    → (length bytes ≡ n) × Took c bytes c'
unfolding recv_exact
recv_exact_takes n c c' bytes h =
    let (bs, e, l, took) = recv_loop_takes n n [] c c' bytes h in (rw e l, rw e took)

recv-ne-out_of_fuel : (t n : ℕ) (l : List Arrival) (c : Conn) → (recv t n l c).0 ≢ err out_of_fuel
unfolding recv
recv-ne-out_of_fuel t n [] c = λ e. cc
recv-ne-out_of_fuel t n (chunk d bs ∷ rest) c = ground arith
recv-ne-out_of_fuel t n (eof d ∷ rest) c = ground arith
recv-ne-out_of_fuel t n (reset d ∷ rest) c = ground arith

recv_some-ne-out_of_fuel : (n : ℕ) (c : Conn) → (recv_some n c).0 ≢ err out_of_fuel
recv_some-ne-out_of_fuel n c =
    let t : ℕ = min (deadline_of c - c.now) (patience c.timeout) in
    let lemma = recv-ne-out_of_fuel t n c.incoming c in unfold recv_some in ground arith

-- The loop ends: each round brings a byte, so the rounds never run out.
recv_loop-ne-out_of_fuel :
    (fuel n : ℕ) (got : List ℕ) (c : Conn) → n ≤ fuel → (recv_loop fuel n got c).0 ≢ err out_of_fuel
unfolding recv_loop
recv_loop-ne-out_of_fuel fuel zero got c h = λ e. cc
recv_loop-ne-out_of_fuel zero (suc n) got c h = absurd (omega arith)
recv_loop-ne-out_of_fuel (suc fuel) (suc n) got c h = elim (Run-cases (recv_some (suc n) c)) [
  | inl (bs, c1, e) ↦
      let first = recv_some_takes (suc n) c c1 bs e in
      ground (
        arith,
        recv_loop-ne-out_of_fuel fuel (suc n - length bs) (got ++ bs) c1 (omega (arith, first.2)),
      )
  | inr (x, c1, e) ↦ ground (arith, recv_some-ne-out_of_fuel (suc n) c)
]

pub recv_exact-ne-out_of_fuel : (n : ℕ) (c : Conn) → (recv_exact n c).0 ≢ err out_of_fuel
unfolding recv_exact
recv_exact-ne-out_of_fuel n c = recv_loop-ne-out_of_fuel n n [] c (omega arith)
