-- ===== src/Deploy/Ends.antt =====
-- What a method of the site leaves when it returns.
use gardena_matter_mqtt_brid.Base.{◌≡◌, ap, inl, inr, true, false, List, [], ◌∷◌, arith}
use gardena_matter_mqtt_brid.Base.Exec.{Exec, Result, ok, Run-cases, pure, ◌>>=◌}
use gardena_matter_mqtt_brid.Deploy.{Site, Ending, done, undone, fails, run_call, call}
use gardena_matter_mqtt_brid.Deploy.Keeps.{IsBlind}

-- When `m` returns from a site with `P`, it leaves `Q`.
pub data Ends (P Q : Site → Type 0) {A : Type 0} (m : Exec Site A) : Type 0 where
  ends : ((s v : Site) (a : A) → P s → m s ≡ (ok a, v) → Q v) → Ends P Q m

pub ended :
    {P Q : Site → Type 0} {A : Type 0} {m : Exec Site A}
    → Ends P Q m
    → (s v : Site) (a : A) → P s
    → m s ≡ (ok a, v)
    → Q v
ended (ends k) = k

pub Ends-bind :
    {P Q R : Site → Type 0} {A B : Type 0} {m : Exec Site A} {f : A → Exec Site B}
    → Ends P Q m
    → ((a : A) → Ends Q R (f a))
    → Ends P R (m >>= f)
Ends-bind {m = m} {f = f} (ends k) next = ends (λ s v b h e. elim (Run-cases (m s)) [
  | inl (a, w, run) ↦ ended (next a) w v b (k s w a h run) (rw run at e)
  | inr (x, w, run) ↦ ground (arith, e, run)
])

module _ (P Q : Site → Type 0) where
  run_call-Ends :
      (effect : Site → Site) (l : List Ending) (s v : Site) (a : Unit {0})
      → IsBlind P
      → ((s : Site) → P s → Q (effect s))
      → P s
      → run_call l effect s ≡ (ok a, v)
      → Q v
  run_call-Ends effect [] s v a blind k h e =
      let same : effect s ≡ v = ap (λ m. m.1) e in rw same at (k s h)
  run_call-Ends effect (done ∷ l) s v a blind k h e =
      let same : effect (record s { endings = l }) ≡ v = ap (λ m. m.1) e in
      rw same at (k (record s { endings = l }) (blind s l h))
  run_call-Ends effect (undone ∷ l) s v a blind k h e =
      let same : effect (record s { endings = l }) ≡ v = ap (λ m. m.1) e in
      rw same at (k (record s { endings = l }) (blind s l h))
  run_call-Ends effect (fails x true w ∷ l) s v a blind k h e = absurd (ground (arith, e))
  run_call-Ends effect (fails x false w ∷ l) s v a blind k h e = absurd (ground (arith, e))

  pub Ends-call :
      (effect : Site → Site)
      → IsBlind P
      → ((s : Site) → P s → Q (effect s))
      → Ends P Q (call effect)
  unfolding call
  Ends-call effect blind k = ends (λ s v a h e. run_call-Ends effect s.endings s v a blind k h e)

pub Ends-pure : (P : Site → Type 0) {A : Type 0} (a : A) → Ends P P (pure a)
Ends-pure P a = ends (λ s v c h e. rw (ap (λ (m : Result _ × Site). m.1) e) at h)
