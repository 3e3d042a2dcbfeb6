-- ===== src/Deploy/Keeps.antt =====
-- What a method of the site keeps, whichever way it ends.
use gardena_matter_mqtt_brid.Base.{Bool, true, false, if◌then◌else◌, List, [], ◌∷◌}
use gardena_matter_mqtt_brid.Base.Exec.{
  Exec, Error, Result, ok, err, pure, lift, gets, raise_if, continue, ◌>>=◌,
}
use gardena_matter_mqtt_brid.Deploy.Install.{round_of, is_retried}
use gardena_matter_mqtt_brid.Deploy.{Site, Ending, done, undone, fails, run_call, call}

-- `m` keeps `P`.
pub data Keeps (P : Site → Type 0) {A : Type 0} (m : Exec Site A) : Type 0 where
  keeps : ((s : Site) → P s → P (m s).1) → Keeps P m

pub kept :
    {P : Site → Type 0} {A : Type 0} {m : Exec Site A} → Keeps P m → (s : Site) → P s → P (m s).1
kept (keeps k) = k

-- `P` does not look at how the calls to come will end.
abbrev pub IsBlind : (Site → Type 0) → Type 0
IsBlind P = (s : Site) (l : List Ending) → P s → P (record s { endings = l })

module _ (P : Site → Type 0) where
  pub Keeps-pure : {A : Type 0} (a : A) → Keeps P (pure a)
  Keeps-pure a = keeps (λ s h. h)

  pub Keeps-lift : {A : Type 0} (r : Result A) → Keeps P (lift r)
  Keeps-lift r = keeps (λ s h. h)

  pub Keeps-gets : {A : Type 0} (f : Site → A) → Keeps P (gets f)
  Keeps-gets f = keeps (λ s h. h)

  pub continue-kept :
      {A B : Type 0} (f : A → Exec Site B) (r : Result A) (s : Site)
      → ((a : A) → Keeps P (f a))
      → P s
      → P (continue r f s).1
  continue-kept f (ok a) s next h = kept (next a) s h
  continue-kept f (err e) s next h = h

  pub Keeps-bind :
      {A B : Type 0} {m : Exec Site A} {f : A → Exec Site B}
      → Keeps P m
      → ((a : A) → Keeps P (f a))
      → Keeps P (m >>= f)
  Keeps-bind {m = m} {f = f} (keeps k) next =
      keeps (λ s h. continue-kept f (m s).0 (m s).1 next (k s h))

  run_call-kept :
      (effect : Site → Site) (l : List Ending) (s : Site)
      → IsBlind P
      → ((s : Site) → P s → P (effect s))
      → P s
      → P (run_call l effect s).1
  run_call-kept effect [] s blind k h = k s h
  run_call-kept effect (done ∷ l) s blind k h = k (record s { endings = l }) (blind s l h)
  run_call-kept effect (undone ∷ l) s blind k h = k (record s { endings = l }) (blind s l h)
  run_call-kept effect (fails e true v ∷ l) s blind k h = k (record s { endings = l }) (blind s l h)
  run_call-kept effect (fails e false v ∷ l) s blind k h = blind s l h

  pub Keeps-call :
      (effect : Site → Site) → IsBlind P → ((s : Site) → P s → P (effect s)) → Keeps P (call effect)
  unfolding call
  Keeps-call effect blind k = keeps (λ s h. run_call-kept effect s.endings s blind k h)

  pub Keeps-raise_if : (b : Bool) (e : Error) → Keeps P (raise_if b e)
  Keeps-raise_if true e = keeps (λ s h. h)
  Keeps-raise_if false e = keeps (λ s h. h)

  pub Keeps-if :
      {A : Type 0} (b : Bool) {m n : Exec Site A}
      → Keeps P m
      → Keeps P n
      → Keeps P (if b then m else n)
  Keeps-if true k l = k
  Keeps-if false k l = l

  pub round_of-kept :
      (over : Bool) (tried : Result Bool × Site) (rest : Result (Unit {0}) × Site) (s : Site)
      → P s
      → P tried.1
      → P rest.1
      → P (round_of over tried rest s).1
  round_of-kept true tried rest s h k l = h
  round_of-kept false (ok true, v) rest s h k l = k
  round_of-kept false (ok false, v) rest s h k l = l
  round_of-kept false (err e, v) rest s h k l = retried-kept (is_retried e) e v rest k l
    where
      retried-kept :
          (b : Bool) (e : Error) (v : Site) (rest : Result (Unit {0}) × Site)
          → P v
          → P rest.1
          → P (if b then rest else (err e, v)).1
      retried-kept true e v rest k l = l
      retried-kept false e v rest k l = k
