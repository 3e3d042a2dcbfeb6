-- ===== src/Handler/Due.antt =====
-- What a POST may ask for, when that is due, and how a POST may end.
use gardena_matter_mqtt_brid.Base.{ℕ, ◌≡◌, ◌≢◌, ◌⊎◌, true, false, ◌++◌, some, [], ◌∷◌}
use gardena_matter_mqtt_brid.Base.Exec.{Error, Result, ok, err}
use gardena_matter_mqtt_brid.Text.{Str, str, str_eq, contains}
use gardena_matter_mqtt_brid.Handler.{App, fresh, has_migration}

-- What a POST can ask for: an action of the main loop, under the lock, or one of the worker.
pub data Demand : Type 0 where
  deployment worker : Str → Demand

-- Which demand of a POST is due: its address is that of the ingress, its path names the demand, and the
-- app's files and the lock allow it.
pub data IsDue (address path : Str) (a : App) : Demand → Type 0 where
  deploys :
      (name : Str)
      → str_eq address (str "172.30.32.2") ≡ true
      → path ≡ str "/api/" ++ name
      → contains (str "install" ∷ str "restore" ∷ str "cleanup" ∷ []) name ≡ true
      → has_migration a ≡ true
      → a.locked ≡ false
      → IsDue address path a (deployment name)
  activates :
      str_eq address (str "172.30.32.2") ≡ true
      → path ≡ str "/api/activate"
      → a.deployed ≡ false
      → a.locked ≡ false
      → a.mode ≡ str "preview"
      → fresh a ≡ true
      → IsDue address path a (worker (str "activate"))
  rolls_back :
      str_eq address (str "172.30.32.2") ≡ true
      → path ≡ str "/api/rollback"
      → a.deployed ≡ false
      → a.locked ≡ false
      → has_migration a ≡ true
      → IsDue address path a (worker (str "rollback"))

-- What is left of the list of endings is no state of the app.
abbrev pub IsLike : App → App → Type 0
IsLike a b = b ≡ record a { endings = b.endings }

abbrev pub granted : Demand → App → App
granted (deployment name) a = record a { deployment_action = some name; locked = true }
granted (worker name) a = record a { action = some name }

-- The lock of a demand whose write failed before its effect.
abbrev pub half_granted : Demand → App → App
half_granted (deployment name) a = record a { locked = true }
half_granted (worker name) a = a

-- How a POST ends: granted, refused, or raised by a failing read, or by a failing write of a demand that
-- is due.
pub data Post (address path : Str) (a : App) : Result ℕ → App → Type 0 where
  grants :
      (d : Demand) (b : App)
      → IsDue address path a d
      → IsLike (granted d a) b
      → Post address path a (ok 202) b
  refuses :
      (code : ℕ) (b : App)
      → code ≢ 202
      → ((d : Demand) → IsDue address path a d → ⊥)
      → IsLike a b
      → Post address path a (ok code) b
  unread : (e : Error) (b : App) → IsLike a b → Post address path a (err e) b
  unwritten :
      (e : Error) (d : Demand) (b : App)
      → IsDue address path a d
      → IsLike (granted d a) b ⊎ IsLike (half_granted d a) b
      → Post address path a (err e) b
