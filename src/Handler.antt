-- ===== src/Handler.antt =====
-- gardena_local_mqtt/app.py, `Handler`: what a request to the app answers and changes. The files and
-- the lock are a state; `stop_child` and the page are none of it.
mod Due
mod Posts
mod Rules
mod Tests
use gardena_matter_mqtt_brid.Base.{
  ℕ, ◌-◌, Bool, true, false, not, ◌&&◌, ◌||◌, Option, none, some, List, [], ◌∷◌, ◌++◌, ltb,
  if◌then◌else◌,
}
use gardena_matter_mqtt_brid.Base.Exec.{
  Exec, Error, Result, ok, err, pure, gets, modify, ◌>>=◌, ◌>>◌,
}
use gardena_matter_mqtt_brid.Text.{Str, str, str_eq, contains}

-- How a call of storage.py ends: done, or with an error before or after its effect. A call that the
-- list does not reach is done.
pub data Ending : Type 0 where
  done : Ending
  fails : Error → Bool → Ending

-- What is read of the files status.json, migration.json and gateway_deployment.json, the actions
-- that are asked for, DEPLOY_LOCK, and the time in seconds.
pub record App : Type 0 where
  pub mode : Str
  pub updated : ℕ
  pub migration : Option Str
  pub deployed : Bool
  pub action : Option Str
  pub deployment_action : Option Str
  pub locked : Bool
  pub now : ℕ
  pub endings : List Ending

-- `time.time() - status.get('updated', 0) < 45`, for a time of writing that is not to come.
abbrev pub fresh : App → Bool
fresh a = ltb (a.now - a.updated) 45

abbrev is_some {ℓ} : {A : Type ℓ} → Option A → Bool
is_some none = false
is_some (some x) = true

abbrev pub has_migration : App → Bool
has_migration a = is_some a.migration

-- `self.allowed()`
abbrev pub allowed : Str → Bool
allowed address = str_eq address (str "172.30.32.2")

-- `migration.get('phase') == 'active'`
abbrev is_active : Option Str → Bool
is_active none = false
is_active (some phase) = str_eq phase (str "active")

-- What `/api/status` says may be asked for.
pub record Offer : Type 0 where
  pub can_rollback : Bool
  pub can_install : Bool
  pub can_restore : Bool
  pub can_cleanup : Bool

unfoldable pub offer : App → Offer
offer a = record {
  can_rollback = has_migration a && (not a.deployed && not a.locked);
  can_install = is_active a.migration && not a.locked;
  can_restore = a.deployed && not a.locked;
  can_cleanup = a.deployed && (str_eq a.mode (str "gateway") && (fresh a && not a.locked));
}

-- The answer's code, and the state that is left.
unfoldable pub do_get : Str → Str → App → ℕ × Option Offer × App
do_get address path a =
    if not (allowed address)
    then (403, none, a)
    else if contains (str "/" ∷ str "/index.html" ∷ []) path
    then (200, none, a)
    else if str_eq path (str "/api/status")
    then (200, some (offer a), a)
    else (404, none, a)

-- `self.path.rsplit('/', 1)[1]` of the three paths
abbrev pub deploy_actions : List (Str × Str)
deploy_actions =
    (str "/api/install", str "install")
    ∷ (str "/api/restore", str "restore")
    ∷ (str "/api/cleanup", str "cleanup")
    ∷ []

abbrev pub action_of : List (Str × Str) → Str → Option Str
action_of [] path = none
action_of ((p, name) ∷ l) path = if str_eq p path then some name else action_of l path

abbrev pub deploy_action : Str → Option Str
deploy_action path = action_of deploy_actions path

abbrev pub run_call : List Ending → (App → App) → Exec App (Unit {0})
run_call [] effect a = (ok tt, effect a)
run_call (done ∷ l) effect a = (ok tt, effect (record a { endings = l }))
run_call (fails e true ∷ l) effect a = (err e, effect (record a { endings = l }))
run_call (fails e false ∷ l) effect a = (err e, record a { endings = l })

-- `storage.read` and `storage.write`
abbrev pub same_app : App → App
same_app a = a

unfoldable pub read_file : Exec App (Unit {0})
read_file a = run_call a.endings same_app a

unfoldable pub write_file : (App → App) → Exec App (Unit {0})
write_file effect a = run_call a.endings effect a

abbrev pub lock : App → App
lock a = record a { locked = true }

abbrev pub ask_deployment : Str → App → App
ask_deployment name a = record a { deployment_action = some name }

abbrev pub ask_worker : Str → App → App
ask_worker name a = record a { action = some name }

abbrev pub acquire : Str → Bool → Exec App ℕ
acquire name true = pure 409
acquire name false = do modify lock; write_file (ask_deployment name); pure 202

-- The paths that need the lock: it is taken here and given back by the main loop. A write that fails
-- leaves it taken.
unfoldable pub post_deploy : Str → Exec App ℕ
post_deploy name = do
  read_file
  busy ← gets (λ a. not (has_migration a) || a.locked)
  acquire name busy

abbrev pub write_or_refuse : Str → Bool → Exec App ℕ
write_or_refuse name true = do write_file (ask_worker name); pure 202
write_or_refuse name false = pure 409

abbrev pub maybe_rollback : Str → Exec App ℕ
maybe_rollback path =
    if str_eq path (str "/api/rollback")
    then (do read_file; journal ← gets has_migration; write_or_refuse (str "rollback") journal)
    else pure 409

abbrev pub is_preview : Str → App → Bool
is_preview path a = str_eq path (str "/api/activate") && (str_eq a.mode (str "preview") && fresh a)

abbrev pub worker_asked : Str → Bool → Exec App ℕ
worker_asked path true = write_or_refuse (str "activate") true
worker_asked path false = maybe_rollback path

abbrev pub when_free : Str → Bool → Exec App ℕ
when_free path true = pure 409
when_free path false = do preview ← gets (is_preview path); worker_asked path preview

unfoldable pub post_worker : Str → Exec App ℕ
post_worker path = do read_file; busy ← gets (λ a. a.deployed || a.locked); when_free path busy

abbrev pub routed : Str → Option Str → Exec App ℕ
routed path none = post_worker path
routed path (some name) = post_deploy name

-- The code that is answered, none when the request raises.
unfoldable pub do_post : Str → Str → Exec App ℕ
do_post address path =
    if not (allowed address) then pure 403 else (do read_file; routed path (deploy_action path))
