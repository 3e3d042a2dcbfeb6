-- ===== src/Handler/Tests.antt =====
-- A fresh preview, and the rules at it.
use gardena_matter_mqtt_brid.Base.{◌≡◌, refl, true, false, none, some, [], ◌∷◌}
use gardena_matter_mqtt_brid.Base.Exec.{ok, err, os_error}
use gardena_matter_mqtt_brid.Text.{str, str_eq}
use gardena_matter_mqtt_brid.Handler.{
  App, done, fails, has_migration, offer, read_file, write_file, post_worker, post_deploy, do_post,
}
use gardena_matter_mqtt_brid.Handler.Rules.{do_post-offer}

abbrev previewing : App
previewing = record {
  mode = str "preview";
  updated = 100;
  migration = none;
  deployed = false;
  action = none;
  deployment_action = none;
  locked = false;
  now = 130;
  endings = [];
}

activated :
    do_post (str "172.30.32.2") (str "/api/activate") previewing
    ≡ (ok 202, record previewing { action = some (str "activate") })
unfolding do_post post_worker read_file write_file str str_eq
activated = refl

abbrev running : App
running = record previewing { mode = str "active"; migration = some (str "active") }

do_post-offer_example :
    ((offer running).can_rollback ≡ true
      → do_post (str "172.30.32.2") (str "/api/rollback") running
        ≡ (ok 202, record running { action = some (str "rollback") }))
    × ((offer running).can_install ≡ true
        → do_post (str "172.30.32.2") (str "/api/install") running
          ≡ (ok 202, record running { deployment_action = some (str "install"); locked = true }))
    × (has_migration running ≡ true
        → (offer running).can_restore ≡ true
        → do_post (str "172.30.32.2") (str "/api/restore") running
          ≡ (ok 202, record running { deployment_action = some (str "restore"); locked = true }))
    × (has_migration running ≡ true
        → (offer running).can_cleanup ≡ true
        → do_post (str "172.30.32.2") (str "/api/cleanup") running
          ≡ (ok 202, record running { deployment_action = some (str "cleanup"); locked = true }))
do_post-offer_example = do_post-offer running refl

-- The write of an installation fails: there is no action, and the lock stays taken.
abbrev full_disk : App
full_disk = record running { endings = done ∷ done ∷ fails os_error false ∷ [] }

lock_kept :
    do_post (str "172.30.32.2") (str "/api/install") full_disk
    ≡ (err os_error, record running { locked = true })
unfolding do_post post_deploy read_file write_file str str_eq
lock_kept = refl
