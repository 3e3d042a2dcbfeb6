-- ===== src/Handler/Rules.antt =====
-- What a POST may change, and when.
use gardena_matter_mqtt_brid.Base.{◌≡◌, true, some, List, [], ◌∷◌, arith}
use gardena_matter_mqtt_brid.Base.Exec.{ok}
use gardena_matter_mqtt_brid.Text.{Str, str, str_eq}
use gardena_matter_mqtt_brid.Handler.{
  App, has_migration, offer, read_file, write_file, post_deploy, post_worker, do_post,
}

abbrev names : List Str
names = str "install" ∷ str "restore" ∷ str "cleanup" ∷ []

-- What the status page offers, a POST of the ingress address does when no read or write of it fails: a
-- rollback, an installation and, with a journal there, a restoration and a cleanup that `/api/status`
-- allows are answered 202, and are asked for.
pub do_post-offer :
    (a : App)
    → a.endings ≡ []
    → ((offer a).can_rollback ≡ true
        → do_post (str "172.30.32.2") (str "/api/rollback") a
          ≡ (ok 202, record a { action = some (str "rollback") }))
      × ((offer a).can_install ≡ true
          → do_post (str "172.30.32.2") (str "/api/install") a
            ≡ (ok 202, record a { deployment_action = some (str "install"); locked = true }))
      × (has_migration a ≡ true
          → (offer a).can_restore ≡ true
          → do_post (str "172.30.32.2") (str "/api/restore") a
            ≡ (ok 202, record a { deployment_action = some (str "restore"); locked = true }))
      × (has_migration a ≡ true
          → (offer a).can_cleanup ≡ true
          → do_post (str "172.30.32.2") (str "/api/cleanup") a
            ≡ (ok 202, record a { deployment_action = some (str "cleanup"); locked = true }))
unfolding do_post offer post_worker post_deploy read_file write_file str str_eq
do_post-offer a fine = (
  λ h. ground (arith, fine),
  λ h. ground (arith, fine),
  λ j h. ground (arith, fine),
  λ j h. ground (arith, fine),
)
