-- ===== src/Deploy/Actions.antt =====
-- What a restoration, a cleanup and a check of the gateway keep.
use gardena_matter_mqtt_brid.Base.{
  ◌≡◌, refl, sym, ◌∙◌, ◌≢◌, inl, inr, Bool, true, false, not, Option, none, some, arith,
  if◌then◌else◌, Bool-cases,
}
use gardena_matter_mqtt_brid.Base.Exec.{
  Result, ok, err, Run-cases, raise, raise_if, connection_error, attribute_error, lift, ◌>>◌,
  value_error,
}
use gardena_matter_mqtt_brid.Text.{Str, str, str_eq}
use gardena_matter_mqtt_brid.Deploy.{Site, Cleaning, Config, Deployment, call, nothing, report}
use gardena_matter_mqtt_brid.Deploy.Cleanup
use gardena_matter_mqtt_brid.Deploy.Install.{
  Inputs, health, restore_ha, refresh_status, refresh_of, healthy, matches, retire, is_null,
}
use gardena_matter_mqtt_brid.Deploy.Supervisor.{recover, refresh}
use gardena_matter_mqtt_brid.Deploy.Keeps.{
  Keeps, keeps, kept, Keeps-gets, Keeps-bind, Keeps-call, Keeps-if, Keeps-raise_if, continue-kept,
}
use gardena_matter_mqtt_brid.Deploy.Single.{
  IsSingle, IsHeld, IsSingle-Ignores, IsHeld-Ignores, retire-IsSingle, journal-IsHeld,
  health-IsHeld, report-IsHeld,
}

pub report-IsSingle : (m : Str) → Keeps IsSingle (report m)
unfolding report
report-IsSingle m = Keeps-call IsSingle _ IsSingle-Ignores.0 (λ s h. IsSingle-Ignores.2 s m h)

-- Between two turns the worker does not run while there is a journal.
abbrev pub IsSettled : Site → Type 0
IsSettled s = IsSingle s × (s.deployment ≢ none → s.worker ≡ false)

pub nothing-IsSettled : Keeps IsSettled (call nothing)
nothing-IsSettled = Keeps-call IsSettled nothing (λ s l h. ground arith) (λ s h. h)

matches_some : (cfg : Config) (d : Option Deployment) → matches cfg d ≡ true → d ≢ none
matches_some cfg none h e = cc
matches_some cfg (some d) h e = cc

restored :
    (cfg : Config) (d : Option Deployment) (s : Site)
    → s.deployment ≡ d
    → IsSettled s
    → IsSingle
        ((do
          lift (if matches cfg d then ok tt else err value_error)
          retire
          report (str "starting"))
          s).1
restored cfg d s e h = elim (Bool-cases (matches cfg d)) [
  | inr other ↦ rw other h.0
  | inl same ↦
      let held : IsHeld s = record {
        journal = λ gone. matches_some cfg d same (sym e ∙ gone);
        stopped = h.1 (λ gone. matches_some cfg d same (sym e ∙ gone));
        before = h.0.seen;
      } in
      rw same (
        continue-kept IsSingle (λ u. report (str "starting")) (retire s).0 (retire s).1
          (λ u. report-IsSingle _) (retire-IsSingle s held))
]

nothing-IsSingle : Keeps IsSingle (call nothing)
nothing-IsSingle = Keeps-call IsSingle nothing IsSingle-Ignores.0 (λ s h. h)

health-IsSingle : Keeps IsSingle health
unfolding health
health-IsSingle = keeps (λ s h. ground arith)

write_cleanup-IsSingle : (p : Cleaning) → Keeps IsSingle (Cleanup.write_cleanup p)
unfolding Cleanup.write_cleanup
write_cleanup-IsSingle p = Keeps-call IsSingle _ IsSingle-Ignores.0 (λ s h. ground arith)

clean-IsSingle : Keeps IsSingle Cleanup.clean
unfolding Cleanup.clean
clean-IsSingle = Keeps-bind IsSingle nothing-IsSingle (λ u.
    Keeps-bind IsSingle health-IsSingle (λ well.
      Keeps-bind IsSingle (Keeps-raise_if IsSingle (not well) connection_error)
        (λ v. write_cleanup-IsSingle _)))

note_unclean-IsSingle :
    (m : Result (Unit {0}) × Site) → IsSingle m.1 → IsSingle (Cleanup.note_unclean m).1
note_unclean-IsSingle (ok u, s) h = h
note_unclean-IsSingle (err e, s) h =
    kept (Keeps-bind IsSingle {f = λ u. raise e} (write_cleanup-IsSingle _) (λ u. keeps (λ v k. k)))
      s h

pub cleanup-IsSingle : (cfg : Config) → Keeps IsSingle (Cleanup.run cfg)
unfolding Cleanup.run
cleanup-IsSingle cfg = Keeps-bind IsSingle nothing-IsSingle (λ u.
    Keeps-bind IsSingle (Keeps-gets IsSingle (λ s. s.deployment)) (λ d.
      Keeps-bind IsSingle
        (Keeps-if IsSingle (Cleanup.in_place cfg d) health-IsSingle (keeps (λ s h. h)))
        (λ well. Keeps-bind IsSingle (Keeps-raise_if IsSingle (not well) value_error) (λ v.
          Keeps-bind IsSingle (write_cleanup-IsSingle _) (λ w.
            keeps (λ s h. note_unclean-IsSingle (Cleanup.clean s) (kept clean-IsSingle s h)))))))

pub restore_ha-IsSingle : (cfg : Config) (s : Site) → IsSettled s → IsSingle (restore_ha cfg s).1
restore_ha-IsSingle cfg s h = elim (Run-cases (call nothing s)) [
  | inr (x, v, e) ↦
      let k : IsSettled v = rw e at (kept nothing-IsSettled s h) in unfold restore_ha in rw e k.0
  | inl (u, v, e) ↦
      let k : IsSettled v = rw e at (kept nothing-IsSettled s h) in
      unfold restore_ha in rw e (restored cfg v.deployment v refl k)
]

nothing-IsHeld : Keeps IsHeld (call nothing)
nothing-IsHeld = Keeps-call IsHeld nothing IsHeld-Ignores.0 (λ s h. h)

-- Held, and the journal stays through a check of the gateway.
healthy-IsHeld : (d : Deployment) (b : Bool) → Keeps IsHeld (healthy d b)
healthy-IsHeld d true = Keeps-bind IsHeld (journal-IsHeld _) (λ u.
    Keeps-bind IsHeld nothing-IsHeld (λ v.
      Keeps-bind IsHeld {f = λ missing. do raise_if missing attribute_error; report (str "gateway")}
        (Keeps-gets IsHeld is_null)
        (λ missing.
          Keeps-bind IsHeld (Keeps-raise_if IsHeld missing attribute_error)
            (λ w. report-IsHeld _))))
healthy-IsHeld d false = report-IsHeld _

refresh_of-IsHeld : (cfg : Config) (d : Option Deployment) → Keeps IsHeld (refresh_of cfg d)
refresh_of-IsHeld cfg none = keeps (λ s h. h)
refresh_of-IsHeld cfg (some d) =
    Keeps-if IsHeld (not (str_eq d.binding cfg.binding)) (keeps (λ s h. h))
      (Keeps-bind IsHeld health-IsHeld (healthy-IsHeld d))

refresh_status-IsHeld : (cfg : Config) → Keeps IsHeld (refresh_status cfg)
unfolding refresh_status
refresh_status-IsHeld cfg =
    Keeps-bind IsHeld nothing-IsHeld
      (λ u. Keeps-bind IsHeld (Keeps-gets IsHeld (λ s. s.deployment)) (refresh_of-IsHeld cfg))

recover-IsHeld : (m : Result (Unit {0}) × Site) → IsHeld m.1 → IsHeld (recover m).1
recover-IsHeld (ok u, s) h = h
recover-IsHeld (err e, s) h = kept (report-IsHeld _) s h

pub refresh-IsHeld : (i : Inputs) → Keeps IsHeld (refresh i)
unfolding refresh
refresh-IsHeld i = keeps (λ s h.
    recover-IsHeld (refresh_status i.cfg (call nothing s).1)
      (kept (refresh_status-IsHeld i.cfg) (call nothing s).1 (kept nothing-IsHeld s h)))
