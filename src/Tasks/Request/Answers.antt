-- ===== src/Tasks/Request/Answers.antt =====
-- When InstallMultiplePluginsToTenant answers that all is installed.
use dify_plugin_daemon.Common.{
  ◌≡◌, ◌≢◌, ◌↔◌, refl, ap, ◌∙◌, Bool, true, List, [], ◌∷◌, map, arith, All, Bool-cases,
  Option-cases, inl, inr,
}
use dify_plugin_daemon.Curd.Database.{
  Text, plugin_id_of, PluginRuntimeType, PluginDeclaration, Database, find_row,
}
use dify_plugin_daemon.Curd.Access.{Result, ok, err}
use dify_plugin_daemon.Curd.Install.{is_installed_by}
use dify_plugin_daemon.Curd.Quiet.{Installed}
use dify_plugin_daemon.Tasks.{World, take_fault}
use dify_plugin_daemon.Tasks.Job.{PluginInstallJob}
use dify_plugin_daemon.Tasks.Registry.{InstallTaskRegistry}
use dify_plugin_daemon.Tasks.Request.{
  all_installed, Request, has_plugin, one_installed, are_installed, conjunction, Jobs, made,
  no_declaration, out_of_range, make_jobs, submitted, request_made, request_checked,
  install_multiple_plugins_to_tenant,
}

are_installed-quiet :
    (tenant : Text) (identifiers : List Text) (db : Database)
    → are_installed tenant identifiers db []
      ≡ (ok (map (λ i. has_plugin tenant i db) identifiers), [])
unfolding are_installed one_installed take_fault
are_installed-quiet tenant [] db = refl
are_installed-quiet tenant (i ∷ identifiers) db =
    rw (are_installed-quiet tenant identifiers db) refl

has_plugin-Installed :
    (tenant identifier : Text) (db : Database)
    → (has_plugin tenant identifier db ≡ true)
      ↔ Installed tenant (plugin_id_of identifier) db.installations
unfolding has_plugin
has_plugin-Installed tenant identifier db =
    elim (Option-cases
      (find_row (is_installed_by (plugin_id_of identifier) tenant) 0 db.installations)) [
        | inl e ↦
            ((λ h. absurd (ground (arith, e, h))), λ (r, found). absurd (ground (arith, e, found)))
        | inr (r, e) ↦ ((λ h. (r, e)), λ found. rw e refl)
      ]

conjunction-All :
    (tenant : Text) (identifiers : List Text) (db : Database)
    → (conjunction (map (λ i. has_plugin tenant i db) identifiers) ≡ true)
      ↔ All (λ i. Installed tenant (plugin_id_of i) db.installations) identifiers
unfolding conjunction
conjunction-All tenant [] db = (λ h. tt, λ h. refl)
conjunction-All tenant (i ∷ identifiers) db =
    let (to, from) = conjunction-All tenant identifiers db in
    let (to_one, from_one) = has_plugin-Installed tenant i db in
    (
      λ h. (to_one (ground (arith, h)), to (ground (arith, h))),
      λ h. rw (from_one h.0, from h.1) refl,
    )

module _ (manager_ready : Bool) (fetch : Text → PluginRuntimeType → Result PluginDeclaration)
    (new_id : Text → Text) (runtime_type : PluginRuntimeType) (tenant : Text)
    (identifiers : List Text) (source : Text) (metas : List Text) where
  abbrev pub checked : Result (List Bool) × List Bool → World → Request
  checked = request_checked manager_ready fetch new_id runtime_type tenant identifiers source metas

  abbrev pub answered : World → Request
  answered =
      install_multiple_plugins_to_tenant manager_ready fetch new_id runtime_type tenant identifiers
        source metas

  -- The request behind the search, when no access fails.
  pub answered-quiet :
      (world : World)
      → world.faults ≡ []
      → answered world
        ≡ checked (ok (map (λ i. has_plugin tenant i world.database) identifiers), []) world
  unfolding install_multiple_plugins_to_tenant
  answered-quiet world quiet =
      ap (λ found. checked found world)
        (ap (are_installed tenant identifiers world.database) quiet
          ∙ are_installed-quiet tenant identifiers world.database)

  submitted-ne-all_installed :
      (jobs : List PluginInstallJob) (created : Result InstallTaskRegistry × World)
      → (submitted jobs created).response ≢ all_installed
  unfolding submitted
  submitted-ne-all_installed jobs (ok registry, world) h = cc
  submitted-ne-all_installed jobs (err e, world) h = cc

  request_made-ne-all_installed :
      (jobs : Jobs) (world : World)
      → (request_made fetch new_id runtime_type tenant identifiers source metas jobs world).response
        ≢ all_installed
  unfolding request_made
  request_made-ne-all_installed (made jobs) world h = submitted-ne-all_installed jobs _ h
  request_made-ne-all_installed (no_declaration e) world h = cc
  request_made-ne-all_installed out_of_range world h = cc

  checked-all_installed :
      (installed : List Bool) (world : World)
      → ((checked (ok installed, []) world).response ≡ all_installed)
        ↔ (conjunction installed ≡ true)
  unfolding request_checked
  checked-all_installed installed world = elim (Bool-cases (conjunction installed)) [
    | inl h ↦ rw h ((λ e. refl), λ e. refl)
    | inr h ↦ elim (Bool-cases manager_ready) [
      | inl m ↦
          rw (h, m)
            (
              (λ e. absurd (
                  request_made-ne-all_installed
                    (make_jobs (λ i. fetch i runtime_type) identifiers installed metas)
                    (record world { faults = [] }) e)),
              λ e. absurd (ground (arith, e)),
            )
      | inr m ↦ rw (h, m) ((λ e. cc), λ e. absurd (ground (arith, e)))
    ]
  ]

  -- When no access fails, InstallMultiplePluginsToTenant answers that all is installed exactly when
  -- the tenant has an installation of each of the plugins.
  pub install_multiple_plugins_to_tenant-all_installed :
      (world : World)
      → world.faults ≡ []
      → ((install_multiple_plugins_to_tenant manager_ready fetch new_id runtime_type tenant
            identifiers source metas world).response
          ≡ all_installed)
        ↔ All (λ i. Installed tenant (plugin_id_of i) world.database.installations) identifiers
  install_multiple_plugins_to_tenant-all_installed world quiet =
      let flags = map (λ i. has_plugin tenant i world.database) identifiers in
      let (to, from) = checked-all_installed flags world in
      let (to_all, from_all) = conjunction-All tenant identifiers world.database in
      rw (answered-quiet world quiet) ((λ h. to_all (to h)), λ h. from (from_all h))
