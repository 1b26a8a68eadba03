-- ===== src/Tasks/Job/Saving.antt =====
-- SaveInstallationForTenantsToDB where no access fails.
use dify_plugin_daemon.Common.{Option, none, some, List, [], ◌∷◌, ◌≡◌, refl, All, inl, inr, ◌⊎◌}
use dify_plugin_daemon.Curd.Database.{
  Text, plugin_id_of, PluginRuntimeType, Plugin, PluginInstallation,
}
use dify_plugin_daemon.Curd.Access.{Error, Result, ok, err, plugin_already_installed}
use dify_plugin_daemon.Curd.Quiet.{Installed, AllNamed, install_plugin-Installs}
use dify_plugin_daemon.Tasks.{World}
use dify_plugin_daemon.Tasks.Job.{
  PluginInstallJob, tolerated, save_next, save_installation_for_tenant_to_db,
  save_installation_for_tenants_to_db,
}

-- The tenants have the plugin, no installation is lost, and there is no error.
pub record Saved (tenants : List Text) (identifier : Text) (before : World)
    (end : Option Error × World) : Type 0 where
  pub no_error : end.0 ≡ none
  pub quiet : end.1.faults ≡ []
  pub named : AllNamed end.1.database
  pub installed :
      All (λ t. Installed t (plugin_id_of identifier) end.1.database.installations) tenants
  pub kept :
      (t plugin : Text)
      → Installed t plugin before.database.installations
      → Installed t plugin end.1.database.installations

tolerated-none :
    (result : Result (Plugin × PluginInstallation))
    → (result ≡ err plugin_already_installed)
      ⊎ ((a : Plugin × PluginInstallation) × (result ≡ ok a))
    → tolerated result ≡ none
tolerated-none result (inl e) = rw e refl
tolerated-none result (inr (a, e)) = rw e refl

save_one :
    (tenant : Text) (job : PluginInstallJob) (runtime_type : PluginRuntimeType) (source : Text)
    (world : World)
    → world.faults ≡ []
    → AllNamed world.database
    → Saved
        (tenant ∷ [])
        job.identifier
        world
        (save_installation_for_tenant_to_db tenant job runtime_type source world)
unfolding save_installation_for_tenant_to_db
save_one tenant job runtime_type source world quiet named =
    let done =
      install_plugin-Installs tenant job.identifier runtime_type job.declaration source job.meta
        world.database named in
    rw quiet (record {
      no_error = tolerated-none _ done.result;
      quiet = done.quiet;
      named = done.named;
      installed = (done.installed, tt);
      kept = done.kept;
    })

save_next-Saved :
    (tenant : Text) (tenants : List Text) (identifier : Text) (before : World)
    (next : World → Option Error × World) (end : Option Error × World)
    → Saved (tenant ∷ []) identifier before end
    → ((world : World)
        → world.faults ≡ []
        → AllNamed world.database
        → Saved tenants identifier world (next world))
    → Saved (tenant ∷ tenants) identifier before (save_next next end)
unfolding save_next
save_next-Saved tenant tenants identifier before next (some e, world) first rest =
    absurd (let h = first.no_error in cc)
save_next-Saved tenant tenants identifier before next (none, world) first rest =
    let others = rest world first.quiet first.named in
    record {
      no_error = others.no_error;
      quiet = others.quiet;
      named = others.named;
      installed =
          (others.kept tenant (plugin_id_of identifier) first.installed.0, others.installed);
      kept = λ t plugin had. others.kept t plugin (first.kept t plugin had);
    }

-- SaveInstallationForTenantsToDB, when no access fails and the plugins' rows have the plugin_id of
-- their identifiers: it returns no error, each of the tenants has the plugin, whether or not it had
-- it before, and no tenant loses an installation of any plugin.
pub save_installation_for_tenants_to_db-Saved :
    (tenants : List Text) (job : PluginInstallJob) (runtime_type : PluginRuntimeType)
    (source : Text) (world : World)
    → world.faults ≡ []
    → AllNamed world.database
    → Saved tenants job.identifier world
        (save_installation_for_tenants_to_db tenants job runtime_type source world)
unfolding save_installation_for_tenants_to_db
save_installation_for_tenants_to_db-Saved [] job runtime_type source world quiet named = record {
  no_error = refl;
  quiet = quiet;
  named = named;
  installed = tt;
  kept = λ t plugin had. had;
}
save_installation_for_tenants_to_db-Saved (tenant ∷ tenants) job runtime_type source world quiet
      named =
    save_next-Saved tenant tenants job.identifier world
      (save_installation_for_tenants_to_db tenants job runtime_type source)
      (save_installation_for_tenant_to_db tenant job runtime_type source world)
      (save_one tenant job runtime_type source world quiet named)
      (save_installation_for_tenants_to_db-Saved tenants job runtime_type source)
