-- ===== src/Curd/References/Drops.antt =====
-- The declaration of a plugin that is uninstalled.
use dify_plugin_daemon.Common.{
  ℕ, Bool, true, false, Option, none, some, ◌≡◌, ap, sym, subst, ◌∙◌, ◌≢◌,
}
use dify_plugin_daemon.Curd.Database.{
  Text, text_discrete, is_zero, PluginDeclaration, Plugin, Database, put,
}
use dify_plugin_daemon.Curd.Access.{Faults}
use dify_plugin_daemon.Curd.Uninstall.{unrefer, uninstall_plugin}
use dify_plugin_daemon.Curd.Rows.{put-same, put-other}
use dify_plugin_daemon.Curd.References.{WellFormed}
use dify_plugin_daemon.Curd.References.Removal.{settled}
use dify_plugin_daemon.Curd.References.Uninstall.{released, uninstall_plugin-Post}

abbrev Dropped : Text → Database → Type 0
Dropped u x = x.plugins u ≡ none → x.declarations u ≡ none

put-some :
    (i u : Text) (p p0 : Plugin) (t : Text → Option Plugin)
    → t u ≡ some p0
    → put i (some p) t u ≢ none
put-some i u p p0 t had = elim (text_discrete u i) [
  | yes e ↦
      subst (λ u. put i (some p) t u ≢ none) (sym e)
        (λ gone. absurd (some-none (sym (put-same i (some p) t) ∙ gone)))
  | no n ↦ λ gone. some-none (sym had ∙ sym (put-other i u (some p) t n) ∙ gone)
]
  where
    some-none : {q : Plugin} → ¬ (◌≡◌ {A = Option Plugin} (some q) none)
    some-none h = cc

settled-Dropped :
    (b : Bool) (i u : Text) (x : Database) → x.plugins u ≢ none → Dropped u (settled b i x)
settled-Dropped true i u x some_row gone = elim (text_discrete u i) [
  | yes e ↦
      subst (λ u. (settled true i x).declarations u ≡ none) (sym e) (put-same i none x.declarations)
  | no n ↦ absurd (some_row (sym (put-other i u none x.plugins n) ∙ gone))
]
settled-Dropped false i u x some_row gone = absurd (some_row gone)

-- UninstallPlugin on well formed tables, whatever accesses fail: a plugin whose row it deletes loses
-- its declaration too.
pub uninstall_plugin-drops :
    (tenant identifier : Text) (id : ℕ) (declaration : PluginDeclaration) (db : Database)
    (faults : Faults) (u : Text) (p : Plugin)
    → WellFormed db
    → db.plugins u ≡ some p
    → (uninstall_plugin tenant identifier id declaration db faults).outcome.database.plugins u
      ≡ none
    → (uninstall_plugin tenant identifier id declaration db faults).outcome.database.declarations u
      ≡ none
uninstall_plugin-drops tenant i id d db fs u p0 w had =
    uninstall_plugin-Post (Dropped u) tenant i id d db fs w (λ gone. cc)
      λ x (k, q, p, e, hq, rep, same) gone.
        ap (λ (t : Text → Option PluginDeclaration). t u) same.1
        ∙ settled-Dropped (is_zero (unrefer p).refers) i u (released i p k db)
            (put-some i u (unrefer p) p0 db.plugins had)
            (ap (λ (t : Text → Option Plugin). t u) (sym same.0) ∙ gone)
