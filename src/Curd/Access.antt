-- ===== src/Curd/Access.antt =====
-- The accesses of internal/db/executor.go inside a transaction, and WithTransaction.
-- Each access takes the next entry of a list that says whether it fails; from its end on, all
-- accesses succeed.
use dify_plugin_daemon.Common.{Bool, true, false, ◌&&◌, List, [], ◌∷◌, ◌++◌, if◌then◌else◌, ◌==◌}
use dify_plugin_daemon.Curd.Database.{Text, same, Part, part_index, PartInstallation, Database}

pub data Error : Type 0 where
  database_error not_found plugin_already_installed not_been_installed missing_where : Error
  cache_error : Error

abbrev pub Faults : Type 0
Faults = List Bool

pub data Step (A : Type 0) : Type 0 where
  done : A → Database → Faults → Step A
  failed : Error → Faults → Step A

abbrev pub Tx : Type 0 → Type 0
Tx A = Database → Faults → Step A

unfoldable pub and_then : {A B : Type 0} → Step A → (A → Tx B) → Step B
and_then (done a db fs) f = f a db fs
and_then (failed e fs) f = failed e fs

infixr 3 ◌>>◌
infixl 4 ◌>>=◌
abbrev pub ◌>>=◌ : {Old New : Type 0} → Tx Old → (Old → Tx New) → Tx New
(m >>= f) db fs = and_then (m db fs) f

abbrev pub ◌>>◌ : {B : Type 0} → Tx (Unit {0}) → Tx B → Tx B
m >> k = m >>= λ _. k

abbrev pub pure : {A : Type 0} → A → Tx A
pure a db fs = done a db fs

abbrev pub raise : {A : Type 0} → Error → Tx A
raise e db fs = failed e fs

-- One access to the database.
unfoldable pub access : {A : Type 0} → (Database → A × Database) → Tx A
access f db [] = done (f db).0 (f db).1 []
access f db (true ∷ fs) = failed database_error fs
access f db (false ∷ fs) = done (f db).0 (f db).1 fs

abbrev pub query : {A : Type 0} → (Database → A) → Tx A
query f = access (λ db. (f db, db))

abbrev pub modify : (Database → Database) → Tx Unit
modify f = access (λ db. (tt, f db))

-- The condition of a text field in Where on a struct, which skips an empty field.
abbrev pub holds : Text → Text → Bool
holds [] y = true
holds (c ∷ cs) y = same (c ∷ cs) y

abbrev pub is_empty : Text → Bool
is_empty [] = true
is_empty (c ∷ cs) = false

-- DeleteByCondition of the row of a part with a PluginID and a TenantID.
unfoldable pub remove_parts : Part → Text → Text → List PartInstallation → List PartInstallation
remove_parts part plugin tenant [] = []
remove_parts part plugin tenant (r ∷ rows) =
    if part_index part == part_index r.part
      && (holds plugin r.plugin_id && holds tenant r.tenant_id)
    then remove_parts part plugin tenant rows
    else r ∷ remove_parts part plugin tenant rows

unfoldable pub delete_part : Part → Text → Text → Tx Unit
unfolding access remove_parts
delete_part part plugin tenant =
    if is_empty plugin && is_empty tenant
    then raise missing_where
    else modify (λ db. record db { parts = remove_parts part plugin tenant db.parts })

-- Create of the row of a part.
unfoldable pub create_part : PartInstallation → Tx Unit
unfolding access
create_part row = modify (λ db. record db { parts = db.parts ++ row ∷ [] })

-- What WithTransaction leaves: what the function returned, if it returned no error.
pub data Result (A : Type 0) : Type 0 where
  err : Error → Result A
  ok : A → Result A

pub record Outcome (A : Type 0) : Type 0 where
  pub result : Result A
  pub database : Database
  pub faults : Faults

-- The error of Commit is not read.
unfoldable pub commit : {A : Type 0} → Database → Step A → Outcome A
commit old (failed e fs) = record { result = err e; database = old; faults = fs }
commit old (done a db []) = record { result = ok a; database = db; faults = [] }
commit old (done a db (true ∷ fs)) = record { result = ok a; database = old; faults = fs }
commit old (done a db (false ∷ fs)) = record { result = ok a; database = db; faults = fs }

-- WithTransaction; the first access is Begin. Rollback restores the tables whatever it returns.
unfoldable pub with_transaction : {A : Type 0} → Tx A → Database → Faults → Outcome A
unfolding commit
with_transaction m db [] = commit db (m db [])
with_transaction m db (true ∷ fs) = record {
  result = err database_error;
  database = db;
  faults = fs;
}
with_transaction m db (false ∷ fs) = commit db (m db fs)

-- What the operations ask the cache to drop: an installation of a plugin by a tenant, or the list of
-- a tenant's model installations.
pub data CacheKey : Type 0 where
  plugin_installation : Text → Text → CacheKey
  model_installations : Text → CacheKey

-- An operation's result, the tables and the cache keys that it drops.
pub record Report (A : Type 0) : Type 0 where
  pub outcome : Outcome A
  pub cleared : List CacheKey
