-- ===== src/Curd/Database.antt =====
-- The tables that the three operations write: internal/types/models/plugin.go, installation.go,
-- tool.go, agent.go, model.go, datasource.go and trigger.go.
-- A table with a unique plugin_unique_identifier is a function of it. The installations are the
-- list of the rows ever created, where a row's place is its primary key and a deleted row is none.
-- Times are left out, as are the parts of a declaration that the operations do not read.
use dify_plugin_daemon.Common.{
  ℕ, zero, suc, Bool, true, false, Option, none, some, List, [], ◌∷◌, ◌==◌, if◌then◌else◌, ite,
  ℕ_discrete,
}
pub use dify_plugin_daemon.Common.{ℤ, pos, negsuc}

-- A text is the list of its code points.
abbrev pub Text : Type 0
Text = List ℕ

unfoldable pub text_discrete : Discrete (List ℕ)
text_discrete = hlevel ℕ_discrete

abbrev pub same : Text → Text → Bool
same x y = ite (text_discrete x y) true false

unfoldable pub colons : Text → ℕ
colons [] = 0
colons (c ∷ cs) = if c == b':' then suc (colons cs) else colons cs

unfoldable pub before_colon : Text → Text
before_colon [] = []
before_colon (c ∷ cs) = if c == b':' then [] else c ∷ before_colon cs

-- PluginUniqueIdentifier.PluginID: the first of two parts around a colon.
unfoldable pub plugin_id_of : Text → Text
unfolding colons before_colon
plugin_id_of identifier = if colons identifier == 1 then before_colon identifier else identifier

unfoldable pub increment : ℤ → ℤ
increment (pos n) = pos (suc n)
increment (negsuc zero) = pos 0
increment (negsuc (suc n)) = negsuc n

unfoldable pub decrement : ℤ → ℤ
decrement (pos zero) = negsuc 0
decrement (pos (suc n)) = pos n
decrement (negsuc n) = negsuc (suc n)

abbrev pub is_zero : ℤ → Bool
is_zero (pos zero) = true
is_zero (pos (suc n)) = false
is_zero (negsuc n) = false

pub data PluginRuntimeType : Type 0 where
  local remote serverless : PluginRuntimeType

abbrev pub is_remote : PluginRuntimeType → Bool
is_remote local = false
is_remote remote = true
is_remote serverless = false

abbrev pub is_serverless : PluginRuntimeType → Bool
is_serverless local = false
is_serverless remote = false
is_serverless serverless = true

pub data ManifestType : Type 0 where
  unset plugin_type : ManifestType

-- The parts of a declaration, each with the name of its provider.
pub record PluginDeclaration : Type 0 where
  pub tool : Option Text
  pub agent_strategy : Option Text
  pub model : Option Text
  pub datasource : Option Text
  pub trigger : Option Text

pub record Plugin : Type 0 where
  pub unique_identifier : Text
  pub plugin_id : Text
  pub refers : ℤ
  pub install_type : PluginRuntimeType
  pub manifest_type : ManifestType
  pub remote_declaration : Option PluginDeclaration
  pub source : Text

-- `meta` is the serialised text.
pub record PluginInstallation : Type 0 where
  pub tenant_id : Text
  pub plugin_id : Text
  pub unique_identifier : Text
  pub runtime_type : PluginRuntimeType
  pub endpoints_setups : ℕ
  pub endpoints_active : ℕ
  pub source : Text
  pub meta : Text

-- The five tables of what a plugin contributes to a tenant.
pub data Part : Type 0 where
  tool agent_strategy model datasource trigger : Part

abbrev pub part_index : Part → ℕ
part_index tool = 0
part_index agent_strategy = 1
part_index model = 2
part_index datasource = 3
part_index trigger = 4

pub record PartInstallation : Type 0 where
  pub part : Part
  pub plugin_id : Text
  pub unique_identifier : Text
  pub tenant_id : Text
  pub provider : Text

pub record Database : Type 0 where
  pub plugins : Text → Option Plugin
  pub declarations : Text → Option PluginDeclaration
  pub serverless_runtimes : Text → Option Text
  pub installations : List (Option PluginInstallation)
  pub parts : List PartInstallation

abbrev pub empty_database : Database
empty_database = record {
  plugins = λ u. none;
  declarations = λ u. none;
  serverless_runtimes = λ u. none;
  installations = [];
  parts = [];
}

unfoldable pub put : {A : Type 0} → Text → Option A → (Text → Option A) → Text → Option A
put key row table u = ite (text_discrete u key) row (table u)

-- The first row that passes the test, with its primary key, counted from `k`.
unfoldable pub find_row :
    (ℕ → PluginInstallation → Bool)
    → ℕ
    → List (Option PluginInstallation)
    → Option (ℕ × PluginInstallation)
find_row test k [] = none
find_row test k (none ∷ rows) = find_row test (suc k) rows
find_row test k (some r ∷ rows) = if test k r then some (k, r) else find_row test (suc k) rows

unfoldable pub set_row :
    ℕ
    → Option PluginInstallation
    → List (Option PluginInstallation)
    → List (Option PluginInstallation)
set_row k row [] = []
set_row zero row (r ∷ rows) = row ∷ rows
set_row (suc k) row (r ∷ rows) = r ∷ set_row k row rows
