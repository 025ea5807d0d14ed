-- ===== src/Tenancy/Store/Workspaces.antt =====
-- InMemoryWorkspaceStore of backend/app/tenancy/store.py.
use autonomous_agent_runtime.Tenancy.Contracts.{Workspace}
use autonomous_agent_runtime.Prelude.{
  ℕ, ◌+◌, String, Bool, true, not, Option, none, some, List, if◌then◌else◌, any, find,
  string_instance, ◌==◌, nat_instance, lookup, put,
}

-- The keys that `changes` can have; `none` for one that it does not have.
pub record WorkspaceChanges : Type 0 where
  pub name : Option String
  pub logo_ref : Option (Option String)
  pub is_active : Option Bool
  pub default_timezone : Option String
  pub default_locale : Option String
  pub default_currency : Option String
  pub fiscal_year_start_month : Option ℕ
  pub number_format : Option String
  pub date_format : Option String

pub record NewWorkspace : Type 0 where
  pub name : String
  pub slug : String
  pub logo_ref : Option String
  pub default_timezone : String
  pub default_locale : String
  pub default_currency : String

abbrev pub workspace_key : Workspace → String
workspace_key w = w.id

abbrev pub either {ℓ} : {A : Type ℓ} → Option A → A → A
either none a = a
either (some b) a = b

unfoldable pub create :
    String → ℕ → NewWorkspace → List Workspace → Option Workspace × List Workspace
create id now given store =
    if any (λ w. w.slug == given.slug) store
    then (none, store)
    else let workspace : Workspace = record {
      id = id;
      name = given.name;
      slug = given.slug;
      logo_ref = given.logo_ref;
      is_active = true;
      default_timezone = given.default_timezone;
      default_locale = given.default_locale;
      default_currency = given.default_currency;
      fiscal_year_start_month = 1;
      number_format = "1,234.56";
      date_format = "YYYY-MM-DD";
      version = 1;
      created_at = now;
      updated_at = now;
    } in
      (some workspace, put workspace_key workspace store)

abbrev pub get : String → List Workspace → Option Workspace
get = lookup workspace_key

unfoldable pub get_by_slug : String → List Workspace → Option Workspace
get_by_slug slug = find (λ w. w.slug == slug)

-- `existing.model_copy(update={**changes, "version": existing.version + 1, ...})`
unfoldable pub changed : ℕ → WorkspaceChanges → Workspace → Workspace
changed now changes w = record w {
  name = either changes.name w.name;
  logo_ref = either changes.logo_ref w.logo_ref;
  is_active = either changes.is_active w.is_active;
  default_timezone = either changes.default_timezone w.default_timezone;
  default_locale = either changes.default_locale w.default_locale;
  default_currency = either changes.default_currency w.default_currency;
  fiscal_year_start_month = either changes.fiscal_year_start_month w.fiscal_year_start_month;
  number_format = either changes.number_format w.number_format;
  date_format = either changes.date_format w.date_format;
  version = w.version + 1;
  updated_at = now;
}

-- What an update returns or raises: None, WorkspaceVersionConflictError, the new row.
pub data Update {ℓ} (A : Type ℓ) : Type ℓ where
  missing : Update A
  version_conflict : ℕ → ℕ → Update A
  updated : A → Update A

unfoldable pub update :
    ℕ → String → WorkspaceChanges → Option ℕ → List Workspace → Update Workspace × List Workspace
update now id changes expected store = elim (get id store) [
  | none ↦ (missing, store)
  | some existing ↦ elim expected [
    | none ↦ let new = changed now changes existing in (updated new, put workspace_key new store)
    | some version ↦
        if not (existing.version == version)
        then (version_conflict version existing.version, store)
        else let new = changed now changes existing in (updated new, put workspace_key new store)
  ]
]
