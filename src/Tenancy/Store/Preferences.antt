-- ===== src/Tenancy/Store/Preferences.antt =====
-- InMemoryReportPreferencesStore of backend/app/tenancy/store.py.
use autonomous_agent_runtime.Tenancy.Store.Workspaces.{Update, updated, version_conflict, either}
use autonomous_agent_runtime.Prelude.{
  ℕ, ◌+◌, String, Bool, true, false, not, Option, none, some, List, if◌then◌else◌, string_instance,
  ◌==◌, nat_instance, lookup, put,
}

pub data OutputFormat : Type 0 where
  pdf docx : OutputFormat

pub data NarrativePolicy : Type 0 where
  exclude include_original require_new_investigation : NarrativePolicy

pub record ReportPreferences : Type 0 where
  pub workspace_id : String
  pub default_template : Option String
  pub default_output_format : Option OutputFormat
  pub default_theme : Option String
  pub default_narrative_policy : Option NarrativePolicy
  pub evidence_appendix_enabled : Bool
  pub technical_sql_appendix_enabled : Bool
  pub version : ℕ
  pub created_at : ℕ
  pub updated_at : ℕ

-- The keys that `changes` can have; `none` for one that it does not have.
pub record PreferenceChanges : Type 0 where
  pub default_template : Option (Option String)
  pub default_output_format : Option (Option OutputFormat)
  pub default_theme : Option (Option String)
  pub default_narrative_policy : Option (Option NarrativePolicy)
  pub evidence_appendix_enabled : Option Bool
  pub technical_sql_appendix_enabled : Option Bool

abbrev pub preferences_key : ReportPreferences → String
preferences_key p = p.workspace_id

unfoldable pub defaults : String → ℕ → ReportPreferences
defaults workspace_id now = record {
  workspace_id = workspace_id;
  default_template = none;
  default_output_format = none;
  default_theme = none;
  default_narrative_policy = none;
  evidence_appendix_enabled = true;
  technical_sql_appendix_enabled = false;
  version = 1;
  created_at = now;
  updated_at = now;
}

unfoldable pub get_or_create :
    String → ℕ → List ReportPreferences → ReportPreferences × List ReportPreferences
get_or_create workspace_id now store = elim (lookup preferences_key workspace_id store) [
  | some existing ↦ (existing, store)
  | none ↦ let created = defaults workspace_id now in (created, put preferences_key created store)
]

unfoldable pub changed : ℕ → PreferenceChanges → ReportPreferences → ReportPreferences
changed now changes p = record p {
  default_template = either changes.default_template p.default_template;
  default_output_format = either changes.default_output_format p.default_output_format;
  default_theme = either changes.default_theme p.default_theme;
  default_narrative_policy = either changes.default_narrative_policy p.default_narrative_policy;
  evidence_appendix_enabled = either changes.evidence_appendix_enabled p.evidence_appendix_enabled;
  technical_sql_appendix_enabled =
      either changes.technical_sql_appendix_enabled p.technical_sql_appendix_enabled;
  version = p.version + 1;
  updated_at = now;
}

unfoldable pub update :
    String
    → ℕ
    → ℕ
    → PreferenceChanges
    → List ReportPreferences
    → Update ReportPreferences × List ReportPreferences
update workspace_id now expected changes store =
    let existing = either (lookup preferences_key workspace_id store) (defaults workspace_id now) in
    if not (existing.version == expected)
    then (version_conflict expected existing.version, store)
    else let new = changed now changes existing in (updated new, put preferences_key new store)
