-- ===== src/Tenancy/Service/Audit.antt =====
-- What TenancyService of backend/app/tenancy/service.py writes to the audit log
-- (backend/app/audit/contracts.py) and the e-mails it sends (backend/app/identity/email.py).
use autonomous_agent_runtime.Prelude.Json.{Fields}
use autonomous_agent_runtime.Tenancy.Contracts.{Role, Workspace}
use autonomous_agent_runtime.Tenancy.Store.Workspaces.{WorkspaceChanges}
use autonomous_agent_runtime.Tenancy.Store.Preferences.{PreferenceChanges}
use autonomous_agent_runtime.Prelude.{ℕ, String, ◌<>◌, Option, none, some, List, [], ◌∷◌, ◌++◌}

pub record AuditLogEntry : Type 0 where
  pub actor_user_id : Option String
  pub workspace_id : Option String
  pub event_type : String
  pub metadata : Fields
  pub created_at : ℕ

pub record EmailMessage : Type 0 where
  pub to : String
  pub subject : String
  pub body : String

unfoldable pub role_value : Role → String
role_value Role.owner = "owner"
role_value Role.admin = "admin"
role_value Role.analyst = "analyst"
role_value Role.viewer = "viewer"

abbrev named {ℓ} : {A : Type ℓ} → String → Option A → List String
named name none = []
named name (some _) = name ∷ []

-- `sorted(changes)`
unfoldable pub changed_fields : WorkspaceChanges → List String
changed_fields c =
    named "date_format" c.date_format
    ++ named "default_currency" c.default_currency
    ++ named "default_locale" c.default_locale
    ++ named "default_timezone" c.default_timezone
    ++ named "fiscal_year_start_month" c.fiscal_year_start_month
    ++ named "is_active" c.is_active
    ++ named "logo_ref" c.logo_ref
    ++ named "name" c.name
    ++ named "number_format" c.number_format

unfoldable pub changed_preferences : PreferenceChanges → List String
changed_preferences c =
    named "default_narrative_policy" c.default_narrative_policy
    ++ named "default_output_format" c.default_output_format
    ++ named "default_template" c.default_template
    ++ named "default_theme" c.default_theme
    ++ named "evidence_appendix_enabled" c.evidence_appendix_enabled
    ++ named "technical_sql_appendix_enabled" c.technical_sql_appendix_enabled

unfoldable pub compose_invite_message : String → Workspace → String → String → EmailMessage
compose_invite_message app_base_url workspace email raw_token = record {
  to = email;
  subject = "You're invited to join " <> workspace.name;
  body =
      "You've been invited to join the \"" <> workspace.name <> "\" workspace.\n\n" <> app_base_url
      <> "/invitations/accept?token=" <> raw_token
      <> "\n\nIf you weren't expecting this, you can safely ignore this email.";
}
