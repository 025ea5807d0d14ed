-- ===== src/Tenancy/Service/State.antt =====
-- The stores that TenancyService of backend/app/tenancy/service.py works on, and what it raises.
use autonomous_agent_runtime.Prelude.Json.{Fields}
use autonomous_agent_runtime.Tenancy.Contracts.{Workspace, Membership, Invitation}
use autonomous_agent_runtime.Tenancy.Store.Preferences.{ReportPreferences}
use autonomous_agent_runtime.Tenancy.Service.Audit.{AuditLogEntry, EmailMessage}
use autonomous_agent_runtime.Prelude.{ℕ, String, Bool, true, false, some, List, [], ◌∷◌, ◌++◌}

-- `value_error` is the ValueError of a store that refuses a second row, `version_conflict` the two
-- conflict errors of the stores.
pub data TenancyError : Type 0 where
  slug_already_exists workspace_not_found workspace_inactive : TenancyError
  membership_not_found membership_disabled duplicate_membership : TenancyError
  duplicate_invitation invitation_invalid invitation_email_mismatch : TenancyError
  last_owner admin_cannot_manage_owner owner_required : TenancyError
  value_error version_conflict : TenancyError

pub data Result {ℓ} (A : Type ℓ) : Type ℓ where
  ok : A → Result A
  err : TenancyError → Result A

pub record Tenancy : Type 0 where
  pub workspaces : List Workspace
  pub memberships : List Membership
  pub invitations : List Invitation
  pub preferences : List ReportPreferences
  pub emails : List EmailMessage
  pub audit : List AuditLogEntry

-- `AuditLogStore.record` of the in-process store, which appends.
unfoldable pub audited : ℕ → String → String → String → Fields → Tenancy → Tenancy
audited now actor workspace_id event_type metadata s = record s {
  audit =
      s.audit
      ++ (record {
        actor_user_id = some actor;
        workspace_id = some workspace_id;
        event_type = event_type;
        metadata = metadata;
        created_at = now;
      }
          ∷ []);
}

abbrev pub is_ok {ℓ} : {A : Type ℓ} → Result A → Bool
is_ok (ok a) = true
is_ok (err e) = false
