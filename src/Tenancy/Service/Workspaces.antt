-- ===== src/Tenancy/Service/Workspaces.antt =====
-- TenancyService of backend/app/tenancy/service.py: the context of a request, and the operations on
-- a workspace itself. TenantContext is that of backend/app/tenancy/context.py.
use autonomous_agent_runtime.Prelude.Json.{end, field, arr, Items, nil, cons, str}
use autonomous_agent_runtime.Tenancy.Contracts.{
  Workspace, Membership, Role, role_eq, MembershipStatus, is_active_status,
}
use autonomous_agent_runtime.Tenancy.Permissions.{Permission, permissions_for_role}
use autonomous_agent_runtime.Tenancy.Store.Workspaces
use autonomous_agent_runtime.Tenancy.Store.Workspaces.{
  WorkspaceChanges, NewWorkspace, get_by_slug, missing, updated,
}
use autonomous_agent_runtime.Tenancy.Store.Memberships
use autonomous_agent_runtime.Tenancy.Store.Memberships.{get_for_user}
use autonomous_agent_runtime.Tenancy.Store.Preferences
use autonomous_agent_runtime.Tenancy.Store.Preferences.{ReportPreferences, PreferenceChanges}
use autonomous_agent_runtime.Tenancy.Service.Audit.{
  changed_fields, changed_preferences, AuditLogEntry,
}
use autonomous_agent_runtime.Tenancy.Service.State.{
  Tenancy, Result, ok, err, audited, TenancyError, workspace_not_found, workspace_inactive,
  membership_not_found, membership_disabled, slug_already_exists, value_error, owner_required,
}
use autonomous_agent_runtime.Prelude.{
  ℕ, String, Bool, false, not, Option, none, some, List, [], ◌∷◌, ◌++◌, if◌then◌else◌, take, drop,
  filter, string_instance, ◌==◌, nat_instance,
}

pub record TenantContext : Type 0 where
  pub user_id : String
  pub workspace : Workspace
  pub membership : Membership
  pub role : Role
  pub permissions : List Permission

unfoldable pub require_active_workspace : String → Tenancy → Result Workspace
require_active_workspace workspace_id s = elim (Workspaces.get workspace_id s.workspaces) [
  | none ↦ err workspace_not_found
  | some workspace ↦ if not workspace.is_active then err workspace_inactive else ok workspace
]

unfoldable pub get_context : String → String → Tenancy → Result TenantContext
get_context user_id workspace_id s = elim (Workspaces.get workspace_id s.workspaces) [
  | none ↦ err workspace_not_found
  | some workspace ↦
      if not workspace.is_active
      then err workspace_inactive
      else elim (get_for_user workspace_id user_id s.memberships) [
        | none ↦ err membership_not_found
        | some membership ↦
            if not (is_active_status membership.status)
            then err membership_disabled
            else ok (record {
              user_id = user_id;
              workspace = workspace;
              membership = membership;
              role = membership.role;
              permissions = permissions_for_role membership.role;
            })
      ]
]

-- The membership that the creator of a workspace receives.
unfoldable pub owner_of : String → ℕ → String → String → Membership
owner_of id now user_id workspace_id = record {
  id = id;
  user_id = user_id;
  workspace_id = workspace_id;
  role = Role.owner;
  status = MembershipStatus.active;
  invited_by = none;
  joined_at = some now;
  created_at = now;
  updated_at = now;
}

unfoldable pub create_workspace :
    (String → String)
    → (String → String)
    → ℕ
    → String
    → String
    → String
    → NewWorkspace
    → Tenancy
    → Result (Workspace × Membership) × Tenancy
create_workspace normalize strip now workspace_id membership_id owner_user_id given s =
    let named = record given { name = strip given.name; slug = normalize given.slug } in
    elim (get_by_slug named.slug s.workspaces) [
      | some _ ↦ (err slug_already_exists, s)
      | none ↦
          let (found, workspaces) = (Workspaces.create workspace_id now named s.workspaces) in
          elim found [
            | none ↦ (err value_error, s)
            | some workspace ↦
                let (entered, memberships) =
                  (Memberships.create now (owner_of membership_id now owner_user_id workspace.id)
                    s.memberships) in
                elim entered [
                  | none ↦ (err value_error, record s { workspaces = workspaces })
                  | some membership ↦ (
                    ok (workspace, membership),
                    record s { workspaces = workspaces; memberships = memberships },
                  )
                ]
          ]
    ]

abbrev pub strings : List String → Items
strings [] = nil
strings (x ∷ xs) = cons (str x) (strings xs)

-- The audit entry follows the update.
unfoldable pub update_settings :
    ℕ → String → ℕ → WorkspaceChanges → String → Tenancy → Result Workspace × Tenancy
update_settings now workspace_id expected changes actor s =
    let (found, workspaces) =
      (Workspaces.update now workspace_id changes (some expected) s.workspaces) in
    elim found [
      | missing ↦ (err workspace_not_found, s)
      | Workspaces.version_conflict _ _ ↦ (err TenancyError.version_conflict, s)
      | updated workspace ↦ (
        ok workspace,
        audited now actor workspace_id "tenancy_workspace_settings_updated"
            (field "changed_fields" (arr (strings (changed_fields changes))) end)
            (record s { workspaces = workspaces }),
      )
    ]

abbrev pub no_changes : WorkspaceChanges
no_changes = record {
  name = none;
  logo_ref = none;
  is_active = none;
  default_timezone = none;
  default_locale = none;
  default_currency = none;
  fiscal_year_start_month = none;
  number_format = none;
  date_format = none;
}

unfoldable pub deactivate_workspace :
    ℕ → String → Role → String → Tenancy → Result Workspace × Tenancy
deactivate_workspace now workspace_id acting_role actor s =
    if not (acting_role == Role.owner)
    then (err owner_required, s)
    else let (found, workspaces) =
        (Workspaces.update now workspace_id (record no_changes { is_active = some false }) none
          s.workspaces) in
      elim found [
        | updated workspace ↦ (
          ok workspace,
          audited now actor workspace_id "tenancy_workspace_deactivated" end
              (record s { workspaces = workspaces }),
        )
        | _ ↦ (err workspace_not_found, s)
      ]

unfoldable pub get_report_preferences : ℕ → String → Tenancy → ReportPreferences × Tenancy
get_report_preferences now workspace_id s =
    let found = Preferences.get_or_create workspace_id now s.preferences in
    (found.0, record s { preferences = found.1 })

unfoldable pub update_report_preferences :
    ℕ → String → ℕ → PreferenceChanges → String → Tenancy → Result ReportPreferences × Tenancy
update_report_preferences now workspace_id expected changes actor s =
    let (found, store) = (Preferences.update workspace_id now expected changes s.preferences) in
    elim found [
      | updated preferences ↦ (
        ok preferences,
        audited now actor workspace_id "tenancy_report_preferences_updated"
            (field "changed_fields" (arr (strings (changed_preferences changes))) end)
            (record s { preferences = store }),
      )
      | _ ↦ (err TenancyError.version_conflict, s)
    ]

abbrev reversed {ℓ} : {A : Type ℓ} → List A → List A
reversed [] = []
reversed (x ∷ xs) = reversed xs ++ (x ∷ [])

abbrev concerns : String → Option String → Bool
concerns workspace_id none = false
concerns workspace_id (some id) = id == workspace_id

-- `AuditLogStore.list_for_workspace`, newest first.
unfoldable pub list_audit_log : String → ℕ → ℕ → Tenancy → List AuditLogEntry
list_audit_log workspace_id limit offset s = take limit (
    drop offset
      (filter (λ (e : AuditLogEntry). concerns workspace_id e.workspace_id) (reversed s.audit)))
