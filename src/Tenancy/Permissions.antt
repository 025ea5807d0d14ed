-- ===== src/Tenancy/Permissions.antt =====
-- backend/app/tenancy/permissions.py: what a role may do with the resources of its workspace.
use autonomous_agent_runtime.Tenancy.Contracts.{Role, role_index}
use autonomous_agent_runtime.Prelude.{
  ℕ, ◌≤◌, ◌≡◌, refl, ◌↔◌, true, List, [], ◌∷◌, arith, nat_eq, if◌then◌else◌, contains, Eq,
  index_beq_iff, string_instance, nat_instance,
}

pub data Permission : Type 0 where
  read_tenant_resources run_analyses publish_reports manage_data_sources : Permission
  delete_data_sources manage_members update_tenant_settings : Permission
  transfer_ownership deactivate_tenant : Permission

abbrev permission_index : Permission → ℕ
permission_index Permission.read_tenant_resources = 0
permission_index Permission.run_analyses = 1
permission_index Permission.publish_reports = 2
permission_index Permission.manage_data_sources = 3
permission_index Permission.delete_data_sources = 4
permission_index Permission.manage_members = 5
permission_index Permission.update_tenant_settings = 6
permission_index Permission.transfer_ownership = 7
permission_index Permission.deactivate_tenant = 8

abbrev permission_at : ℕ → Permission
permission_at n =
    if nat_eq n 0
    then Permission.read_tenant_resources
    else if nat_eq n 1
    then Permission.run_analyses
    else if nat_eq n 2
    then Permission.publish_reports
    else if nat_eq n 3
    then Permission.manage_data_sources
    else if nat_eq n 4
    then Permission.delete_data_sources
    else if nat_eq n 5
    then Permission.manage_members
    else if nat_eq n 6
    then Permission.update_tenant_settings
    else if nat_eq n 7
    then Permission.transfer_ownership
    else Permission.deactivate_tenant

permission_recover : (p : Permission) → permission_at (permission_index p) ≡ p
permission_recover Permission.read_tenant_resources = refl
permission_recover p = refl

pub permission_beq_iff :
    (a b : Permission) → (nat_eq (permission_index a) (permission_index b) ≡ true) ↔ (a ≡ b)
permission_beq_iff = index_beq_iff permission_index permission_at permission_recover

instance abbrev pub permission_eq : Eq Permission
permission_eq = record {
  beq = λ a b. nat_eq (permission_index a) (permission_index b);
  beq_iff = permission_beq_iff;
}

unfoldable pub permissions_for_role : Role → List Permission
permissions_for_role Role.owner =
    Permission.read_tenant_resources ∷ Permission.run_analyses ∷ Permission.publish_reports
    ∷ Permission.manage_data_sources ∷ Permission.delete_data_sources ∷ Permission.manage_members
    ∷ Permission.update_tenant_settings ∷ Permission.transfer_ownership
    ∷ Permission.deactivate_tenant ∷ []
permissions_for_role Role.admin =
    Permission.read_tenant_resources ∷ Permission.run_analyses ∷ Permission.publish_reports
    ∷ Permission.manage_data_sources ∷ Permission.manage_members ∷ Permission.update_tenant_settings
    ∷ []
permissions_for_role Role.analyst =
    Permission.read_tenant_resources ∷ Permission.run_analyses ∷ Permission.publish_reports ∷ []
permissions_for_role Role.viewer = Permission.read_tenant_resources ∷ []

-- A role may do whatever each role after it may do, in the order owner, admin, analyst, viewer.
pub permissions_for_role-monotone :
    (a b : Role) (p : Permission)
    → role_index a ≤ role_index b
    → contains (permissions_for_role b) p ≡ true
    → contains (permissions_for_role a) p ≡ true
unfolding permissions_for_role
permissions_for_role-monotone a b p le h = ground arith
