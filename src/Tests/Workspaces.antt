-- ===== src/Tests/Workspaces.antt =====
-- Witnesses on workspaces, their owners and their invitations.
use autonomous_agent_runtime.Tenancy.Contracts.{
  Workspace, Membership, MembershipStatus, Role, Invitation, role_eq,
}
use autonomous_agent_runtime.Tenancy.Store.Workspaces
use autonomous_agent_runtime.Tenancy.Store.Workspaces.{
  WorkspaceChanges, NewWorkspace, changed, get_by_slug,
}
use autonomous_agent_runtime.Tenancy.Store.Memberships
use autonomous_agent_runtime.Tenancy.Store.Memberships.{
  is_active_owner, count_active_owners, update_status, update_role, is_of,
}
use autonomous_agent_runtime.Tenancy.Store.Invitations.{is_pending}
use autonomous_agent_runtime.Tenancy.Service.State.{
  Tenancy, audited, err, is_ok, TenancyError, invitation_invalid,
}
use autonomous_agent_runtime.Tenancy.Service.Workspaces.{
  update_settings, no_changes, get_context, require_active_workspace, create_workspace, owner_of,
}
use autonomous_agent_runtime.Tenancy.Service.Members.{accept_invitation, redeem, membership_of}
use autonomous_agent_runtime.Tenancy.Service.Owners.{
  remove_member, remove, disable, transfer_ownership, change_role,
}
use autonomous_agent_runtime.Tenancy.Runs.{
  Op, accept_op, create_op, leave_op, empty_tenancy, empty-IsWellFormed, are_proper, run, step,
  run-IsWellFormed,
}
use autonomous_agent_runtime.Tenancy.Entries.{IsWellFormed}
use autonomous_agent_runtime.Tenancy.Once.{accept_invitation-once}
use autonomous_agent_runtime.Tenancy.Versions.{update_settings-once}
use autonomous_agent_runtime.Tenancy.StaysOut.{remove_member-stays_out}
use autonomous_agent_runtime.Tenancy.Access.{non_owner-count_active_owners}
use autonomous_agent_runtime.Tenancy.Ownership.Transfer.{transfer_ownership_self}
use mathlib.Core.Bool.{false≢true}
use autonomous_agent_runtime.Prelude.{
  ◌≤◌, String, ◌≡◌, refl, subst, inl, inr, true, false, none, some, List, [], ◌∷◌, arith,
  Bool-cases, string_instance, ◌==◌, nat_instance, is_some, count,
}

abbrev same : String → String
same x = x

abbrev workspace : Workspace
workspace = record {
  id = "w";
  name = "Acme";
  slug = "acme";
  logo_ref = none;
  is_active = true;
  default_timezone = "UTC";
  default_locale = "en-US";
  default_currency = "USD";
  fiscal_year_start_month = 1;
  number_format = "1,234.56";
  date_format = "YYYY-MM-DD";
  version = 3;
  created_at = 0;
  updated_at = 0;
}

abbrev member : String → String → Role → Membership
member id user role = record {
  id = id;
  user_id = user;
  workspace_id = "w";
  role = role;
  status = MembershipStatus.active;
  invited_by = none;
  joined_at = some 0;
  created_at = 0;
  updated_at = 0;
}

abbrev invitation : Invitation
invitation = record {
  id = "i";
  workspace_id = "w";
  email = "eve@acme.org";
  role = Role.analyst;
  token_hash = "t";
  invited_by = some "ann";
  created_at = 0;
  expires_at = 100;
  accepted_at = none;
  revoked_at = none;
}

abbrev acme : Tenancy
acme = record {
  workspaces = workspace ∷ [];
  memberships = member "1" "ann" Role.owner ∷ member "2" "bob" Role.viewer ∷ [];
  invitations = invitation ∷ [];
  preferences = [];
  emails = [];
  audit = [];
}

abbrev founding : Op
founding = create_op 1 "w" "m" "ann" (record {
  name = "Acme";
  slug = "acme";
  logo_ref = none;
  default_timezone = "UTC";
  default_locale = "en-US";
  default_currency = "USD";
})

run-IsWellFormed_example :
    IsWellFormed (run same same same "" 100 (founding ∷ leave_op 2 "w" "ann" ∷ []) empty_tenancy)
unfolding are_proper step create_workspace Workspaces.create Memberships.create get_by_slug owner_of
run-IsWellFormed_example =
    run-IsWellFormed same same same "" 100 (founding ∷ leave_op 2 "w" "ann" ∷ []) empty_tenancy refl
      empty-IsWellFormed

accept_invitation-once_example :
    accept_invitation same same 20 "4" "t" "mal" "eve@acme.org"
      (accept_invitation same same 10 "3" "t" "eve" "eve@acme.org" acme).1
    ≡ (err invitation_invalid, (accept_invitation same same 10 "3" "t" "eve" "eve@acme.org" acme).1)
unfolding accept_invitation redeem require_active_workspace is_pending Memberships.create
    membership_of
accept_invitation-once_example =
    accept_invitation-once same same 10 20 "3" "4" "t" "eve" "mal" "eve@acme.org" "eve@acme.org"
      acme (refl, tt) refl

update_settings-once_example :
    update_settings 11 "w" 3 no_changes "bob" (update_settings 10 "w" 3 no_changes "ann" acme).1
    ≡ (err TenancyError.version_conflict, (update_settings 10 "w" 3 no_changes "ann" acme).1)
unfolding update_settings Workspaces.update
update_settings-once_example =
    update_settings-once 10 11 "w" 3 no_changes no_changes "ann" "bob" acme refl

one_each : (w u : String) → count (is_of w u) acme.memberships ≤ 1
one_each w u = elim (Bool-cases ("ann" == u)) [
  | inl t ↦
      subst (λ v. count (is_of w v) acme.memberships ≤ 1) ((string_instance.beq_iff "ann" u).0 t)
        (ground arith)
  | inr f ↦ ground (arith, f)
]

ann_owns :
    (w : String)
    → is_some (Workspaces.get w acme.workspaces) ≡ true
    → 1 ≤ count_active_owners w acme.memberships
unfolding is_active_owner
ann_owns w h = elim (Bool-cases ("w" == w)) [
  | inl t ↦
      subst (λ v. 1 ≤ count_active_owners v acme.memberships) ((string_instance.beq_iff "w" w).0 t)
        (omega arith)
  | inr f ↦ absurd (false≢true (rw f at h))
]

acme-IsWellFormed : IsWellFormed acme
acme-IsWellFormed = record { distinct = (refl, (refl, tt)); single = one_each; owned = ann_owns }

-- Someone hands an invitation on to the removed member, who tries to come back with it.
abbrev comebacks : List Op
comebacks = accept_op 20 "3" "t" "bob" "eve@acme.org" ∷ leave_op 30 "w" "bob" ∷ []

remove_member-stays_out_example :
    is_ok (
      get_context "bob" "w"
        (run same same same "" 100 comebacks (remove_member 10 "w" "bob" Role.admin "ann" acme).1))
    ≡ false
unfolding remove_member remove disable update_status are_proper step accept_invitation audited
    redeem is_pending
remove_member-stays_out_example =
    remove_member-stays_out same same same "" 100 "w" "bob" 10 Role.admin "ann" acme comebacks
      acme-IsWellFormed refl refl

non_owner-count_active_owners_example :
    (count_active_owners "w"
        (change_role 10 "w" "bob" Role.analyst Role.admin "eve" acme).1.memberships
      ≡ count_active_owners "w" acme.memberships)
    × (count_active_owners "w" (remove_member 10 "w" "bob" Role.admin "eve" acme).1.memberships
        ≡ count_active_owners "w" acme.memberships)
non_owner-count_active_owners_example =
    non_owner-count_active_owners 10 "w" "bob" "w" Role.admin "eve" acme (refl, (refl, tt)) refl
      Role.analyst

transfer_ownership_self_example :
    count_active_owners "w" (transfer_ownership 10 "w" "ann" "ann" Role.owner acme).1.memberships
    ≡ 0
unfolding is_active_owner
transfer_ownership_self_example =
    transfer_ownership_self 10 "w" "ann" acme (member "1" "ann" Role.owner) (refl, (refl, tt)) refl
      refl refl
