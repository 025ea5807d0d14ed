-- ===== src/Tenancy/Service/Members.antt =====
-- TenancyService of backend/app/tenancy/service.py: invitations and how one becomes a membership.
use autonomous_agent_runtime.Prelude.Json.{end, field, str}
use autonomous_agent_runtime.Tenancy.Contracts.{
  Membership, Invitation, Role, role_eq, MembershipStatus,
}
use autonomous_agent_runtime.Tenancy.Store.Memberships
use autonomous_agent_runtime.Tenancy.Store.Memberships.{get_for_user}
use autonomous_agent_runtime.Tenancy.Store.Invitations
use autonomous_agent_runtime.Tenancy.Store.Invitations.{
  is_pending, get_pending, get_by_token_hash, mark_accepted,
}
use autonomous_agent_runtime.Tenancy.Service.Audit.{compose_invite_message, role_value}
use autonomous_agent_runtime.Tenancy.Service.Workspaces.{require_active_workspace}
use autonomous_agent_runtime.Tenancy.Service.State.{
  Tenancy, Result, ok, err, audited, workspace_inactive, duplicate_membership, duplicate_invitation,
  invitation_invalid, invitation_email_mismatch, admin_cannot_manage_owner, value_error,
}
use autonomous_agent_runtime.Prelude.{
  ℕ, ◌+◌, String, ◌&&◌, not, none, some, [], ◌∷◌, ◌++◌, if◌then◌else◌, string_instance, ◌==◌,
  nat_instance,
}

-- What the caller of `invite_member` gives, with the fresh identifier and the fresh token.
pub record Invite : Type 0 where
  pub id : String
  pub raw_token : String
  pub workspace_id : String
  pub email : String
  pub role : Role
  pub invited_by : String
  pub inviter_role : Role

-- The membership that an invitation becomes.
unfoldable pub membership_of : String → ℕ → String → Invitation → Membership
membership_of id now user_id invitation = record {
  id = id;
  user_id = user_id;
  workspace_id = invitation.workspace_id;
  role = invitation.role;
  status = MembershipStatus.active;
  invited_by = invitation.invited_by;
  joined_at = some now;
  created_at = now;
  updated_at = now;
}

-- The part of `accept_invitation` from a pending invitation on.
unfoldable pub redeem :
    (String → String)
    → ℕ
    → String
    → String
    → String
    → Invitation
    → Tenancy
    → Result Membership × Tenancy
redeem normalize now id user_id email invitation s =
    if not (normalize email == invitation.email)
    then (err invitation_email_mismatch, s)
    else elim (require_active_workspace invitation.workspace_id s) [
      | err _ ↦ (err workspace_inactive, s)
      | ok _ ↦ elim (get_for_user invitation.workspace_id user_id s.memberships) [
        | some _ ↦ (err duplicate_membership, s)
        | none ↦
            let (found, memberships) =
              (Memberships.create now (membership_of id now user_id invitation) s.memberships) in
            elim found [
              | none ↦ (err value_error, s)
              | some membership ↦ (
                ok membership,
                audited now user_id invitation.workspace_id "tenancy_invitation_accepted"
                    (field "role" (str (role_value invitation.role)) end)
                    (record s {
                      memberships = memberships;
                      invitations = mark_accepted now invitation.id s.invitations;
                    }),
              )
            ]
      ]
    ]

module _ (normalize hash_token : String → String) where
  unfoldable pub invitation_of : ℕ → ℕ → Invite → Invitation
  invitation_of now ttl given = record {
    id = given.id;
    workspace_id = given.workspace_id;
    email = normalize given.email;
    role = given.role;
    token_hash = hash_token given.raw_token;
    invited_by = some given.invited_by;
    created_at = now;
    expires_at = now + ttl;
    accepted_at = none;
    revoked_at = none;
  }

  unfoldable pub invite_member : String → ℕ → ℕ → Invite → Tenancy → Result Invitation × Tenancy
  invite_member app_base_url ttl now given s =
      elim (require_active_workspace given.workspace_id s) [
        | err error ↦ (err error, s)
        | ok workspace ↦
            if given.role == Role.owner && not (given.inviter_role == Role.owner)
            then (err admin_cannot_manage_owner, s)
            else elim (get_pending now given.workspace_id (normalize given.email) s.invitations) [
              | some _ ↦ (err duplicate_invitation, s)
              | none ↦
                  let created =
                    Invitations.create now (invitation_of now ttl given) s.invitations in
                  let message =
                    compose_invite_message app_base_url workspace (normalize given.email)
                      given.raw_token in
                  (
                    ok created.0,
                    audited now given.invited_by given.workspace_id "tenancy_member_invited"
                        (field "role" (str (role_value given.role)) end)
                        (record s { invitations = created.1; emails = s.emails ++ (message ∷ []) }),
                  )
            ]
      ]

  unfoldable pub accept_invitation :
      ℕ → String → String → String → String → Tenancy → Result Membership × Tenancy
  accept_invitation now id token user_id email s =
      elim (get_by_token_hash (hash_token token) s.invitations) [
        | none ↦ (err invitation_invalid, s)
        | some invitation ↦
            if not (is_pending now invitation)
            then (err invitation_invalid, s)
            else redeem normalize now id user_id email invitation s
      ]
