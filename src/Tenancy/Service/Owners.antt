-- ===== src/Tenancy/Service/Owners.antt =====
-- TenancyService of backend/app/tenancy/service.py: the operations that change a membership. A
-- store's update of a row that was just read finds it; `value_error` stands for the assertion.
use autonomous_agent_runtime.Prelude.Json.{end, field, str}
use autonomous_agent_runtime.Tenancy.Contracts.{
  Membership, Role, role_eq, MembershipStatus, is_active_status,
}
use autonomous_agent_runtime.Tenancy.Store.Memberships.{
  get_for_user, count_active_owners, update_role, update_status,
}
use autonomous_agent_runtime.Tenancy.Service.Audit.{role_value}
use autonomous_agent_runtime.Tenancy.Service.State.{
  Tenancy, Result, ok, err, audited, membership_not_found, last_owner, admin_cannot_manage_owner,
  owner_required, value_error,
}
use autonomous_agent_runtime.Prelude.{
  ℕ, String, ◌&&◌, ◌||◌, not, none, some, leb, if◌then◌else◌, string_instance, ◌==◌, nat_instance,
}

-- `update_role` and what follows it.
unfoldable pub set_role :
    ℕ → String → String → Role → String → Membership → Tenancy → Result Membership × Tenancy
set_role now workspace_id target_user_id new_role actor target s =
    let (found, memberships) = (update_role now target.id new_role s.memberships) in
    elim found [
      | none ↦ (err value_error, s)
      | some membership ↦ (
        ok membership,
        audited now actor workspace_id "tenancy_role_changed"
            (field "target_user_id" (str target_user_id)
              (field "role" (str (role_value new_role)) end))
            (record s { memberships = memberships }),
      )
    ]

unfoldable pub change_role :
    ℕ → String → String → Role → Role → String → Tenancy → Result Membership × Tenancy
change_role now workspace_id target_user_id new_role acting_role actor s =
    elim (get_for_user workspace_id target_user_id s.memberships) [
      | none ↦ (err membership_not_found, s)
      | some target ↦
          if target.role == Role.owner && not (acting_role == Role.owner)
          then (err admin_cannot_manage_owner, s)
          else if new_role == Role.owner && not (acting_role == Role.owner)
          then (err admin_cannot_manage_owner, s)
          else if target.role == Role.owner
              && not (new_role == Role.owner)
              && leb (count_active_owners workspace_id s.memberships) 1
          then (err last_owner, s)
          else set_role now workspace_id target_user_id new_role actor target s
    ]

unfoldable pub disable : ℕ → Membership → Tenancy → Result Membership × Tenancy
disable now target s =
    let (found, memberships) =
      (update_status now target.id MembershipStatus.disabled s.memberships) in
    elim found [
      | none ↦ (err value_error, s)
      | some membership ↦ (ok membership, record s { memberships = memberships })
    ]

-- `disable` and the audit entry of a removal.
unfoldable pub remove :
    ℕ → String → String → String → Membership → Tenancy → Result Membership × Tenancy
remove now workspace_id target_user_id actor target s =
    let (found, s) = (disable now target s) in
    elim found [
      | err error ↦ (err error, s)
      | ok membership ↦ (
        ok membership,
        audited now actor workspace_id "tenancy_member_removed"
            (field "target_user_id" (str target_user_id) end) s,
      )
    ]

unfoldable pub remove_member :
    ℕ → String → String → Role → String → Tenancy → Result Membership × Tenancy
remove_member now workspace_id target_user_id acting_role actor s =
    elim (get_for_user workspace_id target_user_id s.memberships) [
      | none ↦ (err membership_not_found, s)
      | some target ↦
          if target.role == Role.owner && not (acting_role == Role.owner)
          then (err admin_cannot_manage_owner, s)
          else if target.role == Role.owner
              && leb (count_active_owners workspace_id s.memberships) 1
          then (err last_owner, s)
          else remove now workspace_id target_user_id actor target s
    ]

unfoldable pub leave_workspace : ℕ → String → String → Tenancy → Result Membership × Tenancy
leave_workspace now workspace_id user_id s =
    elim (get_for_user workspace_id user_id s.memberships) [
      | none ↦ (err membership_not_found, s)
      | some membership ↦
          if membership.role == Role.owner && leb (count_active_owners workspace_id s.memberships) 1
          then (err last_owner, s)
          else disable now membership s
    ]

-- The two updates of a transfer, the recipient first.
unfoldable pub hand_over :
    ℕ → String → String → String → Membership → Membership → Tenancy → Result Membership × Tenancy
hand_over now workspace_id from_user_id to_user_id giver taker s =
    let promoted = update_role now taker.id Role.owner s.memberships in
    let demoted = update_role now giver.id Role.admin promoted.1 in
    elim promoted.0 [
      | none ↦ (err value_error, record s { memberships = demoted.1 })
      | some membership ↦ (
        ok membership,
        audited now from_user_id workspace_id "tenancy_ownership_transferred"
            (field "to_user_id" (str to_user_id) end) (record s { memberships = demoted.1 }),
      )
    ]

unfoldable pub transfer_ownership :
    ℕ → String → String → String → Role → Tenancy → Result Membership × Tenancy
transfer_ownership now workspace_id from_user_id to_user_id acting_role s =
    if not (acting_role == Role.owner)
    then (err owner_required, s)
    else elim (get_for_user workspace_id from_user_id s.memberships) [
      | none ↦ (err owner_required, s)
      | some giver ↦
          if not (giver.role == Role.owner) || not (is_active_status giver.status)
          then (err owner_required, s)
          else elim (get_for_user workspace_id to_user_id s.memberships) [
            | none ↦ (err membership_not_found, s)
            | some taker ↦
                if not (is_active_status taker.status)
                then (err membership_not_found, s)
                else hand_over now workspace_id from_user_id to_user_id giver taker s
          ]
    ]
