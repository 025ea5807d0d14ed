-- ===== src/Tenancy/Store/Memberships.antt =====
-- InMemoryMembershipStore of backend/app/tenancy/store.py. `none` from `create` is its ValueError.
use autonomous_agent_runtime.Tenancy.Contracts.{
  Membership, MembershipStatus, Role, role_eq, is_active_status,
}
use autonomous_agent_runtime.Prelude.{
  ℕ, String, Bool, ◌&&◌, not, Option, none, some, List, if◌then◌else◌, filter, any, find,
  string_instance, ◌==◌, nat_instance, count, lookup, put,
}

abbrev pub membership_key : Membership → String
membership_key m = m.id

-- Whether the membership is that of a user in a workspace.
abbrev pub is_of : String → String → Membership → Bool
is_of workspace_id user_id m = m.workspace_id == workspace_id && m.user_id == user_id

unfoldable pub is_active_owner : String → Membership → Bool
is_active_owner workspace_id m =
    m.workspace_id == workspace_id && m.role == Role.owner && is_active_status m.status

unfoldable pub create : ℕ → Membership → List Membership → Option Membership × List Membership
create now given store =
    if any (is_of given.workspace_id given.user_id) store
    then (none, store)
    else let membership = record given { created_at = now; updated_at = now } in
      (some membership, put membership_key membership store)

abbrev pub get : String → List Membership → Option Membership
get = lookup membership_key

abbrev pub get_for_user : String → String → List Membership → Option Membership
get_for_user workspace_id user_id = find (is_of workspace_id user_id)

unfoldable pub list_for_workspace :
    String → Option MembershipStatus → List Membership → List Membership
list_for_workspace workspace_id none = filter (λ m. m.workspace_id == workspace_id)
list_for_workspace workspace_id (some MembershipStatus.active) =
    filter (λ m. m.workspace_id == workspace_id && is_active_status m.status)
list_for_workspace workspace_id (some MembershipStatus.disabled) =
    filter (λ m. m.workspace_id == workspace_id && not (is_active_status m.status))

unfoldable pub list_for_user : String → List Membership → List Membership
list_for_user user_id = filter (λ m. m.user_id == user_id)

abbrev pub count_active_owners : String → List Membership → ℕ
count_active_owners workspace_id = count (is_active_owner workspace_id)

unfoldable pub update_role :
    ℕ → String → Role → List Membership → Option Membership × List Membership
update_role now id role store = elim (get id store) [
  | none ↦ (none, store)
  | some existing ↦
      let new = record existing { role = role; updated_at = now } in
      (some new, put membership_key new store)
]

unfoldable pub update_status :
    ℕ → String → MembershipStatus → List Membership → Option Membership × List Membership
update_status now id status store = elim (get id store) [
  | none ↦ (none, store)
  | some existing ↦
      let new = record existing { status = status; updated_at = now } in
      (some new, put membership_key new store)
]
