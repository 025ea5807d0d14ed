-- ===== src/Tenancy/Access.antt =====
-- Who may act: get_context of backend/app/tenancy/service.py, after the operations that take access
-- away, and what an operation of someone who is not an owner can do to owners.
use autonomous_agent_runtime.Tenancy.Contracts.{
  Membership, MembershipStatus, Role, role_eq, is_active_status,
}
use autonomous_agent_runtime.Tenancy.Store.Workspaces
use autonomous_agent_runtime.Tenancy.Store.Workspaces.{workspace_key, changed}
use autonomous_agent_runtime.Tenancy.Store.Memberships.{
  membership_key, is_active_owner, count_active_owners, get_for_user,
}
use autonomous_agent_runtime.Tenancy.Ownership.{user_row, update_status-row, update_role-row}
use autonomous_agent_runtime.Tenancy.Versions.{update-cases}
use autonomous_agent_runtime.Tenancy.Service.State.{
  Tenancy, err, is_ok, audited, workspace_inactive,
}
use autonomous_agent_runtime.Tenancy.Service.Workspaces.{
  get_context, deactivate_workspace, no_changes,
}
use autonomous_agent_runtime.Tenancy.Service.Owners.{
  remove_member, disable, remove, change_role, set_role,
}
use autonomous_agent_runtime.Tenancy.Ownership.Transfer.{not_owner}
use mathlib.Core.Bool.{false≢true}
use autonomous_agent_runtime.Prelude.{
  ℕ, String, ◌≡◌, ap, subst, inl, inr, Bool, true, false, ◌&&◌, not, none, some, arith, leb,
  Bool-cases, Option-cases, string_instance, ◌==◌, nat_instance, bit, lookup, put, Distinct,
  key-lookup, lookup-put, count-put,
}

pub shut_out :
    (w u : String) (s : Tenancy) (m : Membership)
    → get_for_user w u s.memberships ≡ some m
    → is_active_status m.status ≡ false
    → is_ok (get_context u w s) ≡ false
unfolding get_context
shut_out w u s m h f = elim (Option-cases (Workspaces.get w s.workspaces)) [
  | inl n ↦ rw (get_context, n)
  | inr (x, e) ↦ elim (Bool-cases (not x.is_active)) [
    | inl t ↦ rw (get_context, e, t)
    | inr g ↦ rw (get_context, e, g, h, f)
  ]
]

-- After a workspace is deactivated, nobody gets a context for it.
deactivate_workspace-shut_out :
    (now : ℕ) (id : String) (acting_role : Role) (actor user : String) (s : Tenancy)
    → is_ok (deactivate_workspace now id acting_role actor s).0 ≡ true
    → get_context user id (deactivate_workspace now id acting_role actor s).1
      ≡ err workspace_inactive
unfolding deactivate_workspace get_context audited changed
deactivate_workspace-shut_out now id acting_role actor user s h =
    elim (Bool-cases (acting_role == Role.owner)) [
      | inr f ↦ absurd (false≢true (rw (deactivate_workspace, f) at h))
      | inl t ↦
          elim (update-cases now id (record no_changes { is_active = some false }) s.workspaces
            none) [
              | inl e ↦ absurd (false≢true (rw (deactivate_workspace, t, e) at h))
              | inr (inl (v, a, x, e)) ↦ absurd (false≢true (rw (deactivate_workspace, t, e) at h))
              | inr (inr (existing, g, v, e)) ↦
                  let new = changed now (record no_changes { is_active = some false }) existing in
                  let row : (Workspaces.get id (put workspace_key new s.workspaces) ≡ some new) =
                    subst (λ k. Workspaces.get k (put workspace_key new s.workspaces) ≡ some new)
                      (key-lookup workspace_key id s.workspaces existing g)
                      (lookup-put workspace_key new s.workspaces) in
                  rw (deactivate_workspace, t, e, e, get_context, row)
            ]
    ]

module _ (now : ℕ) (id target w : String) (acting_role : Role) (actor : String) (s : Tenancy)
    (d : Distinct membership_key s.memberships) (f : (acting_role == Role.owner) ≡ false) where
  -- A row that is no owner's before and after counts for nothing.
  quiet :
      (m new : Membership)
      → lookup membership_key new.id s.memberships ≡ some m
      → (m.role == Role.owner) ≡ false
      → (new.role == Role.owner) ≡ false
      → count_active_owners w (put membership_key new s.memberships)
        ≡ count_active_owners w s.memberships
  quiet m new h a b = omega (
    arith,
    count-put membership_key (is_active_owner w) new m s.memberships h,
    ap bit (not_owner w m a),
    ap bit (not_owner w new b),
  )

  let_through : (b : Bool) → b && not (acting_role == Role.owner) ≡ false → b ≡ false
  let_through b h = ground arith

  change_role-quiet :
      (new_role : Role)
      → count_active_owners w (change_role now id target new_role acting_role actor s).1.memberships
        ≡ count_active_owners w s.memberships
  unfolding change_role set_role audited
  change_role-quiet new_role = elim (Option-cases (get_for_user id target s.memberships)) [
    | inl n ↦ rw (change_role, n)
    | inr (m, e) ↦ elim (Bool-cases (m.role == Role.owner && not (acting_role == Role.owner))) [
      | inl g ↦ rw (change_role, e, g)
      | inr f1 ↦ elim (Bool-cases (new_role == Role.owner && not (acting_role == Role.owner))) [
        | inl g ↦ rw (change_role, e, f1, g)
        | inr f2 ↦
            elim (Bool-cases (
              m.role == Role.owner
              && not (new_role == Role.owner)
              && leb (count_active_owners id s.memberships) 1)) [
                | inl g ↦ rw (change_role, e, f1, f2, g)
                | inr f3 ↦
                    let row = user_row id target s.memberships m d e in
                    let q = update_role-row now new_role m s.memberships row in
                    rw (change_role, e, f1, f2, f3, set_role, q, q)
                      (quiet m (record m { role = new_role; updated_at = now }) row
                        (let_through (m.role == Role.owner) f1)
                        (let_through (new_role == Role.owner) f2))
              ]
      ]
    ]
  ]

  remove_member-quiet :
      count_active_owners w (remove_member now id target acting_role actor s).1.memberships
      ≡ count_active_owners w s.memberships
  unfolding remove_member remove disable audited
  remove_member-quiet = elim (Option-cases (get_for_user id target s.memberships)) [
    | inl n ↦ rw (remove_member, n)
    | inr (m, e) ↦ elim (Bool-cases (m.role == Role.owner && not (acting_role == Role.owner))) [
      | inl g ↦ rw (remove_member, e, g)
      | inr f1 ↦
          elim (Bool-cases (m.role == Role.owner && leb (count_active_owners id s.memberships) 1)) [
            | inl g ↦ rw (remove_member, e, f1, g)
            | inr f2 ↦
                let row = user_row id target s.memberships m d e in
                let q = update_status-row now MembershipStatus.disabled m s.memberships row in
                rw (remove_member, e, f1, f2, remove, disable, q, q, q)
                  (quiet m (record m { status = MembershipStatus.disabled; updated_at = now }) row
                    (let_through (m.role == Role.owner) f1) (let_through (m.role == Role.owner) f1))
          ]
    ]
  ]

  -- An actor who is not an owner changes the number of active owners of no workspace, neither by
  -- changing a role nor by removing a member.
  pub non_owner-count_active_owners :
      (new_role : Role)
      → (count_active_owners w
            (change_role now id target new_role acting_role actor s).1.memberships
          ≡ count_active_owners w s.memberships)
        × (count_active_owners w (remove_member now id target acting_role actor s).1.memberships
            ≡ count_active_owners w s.memberships)
  non_owner-count_active_owners new_role = (change_role-quiet new_role, remove_member-quiet)
