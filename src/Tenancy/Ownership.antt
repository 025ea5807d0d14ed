-- ===== src/Tenancy/Ownership.antt =====
-- That the operations of backend/app/tenancy/service.py on memberships keep an owner.
pub mod Transfer
use autonomous_agent_runtime.Prelude.Json.{end, field, str, Fields}
use autonomous_agent_runtime.Tenancy.Contracts.{
  Membership, Role, MembershipStatus, role_eq, is_active_status,
}
use autonomous_agent_runtime.Tenancy.Store.Memberships.{
  membership_key, is_of, is_active_owner, count_active_owners, update_role, update_status,
  get_for_user,
}
use autonomous_agent_runtime.Tenancy.Rows.{Keeps, Keeps-refl, Keeps-put, of_user}
use autonomous_agent_runtime.Tenancy.Service.Audit.{role_value}
use autonomous_agent_runtime.Tenancy.Service.State.{Tenancy, TenancyError, audited, Result, ok, err}
use autonomous_agent_runtime.Tenancy.Service.Owners.{
  set_role, change_role, disable, remove, remove_member, leave_workspace, hand_over,
  transfer_ownership,
}
use mathlib.Core.Bool.{false≢true}
use autonomous_agent_runtime.Prelude.{
  ℕ, ◌≤◌, String, ◌≡◌, refl, sym, ◌∙◌, subst, ◌⊎◌, inl, inr, Bool, true, false, ◌&&◌, not, some,
  List, arith, leb, leb→lt, Bool-cases, Option-cases, string_instance, ◌==◌, nat_instance,
  find-holds, lookup, put, Distinct, find-lookup,
}

-- The memberships are kept, and the workspaces stay as they are.
unfoldable pub IsKept : Tenancy → Tenancy → Type 0
IsKept s t = Keeps s.memberships t.memberships × (t.workspaces ≡ s.workspaces)

pub IsKept-refl : (s : Tenancy) → IsKept s s
unfolding IsKept
IsKept-refl s = (Keeps-refl s.memberships, refl)

pub user_row :
    (w u : String) (ms : List Membership) (m : Membership)
    → Distinct membership_key ms
    → get_for_user w u ms ≡ some m
    → lookup membership_key m.id ms ≡ some m
user_row w u ms m d h = find-lookup membership_key (is_of w u) ms m d h

pub row_user :
    (w u : String) (ms : List Membership) (m : Membership)
    → get_for_user w u ms ≡ some m
    → (m.workspace_id ≡ w) × (m.user_id ≡ u)
row_user w u ms m h = of_user w u m (find-holds (is_of w u) ms m h)

pub owner_row :
    (w : String) (m : Membership)
    → is_active_owner w m ≡ true
    → (m.workspace_id ≡ w) × ((m.role == Role.owner) ≡ true) × (is_active_status m.status ≡ true)
unfolding is_active_owner
owner_row w m h = ground (arith, string_instance.beq_iff m.workspace_id w)

pub owner_holds :
    (w : String) (m : Membership)
    → m.workspace_id ≡ w
    → (m.role == Role.owner) ≡ true
    → is_active_status m.status ≡ true
    → is_active_owner w m ≡ true
unfolding is_active_owner
owner_holds w m e r a = ground (arith, string_instance.beq_iff m.workspace_id w)

pub update_role-row :
    (now : ℕ) (role : Role) (m : Membership) (ms : List Membership)
    → lookup membership_key m.id ms ≡ some m
    → let new = record m { role = role; updated_at = now } in
      update_role now m.id role ms ≡ (some new, put membership_key new ms)
unfolding update_role
update_role-row now role m ms h = rw (h, update_role)

pub update_status-row :
    (now : ℕ) (status : MembershipStatus) (m : Membership) (ms : List Membership)
    → lookup membership_key m.id ms ≡ some m
    → let new = record m { status = status; updated_at = now } in
      update_status now m.id status ms ≡ (some new, put membership_key new ms)
unfolding update_status
update_status-row now status m ms h = rw (h, update_status)

pub Keeps-role :
    (now : ℕ) (role : Role) (m : Membership) (ms : List Membership)
    → lookup membership_key m.id ms ≡ some m
    → ((m.role == Role.owner) ≡ true
        → ((role == Role.owner) ≡ true) ⊎ (2 ≤ count_active_owners m.workspace_id ms))
    → Keeps ms (put membership_key (record m { role = role; updated_at = now }) ms)
Keeps-role now role m ms h keep =
    let new = record m { role = role; updated_at = now } in
    Keeps-put new m ms h refl refl (λ a. a)
      (λ w t.
        let (e, r, a) = owner_row w m t in
        elim (keep r) [
          | inl o ↦ inl (owner_holds w new e o a)
          | inr two ↦ inr (subst (λ v. 2 ≤ count_active_owners v ms) e two)
        ])

pub Keeps-status :
    (now : ℕ) (status : MembershipStatus) (m : Membership) (ms : List Membership)
    → lookup membership_key m.id ms ≡ some m
    → is_active_status status ≡ false
    → ((m.role == Role.owner) ≡ true → 2 ≤ count_active_owners m.workspace_id ms)
    → Keeps ms (put membership_key (record m { status = status; updated_at = now }) ms)
Keeps-status now status m ms h off keep =
    let new = record m { status = status; updated_at = now } in
    Keeps-put new m ms h refl refl (λ a. absurd (false≢true (sym off ∙ a)))
      (λ w t.
        let (e, r, a) = owner_row w m t in
        inr (subst (λ v. 2 ≤ count_active_owners v ms) e (keep r)))

pub audited-IsKept :
    (now : ℕ) (actor w event : String) (metadata : Fields) (s t : Tenancy)
    → IsKept s t
    → IsKept s (audited now actor w event metadata t)
unfolding IsKept audited
audited-IsKept now actor w event metadata s t k = k

-- A test that let an operation through leaves two owners in the workspace of the row.
spare :
    (w : String) (m : Membership) (ms : List Membership)
    → m.workspace_id ≡ w
    → leb (count_active_owners w ms) 1 ≡ false
    → 2 ≤ count_active_owners m.workspace_id ms
spare w m ms e f =
    subst (λ v. 2 ≤ count_active_owners v ms) (sym e) (leb→lt (count_active_owners w ms) 1 f)

second : (a b : Bool) → a ≡ true → a && b ≡ false → b ≡ false
second a b r f = ground arith

third : (a b c : Bool) → a ≡ true → b ≡ false → a && not b && c ≡ false → c ≡ false
third a b c r g f = ground arith

pub Result-cases {ℓ} :
    {A : Type ℓ} (r : Result A) → ((e : TenancyError) × (r ≡ err e)) ⊎ ((a : A) × (r ≡ ok a))
Result-cases (err e) = inl (e, refl)
Result-cases (ok a) = inr (a, refl)

module _ (now : ℕ) (workspace_id : String) (s : Tenancy)
    (d : Distinct membership_key s.memberships) where
  disable-IsKept :
      (m : Membership)
      → lookup membership_key m.id s.memberships ≡ some m
      → ((m.role == Role.owner) ≡ true → 2 ≤ count_active_owners m.workspace_id s.memberships)
      → IsKept s (disable now m s).1
  unfolding IsKept disable
  disable-IsKept m h keep =
      let e = update_status-row now MembershipStatus.disabled m s.memberships h in
      rw (disable, e, e)
        (Keeps-status now MembershipStatus.disabled m s.memberships h refl keep, refl)

  set_role-IsKept :
      (target_user_id : String) (new_role : Role) (actor : String) (m : Membership)
      → lookup membership_key m.id s.memberships ≡ some m
      → ((m.role == Role.owner) ≡ true
          → ((new_role == Role.owner) ≡ true)
            ⊎ (2 ≤ count_active_owners m.workspace_id s.memberships))
      → IsKept s (set_role now workspace_id target_user_id new_role actor m s).1
  unfolding IsKept set_role
  set_role-IsKept u new_role actor m h keep =
      let e = update_role-row now new_role m s.memberships h in
      rw (set_role, e, e)
        (audited-IsKept now actor workspace_id "tenancy_role_changed"
          (field "target_user_id" (str u) (field "role" (str (role_value new_role)) end)) s
          (record s {
            memberships =
                put membership_key (record m { role = new_role; updated_at = now }) s.memberships;
          })
          (Keeps-role now new_role m s.memberships h keep, refl))

  remove-IsKept :
      (target_user_id actor : String) (m : Membership)
      → lookup membership_key m.id s.memberships ≡ some m
      → ((m.role == Role.owner) ≡ true → 2 ≤ count_active_owners m.workspace_id s.memberships)
      → IsKept s (remove now workspace_id target_user_id actor m s).1
  unfolding remove
  remove-IsKept u actor m h keep = elim (Result-cases (disable now m s).0) [
    | inl (error, e) ↦ rw (remove, e) (disable-IsKept m h keep)
    | inr (new, e) ↦
        rw (remove, e)
          (audited-IsKept now actor workspace_id "tenancy_member_removed"
            (field "target_user_id" (str u) end) s (disable now m s).1 (disable-IsKept m h keep))
  ]

  pub change_role-IsKept :
      (target_user_id : String) (new_role acting_role : Role) (actor : String)
      → IsKept s (change_role now workspace_id target_user_id new_role acting_role actor s).1
  unfolding change_role
  change_role-IsKept u new_role acting_role actor =
      elim (Option-cases (get_for_user workspace_id u s.memberships)) [
        | inl n ↦ rw (change_role, n) (IsKept-refl s)
        | inr (m, h) ↦ elim (Bool-cases (m.role == Role.owner && not (acting_role == Role.owner))) [
          | inl g ↦ rw (change_role, h, g) (IsKept-refl s)
          | inr f ↦ elim (Bool-cases (new_role == Role.owner && not (acting_role == Role.owner))) [
            | inl g ↦ rw (change_role, h, f, g) (IsKept-refl s)
            | inr f2 ↦
                elim (Bool-cases (
                  m.role == Role.owner
                  && not (new_role == Role.owner)
                  && leb (count_active_owners workspace_id s.memberships) 1)) [
                    | inl g ↦ rw (change_role, h, f, f2, g) (IsKept-refl s)
                    | inr f3 ↦
                        rw (change_role, h, f, f2, f3)
                          (set_role-IsKept u new_role actor m
                            (user_row workspace_id u s.memberships m d h)
                            (λ r. elim (Bool-cases (new_role == Role.owner)) [
                              | inl o ↦ inl o
                              | inr g ↦ inr (
                                  spare workspace_id m s.memberships
                                    (row_user workspace_id u s.memberships m h).0
                                    (third (m.role == Role.owner) (new_role == Role.owner)
                                      (leb (count_active_owners workspace_id s.memberships) 1) r g
                                      f3))
                            ]))
                  ]
          ]
        ]
      ]

  pub remove_member-IsKept :
      (target_user_id : String) (acting_role : Role) (actor : String)
      → IsKept s (remove_member now workspace_id target_user_id acting_role actor s).1
  unfolding remove_member
  remove_member-IsKept u acting_role actor =
      elim (Option-cases (get_for_user workspace_id u s.memberships)) [
        | inl n ↦ rw (remove_member, n) (IsKept-refl s)
        | inr (m, h) ↦ elim (Bool-cases (m.role == Role.owner && not (acting_role == Role.owner))) [
          | inl g ↦ rw (remove_member, h, g) (IsKept-refl s)
          | inr f ↦
              elim (Bool-cases
                (m.role == Role.owner && leb (count_active_owners workspace_id s.memberships) 1)) [
                  | inl g ↦ rw (remove_member, h, f, g) (IsKept-refl s)
                  | inr f2 ↦
                      rw (remove_member, h, f, f2)
                        (remove-IsKept u actor m (user_row workspace_id u s.memberships m d h) (λ r.
                          spare workspace_id m s.memberships
                            (row_user workspace_id u s.memberships m h).0
                            (second (m.role == Role.owner)
                              (leb (count_active_owners workspace_id s.memberships) 1) r f2)))
                ]
        ]
      ]

  pub leave_workspace-IsKept :
      (user_id : String) → IsKept s (leave_workspace now workspace_id user_id s).1
  unfolding leave_workspace
  leave_workspace-IsKept u = elim (Option-cases (get_for_user workspace_id u s.memberships)) [
    | inl n ↦ rw (leave_workspace, n) (IsKept-refl s)
    | inr (m, h) ↦
        elim (Bool-cases
          (m.role == Role.owner && leb (count_active_owners workspace_id s.memberships) 1)) [
            | inl g ↦ rw (leave_workspace, h, g) (IsKept-refl s)
            | inr f2 ↦
                rw (leave_workspace, h, f2)
                  (disable-IsKept m (user_row workspace_id u s.memberships m d h) (λ r.
                    spare workspace_id m s.memberships (row_user workspace_id u s.memberships m h).0
                      (second (m.role == Role.owner)
                        (leb (count_active_owners workspace_id s.memberships) 1) r f2)))
          ]
  ]
