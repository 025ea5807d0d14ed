-- ===== src/Tenancy/Entries/Create.antt =====
-- create_workspace of backend/app/tenancy/service.py gives a workspace its first owner.
use autonomous_agent_runtime.Tenancy.Contracts.{Workspace, Membership}
use autonomous_agent_runtime.Tenancy.Store.Workspaces
use autonomous_agent_runtime.Tenancy.Store.Workspaces.{workspace_key, NewWorkspace, get_by_slug}
use autonomous_agent_runtime.Tenancy.Store.Memberships
use autonomous_agent_runtime.Tenancy.Store.Memberships.{
  membership_key, is_of, is_active_owner, count_active_owners,
}
use autonomous_agent_runtime.Tenancy.Rows.{Keeps-create}
use autonomous_agent_runtime.Tenancy.Ownership.{owner_holds}
use autonomous_agent_runtime.Tenancy.Entries.{IsWellFormed}
use autonomous_agent_runtime.Tenancy.Service.State.{Tenancy}
use autonomous_agent_runtime.Tenancy.Service.Workspaces.{create_workspace, owner_of}
use mathlib.Core.Bool.{false≢true}
use autonomous_agent_runtime.Prelude.{
  ℕ, ◌≤◌, String, ◌≡◌, refl, sym, ap, ◌∙◌, subst, ◌⊎◌, inl, inr, Bool, true, false, not, Option,
  none, some, List, [], ◌∷◌, arith, Bool-cases, Option-cases, any, string_instance, ◌==◌,
  nat_instance, bit, is_some, lookup, put, lookup-put-other, count-put-new,
}

-- The fresh identifier of a workspace stands in no membership.
abbrev pub is_unused : String → Tenancy → Bool
is_unused id s = not (any (λ (m : Membership). m.workspace_id == id) s.memberships)

is_some-put :
    (new : Workspace) (w : String) (store : List Workspace)
    → is_some (Workspaces.get w (put workspace_key new store)) ≡ true
    → (new.id ≡ w) ⊎ (is_some (Workspaces.get w store) ≡ true)
is_some-put new w store h = elim (Bool-cases (new.id == w)) [
  | inl t ↦ inl ((string_instance.beq_iff new.id w).0 t)
  | inr f ↦ inr (subst (λ o. is_some o ≡ true) (lookup-put-other workspace_key new w store f) h)
]

unused_any :
    (id user : String) (ms : List Membership)
    → any (λ (m : Membership). m.workspace_id == id) ms ≡ false
    → any (is_of id user) ms ≡ false
unused_any id user [] h = refl
unused_any id user (m ∷ ms) h = ground (arith, unused_any id user ms)

abbrev either_row : Workspace → Option Workspace → Workspace
either_row d none = d
either_row d (some w) = w

create_row :
    (id : String) (now : ℕ) (given : NewWorkspace) (store : List Workspace) (new : Workspace)
    → (Workspaces.create id now given store).0 ≡ some new
    → (new.id ≡ id) × ((Workspaces.create id now given store).1 ≡ put workspace_key new store)
unfolding Workspaces.create
create_row id now given store new h =
    elim (Bool-cases (any (λ (w : Workspace). w.slug == given.slug) store)) [
      | inl t ↦ absurd (false≢true (ap is_some (rw (Workspaces.create, t) at h)))
      | inr f ↦
          let e = ap (either_row new) (rw (Workspaces.create, f) at h) in
          (
            sym (ap (λ (w : Workspace). w.id) e),
            rw (Workspaces.create, f) (ap (λ w. put workspace_key w store) e),
          )
    ]

owner_counts :
    (now : ℕ) (id user w : String) (ms : List Membership)
    → lookup membership_key id ms ≡ none
    → any (is_of w user) ms ≡ false
    → 1 ≤ count_active_owners w (Memberships.create now (owner_of id now user w) ms).1
unfolding Memberships.create owner_of
owner_counts now id user w ms fresh f =
    rw (Memberships.create, f)
      (omega (
        arith,
        count-put-new membership_key (is_active_owner w) (owner_of id now user w) ms fresh,
        ap bit (owner_holds w (owner_of id now user w) refl refl refl),
      ))

owner_enters :
    (now : ℕ) (id user w : String) (ms : List Membership)
    → any (is_of w user) ms ≡ false
    → is_some (Memberships.create now (owner_of id now user w) ms).0 ≡ true
unfolding Memberships.create owner_of
owner_enters now id user w ms f = rw (Memberships.create, f)

holds_not : (b : Bool) → not b ≡ true → b ≡ false
holds_not b h = ground arith

pub create_workspace-IsWellFormed :
    (normalize strip : String → String) (now : ℕ) (id membership_id user : String)
    (given : NewWorkspace) (s : Tenancy)
    → lookup membership_key membership_id s.memberships ≡ none
    → is_unused id s ≡ true
    → IsWellFormed s
    → IsWellFormed (create_workspace normalize strip now id membership_id user given s).1
unfolding create_workspace owner_of
create_workspace-IsWellFormed normalize strip now id membership_id user given s fresh unused h =
    let named : NewWorkspace = record given {
      name = strip given.name;
      slug = normalize given.slug;
    } in
    elim (Option-cases (get_by_slug named.slug s.workspaces)) [
      | inr (w, e) ↦ rw (create_workspace, e) h
      | inl n ↦ elim (Option-cases (Workspaces.create id now named s.workspaces).0) [
        | inl e ↦ rw (create_workspace, n, e) h
        | inr (new, e) ↦
            let (same, row) = create_row id now named s.workspaces new e in
            let f =
              subst (λ v. any (is_of v user) s.memberships ≡ false) (sym same)
                (unused_any id user s.memberships (
                  holds_not (any (λ (m : Membership). m.workspace_id == id) s.memberships)
                    unused)) in
            let k = Keeps-create now (owner_of membership_id now user new.id) s.memberships fresh in
            elim (Option-cases
              (Memberships.create now (owner_of membership_id now user new.id) s.memberships).0) [
                | inl g ↦ absurd (
                    false≢true (
                      sym (ap is_some g)
                      ∙ owner_enters now membership_id user new.id s.memberships f))
                | inr (m, g) ↦
                    rw (create_workspace, n, e, g)
                      (record {
                        distinct = k.distinct h.distinct;
                        single = λ w u. k.single w u (h.single w u);
                        owned = λ w p.
                            elim (is_some-put new w s.workspaces
                              (subst (λ ws. is_some (Workspaces.get w ws) ≡ true) row p)) [
                                | inl q ↦
                                    subst
                                      (λ v.
                                        1
                                        ≤ count_active_owners v
                                            (Memberships.create now
                                              (owner_of membership_id now user new.id)
                                              s.memberships).1)
                                      q
                                      (owner_counts now membership_id user new.id s.memberships
                                        fresh f)
                                | inr q ↦ k.owned w (h.owned w q)
                              ];
                      })
              ]
      ]
    ]
