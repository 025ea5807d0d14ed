-- ===== src/Tenancy/Entries.antt =====
-- How the operations of backend/app/tenancy/service.py that enter or edit a workspace, or enter a
-- member, keep the stores well formed.
pub mod Create
use autonomous_agent_runtime.Prelude.Json.{end, field, arr, Fields}
use autonomous_agent_runtime.Tenancy.Contracts.{Role, Workspace, Invitation, role_eq}
use autonomous_agent_runtime.Tenancy.Store.Workspaces
use autonomous_agent_runtime.Tenancy.Store.Workspaces.{
  workspace_key, WorkspaceChanges, NewWorkspace, changed, get_by_slug, Update, missing, updated,
}
use autonomous_agent_runtime.Tenancy.Store.Memberships
use autonomous_agent_runtime.Tenancy.Store.Memberships.{
  membership_key, is_of, is_active_owner, count_active_owners, get_for_user,
}
use autonomous_agent_runtime.Tenancy.Store.Invitations.{get_by_token_hash, get_pending, is_pending}
use autonomous_agent_runtime.Tenancy.Store.Preferences
use autonomous_agent_runtime.Tenancy.Store.Preferences.{PreferenceChanges}
use autonomous_agent_runtime.Tenancy.Rows.{Keeps-create}
use autonomous_agent_runtime.Tenancy.Ownership.{IsKept, IsKept-refl, Result-cases}
use autonomous_agent_runtime.Tenancy.Versions.{update-cases, is_some-update}
use autonomous_agent_runtime.Tenancy.Service.State.{Tenancy, audited}
use autonomous_agent_runtime.Tenancy.Service.Workspaces.{
  update_settings, deactivate_workspace, require_active_workspace, update_report_preferences,
  no_changes, strings, get_report_preferences,
}
use autonomous_agent_runtime.Tenancy.Service.Members.{
  Invite, invite_member, accept_invitation, redeem, membership_of,
}
use autonomous_agent_runtime.Tenancy.Service.Audit.{changed_fields}
use autonomous_agent_runtime.Prelude.{
  ℕ, ◌≤◌, String, ◌≡◌, refl, subst, ◌⊎◌, inl, inr, true, false, ◌&&◌, not, none, some, List,
  Bool-cases, Option-cases, string_instance, ◌==◌, nat_instance, is_some, count, lookup, Distinct,
}

-- No two rows under one identifier or of one user in one workspace, and an active owner of each
-- workspace.
pub record IsWellFormed (s : Tenancy) : Type 0 where
  pub distinct : Distinct membership_key s.memberships
  pub single : (w u : String) → count (is_of w u) s.memberships ≤ 1
  pub owned :
      (w : String)
      → is_some (Workspaces.get w s.workspaces) ≡ true
      → 1 ≤ count_active_owners w s.memberships

pub IsKept-IsWellFormed : (s t : Tenancy) → IsKept s t → IsWellFormed s → IsWellFormed t
unfolding IsKept
IsKept-IsWellFormed s t k h = record {
  distinct = k.0.distinct h.distinct;
  single = λ w u. k.0.single w u (h.single w u);
  owned = λ w p. k.0.owned w (h.owned w (subst (λ ws. is_some (Workspaces.get w ws) ≡ true) k.1 p));
}

-- With the same memberships and no more workspaces.
narrowed :
    (s : Tenancy) (workspaces : List Workspace)
    → ((w : String)
        → is_some (Workspaces.get w workspaces) ≡ true
        → is_some (Workspaces.get w s.workspaces) ≡ true)
    → IsWellFormed s
    → IsWellFormed (record s { workspaces = workspaces })
narrowed s workspaces p h = record {
  distinct = h.distinct;
  single = h.single;
  owned = λ w q. h.owned w (p w q);
}

audited-IsWellFormed :
    (now : ℕ) (actor w event : String) (metadata : Fields) (s : Tenancy)
    → IsWellFormed s
    → IsWellFormed (audited now actor w event metadata s)
unfolding audited
audited-IsWellFormed now actor w event metadata s h = record {
  distinct = h.distinct;
  single = h.single;
  owned = h.owned;
}

pub Update-cases {ℓ} :
    {A : Type ℓ} (u : Update A)
    → (u ≡ missing)
      ⊎ (((v a : ℕ) × (u ≡ Workspaces.version_conflict v a)) ⊎ ((a : A) × (u ≡ updated a)))
Update-cases missing = inl refl
Update-cases (Workspaces.version_conflict v a) = inr (inl (v, a, refl))
Update-cases (updated a) = inr (inr (a, refl))

module _ (now : ℕ) (id : String) (s : Tenancy) (h : IsWellFormed s) where
  pub update_settings-IsWellFormed :
      (expected : ℕ) (changes : WorkspaceChanges) (actor : String)
      → IsWellFormed (update_settings now id expected changes actor s).1
  unfolding update_settings
  update_settings-IsWellFormed expected changes actor =
      elim (update-cases now id changes s.workspaces (some expected)) [
        | inl e ↦ rw (update_settings, e) h
        | inr (inl (v, a, x, e)) ↦ rw (update_settings, e) h
        | inr (inr (existing, g, v, e)) ↦
            rw (update_settings, e)
              (audited-IsWellFormed now actor id "tenancy_workspace_settings_updated"
                (field "changed_fields" (arr (strings (changed_fields changes))) end)
                (record s {
                  workspaces = (Workspaces.update now id changes (some expected) s.workspaces).1;
                })
                (narrowed s (Workspaces.update now id changes (some expected) s.workspaces).1
                  (is_some-update now id changes s.workspaces (some expected)) h))
      ]

  pub deactivate_workspace-IsWellFormed :
      (acting_role : Role) (actor : String)
      → IsWellFormed (deactivate_workspace now id acting_role actor s).1
  unfolding deactivate_workspace
  deactivate_workspace-IsWellFormed acting_role actor =
      elim (Bool-cases (acting_role == Role.owner)) [
        | inr f ↦ rw (deactivate_workspace, f) h
        | inl t ↦
            let changes : WorkspaceChanges = record no_changes { is_active = some false } in
            elim (update-cases now id changes s.workspaces none) [
              | inl e ↦ rw (deactivate_workspace, t, e) h
              | inr (inl (v, a, x, e)) ↦ rw (deactivate_workspace, t, e) h
              | inr (inr (existing, g, v, e)) ↦
                  rw (deactivate_workspace, t, e)
                    (audited-IsWellFormed now actor id "tenancy_workspace_deactivated" end
                      (record s {
                        workspaces = (Workspaces.update now id changes none s.workspaces).1;
                      })
                      (narrowed s (Workspaces.update now id changes none s.workspaces).1
                        (is_some-update now id changes s.workspaces none) h))
            ]
      ]

  pub update_report_preferences-IsWellFormed :
      (expected : ℕ) (changes : PreferenceChanges) (actor : String)
      → IsWellFormed (update_report_preferences now id expected changes actor s).1
  unfolding update_report_preferences audited
  update_report_preferences-IsWellFormed expected changes actor =
      elim (Update-cases (Preferences.update id now expected changes s.preferences).0) [
        | inl e ↦ rw (update_report_preferences, e) h
        | inr (inl (v, a, e)) ↦ rw (update_report_preferences, e) h
        | inr (inr (new, e)) ↦
            rw (update_report_preferences, e)
              (record { distinct = h.distinct; single = h.single; owned = h.owned })
      ]

  pub get_report_preferences-IsWellFormed : IsWellFormed (get_report_preferences now id s).1
  unfolding get_report_preferences
  get_report_preferences-IsWellFormed = record {
    distinct = h.distinct;
    single = h.single;
    owned = h.owned;
  }

pub invite_member-IsWellFormed :
    (normalize hash_token : String → String) (app_base_url : String) (ttl now : ℕ) (given : Invite)
    (s : Tenancy)
    → IsWellFormed s
    → IsWellFormed (invite_member normalize hash_token app_base_url ttl now given s).1
unfolding invite_member audited
invite_member-IsWellFormed normalize hash_token app_base_url ttl now given s h =
    elim (Result-cases (require_active_workspace given.workspace_id s)) [
      | inl (x, e) ↦ rw (invite_member, e) h
      | inr (x, e) ↦
          elim (Bool-cases (given.role == Role.owner && not (given.inviter_role == Role.owner))) [
            | inl t ↦ rw (invite_member, e, t) h
            | inr f ↦
                elim (Option-cases
                  (get_pending now given.workspace_id (normalize given.email) s.invitations)) [
                    | inr (i, p) ↦ rw (invite_member, e, f, p) h
                    | inl n ↦
                        rw (invite_member, e, f, n)
                          (record { distinct = h.distinct; single = h.single; owned = h.owned })
                  ]
          ]
    ]

module _ (normalize hash_token : String → String) (now : ℕ) (id : String) (s : Tenancy)
    (fresh : lookup membership_key id s.memberships ≡ none) where
  redeem-IsKept :
      (user_id email : String) (i : Invitation)
      → IsKept s (redeem normalize now id user_id email i s).1
  unfolding redeem IsKept audited membership_of
  redeem-IsKept user_id email i = elim (Bool-cases (not (normalize email == i.email))) [
    | inl t ↦ rw (redeem, t) (IsKept-refl s)
    | inr f ↦ elim (Result-cases (require_active_workspace i.workspace_id s)) [
      | inl (x, e) ↦ rw (redeem, f, e) (IsKept-refl s)
      | inr (x, e) ↦ elim (Option-cases (get_for_user i.workspace_id user_id s.memberships)) [
        | inr (m, p) ↦ rw (redeem, f, e, p) (IsKept-refl s)
        | inl n ↦
            elim (Option-cases
              (Memberships.create now (membership_of id now user_id i) s.memberships).0) [
                | inl q ↦ rw (redeem, f, e, n, q) (IsKept-refl s)
                | inr (m, q) ↦
                    rw (redeem, f, e, n, q)
                      (Keeps-create now (membership_of id now user_id i) s.memberships fresh, refl)
              ]
      ]
    ]
  ]

  pub accept_invitation-IsKept :
      (token user_id email : String)
      → IsKept s (accept_invitation normalize hash_token now id token user_id email s).1
  unfolding accept_invitation
  accept_invitation-IsKept token user_id email =
      elim (Option-cases (get_by_token_hash (hash_token token) s.invitations)) [
        | inl n ↦ rw (accept_invitation, n) (IsKept-refl s)
        | inr (i, e) ↦ elim (Bool-cases (not (is_pending now i))) [
          | inl t ↦ rw (accept_invitation, e, t) (IsKept-refl s)
          | inr f ↦ rw (accept_invitation, e, f) (redeem-IsKept user_id email i)
        ]
      ]
