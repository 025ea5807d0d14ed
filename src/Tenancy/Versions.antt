-- ===== src/Tenancy/Versions.antt =====
-- Optimistic concurrency: the updates of backend/app/tenancy/store.py and update_settings of
-- backend/app/tenancy/service.py.
use autonomous_agent_runtime.Tenancy.Contracts.{Workspace}
use autonomous_agent_runtime.Tenancy.Store.Workspaces
use autonomous_agent_runtime.Tenancy.Store.Workspaces.{
  workspace_key, WorkspaceChanges, changed, Update, missing, updated,
}
use autonomous_agent_runtime.Tenancy.Service.Workspaces.{update_settings, strings}
use autonomous_agent_runtime.Tenancy.Service.Audit.{changed_fields}
use autonomous_agent_runtime.Prelude.Json.{field, arr, end}
use mathlib.Core.Bool.{false≢true}
use autonomous_agent_runtime.Tenancy.Service.State.{Tenancy, err, audited, TenancyError, is_ok}
use autonomous_agent_runtime.Prelude.{
  ℕ, ◌+◌, String, ◌≡◌, refl, sym, ◌∙◌, subst, ◌⊎◌, inl, inr, true, false, not, Option, none, some,
  List, arith, Bool-cases, Option-cases, string_instance, ◌==◌, nat_instance, unset_or_eq, is_some,
  put, key-lookup, lookup-put, lookup-put-other,
}

module _ (now : ℕ) (id : String) (changes : WorkspaceChanges) (store : List Workspace) where
  -- `update` changes nothing, or writes the changed row that it found at the expected version.
  pub update-cases :
      (expected : Option ℕ)
      → (Workspaces.update now id changes expected store ≡ (missing, store))
        ⊎ (((v a : ℕ) × (expected ≡ some v)
              × (Workspaces.update now id changes expected store
                  ≡ (Workspaces.version_conflict v a, store)))
            ⊎ ((existing : Workspace) × (Workspaces.get id store ≡ some existing)
                × (unset_or_eq expected existing.version ≡ true)
                × (Workspaces.update now id changes expected store ≡ (
                  updated (changed now changes existing),
                  put workspace_key (changed now changes existing) store,
                ))))
  unfolding Workspaces.update
  update-cases none = elim (Option-cases (Workspaces.get id store)) [
    | inl n ↦ inl (rw (Workspaces.update, n))
    | inr (existing, e) ↦ inr (inr (existing, e, refl, rw (Workspaces.update, e)))
  ]
  update-cases (some v) = elim (Option-cases (Workspaces.get id store)) [
    | inl n ↦ inl (rw (Workspaces.update, n))
    | inr (existing, e) ↦ elim (Bool-cases (not (existing.version == v))) [
      | inl t ↦ inr (inl (v, existing.version, refl, rw (Workspaces.update, e, t)))
      | inr f ↦ inr (inr (existing, e, ground arith, rw (Workspaces.update, e, f)))
    ]
  ]

  -- An update adds no workspace.
  pub is_some-update :
      (expected : Option ℕ) (w : String)
      → is_some (Workspaces.get w (Workspaces.update now id changes expected store).1) ≡ true
      → is_some (Workspaces.get w store) ≡ true
  unfolding changed
  is_some-update expected w h = elim (update-cases expected) [
    | inl e ↦
        subst (λ (u : Update Workspace × List Workspace). is_some (Workspaces.get w u.1) ≡ true) e h
    | inr (inl (v, a, x, e)) ↦
        subst (λ (u : Update Workspace × List Workspace). is_some (Workspaces.get w u.1) ≡ true) e h
    | inr (inr (existing, g, v, e)) ↦
        let new = changed now changes existing in
        elim (Bool-cases (new.id == w)) [
          | inl t ↦
              subst (λ k. is_some (Workspaces.get k store) ≡ true)
                (sym (key-lookup workspace_key id store existing g)
                  ∙ (string_instance.beq_iff new.id w).0 t)
                (rw g)
          | inr f ↦
              subst (λ o. is_some o ≡ true) (lookup-put-other workspace_key new w store f)
                (subst
                  (λ (u : Update Workspace × List Workspace). is_some (Workspaces.get w u.1) ≡ true)
                  e h)
        ]
  ]

conflicting :
    (now : ℕ) (id : String) (expected : ℕ) (changes : WorkspaceChanges) (actor : String)
    (s : Tenancy) (existing : Workspace)
    → Workspaces.get id s.workspaces ≡ some existing
    → (existing.version == expected) ≡ false
    → update_settings now id expected changes actor s ≡ (err TenancyError.version_conflict, s)
unfolding update_settings Workspaces.update
conflicting now id expected changes actor s existing g f =
    rw (update_settings, Workspaces.update, g, f)

next_version : (a b : ℕ) → (b == a) ≡ true → (a + 1 == b) ≡ false
next_version a b h = ground arith

edited : ℕ → String → WorkspaceChanges → String → Workspace → Tenancy → Tenancy
edited now id changes actor existing s =
    audited now actor id "tenancy_workspace_settings_updated"
      (field "changed_fields" (arr (strings (changed_fields changes))) end)
      (record s { workspaces = put workspace_key (changed now changes existing) s.workspaces })

-- Of two settings edits that read the same version, the second is refused: after an edit that
-- succeeds, any edit that expects the same version is a conflict and changes nothing.
pub update_settings-once :
    (now later : ℕ) (id : String) (expected : ℕ) (changes other : WorkspaceChanges)
    (actor rival : String) (s : Tenancy)
    → is_ok (update_settings now id expected changes actor s).0 ≡ true
    → let t = (update_settings now id expected changes actor s).1 in
      update_settings later id expected other rival t ≡ (err TenancyError.version_conflict, t)
unfolding update_settings audited edited changed
update_settings-once now later id expected changes other actor rival s h =
    elim (update-cases now id changes s.workspaces (some expected)) [
      | inl e ↦ absurd (false≢true (rw (update_settings, e) at h))
      | inr (inl (v, a, x, e)) ↦ absurd (false≢true (rw (update_settings, e) at h))
      | inr (inr (existing, g, v, e)) ↦
          let new = changed now changes existing in
          let q : ((update_settings now id expected changes actor s).1
              ≡ edited now id changes actor existing s) =
            rw (update_settings, e, e) in
          subst
            (λ t.
              update_settings later id expected other rival t
              ≡ (err TenancyError.version_conflict, t))
            (sym q)
            (conflicting later id expected other rival (edited now id changes actor existing s) new
              (subst (λ k. Workspaces.get k (put workspace_key new s.workspaces) ≡ some new)
                (key-lookup workspace_key id s.workspaces existing g)
                (lookup-put workspace_key new s.workspaces))
              (next_version existing.version expected v))
    ]
