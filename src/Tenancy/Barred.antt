-- ===== src/Tenancy/Barred.antt =====
-- Who is barred from a workspace, and what a removal and the calls that enter no membership do
-- about it: backend/app/tenancy/service.py.
use autonomous_agent_runtime.Tenancy.Contracts.{
  Membership, MembershipStatus, Role, role_eq, is_active_status,
}
use autonomous_agent_runtime.Tenancy.Store.Workspaces
use autonomous_agent_runtime.Tenancy.Store.Workspaces.{WorkspaceChanges, NewWorkspace, get_by_slug}
use autonomous_agent_runtime.Tenancy.Store.Memberships.{
  membership_key, is_of, count_active_owners, get_for_user,
}
use autonomous_agent_runtime.Tenancy.Store.Invitations.{get_pending}
use autonomous_agent_runtime.Tenancy.Store.Preferences
use autonomous_agent_runtime.Tenancy.Store.Preferences.{PreferenceChanges}
use autonomous_agent_runtime.Tenancy.Rows.{IsBarred, is_active_of, is_disabled_of, count-split}
use autonomous_agent_runtime.Tenancy.Access.{shut_out}
use autonomous_agent_runtime.Tenancy.Ownership.{Result-cases, user_row, update_status-row}
use autonomous_agent_runtime.Tenancy.Versions.{update-cases}
use autonomous_agent_runtime.Tenancy.Entries.{IsWellFormed, Update-cases}
use autonomous_agent_runtime.Tenancy.Service.State.{Tenancy, is_ok, audited}
use autonomous_agent_runtime.Tenancy.Service.Workspaces.{
  get_context, update_settings, deactivate_workspace, update_report_preferences,
  get_report_preferences, no_changes, require_active_workspace,
}
use autonomous_agent_runtime.Tenancy.Service.Members.{Invite, invite_member}
use autonomous_agent_runtime.Tenancy.Service.Owners.{remove_member, disable, remove}
use mathlib.Core.Bool.{false≢true}
use autonomous_agent_runtime.Prelude.{
  ℕ, String, ◌≡◌, refl, inl, inr, true, false, ◌&&◌, not, none, some, arith, leb, Bool-cases,
  Option-cases, string_instance, ◌==◌, nat_instance, find-holds, put, Distinct, lookup-put,
  count-put, lookup-count,
}

-- Nobody who is barred gets a context.
pub barred-shut_out :
    (w u : String) (s : Tenancy)
    → Distinct membership_key s.memberships
    → IsBarred w u s.memberships
    → is_ok (get_context u w s) ≡ false
unfolding get_context
barred-shut_out w u s d b = elim (Option-cases (get_for_user w u s.memberships)) [
  | inr (m, e) ↦ elim (Bool-cases (is_active_status m.status)) [
    | inr off ↦ shut_out w u s m e off
    | inl on ↦
        let member = find-holds (is_of w u) s.memberships m e in
        let active : (is_active_of w u m ≡ true) = rw (member, on) refl in
        absurd (
          omega (
            arith,
            b.1,
            lookup-count membership_key (is_active_of w u) m.id s.memberships m
                (user_row w u s.memberships m d e) active,
          ))
  ]
  | inl n ↦ elim (Option-cases (Workspaces.get w s.workspaces)) [
    | inl x ↦ rw (get_context, x)
    | inr (x, e) ↦ elim (Bool-cases (not x.is_active)) [
      | inl t ↦ rw (get_context, e, t)
      | inr g ↦ rw (get_context, e, g, n)
    ]
  ]
]

module _ (now : ℕ) (w u : String) (s : Tenancy) (h : IsWellFormed s) where
  disable-IsBarred :
      (m : Membership)
      → get_for_user w u s.memberships ≡ some m
      → IsBarred w u (disable now m s).1.memberships
  unfolding disable
  disable-IsBarred m e =
      let new : Membership = record m { status = MembershipStatus.disabled; updated_at = now } in
      let ms = put membership_key new s.memberships in
      let row = user_row w u s.memberships m h.distinct e in
      let q = update_status-row now MembershipStatus.disabled m s.memberships row in
      let member = find-holds (is_of w u) s.memberships m e in
      let off : (is_disabled_of w u new ≡ true) = rw member refl in
      let one =
        lookup-count membership_key (is_disabled_of w u) new.id ms new
          (lookup-put membership_key new s.memberships) off in
      let same = count-put membership_key (is_of w u) new m s.memberships row in
      rw (disable, q, q)
        (
          omega (arith, one, count-split w u ms),
          omega (arith, one, count-split w u ms, same, h.single w u),
        )

  remove-IsBarred :
      (actor : String) (m : Membership)
      → get_for_user w u s.memberships ≡ some m
      → IsBarred w u (remove now w u actor m s).1.memberships
  unfolding remove audited
  remove-IsBarred actor m e = elim (Result-cases (disable now m s).0) [
    | inl (x, q) ↦ rw (remove, q) (disable-IsBarred m e)
    | inr (x, q) ↦ rw (remove, q) (disable-IsBarred m e)
  ]

  pub remove_member-IsBarred :
      (acting_role : Role) (actor : String)
      → is_ok (remove_member now w u acting_role actor s).0 ≡ true
      → IsBarred w u (remove_member now w u acting_role actor s).1.memberships
  unfolding remove_member
  remove_member-IsBarred acting_role actor ok =
      elim (Option-cases (get_for_user w u s.memberships)) [
        | inl n ↦ absurd (false≢true (rw (remove_member, n) at ok))
        | inr (m, e) ↦ elim (Bool-cases (m.role == Role.owner && not (acting_role == Role.owner))) [
          | inl g ↦ absurd (false≢true (rw (remove_member, e, g) at ok))
          | inr f ↦
              elim (Bool-cases
                (m.role == Role.owner && leb (count_active_owners w s.memberships) 1)) [
                  | inl g ↦ absurd (false≢true (rw (remove_member, e, f, g) at ok))
                  | inr f2 ↦ rw (remove_member, e, f, f2) (remove-IsBarred actor m e)
                ]
        ]
      ]

module _ (now : ℕ) (id : String) (s : Tenancy) where
  pub update_settings-memberships :
      (expected : ℕ) (changes : WorkspaceChanges) (actor : String)
      → (update_settings now id expected changes actor s).1.memberships ≡ s.memberships
  unfolding update_settings audited
  update_settings-memberships expected changes actor =
      elim (update-cases now id changes s.workspaces (some expected)) [
        | inl e ↦ rw (update_settings, e)
        | inr (inl (v, a, x, e)) ↦ rw (update_settings, e)
        | inr (inr (existing, g, v, e)) ↦ rw (update_settings, e)
      ]

  pub deactivate_workspace-memberships :
      (acting_role : Role) (actor : String)
      → (deactivate_workspace now id acting_role actor s).1.memberships ≡ s.memberships
  unfolding deactivate_workspace audited
  deactivate_workspace-memberships acting_role actor =
      elim (Bool-cases (acting_role == Role.owner)) [
        | inr f ↦ rw (deactivate_workspace, f)
        | inl t ↦
            elim (update-cases now id (record no_changes { is_active = some false }) s.workspaces
              none) [
                | inl e ↦ rw (deactivate_workspace, t, e)
                | inr (inl (v, a, x, e)) ↦ rw (deactivate_workspace, t, e)
                | inr (inr (existing, g, v, e)) ↦ rw (deactivate_workspace, t, e)
              ]
      ]

  pub update_report_preferences-memberships :
      (expected : ℕ) (changes : PreferenceChanges) (actor : String)
      → (update_report_preferences now id expected changes actor s).1.memberships ≡ s.memberships
  unfolding update_report_preferences audited
  update_report_preferences-memberships expected changes actor =
      elim (Update-cases (Preferences.update id now expected changes s.preferences).0) [
        | inl e ↦ rw (update_report_preferences, e)
        | inr (inl (v, a, e)) ↦ rw (update_report_preferences, e)
        | inr (inr (new, e)) ↦ rw (update_report_preferences, e)
      ]

  pub get_report_preferences-memberships :
      (get_report_preferences now id s).1.memberships ≡ s.memberships
  unfolding get_report_preferences
  get_report_preferences-memberships = refl

pub invite_member-memberships :
    (normalize hash_token : String → String) (app_base_url : String) (ttl now : ℕ) (given : Invite)
    (s : Tenancy)
    → (invite_member normalize hash_token app_base_url ttl now given s).1.memberships
      ≡ s.memberships
unfolding invite_member audited
invite_member-memberships normalize hash_token app_base_url ttl now given s =
    elim (Result-cases (require_active_workspace given.workspace_id s)) [
      | inl (x, e) ↦ rw (invite_member, e)
      | inr (x, e) ↦
          elim (Bool-cases (given.role == Role.owner && not (given.inviter_role == Role.owner))) [
            | inl t ↦ rw (invite_member, e, t)
            | inr f ↦
                elim (Option-cases
                  (get_pending now given.workspace_id (normalize given.email) s.invitations)) [
                    | inr (i, p) ↦ rw (invite_member, e, f, p)
                    | inl n ↦ rw (invite_member, e, f, n)
                  ]
          ]
    ]
