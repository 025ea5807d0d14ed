-- ===== src/Tenancy/Runs.antt =====
-- Sequences of calls of TenancyService (backend/app/tenancy/service.py), from any number of callers.
use autonomous_agent_runtime.Tenancy.Contracts.{Role}
use autonomous_agent_runtime.Tenancy.Store.Workspaces.{WorkspaceChanges, NewWorkspace}
use autonomous_agent_runtime.Tenancy.Store.Memberships.{membership_key}
use autonomous_agent_runtime.Tenancy.Store.Preferences.{PreferenceChanges}
use autonomous_agent_runtime.Tenancy.Ownership.{
  change_role-IsKept, remove_member-IsKept, leave_workspace-IsKept,
}
use autonomous_agent_runtime.Tenancy.Ownership.Transfer.{transfer_ownership-IsKept}
use autonomous_agent_runtime.Tenancy.Entries.{
  IsWellFormed, IsKept-IsWellFormed, update_settings-IsWellFormed,
  deactivate_workspace-IsWellFormed, update_report_preferences-IsWellFormed,
  get_report_preferences-IsWellFormed, invite_member-IsWellFormed, accept_invitation-IsKept,
}
use autonomous_agent_runtime.Tenancy.Entries.Create.{is_unused, create_workspace-IsWellFormed}
use autonomous_agent_runtime.Tenancy.Service.State.{Tenancy}
use autonomous_agent_runtime.Tenancy.Service.Workspaces.{
  create_workspace, update_settings, deactivate_workspace, update_report_preferences,
  get_report_preferences,
}
use autonomous_agent_runtime.Tenancy.Service.Members.{Invite, invite_member, accept_invitation}
use autonomous_agent_runtime.Tenancy.Service.Owners.{
  change_role, remove_member, leave_workspace, transfer_ownership,
}
use mathlib.Core.Bool.{false≢true}
use autonomous_agent_runtime.Prelude.{
  ℕ, String, ◌≡◌, sym, ap, ◌∙◌, inl, inr, Bool, true, ◌&&◌, not, none, List, [], ◌∷◌, arith,
  Option-cases, string_instance, ◌==◌, nat_instance, is_some, lookup,
}

-- One call, with the time at which it is made and the fresh identifiers that it uses.
pub data Op : Type 0 where
  create_op : ℕ → String → String → String → NewWorkspace → Op
  settings_op : ℕ → String → ℕ → WorkspaceChanges → String → Op
  deactivate_op : ℕ → String → Role → String → Op
  read_preferences_op : ℕ → String → Op
  preferences_op : ℕ → String → ℕ → PreferenceChanges → String → Op
  invite_op : ℕ → Invite → Op
  accept_op : ℕ → String → String → String → String → Op
  change_role_op : ℕ → String → String → Role → Role → String → Op
  remove_op : ℕ → String → String → Role → String → Op
  leave_op : ℕ → String → String → Op
  transfer_op : ℕ → String → String → String → Role → Op

abbrev pub empty_tenancy : Tenancy
empty_tenancy = record {
  workspaces = [];
  memberships = [];
  invitations = [];
  preferences = [];
  emails = [];
  audit = [];
}

pub empty-IsWellFormed : IsWellFormed empty_tenancy
empty-IsWellFormed = record {
  distinct = tt;
  single = λ w u. omega arith;
  owned = λ w h. absurd (false≢true h);
}

pub both : (a b : Bool) → a && b ≡ true → (a ≡ true) × (b ≡ true)
both a b h = ground arith

module _ (normalize strip hash_token : String → String) (app_base_url : String) (ttl : ℕ) where
  unfoldable pub step : Op → Tenancy → Tenancy
  step (create_op now id membership_id user given) s =
      (create_workspace normalize strip now id membership_id user given s).1
  step (settings_op now id expected changes actor) s =
      (update_settings now id expected changes actor s).1
  step (deactivate_op now id role actor) s = (deactivate_workspace now id role actor s).1
  step (read_preferences_op now id) s = (get_report_preferences now id s).1
  step (preferences_op now id expected changes actor) s =
      (update_report_preferences now id expected changes actor s).1
  step (invite_op now given) s = (invite_member normalize hash_token app_base_url ttl now given s).1
  step (accept_op now id token user email) s =
      (accept_invitation normalize hash_token now id token user email s).1
  step (change_role_op now id target new_role role actor) s =
      (change_role now id target new_role role actor s).1
  step (remove_op now id target role actor) s = (remove_member now id target role actor s).1
  step (leave_op now id user) s = (leave_workspace now id user s).1
  step (transfer_op now id giver taker role) s = (transfer_ownership now id giver taker role s).1

  -- Identifiers are fresh UUIDs, and nobody hands a workspace over to themselves.
  abbrev pub is_proper : Op → Tenancy → Bool
  is_proper (create_op now id membership_id user given) s =
      not (is_some (lookup membership_key membership_id s.memberships)) && is_unused id s
  is_proper (accept_op now id token user email) s =
      not (is_some (lookup membership_key id s.memberships))
  is_proper (transfer_op now id giver taker role) s = not (giver == taker)
  is_proper _ s = true

  unfoldable pub run : List Op → Tenancy → Tenancy
  run [] s = s
  run (op ∷ ops) s = run ops (step op s)

  unfoldable pub are_proper : List Op → Tenancy → Bool
  are_proper [] s = true
  are_proper (op ∷ ops) s = is_proper op s && are_proper ops (step op s)

  pub absent :
      (id : String) (s : Tenancy)
      → not (is_some (lookup membership_key id s.memberships)) ≡ true
      → lookup membership_key id s.memberships ≡ none
  absent id s h = elim (Option-cases (lookup membership_key id s.memberships)) [
    | inl e ↦ e
    | inr (m, e) ↦ absurd (false≢true (rw e at h))
  ]

  pub step-IsWellFormed :
      (op : Op) (s : Tenancy) → is_proper op s ≡ true → IsWellFormed s → IsWellFormed (step op s)
  unfolding step
  step-IsWellFormed (create_op now id membership_id user given) s p h =
      let (f, u) =
        both (not (is_some (lookup membership_key membership_id s.memberships))) (is_unused id s)
          p in
      create_workspace-IsWellFormed normalize strip now id membership_id user given s
        (absent membership_id s f) u h
  step-IsWellFormed (settings_op now id expected changes actor) s p h =
      update_settings-IsWellFormed now id s h expected changes actor
  step-IsWellFormed (deactivate_op now id role actor) s p h =
      deactivate_workspace-IsWellFormed now id s h role actor
  step-IsWellFormed (read_preferences_op now id) s p h =
      get_report_preferences-IsWellFormed now id s h
  step-IsWellFormed (preferences_op now id expected changes actor) s p h =
      update_report_preferences-IsWellFormed now id s h expected changes actor
  step-IsWellFormed (invite_op now given) s p h =
      invite_member-IsWellFormed normalize hash_token app_base_url ttl now given s h
  step-IsWellFormed (accept_op now id token user email) s p h =
      IsKept-IsWellFormed s (step (accept_op now id token user email) s)
        (accept_invitation-IsKept normalize hash_token now id s (absent id s p) token user email) h
  step-IsWellFormed (change_role_op now id target new_role role actor) s p h =
      IsKept-IsWellFormed s (step (change_role_op now id target new_role role actor) s)
        (change_role-IsKept now id s h.distinct target new_role role actor) h
  step-IsWellFormed (remove_op now id target role actor) s p h =
      IsKept-IsWellFormed s (step (remove_op now id target role actor) s)
        (remove_member-IsKept now id s h.distinct target role actor) h
  step-IsWellFormed (leave_op now id user) s p h =
      IsKept-IsWellFormed s (step (leave_op now id user) s)
        (leave_workspace-IsKept now id s h.distinct user) h
  step-IsWellFormed (transfer_op now id giver taker role) s p h =
      IsKept-IsWellFormed s (step (transfer_op now id giver taker role) s)
        (transfer_ownership-IsKept now id giver taker s h.distinct
          (λ e. false≢true (sym (ap not ((string_instance.beq_iff giver taker).1 e)) ∙ p)) role)
        h

  -- Over every sequence of calls in which identifiers are fresh and nobody hands a workspace over
  -- to themselves, each workspace keeps an active owner, nobody has two memberships in one
  -- workspace, and no two memberships share an identifier.
  pub run-IsWellFormed :
      (ops : List Op) (s : Tenancy)
      → are_proper ops s ≡ true
      → IsWellFormed s
      → IsWellFormed (run ops s)
  unfolding run are_proper
  run-IsWellFormed [] s p h = h
  run-IsWellFormed (op ∷ ops) s p h =
      let (a, b) = both (is_proper op s) (are_proper ops (step op s)) p in
      run-IsWellFormed ops (step op s) b (step-IsWellFormed op s a h)
