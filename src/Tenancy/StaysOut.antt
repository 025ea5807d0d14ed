-- ===== src/Tenancy/StaysOut.antt =====
-- A removed member stays out: the calls of backend/app/tenancy/service.py after a removal.
use autonomous_agent_runtime.Tenancy.Runs.{
  Op, create_op, settings_op, deactivate_op, read_preferences_op, preferences_op, invite_op,
  accept_op, change_role_op, remove_op, leave_op, transfer_op, step, is_proper, run, are_proper,
  absent, both, step-IsWellFormed,
}
use autonomous_agent_runtime.Tenancy.Ownership.{
  IsKept, change_role-IsKept, remove_member-IsKept, leave_workspace-IsKept,
}
use autonomous_agent_runtime.Tenancy.Ownership.Transfer.{transfer_ownership-IsKept}
use autonomous_agent_runtime.Tenancy.Entries.{
  IsKept-IsWellFormed, IsWellFormed, accept_invitation-IsKept,
}
use autonomous_agent_runtime.Tenancy.Entries.Create.{is_unused}
use autonomous_agent_runtime.Tenancy.Rows.{IsBarred, Keeps-create}
use autonomous_agent_runtime.Tenancy.Contracts.{Role, Membership}
use autonomous_agent_runtime.Tenancy.Store.Workspaces
use autonomous_agent_runtime.Tenancy.Store.Workspaces.{NewWorkspace, get_by_slug}
use autonomous_agent_runtime.Tenancy.Store.Memberships
use autonomous_agent_runtime.Tenancy.Store.Memberships.{membership_key}
use autonomous_agent_runtime.Tenancy.Barred.{
  barred-shut_out, remove_member-IsBarred, update_settings-memberships,
  deactivate_workspace-memberships, update_report_preferences-memberships,
  get_report_preferences-memberships, invite_member-memberships,
}
use autonomous_agent_runtime.Tenancy.Service.State.{Tenancy, is_ok}
use autonomous_agent_runtime.Tenancy.Service.Workspaces.{get_context, create_workspace, owner_of}
use autonomous_agent_runtime.Tenancy.Service.Owners.{remove_member}
use mathlib.Core.Bool.{false≢true}
use autonomous_agent_runtime.Prelude.{
  ℕ, String, ◌≡◌, sym, ap, ◌∙◌, subst, inl, inr, true, false, not, none, List, [], ◌∷◌,
  Option-cases, string_instance, is_some, lookup,
}

create_workspace-IsBarred :
    (normalize strip : String → String) (now : ℕ) (id membership_id user : String)
    (given : NewWorkspace) (w u : String) (s : Tenancy)
    → lookup membership_key membership_id s.memberships ≡ none
    → IsBarred w u s.memberships
    → IsBarred w u
        (create_workspace normalize strip now id membership_id user given s).1.memberships
unfolding create_workspace owner_of
create_workspace-IsBarred normalize strip now id membership_id user given w u s fresh b =
    let named : NewWorkspace = record given {
      name = strip given.name;
      slug = normalize given.slug;
    } in
    elim (Option-cases (get_by_slug named.slug s.workspaces)) [
      | inr (x, e) ↦ rw (create_workspace, e) b
      | inl n ↦ elim (Option-cases (Workspaces.create id now named s.workspaces).0) [
        | inl e ↦ rw (create_workspace, n, e) b
        | inr (new, e) ↦
            elim (Option-cases
              (Memberships.create now (owner_of membership_id now user new.id) s.memberships).0) [
                | inl g ↦ rw (create_workspace, n, e, g) b
                | inr (m, g) ↦
                    rw (create_workspace, n, e, g)
                      ((Keeps-create now (owner_of membership_id now user new.id) s.memberships
                          fresh).barred
                        w u b)
              ]
      ]
    ]

kept-IsBarred :
    (w u : String) (s t : Tenancy)
    → IsKept s t
    → IsBarred w u s.memberships
    → IsBarred w u t.memberships
unfolding IsKept
kept-IsBarred w u s t k b = k.0.barred w u b

same-IsBarred :
    (w u : String) (ms ns : List Membership) → ns ≡ ms → IsBarred w u ms → IsBarred w u ns
same-IsBarred w u ms ns e b = subst (IsBarred w u) (sym e) b

module _ (normalize strip hash_token : String → String) (app_base_url : String) (ttl : ℕ)
    (w u : String) where
  abbrev next : Op → Tenancy → Tenancy
  next = step normalize strip hash_token app_base_url ttl

  step-IsBarred :
      (op : Op) (s : Tenancy)
      → is_proper normalize strip hash_token app_base_url ttl op s ≡ true
      → IsWellFormed s
      → IsBarred w u s.memberships
      → IsBarred w u (next op s).memberships
  unfolding step
  step-IsBarred (create_op now id membership_id user given) s p h b =
      create_workspace-IsBarred normalize strip now id membership_id user given w u s
        (absent normalize strip hash_token app_base_url ttl membership_id s
          (both (not (is_some (lookup membership_key membership_id s.memberships))) (is_unused id s)
            p).0)
        b
  step-IsBarred (settings_op now id expected changes actor) s p h b =
      same-IsBarred w u _ _ (update_settings-memberships now id s expected changes actor) b
  step-IsBarred (deactivate_op now id role actor) s p h b =
      same-IsBarred w u _ _ (deactivate_workspace-memberships now id s role actor) b
  step-IsBarred (read_preferences_op now id) s p h b =
      same-IsBarred w u _ _ (get_report_preferences-memberships now id s) b
  step-IsBarred (preferences_op now id expected changes actor) s p h b =
      same-IsBarred w u _ _ (update_report_preferences-memberships now id s expected changes actor)
        b
  step-IsBarred (invite_op now given) s p h b =
      same-IsBarred w u _ _
        (invite_member-memberships normalize hash_token app_base_url ttl now given s) b
  step-IsBarred (accept_op now id token user email) s p h b =
      kept-IsBarred w u s _
        (accept_invitation-IsKept normalize hash_token now id s
          (absent normalize strip hash_token app_base_url ttl id s p) token user email)
        b
  step-IsBarred (change_role_op now id target new_role role actor) s p h b =
      kept-IsBarred w u s _ (change_role-IsKept now id s h.distinct target new_role role actor) b
  step-IsBarred (remove_op now id target role actor) s p h b =
      kept-IsBarred w u s _ (remove_member-IsKept now id s h.distinct target role actor) b
  step-IsBarred (leave_op now id user) s p h b =
      kept-IsBarred w u s _ (leave_workspace-IsKept now id s h.distinct user) b
  step-IsBarred (transfer_op now id giver taker role) s p h b =
      kept-IsBarred w u s _
        (transfer_ownership-IsKept now id giver taker s h.distinct
          (λ e. false≢true (sym (ap not ((string_instance.beq_iff giver taker).1 e)) ∙ p)) role)
        b

  run-shut_out :
      (ops : List Op) (s : Tenancy)
      → are_proper normalize strip hash_token app_base_url ttl ops s ≡ true
      → IsWellFormed s
      → IsBarred w u s.memberships
      → is_ok (get_context u w (run normalize strip hash_token app_base_url ttl ops s)) ≡ false
  unfolding run are_proper
  run-shut_out [] s p h b = barred-shut_out w u s h.distinct b
  run-shut_out (op ∷ ops) s p h b =
      let (a, c) =
        both (is_proper normalize strip hash_token app_base_url ttl op s)
          (are_proper normalize strip hash_token app_base_url ttl ops (next op s)) p in
      run-shut_out ops (next op s) c
        (step-IsWellFormed normalize strip hash_token app_base_url ttl op s a h)
        (step-IsBarred op s a h b)

  -- A member who was removed from a workspace of well-formed stores is refused a context for it from
  -- then on: after every sequence of later calls of the service, by anyone, in which identifiers are
  -- fresh and nobody hands a workspace over to themselves.
  pub remove_member-stays_out :
      (now : ℕ) (acting_role : Role) (actor : String) (s : Tenancy) (ops : List Op)
      → IsWellFormed s
      → is_ok (remove_member now w u acting_role actor s).0 ≡ true
      → are_proper normalize strip hash_token app_base_url ttl ops
          (remove_member now w u acting_role actor s).1
        ≡ true
      → is_ok (
          get_context u w (
            run normalize strip hash_token app_base_url ttl ops
              (remove_member now w u acting_role actor s).1))
        ≡ false
  remove_member-stays_out now acting_role actor s ops h ok p =
      let t = (remove_member now w u acting_role actor s).1 in
      run-shut_out ops t p
        (IsKept-IsWellFormed s t (remove_member-IsKept now w s h.distinct u acting_role actor) h)
        (remove_member-IsBarred now w u s h acting_role actor ok)
