-- ===== src/Tenancy/Once.antt =====
-- An invitation is redeemed once: accept_invitation of backend/app/tenancy/service.py.
use autonomous_agent_runtime.Tenancy.Contracts.{Invitation, Membership}
use autonomous_agent_runtime.Tenancy.Store.Invitations.{
  invitation_key, is_pending, get_by_token_hash, mark_accepted,
}
use autonomous_agent_runtime.Tenancy.Store.Memberships
use autonomous_agent_runtime.Tenancy.Store.Memberships.{get_for_user}
use autonomous_agent_runtime.Tenancy.Ownership.{Result-cases}
use autonomous_agent_runtime.Tenancy.Service.State.{
  Tenancy, Result, err, is_ok, audited, invitation_invalid,
}
use autonomous_agent_runtime.Tenancy.Service.Workspaces.{require_active_workspace}
use autonomous_agent_runtime.Tenancy.Service.Members.{accept_invitation, redeem, membership_of}
use mathlib.Core.Bool.{false≢true}
use autonomous_agent_runtime.Prelude.{
  ℕ, String, ◌≡◌, refl, sym, subst, inl, inr, Bool, true, false, not, some, List, Bool-cases,
  Option-cases, string_instance, ◌==◌, nat_instance, find-holds, Distinct, find-lookup, find-put,
}

accepted_row :
    (now : ℕ) (i : Invitation) (store : List Invitation) (hash : String)
    → Distinct invitation_key store
    → get_by_token_hash hash store ≡ some i
    → get_by_token_hash hash (mark_accepted now i.id store)
      ≡ some (record i { accepted_at = some now })
unfolding mark_accepted
accepted_row now i store hash d h =
    let p : Invitation → Bool = λ j. j.token_hash == hash in
    rw (mark_accepted, find-lookup invitation_key p store i d h)
      (find-put invitation_key p (record i { accepted_at = some now }) i store d h refl
        (find-holds p store i h))

refused :
    (normalize hash_token : String → String) (now : ℕ) (id token user_id email : String)
    (s : Tenancy) (i : Invitation)
    → get_by_token_hash (hash_token token) s.invitations ≡ some i
    → is_pending now i ≡ false
    → accept_invitation normalize hash_token now id token user_id email s
      ≡ (err invitation_invalid, s)
unfolding accept_invitation
refused normalize hash_token now id token user_id email s i e f = rw (accept_invitation, e, f)

-- A redeemed invitation is the accepted one in the store.
redeem-accepts :
    (normalize : String → String) (now : ℕ) (id user_id email : String) (i : Invitation)
    (s : Tenancy)
    → is_ok (redeem normalize now id user_id email i s).0 ≡ true
    → (redeem normalize now id user_id email i s).1.invitations
      ≡ mark_accepted now i.id s.invitations
unfolding redeem audited
redeem-accepts normalize now id user_id email i s h =
    elim (Bool-cases (not (normalize email == i.email))) [
      | inl t ↦ absurd (false≢true (rw (redeem, t) at h))
      | inr f ↦ elim (Result-cases (require_active_workspace i.workspace_id s)) [
        | inl (x, e) ↦ absurd (false≢true (rw (redeem, f, e) at h))
        | inr (x, e) ↦ elim (Option-cases (get_for_user i.workspace_id user_id s.memberships)) [
          | inr (m, p) ↦ absurd (false≢true (rw (redeem, f, e, p) at h))
          | inl n ↦
              elim (Option-cases
                (Memberships.create now (membership_of id now user_id i) s.memberships).0) [
                  | inl q ↦ absurd (false≢true (rw (redeem, f, e, n, q) at h))
                  | inr (m, q) ↦ rw (redeem, f, e, n, q)
                ]
        ]
      ]
    ]

-- An invitation is single-use: once its token is redeemed, every later call with that token, by
-- anyone, is refused and changes nothing.
pub accept_invitation-once :
    (normalize hash_token : String → String) (now later : ℕ)
    (id other token user_id rival email rival_email : String) (s : Tenancy)
    → Distinct invitation_key s.invitations
    → is_ok (accept_invitation normalize hash_token now id token user_id email s).0 ≡ true
    → let t = (accept_invitation normalize hash_token now id token user_id email s).1 in
      accept_invitation normalize hash_token later other token rival rival_email t
      ≡ (err invitation_invalid, t)
unfolding accept_invitation is_pending
accept_invitation-once normalize hash_token now later id other token user_id rival email rival_email
      s d h =
    elim (Option-cases (get_by_token_hash (hash_token token) s.invitations)) [
      | inl n ↦ absurd (false≢true (rw (accept_invitation, n) at h))
      | inr (i, e) ↦ elim (Bool-cases (not (is_pending now i))) [
        | inl t ↦ absurd (false≢true (rw (accept_invitation, e, t) at h))
        | inr f ↦
            let q : (accept_invitation normalize hash_token now id token user_id email s
                ≡ redeem normalize now id user_id email i s) =
              rw (accept_invitation, e, f) in
            let t = (redeem normalize now id user_id email i s).1 in
            let r =
              redeem-accepts normalize now id user_id email i s
                (subst (λ (o : Result Membership × Tenancy). is_ok o.0 ≡ true) q h) in
            subst
              (λ (o : Result Membership × Tenancy).
                accept_invitation normalize hash_token later other token rival rival_email o.1
                ≡ (err invitation_invalid, o.1))
              (sym q)
              (refused normalize hash_token later other token rival rival_email t
                (record i { accepted_at = some now })
                (subst
                  (λ is.
                    get_by_token_hash (hash_token token) is
                    ≡ some (record i { accepted_at = some now }))
                  (sym r) (accepted_row now i s.invitations (hash_token token) d e))
                refl)
      ]
    ]
