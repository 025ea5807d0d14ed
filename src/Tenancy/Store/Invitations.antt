-- ===== src/Tenancy/Store/Invitations.antt =====
-- InMemoryInvitationStore of backend/app/tenancy/store.py.
use autonomous_agent_runtime.Tenancy.Contracts.{Invitation}
use autonomous_agent_runtime.Prelude.{
  ℕ, String, Bool, true, false, ◌&&◌, Option, none, some, List, leb, find, string_instance, ◌==◌,
  nat_instance, lookup, put,
}

abbrev pub invitation_key : Invitation → String
invitation_key i = i.id

abbrev pub is_unset : Option ℕ → Bool
is_unset none = true
is_unset (some _) = false

unfoldable pub is_pending : ℕ → Invitation → Bool
is_pending now i = is_unset i.accepted_at && is_unset i.revoked_at && leb now i.expires_at

unfoldable pub create : ℕ → Invitation → List Invitation → Invitation × List Invitation
create now given store =
    let invitation = record given { created_at = now; accepted_at = none; revoked_at = none } in
    (invitation, put invitation_key invitation store)

abbrev pub get_by_token_hash : String → List Invitation → Option Invitation
get_by_token_hash token_hash = find (λ i. i.token_hash == token_hash)

unfoldable pub get_pending : ℕ → String → String → List Invitation → Option Invitation
get_pending now workspace_id email =
    find (λ i. i.workspace_id == workspace_id && i.email == email && is_pending now i)

unfoldable pub mark_accepted : ℕ → String → List Invitation → List Invitation
mark_accepted now id store = elim (lookup invitation_key id store) [
  | none ↦ store
  | some existing ↦ put invitation_key (record existing { accepted_at = some now }) store
]

unfoldable pub mark_revoked : ℕ → String → List Invitation → List Invitation
mark_revoked now id store = elim (lookup invitation_key id store) [
  | none ↦ store
  | some existing ↦ put invitation_key (record existing { revoked_at = some now }) store
]
