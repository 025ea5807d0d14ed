-- ===== src/Identity/Store/Tokens.antt =====
-- InMemoryIdentityTokenStore of backend/app/identity/store.py.
use autonomous_agent_runtime.Identity.Contracts.{IdentityToken, TokenPurpose, is_purpose}
use autonomous_agent_runtime.Prelude.{
  ℕ, String, Bool, ◌&&◌, ◌||◌, not, Option, none, some, List, [], ◌∷◌, if◌then◌else◌, find,
  string_instance, ◌==◌, nat_instance, is_some, lookup, put,
}

abbrev pub token_key : IdentityToken → String
token_key t = t.id

unfoldable pub create :
    String
    → ℕ
    → String
    → String
    → TokenPurpose
    → ℕ
    → List IdentityToken
    → IdentityToken × List IdentityToken
create id now user_id token_hash purpose expires_at store =
    let token : IdentityToken = record {
      id = id;
      user_id = user_id;
      token_hash = token_hash;
      purpose = purpose;
      created_at = now;
      expires_at = expires_at;
      used_at = none;
      revoked_at = none;
    } in
    (token, put token_key token store)

abbrev pub get_by_token_hash : String → TokenPurpose → List IdentityToken → Option IdentityToken
get_by_token_hash token_hash purpose =
    find (λ t. t.token_hash == token_hash && is_purpose t.purpose purpose)

unfoldable pub mark_used : ℕ → String → List IdentityToken → List IdentityToken
mark_used now id store = elim (lookup token_key id store) [
  | none ↦ store
  | some existing ↦ put token_key (record existing { used_at = some now }) store
]

-- The two guards of the loop.
unfoldable pub is_kept : String → TokenPurpose → IdentityToken → Bool
is_kept user_id purpose t =
    not (t.user_id == user_id)
    || not (is_purpose t.purpose purpose)
    || is_some t.used_at
    || is_some t.revoked_at

unfoldable pub revoke_active_for_user :
    ℕ → String → TokenPurpose → List IdentityToken → List IdentityToken
revoke_active_for_user now user_id purpose [] = []
revoke_active_for_user now user_id purpose (t ∷ ts) =
    let rest = revoke_active_for_user now user_id purpose ts in
    if is_kept user_id purpose t then t ∷ rest else record t { revoked_at = some now } ∷ rest
