-- ===== src/Identity/Store/Sessions.antt =====
-- InMemorySessionStore of backend/app/identity/store.py.
use autonomous_agent_runtime.Identity.Contracts.{Session}
use autonomous_agent_runtime.Prelude.{
  ℕ, suc, String, Bool, false, ◌||◌, not, Option, none, some, List, [], ◌∷◌, if◌then◌else◌, find,
  string_instance, ◌==◌, nat_instance, is_some, lookup, put,
}

abbrev pub session_key : Session → String
session_key x = x.id

-- The values of `create` that its caller gives, with the fresh identifier.
unfoldable pub create : ℕ → Session → List Session → Session × List Session
create now given store =
    let session = record given { created_at = now; last_seen_at = now; revoked_at = none } in
    (session, put session_key session store)

abbrev pub get_by_token_hash : String → List Session → Option Session
get_by_token_hash token_hash = find (λ x. x.token_hash == token_hash)

unfoldable pub touch : ℕ → String → List Session → List Session
touch now id store = elim (lookup session_key id store) [
  | none ↦ store
  | some existing ↦ put session_key (record existing { last_seen_at = now }) store
]

unfoldable pub revoke : ℕ → String → List Session → List Session
revoke now id store = elim (lookup session_key id store) [
  | none ↦ store
  | some existing ↦ put session_key (record existing { revoked_at = some now }) store
]

-- The two guards of the loop: another user's session or a revoked one, and the excepted one.
unfoldable pub is_passed_over : String → Option String → Session → Bool
is_passed_over user_id except_session_id x =
    not (x.user_id == user_id)
    || is_some x.revoked_at
    || elim except_session_id [ none ↦ false | some id ↦ x.id == id ]

unfoldable pub revoke_all_for_user : ℕ → String → Option String → List Session → ℕ × List Session
revoke_all_for_user now user_id except_session_id [] = (0, [])
revoke_all_for_user now user_id except_session_id (x ∷ xs) =
    let rest = revoke_all_for_user now user_id except_session_id xs in
    if is_passed_over user_id except_session_id x
    then (rest.0, x ∷ rest.1)
    else (suc rest.0, record x { revoked_at = some now } ∷ rest.1)
