-- ===== src/Identity/Service/Sessions.antt =====
-- AuthService of backend/app/identity/service.py: how a session is used and how it ends.
use autonomous_agent_runtime.Identity.Contracts.{User, Session}
use autonomous_agent_runtime.Identity.Store.Users.{get_by_id}
use autonomous_agent_runtime.Identity.Store.Sessions.{
  get_by_token_hash, touch, revoke, revoke_all_for_user,
}
use autonomous_agent_runtime.Identity.Service.State.{
  Accounts, Result, ok, err, session_invalid, account_disabled,
}
use autonomous_agent_runtime.Prelude.{ℕ, ◌-◌, String, none, some, ltb, if◌then◌else◌, is_some}

-- `validate_session`. A session that was seen after `now` has idled for 0 here and for less than 0
-- in the code, which neither compares as more than the time to live.
unfoldable pub validate_session :
    (String → String) → ℕ → ℕ → String → Accounts → Result Session × Accounts
validate_session hash_token now idle_ttl session_token s =
    elim (get_by_token_hash (hash_token session_token) s.sessions) [
      | none ↦ (err session_invalid, s)
      | some session ↦
          if is_some session.revoked_at
          then (err session_invalid, s)
          else if ltb session.expires_at now
          then (err session_invalid, s)
          else if ltb idle_ttl (now - session.last_seen_at)
          then (err session_invalid, s)
          else (
            ok (record session { last_seen_at = now }),
            record s { sessions = touch now session.id s.sessions },
          )
    ]

unfoldable pub user_for_session : Session → Accounts → Result User
user_for_session session s = elim (get_by_id session.user_id s.users) [
  | none ↦ err account_disabled
  | some user ↦ if user.is_active then ok user else err account_disabled
]

unfoldable pub logout : ℕ → String → Accounts → Accounts
logout now session_id s = record s { sessions = revoke now session_id s.sessions }

unfoldable pub logout_all : ℕ → String → Accounts → ℕ × Accounts
logout_all now user_id s =
    let revoked = revoke_all_for_user now user_id none s.sessions in
    (revoked.0, record s { sessions = revoked.1 })
