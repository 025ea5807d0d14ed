-- ===== src/Identity/Service/Recovery.antt =====
-- AuthService of backend/app/identity/service.py: the redemption of tokens and the change of a
-- password or of an address. The digest of a token, the hash of a password and its verification
-- are parameters.
use autonomous_agent_runtime.Identity.Contracts.{User, IdentityToken, TokenPurpose}
use autonomous_agent_runtime.Identity.Store.Users.{
  get_by_id, get_by_email, update_password_hash, mark_email_verified, apply_email_change,
}
use autonomous_agent_runtime.Identity.Store.Sessions.{revoke_all_for_user}
use autonomous_agent_runtime.Identity.Store.Tokens.{get_by_token_hash, mark_used}
use autonomous_agent_runtime.Identity.Service.State.{
  Accounts, Result, ok, err, record_audit, token_invalid, weak_password, invalid_credentials,
  email_already_registered, assertion_error,
}
use autonomous_agent_runtime.Prelude.Json.{end, field, str}
use autonomous_agent_runtime.Prelude.{
  ℕ, String, Bool, ◌||◌, not, none, some, ltb, if◌then◌else◌, length, codes, is_some,
}

abbrev min_password_length : ℕ
min_password_length = 8

-- The guard of `_consume_token` on a record.
unfoldable pub is_redeemable : ℕ → IdentityToken → Bool
is_redeemable now t = not (is_some t.used_at || is_some t.revoked_at || ltb t.expires_at now)

unfoldable pub consume_token :
    (String → String) → ℕ → String → TokenPurpose → Accounts → Result IdentityToken × Accounts
consume_token hash_token now raw_token purpose s =
    elim (get_by_token_hash (hash_token raw_token) purpose s.tokens) [
      | none ↦ (err token_invalid, s)
      | some t ↦
          if not (is_redeemable now t)
          then (err token_invalid, s)
          else (ok t, record s { tokens = mark_used now t.id s.tokens })
    ]

module _ (hash_token hash : String → String) where
  -- `reset_password` after the token was consumed.
  unfoldable pub replace_password :
      ℕ → String → IdentityToken → Accounts → Result {0} Unit × Accounts
  replace_password now new_password t s =
      if ltb (length (codes new_password)) min_password_length then (err weak_password, s) else (
        ok tt,
        record s {
          users = update_password_hash now t.user_id (hash new_password) s.users;
          sessions = (revoke_all_for_user now t.user_id none s.sessions).1;
        },
      )

  unfoldable pub reset_password : ℕ → String → String → Accounts → Result {0} Unit × Accounts
  reset_password now token new_password s =
      let consumed = consume_token hash_token now token TokenPurpose.password_reset s in
      elim consumed.0 [
        | err e ↦ (err e, consumed.1)
        | ok t ↦ replace_password now new_password t consumed.1
      ]

unfoldable pub confirm_email_verification :
    (String → String) → ℕ → String → Accounts → Result {0} Unit × Accounts
confirm_email_verification hash_token now token s =
    let consumed = consume_token hash_token now token TokenPurpose.email_verification s in
    let t = consumed.1 in
    elim consumed.0 [
      | err e ↦ (err e, t)
      | ok found ↦ (ok tt, record t { users = mark_email_verified now found.user_id t.users })
    ]

-- What `change_password` is given.
pub record PasswordChange : Type 0 where
  pub user_id : String
  pub current_password : String
  pub new_password : String
  pub keep_session_id : String

unfoldable pub change_password :
    (String → String)
    → (String → String → Bool)
    → ℕ
    → PasswordChange
    → Accounts
    → Result {0} Unit × Accounts
change_password hash verify now c s = elim (get_by_id c.user_id s.users) [
  | none ↦ (err invalid_credentials, s)
  | some user ↦
      if not (verify user.password_hash c.current_password)
      then (err invalid_credentials, s)
      else if ltb (length (codes c.new_password)) min_password_length
      then (err weak_password, s)
      else (
        ok tt,
        record_audit now c.user_id "identity_password_changed" end (record s {
          users = update_password_hash now c.user_id (hash c.new_password) s.users;
          sessions = (revoke_all_for_user now c.user_id (some c.keep_session_id) s.sessions).1;
        }),
      )
]

-- `confirm_email_change` after the token was consumed.
unfoldable pub adopt_email : ℕ → IdentityToken → Accounts → Result User × Accounts
adopt_email now t s = elim (get_by_id t.user_id s.users) [
  | none ↦ (err token_invalid, s)
  | some user ↦ elim user.pending_email [
    | none ↦ (err token_invalid, s)
    | some pending ↦
        if is_some (get_by_email pending s.users)
        then (err email_already_registered, s)
        else let applied = apply_email_change now t.user_id pending s.users in
          elim applied.0 [
            | none ↦ (err assertion_error, s)
            | some updated ↦ (
              ok updated,
              record_audit now t.user_id "identity_email_change_confirmed"
                  (field "new_email" (str updated.email) end)
                  (record s {
                    users = applied.1;
                    sessions = (revoke_all_for_user now t.user_id none s.sessions).1;
                  }),
            )
          ]
  ]
]

unfoldable pub confirm_email_change :
    (String → String) → ℕ → String → Accounts → Result User × Accounts
confirm_email_change hash_token now token s =
    let consumed = consume_token hash_token now token TokenPurpose.email_change s in
    elim consumed.0 [ err e ↦ (err e, consumed.1) | ok t ↦ adopt_email now t consumed.1 ]
