-- ===== src/Identity/Service/State.antt =====
-- The stores that AuthService of backend/app/identity/service.py works on, and what it raises.
-- `value_error` is the ValueError of a store that refuses a second address, `assertion_error` that
-- of an `assert`. The e-mails are those sent, in order.
use autonomous_agent_runtime.Identity.Contracts.{User, Session, IdentityToken}
use autonomous_agent_runtime.Tenancy.Service.Audit.{AuditLogEntry, EmailMessage}
use autonomous_agent_runtime.Prelude.Json.{Fields}
use autonomous_agent_runtime.Prelude.{ℕ, String, Bool, true, false, none, some, List, [], ◌∷◌, ◌++◌}

pub data IdentityError : Type 0 where
  email_already_registered weak_password invalid_credentials account_disabled : IdentityError
  session_invalid token_invalid same_email value_error assertion_error : IdentityError

pub data Result {ℓ} (A : Type ℓ) : Type ℓ where
  ok : A → Result A
  err : IdentityError → Result A

pub record Accounts : Type 0 where
  pub users : List User
  pub sessions : List Session
  pub tokens : List IdentityToken
  pub emails : List EmailMessage
  pub audit : List AuditLogEntry

abbrev pub is_ok {ℓ} : {A : Type ℓ} → Result A → Bool
is_ok (ok a) = true
is_ok (err e) = false

-- `EmailSender.send`, as `FileEmailSender` keeps it in `sent`.
unfoldable pub send : EmailMessage → Accounts → Accounts
send message s = record s { emails = s.emails ++ (message ∷ []) }

-- `AuditLogStore.record` of the in-process store, outside every workspace.
unfoldable pub record_audit : ℕ → String → String → Fields → Accounts → Accounts
record_audit now user_id event_type metadata s = record s {
  audit =
      s.audit
      ++ (record {
        actor_user_id = some user_id;
        workspace_id = none;
        event_type = event_type;
        metadata = metadata;
        created_at = now;
      }
          ∷ []);
}
