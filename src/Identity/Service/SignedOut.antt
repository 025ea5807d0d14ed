-- ===== src/Identity/Service/SignedOut.antt =====
-- After a password is reset: reset_password and validate_session of
-- backend/app/identity/service.py.
use autonomous_agent_runtime.Identity.Contracts.{Session, IdentityToken, TokenPurpose, is_purpose}
use autonomous_agent_runtime.Identity.Store.Sessions
use autonomous_agent_runtime.Identity.Store.Sessions.{revoke_all_for_user, is_passed_over}
use autonomous_agent_runtime.Identity.Store.Tokens
use autonomous_agent_runtime.Identity.Store.Tokens.{token_key, mark_used}
use autonomous_agent_runtime.Identity.Service.State.{
  Accounts, ok, err, is_ok, session_invalid, token_invalid,
}
use autonomous_agent_runtime.Identity.Service.Sessions.{validate_session}
use autonomous_agent_runtime.Identity.Service.Recovery.{
  consume_token, reset_password, replace_password, is_redeemable,
}
use mathlib.Core.Bool.{false≢true}
use autonomous_agent_runtime.Prelude.{
  ℕ, String, ◌≡◌, refl, sym, subst, ◌⊎◌, inl, inr, Bool, true, false, ◌&&◌, none, some, List, [],
  ◌∷◌, arith, ltb, Bool-cases, length, string_instance, ◌==◌, nat_instance, codes, is_some,
  find-holds, Distinct, find-lookup, find-put,
}

passed_over :
    (user_id : String) (z : Session)
    → (z.user_id == user_id) ≡ true
    → is_passed_over user_id none z ≡ true
    → is_some z.revoked_at ≡ true
unfolding is_passed_over
passed_over user_id z u p = elim (Bool-cases (is_some z.revoked_at)) [
  | inl t ↦ t
  | inr f ↦ absurd (false≢true (rw (is_passed_over, u, f) at p))
]

-- The session that a digest finds, after every session of its user was revoked, is revoked.
found_revoked :
    (now : ℕ) (user_id token_hash : String) (store : List Session) (x : Session)
    → Sessions.get_by_token_hash token_hash store ≡ some x
    → (x.user_id == user_id) ≡ true
    → (y : Session) × (Sessions.get_by_token_hash token_hash
          (revoke_all_for_user now user_id none store).1
        ≡ some y)
      × (is_some y.revoked_at ≡ true)
unfolding revoke_all_for_user is_passed_over
found_revoked now user_id token_hash [] x h u = grind arith
found_revoked now user_id token_hash (z ∷ zs) x h u =
    elim (Bool-cases (z.token_hash == token_hash)) [
      | inl t ↦ elim (Bool-cases (is_passed_over user_id none z)) [
        | inl p ↦
            let same : (z ≡ x) = grind arith in
            let r : (is_some z.revoked_at ≡ true) =
              passed_over user_id z (subst (λ y. (y.user_id == user_id) ≡ true) (sym same) u) p in
            rw p (rw t (z, refl, r))
        | inr p ↦ rw p (rw t (record z { revoked_at = some now }, refl, refl))
      ]
      | inr f ↦
          let ih = found_revoked now user_id token_hash zs x (rw f at h) u in
          elim (Bool-cases (is_passed_over user_id none z)) [
            | inl p ↦ rw (p, f) ih
            | inr p ↦ rw (p, f) ih
          ]
    ]

used_row :
    (now : ℕ) (t : IdentityToken) (store : List IdentityToken) (token_hash : String)
    (purpose : TokenPurpose)
    → Distinct token_key store
    → Tokens.get_by_token_hash token_hash purpose store ≡ some t
    → Tokens.get_by_token_hash token_hash purpose (mark_used now t.id store)
      ≡ some (record t { used_at = some now })
unfolding mark_used
used_row now t store token_hash purpose d h =
    let p : IdentityToken → Bool =
      λ j. j.token_hash == token_hash && is_purpose j.purpose purpose in
    rw (mark_used, find-lookup token_key p store t d h)
      (find-put token_key p (record t { used_at = some now }) t store d h refl
        (find-holds p store t h))

-- The session that a digest finds is refused if it was revoked.
revoked_refused :
    (hash_token : String → String) (now idle_ttl : ℕ) (session_token : String) (s : Accounts)
    (y : Session)
    → Sessions.get_by_token_hash (hash_token session_token) s.sessions ≡ some y
    → is_some y.revoked_at ≡ true
    → validate_session hash_token now idle_ttl session_token s ≡ (err session_invalid, s)
unfolding validate_session
revoked_refused hash_token now idle_ttl session_token s y e r = rw (validate_session, e, r)

-- `consume_token` on a token that it finds.
consumed :
    (hash_token : String → String) (now : ℕ) (token : String) (purpose : TokenPurpose)
    (s : Accounts) (t : IdentityToken)
    → Tokens.get_by_token_hash (hash_token token) purpose s.tokens ≡ some t
    → ((is_redeemable now t ≡ false)
        × (consume_token hash_token now token purpose s ≡ (err token_invalid, s)))
      ⊎ (consume_token hash_token now token purpose s
          ≡ (ok t, record s { tokens = mark_used now t.id s.tokens }))
unfolding consume_token
consumed hash_token now token purpose s t e = elim (Bool-cases (is_redeemable now t)) [
  | inl y ↦ inr (rw (consume_token, e, y))
  | inr n ↦ inl (n, rw (consume_token, e, n))
]

used_refused :
    (hash_token hash : String → String) (now : ℕ) (token new_password : String) (s : Accounts)
    (t : IdentityToken)
    → Tokens.get_by_token_hash (hash_token token) TokenPurpose.password_reset s.tokens ≡ some t
    → is_redeemable now t ≡ false
    → reset_password hash_token hash now token new_password s ≡ (err token_invalid, s)
unfolding reset_password consume_token
used_refused hash_token hash now token new_password s t e f =
    let c : (consume_token hash_token now token TokenPurpose.password_reset s
        ≡ (err token_invalid, s)) =
      rw (consume_token, e, f) in
    rw (reset_password, c, c)

-- What a successful reset does to the sessions and to the tokens.
reset_password-stores :
    (hash_token hash : String → String) (now : ℕ) (token new_password : String) (s : Accounts)
    (t : IdentityToken)
    → Tokens.get_by_token_hash (hash_token token) TokenPurpose.password_reset s.tokens ≡ some t
    → is_ok (reset_password hash_token hash now token new_password s).0 ≡ true
    → let s' = (reset_password hash_token hash now token new_password s).1 in
      (s'.sessions ≡ (revoke_all_for_user now t.user_id none s.sessions).1)
      × (s'.tokens ≡ mark_used now t.id s.tokens)
unfolding reset_password replace_password
reset_password-stores hash_token hash now token new_password s t e h =
    elim (consumed hash_token now token TokenPurpose.password_reset s t e) [
      | inl (n, c) ↦ absurd (false≢true (rw (reset_password, c) at h))
      | inr c ↦ elim (Bool-cases (ltb (length (codes new_password)) 8)) [
        | inl w ↦ absurd (false≢true (rw (reset_password, c, c, replace_password, w) at h))
        | inr w ↦ rw (reset_password, c, c, replace_password, w) (refl, refl)
      ]
    ]

-- Where the stored tokens have distinct identifiers, once a password was reset by a link, every
-- session of the account of the link is refused, and so is the same link, and neither refusal
-- changes anything.
pub reset_password-signs_out :
    (hash_token hash : String → String) (now later idle_ttl : ℕ)
    (token new_password session_token other_password : String) (s : Accounts) (t : IdentityToken)
    (x : Session)
    → Distinct token_key s.tokens
    → Tokens.get_by_token_hash (hash_token token) TokenPurpose.password_reset s.tokens ≡ some t
    → Sessions.get_by_token_hash (hash_token session_token) s.sessions ≡ some x
    → (x.user_id == t.user_id) ≡ true
    → is_ok (reset_password hash_token hash now token new_password s).0 ≡ true
    → let s' = (reset_password hash_token hash now token new_password s).1 in
      (validate_session hash_token later idle_ttl session_token s' ≡ (err session_invalid, s'))
      × (reset_password hash_token hash later token other_password s' ≡ (err token_invalid, s'))
unfolding is_redeemable
reset_password-signs_out hash_token hash now later idle_ttl token new_password session_token
      other_password s t x d e ex same h =
    let s' = (reset_password hash_token hash now token new_password s).1 in
    let stores = reset_password-stores hash_token hash now token new_password s t e h in
    let found = found_revoked now t.user_id (hash_token session_token) s.sessions x ex same in
    let used = record t { used_at = some now } in
    (
      revoked_refused hash_token later idle_ttl session_token s' found.0
          (subst (λ xs. Sessions.get_by_token_hash (hash_token session_token) xs ≡ some found.0)
            (sym stores.0) found.1)
          found.2,
      used_refused hash_token hash later token other_password s' used
          (subst
            (λ ts.
              Tokens.get_by_token_hash (hash_token token) TokenPurpose.password_reset ts
              ≡ some used)
            (sym stores.1)
            (used_row now t s.tokens (hash_token token) TokenPurpose.password_reset d e))
          refl,
    )
