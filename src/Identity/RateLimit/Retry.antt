-- ===== src/Identity/RateLimit/Retry.antt =====
-- The wait that RateLimitExceededError of backend/app/identity/rate_limit.py names is long enough.
use autonomous_agent_runtime.Identity.RateLimit.{
  Bucket, Verdict, exceeded, bucket_key, hits_of, hits_in, expire, judge, check, bucket_name,
}
use autonomous_agent_runtime.Identity.RateLimit.Window.{is_allowed, judge-hits}
use mathlib.Core.Bool.{false≢true}
use autonomous_agent_runtime.Prelude.{
  ℕ, suc, ◌+◌, ◌-◌, ◌≤◌, ◌<◌, String, ◌≡◌, sym, ap, ◌∙◌, subst, inl, inr, Bool, true, false, List,
  [], ◌∷◌, arith, ltb, leb, nat_eq, Bool-cases, length, lookup-put,
}

length-expire : (window now : ℕ) (hits : List ℕ) → length (expire window now hits) ≤ length hits
unfolding expire
length-expire window now [] = omega arith
length-expire window now (hit ∷ hits) = ground (arith, length-expire window now hits)

abbrev pub is_exceeded : Verdict → ℕ → Bool
is_exceeded (exceeded r) retry = nat_eq r retry
is_exceeded _ retry = false

expired :
    (hit window now later retry : ℕ)
    → now + retry < later
    → nat_eq (hit + window - now) retry ≡ true
    → ltb (hit + window) later ≡ true
expired hit window now later retry lt h = ground arith

le_trans : (a b c : ℕ) → a ≤ b → b ≤ c → a ≤ c
le_trans a b c h k = omega arith

room : (limit n m : ℕ) → suc m ≤ limit → n ≤ m → ltb n limit ≡ true
room limit n m a b = ground arith

-- Of a refused call, the hits that are left leave room after the wait.
judge-retry :
    (limit window now later retry : ℕ) (hits : List ℕ)
    → length hits ≤ limit
    → is_exceeded (judge limit window now hits).0 retry ≡ true
    → now + retry < later
    → is_allowed (judge limit window later (expire window later (judge limit window now hits).1)).0
      ≡ true
unfolding judge expire
judge-retry limit window now later retry [] le h lt = ground arith
judge-retry limit window now later retry (hit ∷ hits) le h lt =
    elim (Bool-cases (leb limit (length (hit ∷ hits)))) [
      | inl t ↦
          rw (t, expired hit window now later retry lt (rw t at h))
            ((judge-hits limit window later (expire window later hits)).0
              ∙ room limit (length (expire window later hits)) (length hits) le
                  (length-expire window later hits))
      | inr f ↦ absurd (false≢true (rw f at h))
    ]

-- After a refusal that names a wait, a call of the same bucket that comes after the wait is let
-- through, where the bucket holds at most `limit` hits and no call comes between the two.
pub check-retry :
    (action key : String) (limit window now later retry : ℕ) (store : List Bucket)
    → length (hits_in (bucket_name action key) store) ≤ limit
    → is_exceeded (check action key limit window now store).0 retry ≡ true
    → now + retry < later
    → is_allowed (check action key limit window later (check action key limit window now store).1).0
      ≡ true
unfolding check hits_in
check-retry action key limit window now later retry store le h lt =
    let name = bucket_name action key in
    let hits = expire window now (hits_in name store) in
    let new : Bucket = record { name = name; hits = (judge limit window now hits).1 } in
    subst (λ xs. is_allowed (judge limit window later (expire window later xs)).0 ≡ true)
      (sym (ap hits_of (lookup-put bucket_key new store)))
      (judge-retry limit window now later retry hits
        (le_trans (length hits) (length (hits_in name store)) limit
          (length-expire window now (hits_in name store)) le)
        h lt)
