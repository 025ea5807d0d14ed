-- ===== src/Identity/RateLimit.antt =====
-- InMemoryRateLimiter and enforce_rate_limit of backend/app/identity/rate_limit.py. Times are whole
-- numbers (milliseconds), and the monotonic clock is an argument. A lock makes `check` one step.
pub mod Window
pub mod Runs
pub mod Retry
use autonomous_agent_runtime.Prelude.{
  ℕ, ◌+◌, ◌-◌, String, ◌<>◌, ◌||◌, Option, none, some, List, [], ◌∷◌, ◌++◌, ltb, leb, if◌then◌else◌,
  length, string_instance, ◌==◌, nat_instance, lookup, put,
}

-- One entry of `_hits`. A bucket that was never asked for is an empty deque.
pub record Bucket : Type 0 where
  pub name : String
  pub hits : List ℕ

-- What `check` does: return, raise RateLimitExceededError, or raise IndexError where the limit is
-- zero and there is no first hit to read.
pub data Verdict : Type 0 where
  allowed : Verdict
  exceeded : ℕ → Verdict
  index_error : Verdict

abbrev pub bucket_key : Bucket → String
bucket_key b = b.name

abbrev pub hits_of : Option Bucket → List ℕ
hits_of none = []
hits_of (some b) = b.hits

unfoldable pub hits_in : String → List Bucket → List ℕ
hits_in name store = hits_of (lookup bucket_key name store)

-- `while hits and now - hits[0] > window_seconds: hits.popleft()`
unfoldable pub expire : ℕ → ℕ → List ℕ → List ℕ
expire window now [] = []
expire window now (hit ∷ hits) =
    let rest = expire window now hits in if ltb (hit + window) now then rest else hit ∷ hits

-- The verdict over the hits that are left, and what becomes of them.
unfoldable pub judge : ℕ → ℕ → ℕ → List ℕ → Verdict × List ℕ
judge limit window now [] = if leb limit 0 then (index_error, []) else (allowed, now ∷ [])
judge limit window now (hit ∷ hits) =
    if leb limit (length (hit ∷ hits))
    then (exceeded (hit + window - now), hit ∷ hits)
    else (allowed, (hit ∷ hits) ++ (now ∷ []))

abbrev pub bucket_name : String → String → String
bucket_name action key = action <> ":" <> key

unfoldable pub check : String → String → ℕ → ℕ → ℕ → List Bucket → Verdict × List Bucket
check action key limit window now store =
    let name = bucket_name action key in
    let (verdict, hits) = judge limit window now (expire window now (hits_in name store)) in
    (verdict, put bucket_key (record { name = name; hits = hits }) store)

-- RATE_LIMITS, with the window in milliseconds; `none` is a KeyError.
unfoldable pub rate_limits : String → Option (ℕ × ℕ)
rate_limits action =
    if action == "register" || action == "forgot_password" || action == "verify_resend"
    then some (5, 60000)
    else if action == "login"
        || action == "reset_password"
        || action == "change_password"
        || action == "verify_confirm"
    then some (10, 60000)
    else none

-- The keys are checked in turn, up to the first that is over its limit.
unfoldable pub check_keys : String → ℕ → ℕ → ℕ → List String → List Bucket → Verdict × List Bucket
check_keys action limit window now [] store = (allowed, store)
check_keys action limit window now (key ∷ keys) store =
    let (verdict, next) = check action key limit window now store in
    let rest = check_keys action limit window now keys next in
    elim verdict [
      | allowed ↦ rest
      | exceeded retry ↦ (exceeded retry, next)
      | index_error ↦ (index_error, next)
    ]

unfoldable pub enforce_rate_limit :
    String → ℕ → List String → List Bucket → Option (Verdict × List Bucket)
enforce_rate_limit action now keys store = elim (rate_limits action) [
  | none ↦ none
  | some (limit, window) ↦ some (check_keys action limit window now keys store)
]
