-- ===== src/Reliability/Bounds.antt =====
-- How long and how often the policy retries.
use autonomous_agent_runtime.Reliability.{
  FailureCategory, RuntimeFailure, RetryRule, RetryPolicy, find_rule, retry_delay,
}
use autonomous_agent_runtime.Prelude.{
  ℕ, ◌≤◌, ◌<◌, String, ◌≡◌, inl, inr, some, List, [], ◌∷◌, arith, leb, if◌then◌else◌, Option-cases,
}

-- The most attempts that any rule of the table allows.
abbrev pub max_rule_attempts : List (String × FailureCategory × RetryRule) → ℕ
max_rule_attempts [] = 0
max_rule_attempts ((s, c, r) ∷ rules) =
    if leb r.max_attempts (max_rule_attempts rules) then max_rule_attempts rules else r.max_attempts

find_rule-le :
    (source : String) (category : FailureCategory)
    (rules : List (String × FailureCategory × RetryRule)) (r : RetryRule)
    → find_rule source category rules ≡ some r
    → r.max_attempts ≤ max_rule_attempts rules
unfolding find_rule
find_rule-le source category [] r h = ground arith
find_rule-le source category ((s, c, q) ∷ rules) r h =
    ground (arith, find_rule-le source category rules r)

-- A failure is retried only before the last attempt that some rule allows, and never after a wait
-- longer than the longest that its own rule allows.
pub retry_delay_bounds :
    (policy : RetryPolicy) (failure : RuntimeFailure) (delay : ℕ)
    → retry_delay policy failure ≡ some delay
    → (r : RetryRule) × (find_rule failure.source failure.category policy.rules ≡ some r)
      × (failure.attempt < r.max_attempts)
      × (delay ≤ r.max_delay)
      × (failure.attempt < max_rule_attempts policy.rules)
unfolding retry_delay
retry_delay_bounds policy failure delay h =
    elim (Option-cases (find_rule failure.source failure.category policy.rules)) [
      | inl e ↦ ground arith
      | inr (r, e) ↦ (
        r,
        e,
        ground arith,
        ground arith,
        ground (arith, find_rule-le failure.source failure.category policy.rules r),
      )
    ]
