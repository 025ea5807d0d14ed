-- ===== src/Reliability.antt =====
-- backend/app/reliability: failure categories, their classification, and the retry policy.
-- Delays are whole milliseconds.
pub mod Bounds
use autonomous_agent_runtime.Prelude.{
  ℕ, ◌-◌, ◌*◌, ◌^◌, min, String, Bool, true, false, ◌&&◌, ◌||◌, not, Option, none, some, List, [],
  ◌∷◌, leb, nat_eq, if◌then◌else◌, ◌==◌, nat_instance, string_instance, codes, lower, occurs,
}

pub data FailureCategory : Type 0 where
  llm_provider_error llm_timeout llm_rate_limit invalid_model_output : FailureCategory
  tool_failure tool_timeout tool_validation_error memory_failure : FailureCategory
  database_failure subagent_failure subagent_timeout approval_timeout : FailureCategory
  security_denial policy_failure runtime_limit scheduled_report_failure : FailureCategory
  delivery_failure retention_failure unknown_failure : FailureCategory

-- The fields that a retry decision and the loop read.
pub record RuntimeFailure : Type 0 where
  pub category : FailureCategory
  pub retryable : Bool
  pub source : String
  pub attempt : ℕ

pub record RetryRule : Type 0 where
  pub max_attempts : ℕ
  pub initial_delay : ℕ
  pub max_delay : ℕ

-- A rule table, keyed by the source and the category of a failure.
pub record RetryPolicy : Type 0 where
  pub rules : List (String × FailureCategory × RetryRule)

abbrev pub category_index : FailureCategory → ℕ
category_index FailureCategory.llm_provider_error = 0
category_index FailureCategory.llm_timeout = 1
category_index FailureCategory.llm_rate_limit = 2
category_index FailureCategory.invalid_model_output = 3
category_index FailureCategory.tool_failure = 4
category_index FailureCategory.tool_timeout = 5
category_index FailureCategory.tool_validation_error = 6
category_index FailureCategory.memory_failure = 7
category_index FailureCategory.database_failure = 8
category_index FailureCategory.subagent_failure = 9
category_index FailureCategory.subagent_timeout = 10
category_index FailureCategory.approval_timeout = 11
category_index FailureCategory.security_denial = 12
category_index FailureCategory.policy_failure = 13
category_index FailureCategory.runtime_limit = 14
category_index FailureCategory.scheduled_report_failure = 15
category_index FailureCategory.delivery_failure = 16
category_index FailureCategory.retention_failure = 17
category_index FailureCategory.unknown_failure = 18

unfoldable pub find_rule :
    String → FailureCategory → List (String × FailureCategory × RetryRule) → Option RetryRule
find_rule source category [] = none
find_rule source category ((s, c, rule) ∷ rules) =
    if s == source && nat_eq (category_index c) (category_index category)
    then some rule
    else find_rule source category rules

abbrev pub rule : ℕ → ℕ → ℕ → RetryRule
rule max_attempts initial_delay max_delay = record {
  max_attempts = max_attempts;
  initial_delay = initial_delay;
  max_delay = max_delay;
}

-- The table of a policy that is given none.
abbrev pub default_policy : RetryPolicy
default_policy = record {
  rules =
      ("llm", FailureCategory.llm_timeout, rule 3 50 500)
      ∷ ("llm", FailureCategory.llm_rate_limit, rule 3 50 500)
      ∷ ("llm", FailureCategory.llm_provider_error, rule 2 50 500)
      ∷ ("llm", FailureCategory.invalid_model_output, rule 2 0 0)
      ∷ [];
}

-- `none` means that the failure is not retried.
unfoldable pub retry_delay : RetryPolicy → RuntimeFailure → Option ℕ
retry_delay policy failure = elim (find_rule failure.source failure.category policy.rules) [
  | none ↦ none
  | some r ↦
      if not failure.retryable || leb r.max_attempts failure.attempt
      then none
      else some (min (r.initial_delay * 2 ^ (failure.attempt - 1)) r.max_delay)
]

-- What the classification reads of an exception: its classes and its text.
pub record LlmError : Type 0 where
  pub is_timeout : Bool
  pub is_value_or_type_error : Bool
  pub message : String

unfoldable pub llm_category : LlmError → FailureCategory
llm_category error =
    let message = lower error.message in
    if error.is_timeout
    then FailureCategory.llm_timeout
    else if occurs (codes "rate") message && occurs (codes "limit") message
    then FailureCategory.llm_rate_limit
    else if error.is_value_or_type_error
    then FailureCategory.invalid_model_output
    else FailureCategory.llm_provider_error

abbrev pub is_retryable : FailureCategory → Bool
is_retryable FailureCategory.llm_timeout = true
is_retryable FailureCategory.llm_rate_limit = true
is_retryable FailureCategory.llm_provider_error = true
is_retryable FailureCategory.invalid_model_output = true
is_retryable _ = false

unfoldable pub classify_llm_failure : LlmError → ℕ → RuntimeFailure
classify_llm_failure error attempt = record {
  category = llm_category error;
  retryable = is_retryable (llm_category error);
  source = "llm";
  attempt = attempt;
}
