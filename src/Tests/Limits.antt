-- ===== src/Tests/Limits.antt =====
-- Witnesses on the rate limiter.
use autonomous_agent_runtime.Identity.RateLimit.{check, hits_in, judge, expire}
use autonomous_agent_runtime.Identity.RateLimit.Window.{Call, is_allowed, within}
use autonomous_agent_runtime.Identity.RateLimit.Runs.{
  trace, specified_trace, passed, trace-specified_trace, passed-within,
}
use autonomous_agent_runtime.Identity.RateLimit.Retry.{check-retry}
use autonomous_agent_runtime.Prelude.{ℕ, ◌≤◌, String, ◌≡◌, refl, true, List, [], ◌∷◌, arith}

abbrev login : String → ℕ → Call
login key now = record { action = "login"; key = key; limit = 2; window = 60; now = now }

abbrev logins : List Call
logins = login "ann" 1 ∷ login "bob" 2 ∷ login "ann" 3 ∷ login "ann" 4 ∷ login "ann" 70 ∷ []

trace-specified_trace_example :
    trace "login:ann" logins [] ≡ specified_trace "login:ann" 2 60 logins []
trace-specified_trace_example =
    trace-specified_trace "login:ann" 2 60 logins refl
      (omega arith, (omega arith, (omega arith, (omega arith, (omega arith, tt)))))

passed-within_example : within 60 1 (passed (trace "login:ann" logins [])) ≤ 2
passed-within_example =
    passed-within "login:ann" 2 60 logins 1 refl
      (omega arith, (omega arith, (omega arith, (omega arith, (omega arith, tt)))))

check-retry_example :
    is_allowed
      (check "login" "ann" 1 60 64
        (check "login" "ann" 1 60 10 (record { name = "login:ann"; hits = 3 ∷ [] } ∷ [])).1).0
    ≡ true
unfolding check hits_in expire judge
check-retry_example =
    check-retry "login" "ann" 1 60 10 64 53 (record { name = "login:ann"; hits = 3 ∷ [] } ∷ [])
      (omega arith) refl (omega arith)
