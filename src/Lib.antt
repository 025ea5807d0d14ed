-- ===== src/Lib.antt =====
-- The autonomous agent runtime: a server whose language model chooses one action at a time, which a
-- deterministic runtime validates, authorizes, executes and bounds. The paths below are those of
-- the repository.
--
-- The parts and how they interact. AgentRunner (backend/app/runtime/runner.py) keeps the AgentState
-- of one run. In each iteration it asks the model for an action, retries failures of the provider
-- by the policy of backend/app/reliability, applies the action and lets older observations pass
-- into a summary. A tool call goes to ToolExecutor (backend/app/tools/execution/executor.py), which
-- asks the SecurityPolicy (backend/app/security/authorization.py); an action that needs a human is
-- written to the approval store (backend/app/security/approvals.py) and pauses the run. A
-- delegation goes to DelegationStep (backend/app/runtime/steps/delegation_step.py), under the same
-- policy. A finish is accepted or redirected by backend/app/runtime/planning.py, from a plan that
-- is reconciled with what the run produced.
--
-- Around the runs stands a service for many tenants. TenancyService
-- (backend/app/tenancy/service.py) keeps workspaces, memberships and invitations and resolves the
-- context of a request; AuthService (backend/app/identity/service.py) keeps users, their sessions and
-- the tokens of their e-mails, and the rate limiter (backend/app/identity/rate_limit.py) guards its
-- routes; SchedulerWorker (backend/app/scheduling/worker.py) claims due schedules from the
-- store, runs a saved report with the retries of backend/app/reliability, and reschedules it by the
-- calculator.
--
-- The files.
--   Prelude: tests on numbers, lists, dictionaries, equality as an interface, texts, JSON values.
--   Security: Contracts (security/contracts.py), Permissions (permissions.py), Risk (risk.py),
--     Policy (authorization.py and get_security_policy of composition/providers/runtime.py) with
--     its theorems in Gates and Grants, Approvals (FileApprovalStore) with Final and Once.
--   Reliability: reliability/contracts.py and retry.py, with Bounds.
--   Contracts: Actions (contracts/actions.py) with Caveats and its Spacing, Investigation
--     (contracts/investigation.py).
--   Tools: Types (tools/contracts.py, base.py, registry.py), Arguments and Executor
--     (execution/executor.py) with Boundary.
--   Runtime: State (state.py, core/limits.py and the messages of delegation.py), Control
--     (control.py), Planning (planning.py) with Reconcile and Finish, Summary (summarization.py and
--     steps/summarization_step.py), Requests (delegation.py), Delegation
--     (steps/delegation_step.py) with Keeps and Names, World (the runner's collaborators), Actions
--     (_apply_action) with Keeps and Citations, Runner (run) with Outcome, Resume (resume_approval,
--     resume_rejection) with Exactness and Continues; Invariant says what holds of a state between
--     two actions.
--   Tenancy: Contracts and Permissions, Store (the in-process stores of store.py: Workspaces,
--     Memberships, Invitations, Preferences), Service (service.py: Audit, State, Workspaces,
--     Members, Owners); theorems in Rows, Ownership, Entries, Runs, Once, Versions, Access,
--     Barred and StaysOut.
--   Identity: RateLimit (rate_limit.py) with Window, Runs and Retry; Contracts, Store (the
--     in-process stores of store.py: Users, Sessions, Tokens), Service (service.py: State,
--     Sessions, Recovery, Messages, Login, Profile, and the theorem in SignedOut).
--   Reports: Periods (reports/periods.py) with Windows.
--   Scheduling: Contracts, Calculator (calculator.py) with Fires and Termination, Store (store.py)
--     with Claims, Worker (worker.py) with Settles and Released.
--   Tests: samples and the theorems at concrete inputs.
-- A function keeps the name of the method that it models, without a leading underscore. A method
-- that changes the state takes it and returns the new one; `none` stands for an exception that ends
-- the run, and failures that the code turns into values are values.
--
-- Parameters. The model's replies, the tools' own work, the skill files, the query ledger, the runs
-- of specialists, the summarizer, identifiers, the clock, the digests, the hashing of passwords, the
-- validation of pydantic models from JSON, Unicode case folding, the stripping and lowering of
-- texts, Python's arithmetic of dates, the conversions of time zones and the execution of a saved
-- report are functions that the definitions take; the theorems hold for all of them, those on
-- schedules under what Python documents of the days of one week (IsCalendar).
--
-- Bounds and fuel. The loop of `run` takes one unit of fuel for each iteration that the limits
-- leave and one more; the retries take one for each attempt that the largest rule allows and one
-- more. Both are shown to be enough. So are eight steps of the generator of dates of a schedule,
-- and one unit for each attempt of a scheduled run and one more. Python's integers are natural
-- numbers here, since the code only counts up, and a difference is compared as a sum. Delays are
-- whole milliseconds.
--
-- Not modelled. Logging, tracing, observers and the memory stores, which no decision reads; the
-- bodies of the tools; the PostgreSQL stores of tenants and accounts, which repeat the in-process
-- ones over SQL; the execution and the stores of reports, memory and data sources, analytics and
-- the HTTP routes. The limit of a specialist's iterations is read by the run of a specialist, which
-- is a parameter.
pub mod Prelude
pub mod Security
pub mod Reliability
pub mod Contracts
pub mod Tools
pub mod Runtime
pub mod Tenancy
pub mod Identity
pub mod Reports
pub mod Scheduling
pub mod Tests
