-- ===== src/Scheduling/Store.antt =====
-- PostgresScheduledReportStore of backend/app/scheduling/store.py. A row is found by its identifier;
-- a method is one transaction, so one step. Rows with the same `next_run_at`, which the database may
-- order in any way, keep the order of the table.
pub mod Claims
use autonomous_agent_runtime.Scheduling.Contracts.{
  ScheduledReport, ScheduleConfig, ScheduleResult, completed, failed, skipped,
}
use autonomous_agent_runtime.Prelude.{
  ℕ, ◌+◌, String, Bool, true, false, ◌&&◌, not, Option, none, some, List, [], ◌∷◌, map, ltb, leb,
  if◌then◌else◌, length, take, drop, filter, contains, string_instance, ◌==◌, nat_instance, lookup,
  put,
}

abbrev pub report_key : ScheduledReport → String
report_key r = r.id

unfoldable pub create :
    ℕ → ScheduledReport → List ScheduledReport → ScheduledReport × List ScheduledReport
create now given store =
    let row : ScheduledReport = record given {
      enabled = true;
      last_run_at = none;
      last_result = none;
      consecutive_failures = 0;
      claimed_at = none;
      created_at = now;
      updated_at = now;
    } in
    (row, put report_key row store)

-- A row of another workspace is not found.
unfoldable pub get : String → String → List ScheduledReport → Option ScheduledReport
get workspace_id id store = elim (lookup report_key id store) [
  | none ↦ none
  | some row ↦ if row.workspace_id == workspace_id then some row else none
]

-- The keys that `changes` can have; `none` for one that it does not have.
pub record ScheduleChanges : Type 0 where
  pub schedule : Option ScheduleConfig
  pub timezone : Option String
  pub formats : Option (List String)
  pub delivery_channel : Option (Option String)
  pub delivery_destination : Option (Option String)
  pub enabled : Option Bool
  pub next_run_at : Option ℕ

abbrev pub either {ℓ} : {A : Type ℓ} → Option A → A → A
either none a = a
either (some b) a = b

-- `none` is ScheduledReportNotFoundError.
unfoldable pub update :
    ℕ
    → String
    → String
    → ScheduleChanges
    → List ScheduledReport
    → Option ScheduledReport × List ScheduledReport
update now workspace_id id changes store = elim (get workspace_id id store) [
  | none ↦ (none, store)
  | some row ↦
      let new : ScheduledReport = record row {
        schedule = either changes.schedule row.schedule;
        timezone = either changes.timezone row.timezone;
        formats = either changes.formats row.formats;
        delivery_channel = either changes.delivery_channel row.delivery_channel;
        delivery_destination = either changes.delivery_destination row.delivery_destination;
        enabled = either changes.enabled row.enabled;
        next_run_at = either changes.next_run_at row.next_run_at;
        updated_at = now;
      } in
      (some new, put report_key new store)
]

-- `claimed_at IS NULL OR claimed_at < now - stale_after`
unfoldable pub is_claimable : ℕ → ℕ → Option ℕ → Bool
is_claimable now stale_after none = true
is_claimable now stale_after (some claimed) = ltb (claimed + stale_after) now

unfoldable pub is_due : ℕ → ℕ → ScheduledReport → Bool
is_due now stale_after r =
    r.enabled && leb r.next_run_at now && is_claimable now stale_after r.claimed_at

unfoldable pub insert_by_next_run : ScheduledReport → List ScheduledReport → List ScheduledReport
insert_by_next_run r [] = r ∷ []
insert_by_next_run r (q ∷ qs) =
    let rest = insert_by_next_run r qs in
    if leb r.next_run_at q.next_run_at then r ∷ q ∷ qs else q ∷ rest

unfoldable pub sort_by_next_run : List ScheduledReport → List ScheduledReport
sort_by_next_run [] = []
sort_by_next_run (r ∷ rs) = insert_by_next_run r (sort_by_next_run rs)

abbrev is_wanted : Option Bool → Bool → Bool
is_wanted none b = true
is_wanted (some true) b = b
is_wanted (some false) b = not b

unfoldable pub list_reports :
    String → Option Bool → ℕ → ℕ → List ScheduledReport → List ScheduledReport × ℕ
list_reports workspace_id enabled limit offset store =
    let rows =
      filter
        (λ (r : ScheduledReport). r.workspace_id == workspace_id && is_wanted enabled r.enabled)
        store in
    (take limit (drop offset (sort_by_next_run rows)), length rows)

-- `candidate_ids`
unfoldable pub candidate_ids : ℕ → ℕ → ℕ → List ScheduledReport → List String
candidate_ids now stale_after limit store =
    map report_key (take limit (sort_by_next_run (filter (is_due now stale_after) store)))

unfoldable pub stamp : ℕ → List String → ScheduledReport → ScheduledReport
stamp now ids r = if contains ids r.id then record r { claimed_at = some now } else r

unfoldable pub claim_due :
    ℕ → ℕ → ℕ → List ScheduledReport → List ScheduledReport × List ScheduledReport
claim_due now stale_after limit store =
    let ids = candidate_ids now stale_after limit store in
    let stamped = map (stamp now ids) store in
    (sort_by_next_run (filter (λ (r : ScheduledReport). contains ids r.id) stamped), stamped)

unfoldable pub streak : ScheduleResult → ℕ → ℕ
streak completed failures = 0
streak failed failures = failures + 1
streak skipped failures = failures

-- The row after a run; the clock of the update is `ran_at` here.
unfoldable pub recorded : ℕ → ScheduleResult → Option ℕ → ScheduledReport → ScheduledReport
recorded ran_at result next_run_at row = record row {
  last_run_at = some ran_at;
  last_result = some result;
  consecutive_failures = streak result row.consecutive_failures;
  claimed_at = none;
  next_run_at = either next_run_at row.next_run_at;
  updated_at = ran_at;
}

unfoldable pub record_run_result :
    String → String → ℕ → ScheduleResult → Option ℕ → List ScheduledReport → List ScheduledReport
record_run_result workspace_id id ran_at result next_run_at store =
    elim (get workspace_id id store) [
      | none ↦ store
      | some row ↦ put report_key (recorded ran_at result next_run_at row) store
    ]
