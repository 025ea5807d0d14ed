-- ===== src/Scheduling/Store/Claims.antt =====
-- Claims of backend/app/scheduling/store.py do not overlap.
use autonomous_agent_runtime.Scheduling.Contracts.{ScheduledReport}
use autonomous_agent_runtime.Scheduling.Store.{
  report_key, is_claimable, is_due, insert_by_next_run, sort_by_next_run, candidate_ids, stamp,
  claim_due,
}
use mathlib.Core.Bool.{false≢true}
use autonomous_agent_runtime.Prelude.{
  ℕ, zero, suc, ◌+◌, ◌≤◌, String, ◌≡◌, refl, sym, ◌∙◌, subst, ◌≢◌, inl, inr, Bool, true, false,
  List, [], ◌∷◌, map, arith, Bool-cases, take, filter, contains, string_instance, ◌==◌,
  nat_instance,
}

-- The identifiers of the rows.
abbrev pub ids_of : List ScheduledReport → List String
ids_of = map report_key

stamp_id : (now : ℕ) (ids : List String) (r : ScheduledReport) → (stamp now ids r).id ≡ r.id
unfolding stamp
stamp_id now ids r = ground arith

stamp_due :
    (now later stale_after : ℕ) (ids : List String) (r : ScheduledReport)
    → later ≤ now + stale_after
    → contains ids r.id ≡ true
    → is_due later stale_after (stamp now ids r) ≡ false
unfolding stamp is_due is_claimable
stamp_due now later stale_after ids r le h = rw (stamp, h) (ground arith)

absent : (b : Bool) → (b ≢ true) → b ≡ false
absent b n = ground arith

module _ (k : String) where
  contains-insert :
      (r : ScheduledReport) (rs : List ScheduledReport)
      → contains (ids_of (insert_by_next_run r rs)) k ≡ contains (ids_of (r ∷ rs)) k
  unfolding insert_by_next_run
  contains-insert r [] = refl
  contains-insert r (q ∷ qs) = ground (arith, contains-insert r qs)

  contains-sort :
      (rs : List ScheduledReport)
      → contains (ids_of (sort_by_next_run rs)) k ≡ contains (ids_of rs) k
  unfolding sort_by_next_run
  contains-sort [] = refl
  contains-sort (r ∷ rs) = ground (arith, contains-insert r (sort_by_next_run rs), contains-sort rs)

  contains-take :
      (n : ℕ) (rs : List ScheduledReport)
      → contains (ids_of (take n rs)) k ≡ true
      → contains (ids_of rs) k ≡ true
  contains-take zero rs h = grind arith
  contains-take (suc n) [] h = grind arith
  contains-take (suc n) (r ∷ rs) h = ground (arith, contains-take n rs)

  -- A row that was stamped is not due within the time after which a claim is stale.
  stamped-due :
      (now later stale_after : ℕ) (ids : List String) (rs : List ScheduledReport)
      → later ≤ now + stale_after
      → contains ids k ≡ true
      → contains (ids_of (filter (is_due later stale_after) (map (stamp now ids) rs))) k ≡ false
  stamped-due now later stale_after ids [] le h = refl
  stamped-due now later stale_after ids (r ∷ rs) le h =
      let ih = stamped-due now later stale_after ids rs le h in
      elim (Bool-cases (is_due later stale_after (stamp now ids r))) [
        | inr f ↦ rw (f, ih)
        | inl t ↦ elim (Bool-cases (r.id == k)) [
          | inl e ↦ absurd (
              false≢true (
                sym (
                  stamp_due now later stale_after ids r le (
                    subst (λ i. contains ids i ≡ true) (sym ((string_instance.beq_iff r.id k).0 e))
                      h))
                ∙ t))
          | inr g ↦ rw (t, stamp_id now ids r, g, ih)
        ]
      ]

  -- While a claim is not stale, its rows are claimed by nobody else: no row that one call has
  -- claimed is among those that the next call within `stale_after` claims.
  pub claim_due-apart :
      (now later stale_after limit other : ℕ) (store : List ScheduledReport)
      → later ≤ now + stale_after
      → contains (candidate_ids now stale_after limit store) k ≡ true
      → contains (candidate_ids later stale_after other (claim_due now stale_after limit store).1) k
        ≡ false
  unfolding claim_due candidate_ids
  claim_due-apart now later stale_after limit other store le h =
      let ids = candidate_ids now stale_after limit store in
      let rows = filter (is_due later stale_after) (map (stamp now ids) store) in
      absent (contains (ids_of (take other (sort_by_next_run rows))) k) (λ t. false≢true (
        sym (stamped-due now later stale_after ids store le h)
        ∙ sym (contains-sort rows)
        ∙ contains-take other (sort_by_next_run rows) t))
