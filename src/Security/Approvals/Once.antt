-- ===== src/Security/Approvals/Once.antt =====
-- What holds of an approval over every sequence of calls, from any number of callers.
use mathlib.Core.Bool.{false≢true}
use autonomous_agent_runtime.Security.Approvals.{
  ApprovalStatus, ApprovalRequest, Item, Result, ok, is_set, read, write, expired_item, expire,
  create, with_expiry, get, list_for_run, resolve, claim_item, claim, complete_execution, status_eq,
}
use autonomous_agent_runtime.Security.Approvals.Final.{
  Advances, Advances-refl, get-Keeps, list_for_run-Keeps, resolve-Keeps, claim-Keeps,
  complete_execution-Keeps, read-write, read-id, read-expire, expired_item-Advances,
}
use autonomous_agent_runtime.Prelude.{
  ℕ, ◌+◌, ◌≤◌, String, ◌≡◌, refl, sym, ap, ◌∙◌, ◌≢◌, ◌⊎◌, inl, inr, Bool, true, false, ◌&&◌, ◌||◌,
  not, Option, some, List, [], ◌∷◌, arith, if◌then◌else◌, Bool-cases, Option-cases, All, ◌==◌,
  nat_instance, string_instance, ==-ne,
}

-- One call of the store, with the time at which it is made.
pub data Op (S : Type 0) : Type 0 where
  create_op : Option ℕ → Item S → Op S
  get_op : ℕ → String → Op S
  list_op : ℕ → String → Op S
  resolve_op : ℕ → String → ApprovalStatus → Op S
  claim_op : ApprovalStatus → ℕ → String → Op S
  complete_op : ℕ → String → S → Op S

id-with_expiry : (ttl : Option ℕ) (r : ApprovalRequest) → (with_expiry ttl r).id ≡ r.id
unfolding with_expiry
id-with_expiry ttl r = ground arith

module _ {S : Type 0} where
  pub step : Op S → List (Item S) → List (Item S)
  step (create_op ttl item) store = (create ttl item store).1
  step (get_op now id) store = (get now id store).1
  step (list_op now run_id) store = (list_for_run now run_id store).1
  step (resolve_op now id status) store = (resolve now id status store).1
  step (claim_op expected now id) store = (claim expected now id store).1
  step (complete_op now id state) store = (complete_execution now id state store).1

  -- The call stores a request under this identifier anew. Identifiers are fresh UUIDs, so a run of
  -- the program makes one such call for each.
  abbrev pub creates : String → Op S → Bool
  creates id (create_op ttl item) = item.request.id == id
  creates id _ = false

  abbrev pub granted : Result (Option (Item S)) → ℕ
  granted (ok (some _)) = 1
  granted _ = 0

  -- How often the call hands the checkpoint of `id` out, for the kinds of claim that count.
  abbrev pub claimed : (ApprovalStatus → Bool) → String → Op S → List (Item S) → ℕ
  claimed which id (claim_op expected now key) store =
      if which expected && key == id then granted (claim expected now key store).0 else 0
  claimed which id _ store = 0

  pub claims : (ApprovalStatus → Bool) → String → List (Op S) → List (Item S) → ℕ
  claims which id [] store = 0
  claims which id (op ∷ ops) store = claimed which id op store + claims which id ops (step op store)

  read-create :
      (ttl : Option ℕ) (new : Item S) (id : String) (store : List (Item S))
      → (new.request.id == id) ≡ false
      → read id (create ttl new store).1 ≡ read id store
  unfolding create
  read-create ttl new id store f = ground (
    arith,
    id-with_expiry ttl new.request,
    read-write (record new { request = with_expiry ttl new.request }) id store,
  )

  step-Advances :
      (id : String) (op : Op S) (store : List (Item S)) (item : Item S)
      → creates id op ≡ false
      → read id store ≡ some item
      → (later : Item S) × (read id (step op store) ≡ some later)
        × Advances item.request later.request
  unfolding step
  step-Advances id (create_op ttl new) store item f h =
      (item, ground (arith, read-create ttl new id store), Advances-refl item.request)
  step-Advances id (get_op now key) store item f h = (get-Keeps now key store).at id item h
  step-Advances id (list_op now run_id) store item f h =
      (list_for_run-Keeps now run_id store).at id item h
  step-Advances id (resolve_op now key status) store item f h =
      (resolve-Keeps now key status store).at id item h
  step-Advances id (claim_op expected now key) store item f h =
      (claim-Keeps expected now key store).at id item h
  step-Advances id (complete_op now key state) store item f h =
      (complete_execution-Keeps now key state store).at id item h

  IsStarted : String → List (Item S) → Type 0
  IsStarted id store =
      (item : Item S) × (read id store ≡ some item)
      × (is_set item.request.execution_started_at ≡ true)

  step-IsStarted :
      (id : String) (op : Op S) (store : List (Item S))
      → creates id op ≡ false
      → IsStarted id store
      → IsStarted id (step op store)
  unfolding IsStarted
  step-IsStarted id op store f (item, h, s) =
      let p = step-Advances id op store item f h in (p.0, p.1, (p.2).started s)

  claim_item-IsStarted :
      (expected : ApprovalStatus) (now : ℕ) (item : Item S) (store : List (Item S))
      → is_set item.request.execution_started_at ≡ true
      → granted (claim_item expected now item store).0 ≡ 0
  unfolding claim_item
  claim_item-IsStarted expected now item store s =
      elim (Bool-cases (item.request.status == expected)) [
        | inl e ↦ rw (e, s) refl
        | inr e ↦ rw e refl
      ]

  -- A claim of `id` counts nothing if the stored request is not handed out.
  claimed-quiet :
      (which : ApprovalStatus → Bool) (id key : String) (expected : ApprovalStatus) (now : ℕ)
      (store : List (Item S)) (item : Item S)
      → read id store ≡ some item
      → (which expected ≡ true
          → granted (claim_item expected now (expired_item now item) (expire now item store)).0 ≡ 0)
      → claimed which id (claim_op expected now key) store ≡ 0
  unfolding claim
  claimed-quiet which id key expected now store item h quiet =
      elim (Bool-cases (which expected && key == id)) [
        | inl e ↦
            let same = (string_instance.beq_iff key id).0 (ground arith) in
            rw e (
              ap (λ k. granted (claim expected now k store).0) same
              ∙ rw (h, claim) (quiet (ground arith)))
        | inr e ↦ rw e refl
      ]

  claimed-IsStarted :
      (which : ApprovalStatus → Bool) (id : String) (op : Op S) (store : List (Item S))
      → IsStarted id store
      → claimed which id op store ≡ 0
  unfolding IsStarted claim
  claimed-IsStarted which id (claim_op expected now key) store (item, h, s) =
      claimed-quiet which id key expected now store item h (λ w.
        claim_item-IsStarted expected now (expired_item now item) (expire now item store)
          ((expired_item-Advances now item).started s))
  claimed-IsStarted which id _ store s = refl

  claims-IsStarted :
      (which : ApprovalStatus → Bool) (id : String) (ops : List (Op S)) (store : List (Item S))
      → All (λ op. creates id op ≡ false) ops
      → IsStarted id store
      → claims which id ops store ≡ 0
  unfolding claims
  claims-IsStarted which id [] store fresh s = refl
  claims-IsStarted which id (op ∷ ops) store fresh s = omega (
    arith,
    claimed-IsStarted which id op store s,
    claims-IsStarted which id ops (step op store) fresh.1 (step-IsStarted id op store fresh.0 s),
  )

  claim_item-starts :
      (expected : ApprovalStatus) (now : ℕ) (id : String) (item : Item S) (store : List (Item S))
      → read id store ≡ some item
      → (granted (claim_item expected now item store).0 ≡ 0)
        ⊎ ((granted (claim_item expected now item store).0 ≡ 1)
            × IsStarted id (claim_item expected now item store).1)
  unfolding claim_item IsStarted
  claim_item-starts expected now id item store h =
      elim (Bool-cases
        (not (item.request.status == expected) || is_set item.request.execution_started_at)) [
          | inl e ↦ inl (rw e refl)
          | inr e ↦ inr (rw e refl, rw e (claimed_item, stored, refl))
        ]
    where
      claimed_item : Item S
      claimed_item = record item {
        request = record item.request { execution_started_at = some now };
      }

      stored : read id (write claimed_item store) ≡ some claimed_item
      stored =
          rw
            (
              read-write claimed_item id store,
              (string_instance.beq_iff item.request.id id).1 (read-id id store item h),
            )
            refl

  claimed_cases :
      (which : ApprovalStatus → Bool) (id : String) (op : Op S) (store : List (Item S))
      → (claimed which id op store ≡ 0)
        ⊎ ((claimed which id op store ≡ 1) × IsStarted id (step op store))
  unfolding claim step
  claimed_cases which id (claim_op expected now key) store =
      elim (Bool-cases (which expected && key == id)) [
        | inl e ↦ rw e (counted ((string_instance.beq_iff key id).0 (ground arith)))
        | inr e ↦ rw e (inl refl)
      ]
    where
      counted :
          key ≡ id
          → (granted (claim expected now key store).0 ≡ 0)
            ⊎ ((granted (claim expected now key store).0 ≡ 1)
                × IsStarted id (claim expected now key store).1)
      counted same = elim (Option-cases (read key store)) [
        | inl e ↦ inl (rw (e, claim) refl)
        | inr (item, e) ↦
            rw (e, claim)
              (claim_item-starts expected now id (expired_item now item) (expire now item store)
                (read-expire now id item store (rw (sym same) e)))
      ]
  claimed_cases which id _ store = inl refl

  -- However many calls are made, by however many callers, in whatever order and at whatever times:
  -- unless a request is created anew under the identifier, its approval is claimed for execution
  -- at most once.
  pub claims-le_one :
      (which : ApprovalStatus → Bool) (id : String) (ops : List (Op S)) (store : List (Item S))
      → All (λ op. creates id op ≡ false) ops
      → claims which id ops store ≤ 1
  unfolding claims
  claims-le_one which id [] store fresh = omega arith
  claims-le_one which id (op ∷ ops) store fresh = elim (claimed_cases which id op store) [
    | inl none_now ↦ omega (arith, claims-le_one which id ops (step op store) fresh.1)
    | inr (one_now, s) ↦ omega (arith, claims-IsStarted which id ops (step op store) fresh.1 s)
  ]

  IsDecided : (ApprovalStatus → Bool) → String → List (Item S) → Type 0
  IsDecided which id store =
      (item : Item S) × (read id store ≡ some item)
      × (item.request.status ≢ ApprovalStatus.pending)
      × (which item.request.status ≡ false)

  step-IsDecided :
      (which : ApprovalStatus → Bool) (id : String) (op : Op S) (store : List (Item S))
      → creates id op ≡ false
      → IsDecided which id store
      → IsDecided which id (step op store)
  unfolding IsDecided
  step-IsDecided which id op store f (item, h, d, w) =
      let p = step-Advances id op store item f h in
      let same = (p.2).final d in (p.0, p.1, (λ e. d (sym same ∙ e)), ap which same ∙ w)

  claim_item-other :
      (expected : ApprovalStatus) (now : ℕ) (item : Item S) (store : List (Item S))
      → (item.request.status == expected) ≡ false
      → granted (claim_item expected now item store).0 ≡ 0
  unfolding claim_item
  claim_item-other expected now item store e = rw e refl

  claimed-IsDecided :
      (which : ApprovalStatus → Bool) (id : String) (op : Op S) (store : List (Item S))
      → IsDecided which id store
      → claimed which id op store ≡ 0
  unfolding IsDecided claim
  claimed-IsDecided which id (claim_op expected now key) store (item, h, d, w) =
      claimed-quiet which id key expected now store item h (λ counts.
        claim_item-other expected now (expired_item now item) (expire now item store) (
          ==-ne (expired_item now item).request.status expected (λ e.
            false≢true
              (sym w ∙ ap which (sym ((expired_item-Advances now item).final d) ∙ e) ∙ counts))))
  claimed-IsDecided which id _ store s = refl

  decided_claims :
      (which : ApprovalStatus → Bool) (id : String) (ops : List (Op S)) (store : List (Item S))
      → All (λ op. creates id op ≡ false) ops
      → IsDecided which id store
      → claims which id ops store ≡ 0
  unfolding claims
  decided_claims which id [] store fresh d = refl
  decided_claims which id (op ∷ ops) store fresh d = omega (
    arith,
    claimed-IsDecided which id op store d,
    decided_claims which id ops (step op store) fresh.1
        (step-IsDecided which id op store fresh.0 d),
  )

  -- A request that is decided otherwise is never claimed: once it is rejected, expired or
  -- cancelled, no sequence of calls hands its action out as approved, and likewise for any
  -- `which` that leaves the stored decision out.
  pub claims-IsDecided :
      (which : ApprovalStatus → Bool) (id : String) (ops : List (Op S)) (store : List (Item S))
      (item : Item S)
      → All (λ op. creates id op ≡ false) ops
      → read id store ≡ some item
      → item.request.status ≢ ApprovalStatus.pending
      → which item.request.status ≡ false
      → claims which id ops store ≡ 0
  unfolding IsDecided
  claims-IsDecided which id ops store item fresh h d w =
      decided_claims which id ops store fresh (item, h, d, w)
