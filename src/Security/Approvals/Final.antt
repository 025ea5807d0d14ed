-- ===== src/Security/Approvals/Final.antt =====
-- How a stored approval may change: its decision is final, and the mark of execution stays.
use mathlib.Core.Option.{some-injective}
use autonomous_agent_runtime.Security.Approvals.{
  ApprovalStatus, ApprovalRequest, Item, is_set, is_expiring, read, write, expired_item, expire,
  resolve_item, claim_item, get, resolve, claim, complete_execution, status_eq, list_for_run,
}
use autonomous_agent_runtime.Prelude.{
  ℕ, String, ◌≡◌, refl, sym, ap, ◌∙◌, subst, ◌≢◌, inl, inr, Bool, true, false, ◌||◌, not, some,
  List, [], ◌∷◌, map, arith, if◌then◌else◌, Bool-cases, Option-cases, ◌==◌, nat_instance,
  string_instance,
}

-- A resolved status does not change, and a started execution stays started.
pub record Advances (before after : ApprovalRequest) : Type 0 where
  pub same_id : after.id ≡ before.id
  pub same_action : after.action_fingerprint ≡ before.action_fingerprint
  pub final : before.status ≢ ApprovalStatus.pending → after.status ≡ before.status
  pub started : is_set before.execution_started_at ≡ true → is_set after.execution_started_at ≡ true

pub Advances-refl : (r : ApprovalRequest) → Advances r r
Advances-refl r = record { same_id = refl; same_action = refl; final = λ _. refl; started = λ h. h }

pub Advances-trans : (q r s : ApprovalRequest) → Advances q r → Advances r s → Advances q s
Advances-trans q r s a b = record {
  same_id = b.same_id ∙ a.same_id;
  same_action = b.same_action ∙ a.same_action;
  final = λ h. b.final (λ e. h (sym (a.final h) ∙ e)) ∙ a.final h;
  started = λ h. b.started (a.started h);
}

module _ {S : Type 0} where
  -- Whatever is stored stays stored, and only advances.
  pub record Keeps (before after : List (Item S)) : Type 0 where
    pub at :
        (id : String) (item : Item S)
        → read id before ≡ some item
        → (later : Item S) × (read id after ≡ some later) × Advances item.request later.request

  pub Keeps-refl : (store : List (Item S)) → Keeps store store
  Keeps-refl store = record { at = λ id item h. (item, h, Advances-refl item.request) }

  pub Keeps-trans : (s t u : List (Item S)) → Keeps s t → Keeps t u → Keeps s u
  Keeps-trans s t u a b = record {
    at = λ id item h.
        let p = a.at id item h in
        let q = b.at id p.0 p.1 in
        (q.0, q.1, Advances-trans item.request (p.0).request (q.0).request p.2 q.2);
  }

  pub read-id :
      (id : String) (store : List (Item S)) (item : Item S)
      → read id store ≡ some item
      → item.request.id ≡ id
  unfolding read
  read-id id [] item h = cc
  read-id id (first ∷ items) item h =
      ground (arith, string_instance.beq_iff first.request.id id, read-id id items item)

  pub read-write :
      (new : Item S) (id : String) (store : List (Item S))
      → read id (write new store) ≡ (if new.request.id == id then some new else read id store)
  unfolding read write
  read-write new id [] = refl
  read-write new id (old ∷ items) = ground (
    arith,
    read-write new id items,
    string_instance.beq_iff old.request.id new.request.id,
    string_instance.beq_iff old.request.id id,
    string_instance.beq_iff new.request.id id,
  )

  pub Keeps-write :
      (id : String) (old new : Item S) (store : List (Item S))
      → read id store ≡ some old
      → Advances old.request new.request
      → Keeps store (write new store)
  Keeps-write id old new store h a = record {
    at = λ key item hk. elim (Bool-cases (new.request.id == key)) [
      | inl e ↦ (new, ground (arith, read-write new key store), overwritten key item hk e)
      | inr e ↦ (item, ground (arith, read-write new key store), Advances-refl item.request)
    ];
  }
    where
      overwritten :
          (key : String) (item : Item S)
          → read key store ≡ some item
          → (new.request.id == key) ≡ true
          → Advances item.request new.request
      overwritten key item hk e =
          let same : id ≡ key =
            sym (read-id id store old h)
            ∙ sym a.same_id
            ∙ (string_instance.beq_iff new.request.id key).0 e in
          let equal : old ≡ item = some-injective _ _ (sym h ∙ ap (λ k. read k store) same ∙ hk) in
          subst (λ (x : Item S). Advances x.request new.request) equal a

  -- What `_expire` leaves behind.
  pub expired_item-Advances :
      (now : ℕ) (item : Item S) → Advances item.request (expired_item now item).request
  unfolding expired_item is_expiring
  expired_item-Advances now item = record {
    same_id = ground arith;
    same_action = ground arith;
    final = λ h. ground arith;
    started = λ h. ground arith;
  }

  pub read-expire :
      (now : ℕ) (id : String) (item : Item S) (store : List (Item S))
      → read id store ≡ some item
      → read id (expire now item store) ≡ some (expired_item now item)
  unfolding expire expired_item
  read-expire now id item store h = ground (
    arith,
    read-id id store item h,
    read-write (expired_item now item) id store,
    string_instance.beq_iff item.request.id id,
  )

  expire-Keeps :
      (now : ℕ) (id : String) (item : Item S) (store : List (Item S))
      → read id store ≡ some item
      → Keeps store (expire now item store)
  unfolding expire
  expire-Keeps now id item store h = elim (Bool-cases (is_expiring now item.request)) [
    | inl e ↦
        rw e (Keeps-write id item (expired_item now item) store h (expired_item-Advances now item))
    | inr e ↦ rw e (Keeps-refl store)
  ]

  pub get-Keeps : (now : ℕ) (id : String) (store : List (Item S)) → Keeps store (get now id store).1
  unfolding get
  get-Keeps now id store = elim (Option-cases (read id store)) [
    | inl e ↦ rw (e, get) (Keeps-refl store)
    | inr (item, e) ↦ rw (e, get) (expire-Keeps now id item store e)
  ]

  resolve_item-Keeps :
      (now : ℕ) (id : String) (status : ApprovalStatus) (item : Item S) (store : List (Item S))
      → read id store ≡ some item
      → Keeps store (resolve_item now status item store).1
  unfolding resolve_item
  resolve_item-Keeps now id status item store h =
      elim (Bool-cases (item.request.status == status)) [
        | inl e ↦ rw e (Keeps-refl store)
        | inr e ↦ rw e (elim (Bool-cases (item.request.status == ApprovalStatus.pending)) [
          | inl p ↦ rw p (
              Keeps-write id item _ store h (record {
                same_id = refl;
                same_action = refl;
                final = λ n.
                    absurd (n ((status_eq.beq_iff item.request.status ApprovalStatus.pending).0 p));
                started = λ s. s;
              }))
          | inr p ↦ rw p (Keeps-refl store)
        ])
      ]

  pub resolve-Keeps :
      (now : ℕ) (id : String) (status : ApprovalStatus) (store : List (Item S))
      → Keeps store (resolve now id status store).1
  unfolding resolve
  resolve-Keeps now id status store =
      elim (Bool-cases (status == ApprovalStatus.approved || status == ApprovalStatus.rejected)) [
        | inl v ↦ elim (Option-cases (read id store)) [
          | inl e ↦ rw (v, e, resolve) (Keeps-refl store)
          | inr (item, e) ↦
              rw (v, e, resolve)
                (Keeps-trans store (expire now item store) _ (expire-Keeps now id item store e) (
                  resolve_item-Keeps now id status (expired_item now item) (expire now item store)
                    (read-expire now id item store e)))
        ]
        | inr v ↦ rw (v, resolve) (Keeps-refl store)
      ]

  claim_item-Keeps :
      (expected : ApprovalStatus) (now : ℕ) (id : String) (item : Item S) (store : List (Item S))
      → read id store ≡ some item
      → Keeps store (claim_item expected now item store).1
  unfolding claim_item
  claim_item-Keeps expected now id item store h =
      elim (Bool-cases
        (not (item.request.status == expected) || is_set item.request.execution_started_at)) [
          | inl e ↦ rw e (Keeps-refl store)
          | inr e ↦ rw e (
              Keeps-write id item _ store h (record {
                same_id = refl;
                same_action = refl;
                final = λ n. refl;
                started = λ s. refl;
              }))
        ]

  pub claim-Keeps :
      (expected : ApprovalStatus) (now : ℕ) (id : String) (store : List (Item S))
      → Keeps store (claim expected now id store).1
  unfolding claim
  claim-Keeps expected now id store = elim (Option-cases (read id store)) [
    | inl e ↦ rw (e, claim) (Keeps-refl store)
    | inr (item, e) ↦
        rw (e, claim)
          (Keeps-trans store (expire now item store) _ (expire-Keeps now id item store e) (
            claim_item-Keeps expected now id (expired_item now item) (expire now item store)
              (read-expire now id item store e)))
  ]

  pub complete_execution-Keeps :
      (now : ℕ) (id : String) (state : S) (store : List (Item S))
      → Keeps store (complete_execution now id state store).1
  unfolding complete_execution
  complete_execution-Keeps now id state store = elim (Option-cases (read id store)) [
    | inl e ↦ rw (e, complete_execution) (Keeps-refl store)
    | inr (item, e) ↦
        rw (e, complete_execution)
          (Keeps-write id item _ store e
            (record { same_id = refl; same_action = refl; final = λ _. refl; started = λ h. h }))
  ]

  read-map :
      (f : Item S → Item S)
      → ((item : Item S) → (f item).request.id ≡ item.request.id)
      → (id : String) (store : List (Item S)) (item : Item S) → read id store ≡ some item
      → read id (map f store) ≡ some (f item)
  unfolding read
  read-map f keep id [] item h = cc
  read-map f keep id (first ∷ items) item h =
      ground (arith, keep first, read-map f keep id items item)

  swept-Advances :
      (now : ℕ) (b : Bool) (item : Item S)
      → Advances item.request (if b then expired_item now item else item).request
  swept-Advances now true item = expired_item-Advances now item
  swept-Advances now false item = Advances-refl item.request

  pub list_for_run-Keeps :
      (now : ℕ) (run_id : String) (store : List (Item S))
      → Keeps store (list_for_run now run_id store).1
  unfolding list_for_run
  list_for_run-Keeps now run_id store = record {
    at = λ id item h. (
      _,
      read-map _ (λ x. (swept-Advances now (x.request.run_id == run_id) x).same_id) id store item h,
      swept-Advances now (item.request.run_id == run_id) item,
    );
  }
