-- ===== src/Security/Approvals.antt =====
-- FileApprovalStore of backend/app/security/approvals.py. The directory is a list of items, one for
-- each request with its checkpoint; a lock makes each method one step. Times are whole numbers,
-- and the clock is an argument. `S` is the dumped agent state of a checkpoint. The argument
-- summary, which only a reviewer reads, is left out.
pub mod Final
pub mod Once
use autonomous_agent_runtime.Prelude.Json.{Fields}
use autonomous_agent_runtime.Security.Contracts.{Capability}
use autonomous_agent_runtime.Prelude.{
  ℕ, ◌+◌, String, ◌≡◌, refl, ◌↔◌, Bool, true, false, ◌&&◌, ◌||◌, not, Option, none, some, List, [],
  ◌∷◌, map, leb, nat_eq, if◌then◌else◌, filter, Eq, ◌==◌, nat_instance, string_instance,
  index_beq_iff,
}

pub data ApprovalStatus : Type 0 where
  pending approved rejected expired cancelled : ApprovalStatus

pub record ApprovalRequest : Type 0 where
  pub id : String
  pub run_id : String
  pub parent_run_id : Option String
  pub agent_name : String
  pub capability : Capability
  pub tool_name : String
  pub resource : Option String
  pub reason : String
  pub status : ApprovalStatus
  pub created_at : ℕ
  pub resolved_at : Option ℕ
  pub expires_at : Option ℕ
  pub policy_id : String
  pub action_fingerprint : String
  pub execution_started_at : Option ℕ
  pub execution_completed_at : Option ℕ

pub record ApprovalCheckpoint (S : Type 0) : Type 0 where
  pub state : S
  pub tool_name : String
  pub tool_arguments : Fields
  pub action_fingerprint : String
  pub session_id : Option String

pub record Item (S : Type 0) : Type 0 where
  pub request : ApprovalRequest
  pub checkpoint : ApprovalCheckpoint S

-- What a method raises: ValueError, KeyError and ApprovalConflictError.
pub data ApprovalError : Type 0 where
  invalid_resolution unknown_approval conflict : ApprovalError

pub data Result {ℓ} (A : Type ℓ) : Type ℓ where
  ok : A → Result A
  err : ApprovalError → Result A

abbrev pub status_index : ApprovalStatus → ℕ
status_index ApprovalStatus.pending = 0
status_index ApprovalStatus.approved = 1
status_index ApprovalStatus.rejected = 2
status_index ApprovalStatus.expired = 3
status_index ApprovalStatus.cancelled = 4

abbrev pub status_at : ℕ → ApprovalStatus
status_at n =
    if nat_eq n 0
    then ApprovalStatus.pending
    else if nat_eq n 1
    then ApprovalStatus.approved
    else if nat_eq n 2
    then ApprovalStatus.rejected
    else if nat_eq n 3
    then ApprovalStatus.expired
    else ApprovalStatus.cancelled

status_recover : (s : ApprovalStatus) → status_at (status_index s) ≡ s
status_recover ApprovalStatus.pending = refl
status_recover s = refl

pub status_beq_iff :
    (a b : ApprovalStatus) → (nat_eq (status_index a) (status_index b) ≡ true) ↔ (a ≡ b)
status_beq_iff = index_beq_iff status_index status_at status_recover

instance abbrev pub status_eq : Eq ApprovalStatus
status_eq = record {
  beq = λ a b. nat_eq (status_index a) (status_index b);
  beq_iff = status_beq_iff;
}

abbrev pub is_set : Option ℕ → Bool
is_set none = false
is_set (some _) = true

-- `request.expires_at and request.expires_at <= now`
abbrev pub is_past : Option ℕ → ℕ → Bool
is_past none now = false
is_past (some t) now = leb t now

unfoldable pub is_expiring : ℕ → ApprovalRequest → Bool
is_expiring now request = request.status == ApprovalStatus.pending && is_past request.expires_at now

-- The request as `create` stores it.
unfoldable pub with_expiry : Option ℕ → ApprovalRequest → ApprovalRequest
with_expiry none request = request
with_expiry (some seconds) request = elim request.expires_at [
  | none ↦ record request { expires_at = some (request.created_at + seconds) }
  | some _ ↦ request
]

-- `sorted` by `created_at`, which is stable.
unfoldable pub insert_by_created : ApprovalRequest → List ApprovalRequest → List ApprovalRequest
insert_by_created r [] = r ∷ []
insert_by_created r (q ∷ qs) =
    if leb r.created_at q.created_at then r ∷ q ∷ qs else q ∷ insert_by_created r qs

unfoldable pub sort_by_created : List ApprovalRequest → List ApprovalRequest
sort_by_created [] = []
sort_by_created (r ∷ rs) = insert_by_created r (sort_by_created rs)

module _ {S : Type 0} where
  unfoldable pub read : String → List (Item S) → Option (Item S)
  read id [] = none
  read id (item ∷ items) = if item.request.id == id then some item else read id items

  unfoldable pub write : Item S → List (Item S) → List (Item S)
  write item [] = item ∷ []
  write item (old ∷ items) =
      if old.request.id == item.request.id then item ∷ items else old ∷ write item items

  -- The request as `_expire` leaves it.
  unfoldable pub expired_item : ℕ → Item S → Item S
  expired_item now item =
      if is_expiring now item.request
      then record item {
        request = record item.request { status = ApprovalStatus.expired; resolved_at = some now };
      }
      else item

  -- `_expire` writes only a request that it changes.
  unfoldable pub expire : ℕ → Item S → List (Item S) → List (Item S)
  expire now item store =
      if is_expiring now item.request then write (expired_item now item) store else store

  unfoldable pub create : Option ℕ → Item S → List (Item S) → ApprovalRequest × List (Item S)
  create ttl item store =
      let request = with_expiry ttl item.request in
      (request, write (record item { request = request }) store)

  unfoldable pub get : ℕ → String → List (Item S) → Option ApprovalRequest × List (Item S)
  get now id store = elim (read id store) [
    | none ↦ (none, store)
    | some item ↦ (some (expired_item now item).request, expire now item store)
  ]

  -- The items are visited in the order of the directory; each is expired in its own file.
  unfoldable pub list_for_run : ℕ → String → List (Item S) → List ApprovalRequest × List (Item S)
  list_for_run now run_id store =
      let of_run = λ (item : Item S). item.request.run_id == run_id in
      (
        sort_by_created (map (λ item. (expired_item now item).request) (filter of_run store)),
        map (λ item. if of_run item then expired_item now item else item) store,
      )

  -- `resolve` from the request that `_expire` has left.
  unfoldable pub resolve_item :
      ℕ → ApprovalStatus → Item S → List (Item S) → Result ApprovalRequest × List (Item S)
  resolve_item now status item store =
      if item.request.status == status
      then (ok item.request, store)
      else if not (item.request.status == ApprovalStatus.pending)
      then (err conflict, store)
      else let request = record item.request { status = status; resolved_at = some now } in
        (ok request, write (record item { request = request }) store)

  unfoldable pub resolve :
      ℕ → String → ApprovalStatus → List (Item S) → Result ApprovalRequest × List (Item S)
  resolve now id status store =
      if not (status == ApprovalStatus.approved || status == ApprovalStatus.rejected)
      then (err invalid_resolution, store)
      else elim (read id store) [
        | none ↦ (err unknown_approval, store)
        | some item ↦ resolve_item now status (expired_item now item) (expire now item store)
      ]

  -- `_claim` from the request that `_expire` has left.
  unfoldable pub claim_item :
      ApprovalStatus → ℕ → Item S → List (Item S) → Result (Option (Item S)) × List (Item S)
  claim_item expected now item store =
      if not (item.request.status == expected) || is_set item.request.execution_started_at
      then (ok none, store)
      else let claimed = record item {
        request = record item.request { execution_started_at = some now };
      } in
        (ok (some claimed), write claimed store)

  unfoldable pub claim :
      ApprovalStatus → ℕ → String → List (Item S) → Result (Option (Item S)) × List (Item S)
  claim expected now id store = elim (read id store) [
    | none ↦ (err unknown_approval, store)
    | some item ↦ claim_item expected now (expired_item now item) (expire now item store)
  ]

  abbrev pub claim_approved : ℕ → String → List (Item S) → Result (Option (Item S)) × List (Item S)
  claim_approved = claim ApprovalStatus.approved

  abbrev pub claim_rejected : ℕ → String → List (Item S) → Result (Option (Item S)) × List (Item S)
  claim_rejected = claim ApprovalStatus.rejected

  unfoldable pub complete_execution :
      ℕ → String → S → List (Item S) → Result (Unit {0}) × List (Item S)
  complete_execution now id state store = elim (read id store) [
    | none ↦ (err unknown_approval, store)
    | some item ↦ (
      ok tt,
      write
          (record {
            request = record item.request { execution_completed_at = some now };
            checkpoint = record item.checkpoint { state = state };
          })
          store,
    )
  ]

  unfoldable pub checkpoint : String → List (Item S) → Option (ApprovalCheckpoint S)
  checkpoint id store = elim (read id store) [ none ↦ none | some item ↦ some item.checkpoint ]
