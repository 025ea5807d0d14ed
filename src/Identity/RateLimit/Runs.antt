-- ===== src/Identity/RateLimit/Runs.antt =====
-- Sequences of calls of the rate limiter of backend/app/identity/rate_limit.py, on any buckets.
use autonomous_agent_runtime.Identity.RateLimit.{
  Bucket, bucket_key, hits_in, expire, judge, check, bucket_name, hits_of, Verdict,
}
use autonomous_agent_runtime.Identity.RateLimit.Window.{
  Call, name_of, is_allowed, step, recent, within, IsOrdered, specified, judge-hits,
  recent-specified, specified-IsOrdered, specified-within, expire-recent,
}
use autonomous_agent_runtime.Prelude.{
  ℕ, ◌≤◌, String, ◌≡◌, refl, sym, ap, ◌∙◌, subst, inl, inr, Bool, true, false, ◌&&◌, ◌||◌, not,
  List, [], ◌∷◌, ◌++◌, append_assoc, append-nil, arith, ltb, if◌then◌else◌, Bool-cases, length, all,
  string_instance, ◌==◌, nat_instance, put, lookup-put, lookup-put-other,
}

-- The calls on a bucket, each with its time and whether it was let through.
unfoldable pub trace : String → List Call → List Bucket → List (ℕ × Bool)
trace name [] store = []
trace name (c ∷ calls) store =
    let rest = trace name calls (step c store).1 in
    if name_of c == name then (c.now, is_allowed (step c store).0) ∷ rest else rest

-- The times at which calls were let through.
abbrev pub passed : List (ℕ × Bool) → List ℕ
passed [] = []
passed ((t, b) ∷ xs) = let rest = passed xs in if b then t ∷ rest else rest

-- The calls come in order of time.
abbrev pub IsTimed : ℕ → List Call → Type 0
IsTimed last [] = Unit
IsTimed last (c ∷ calls) = (last ≤ c.now) × IsTimed c.now calls

IsTimed-earlier :
    (last now : ℕ) (calls : List Call) → last ≤ now → IsTimed now calls → IsTimed last calls
IsTimed-earlier last now [] le w = tt
IsTimed-earlier last now (c ∷ calls) le (l, w) = (omega arith, w)

both : (a b : Bool) → a && b ≡ true → (a ≡ true) × (b ≡ true)
both a b h = ground arith

module _ (name : String) (limit window : ℕ) where
  -- The bucket is always asked for with the same limit and window.
  abbrev pub is_uniform : Call → Bool
  is_uniform c = not (name_of c == name) || c.limit == limit && c.window == window

  -- What the specification says of the same calls.
  unfoldable pub specified_trace : List Call → List ℕ → List (ℕ × Bool)
  specified_trace [] log = []
  specified_trace (c ∷ calls) log =
      let with_call = specified_trace calls (specified limit window c.now log).1 in
      let without = specified_trace calls log in
      if name_of c == name
      then (c.now, (specified limit window c.now log).0) ∷ with_call
      else without

  uniform_eq :
      (b : Bool) (l w : ℕ)
      → b ≡ true
      → not b || l == limit && w == window ≡ true
      → (l ≡ limit) × (w ≡ window)
  uniform_eq b l w t u = ground arith

  entered :
      (new : Bucket) (store : List Bucket) → hits_in new.name (put bucket_key new store) ≡ new.hits
  unfolding hits_in
  entered new store = ap hits_of (lookup-put bucket_key new store)

  other_bucket :
      (c : Call) (store : List Bucket)
      → (name_of c == name) ≡ false
      → hits_in name (step c store).1 ≡ hits_in name store
  unfolding hits_in step check
  other_bucket c store f =
      let new : Bucket = record {
        name = name_of c;
        hits = (judge c.limit c.window c.now (expire c.window c.now (hits_in (name_of c) store))).1;
      } in
      ap hits_of (lookup-put-other bucket_key new name store f)

  -- A call on this bucket, from the hits that the log has kept.
  checked :
      (action key : String) (now last : ℕ) (store : List Bucket) (log : List ℕ)
      → bucket_name action key ≡ name
      → hits_in name store ≡ recent window last log
      → IsOrdered log last
      → last ≤ now
      → (is_allowed (check action key limit window now store).0
          ≡ (specified limit window now log).0)
        × (hits_in name (check action key limit window now store).1
            ≡ recent window now (specified limit window now log).1)
  unfolding check specified
  checked action key now last store log en e o le =
      let hits = recent window now log in
      let eq : (expire window now (hits_in (bucket_name action key) store) ≡ hits) =
        ap (λ n. expire window now (hits_in n store)) en
        ∙ ap (expire window now) e
        ∙ expire-recent window last now log o le in
      let new : Bucket = record {
        name = bucket_name action key;
        hits = (judge limit window now hits).1;
      } in
      let stored : (hits_in name (put bucket_key new store) ≡ (judge limit window now hits).1) =
        subst (λ n. hits_in n (put bucket_key new store) ≡ (judge limit window now hits).1) en
          (entered new store) in
      rw eq (
        (judge-hits limit window now hits).0,
        stored ∙ (judge-hits limit window now hits).1 ∙ sym (recent-specified limit window now log),
      )

  same_bucket :
      (c : Call) (store : List Bucket) (last : ℕ) (log : List ℕ)
      → (name_of c == name) ≡ true
      → is_uniform c ≡ true
      → hits_in name store ≡ recent window last log
      → IsOrdered log last
      → last ≤ c.now
      → (is_allowed (step c store).0 ≡ (specified limit window c.now log).0)
        × (hits_in name (step c store).1 ≡ recent window c.now (specified limit window c.now log).1)
  unfolding step
  same_bucket c store last log t u e o le =
      let (el, ew) = uniform_eq (name_of c == name) c.limit c.window t u in
      let q : (step c store ≡ check c.action c.key limit window c.now store) =
        ap (λ l. check c.action c.key l c.window c.now store) el
        ∙ ap (λ w. check c.action c.key limit w c.now store) ew in
      subst
        (λ (r : Verdict × List Bucket).
          (is_allowed r.0 ≡ (specified limit window c.now log).0)
          × (hits_in name r.1 ≡ recent window c.now (specified limit window c.now log).1))
        (sym q)
        (checked c.action c.key c.now last store log
          ((string_instance.beq_iff (name_of c) name).0 t) e o le)

  -- From hits that a log explains, the limiter decides as the specification does.
  refines :
      (calls : List Call) (store : List Bucket) (last : ℕ) (log : List ℕ)
      → all is_uniform calls ≡ true
      → IsTimed last calls
      → hits_in name store ≡ recent window last log
      → IsOrdered log last
      → trace name calls store ≡ specified_trace calls log
  unfolding trace specified_trace
  refines [] store last log u w e o = refl
  refines (c ∷ calls) store last log u (le, w) e o =
      let (uc, us) = both (is_uniform c) (all is_uniform calls) u in
      elim (Bool-cases (name_of c == name)) [
        | inl t ↦
            let (v, kept) = same_bucket c store last log t uc e o le in
            rw t (
              ap (λ b. (c.now, b) ∷ trace name calls (step c store).1) v
              ∙ ap (λ xs. (c.now, (specified limit window c.now log).0) ∷ xs)
                  (refines calls (step c store).1 c.now (specified limit window c.now log).1 us w
                    kept (specified-IsOrdered limit window c.now last log o le)))
        | inr f ↦ rw f (
            refines calls (step c store).1 last log us (IsTimed-earlier last c.now calls le w)
              (other_bucket c store f ∙ e) o)
      ]

  -- Over every sequence of calls in order of time that asks for a bucket with one limit and one
  -- window, whatever is asked of other buckets, the limiter lets a call of the bucket through
  -- exactly if fewer than `limit` calls of it were let through in the window that ends with it.
  pub trace-specified_trace :
      (calls : List Call)
      → all is_uniform calls ≡ true
      → IsTimed 0 calls
      → trace name calls [] ≡ specified_trace calls []
  unfolding hits_in
  trace-specified_trace calls u w = refines calls [] 0 [] u w refl tt

  within_specified :
      (calls : List Call) (log : List ℕ) (start : ℕ)
      → ((s : ℕ) → within window s log ≤ limit)
      → within window start (log ++ passed (specified_trace calls log)) ≤ limit
  unfolding specified_trace specified
  within_specified [] log start le = rw (append-nil log) (le start)
  within_specified (c ∷ calls) log start le = elim (Bool-cases (name_of c == name)) [
    | inr f ↦ rw f (within_specified calls log start le)
    | inl t ↦ elim (Bool-cases (ltb (length (recent window c.now log)) limit)) [
      | inl r ↦
          let more = log ++ (c.now ∷ []) in
          rw (t, r)
            (subst (λ xs. within window start xs ≤ limit)
              (append_assoc log (c.now ∷ []) (passed (specified_trace calls more)))
              (within_specified calls more start
                (λ s. rw r at (specified-within limit window c.now s log (le s)))))
      | inr r ↦ rw (t, r) (within_specified calls log start le)
    ]
  ]

  -- In every window of time, at most `limit` calls of the bucket are let through.
  pub passed-within :
      (calls : List Call) (start : ℕ)
      → all is_uniform calls ≡ true
      → IsTimed 0 calls
      → within window start (passed (trace name calls [])) ≤ limit
  passed-within calls start u w =
      subst (λ xs. within window start (passed xs) ≤ limit) (sym (trace-specified_trace calls u w))
        (within_specified calls [] start (λ s. omega arith))
