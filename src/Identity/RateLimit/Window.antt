-- ===== src/Identity/RateLimit/Window.antt =====
-- The rate limiter of backend/app/identity/rate_limit.py against its specification: a log of all
-- the calls that were let through, of which those in the last window count.
use autonomous_agent_runtime.Identity.RateLimit.{
  Bucket, Verdict, allowed, expire, judge, check, bucket_name,
}
use autonomous_agent_runtime.Prelude.{
  ℕ, ◌+◌, ◌≤◌, String, ◌≡◌, refl, inl, inr, Bool, true, false, ◌&&◌, List, [], ◌∷◌, ◌++◌, arith,
  ltb, leb, if◌then◌else◌, Bool-cases, length, filter, All, All-append, bit, count,
}

-- A call of `check` on the bucket of an action and a key.
pub record Call : Type 0 where
  pub action : String
  pub key : String
  pub limit : ℕ
  pub window : ℕ
  pub now : ℕ

abbrev pub name_of : Call → String
name_of c = bucket_name c.action c.key

abbrev pub is_allowed : Verdict → Bool
is_allowed allowed = true
is_allowed _ = false

unfoldable pub step : Call → List Bucket → Verdict × List Bucket
step c store = check c.action c.key c.limit c.window c.now store

-- The hits of the log in the window that ends at `now`.
abbrev pub recent : ℕ → ℕ → List ℕ → List ℕ
recent window now = filter (λ t. leb now (t + window))

-- The times of the log in the window that begins at `start`.
abbrev pub within : ℕ → ℕ → List ℕ → ℕ
within window start = count (λ t. leb start t && leb t (start + window))

-- The log is in order of time and ends before `now`.
abbrev pub IsOrdered : List ℕ → ℕ → Type 0
IsOrdered [] now = Unit
IsOrdered (t ∷ ts) now = All (λ u. t ≤ u) ts × (t ≤ now) × IsOrdered ts now

module _ (window : ℕ) where
  recent-All :
      (t now : ℕ) (ts : List ℕ) → All (λ u. t ≤ u) ts → now ≤ t + window → recent window now ts ≡ ts
  recent-All t now [] a le = refl
  recent-All t now (u ∷ us) (h, a) le = ground (arith, recent-All t now us a le)

  -- What the loop leaves of the hits that an earlier call has kept.
  pub expire-recent :
      (last now : ℕ) (log : List ℕ)
      → IsOrdered log last
      → last ≤ now
      → expire window now (recent window last log) ≡ recent window now log
  unfolding expire
  expire-recent last now [] o le = refl
  expire-recent last now (t ∷ ts) (a, _, o) le =
      ground (arith, expire-recent last now ts o le, recent-All t last ts a, recent-All t now ts a)

  -- Whatever the log has in a window that now is in counts as recent.
  within-recent :
      (start now : ℕ) (log : List ℕ)
      → now ≤ start + window
      → within window start log ≤ length (recent window now log)
  within-recent start now [] le = omega arith
  within-recent start now (t ∷ ts) le = ground (arith, within-recent start now ts le)

  recent-append :
      (now : ℕ) (log : List ℕ)
      → recent window now (log ++ (now ∷ [])) ≡ recent window now log ++ (now ∷ [])
  recent-append now [] = ground arith
  recent-append now (t ∷ ts) = ground (arith, recent-append now ts)

  within-append :
      (start now : ℕ) (log : List ℕ)
      → within window start (log ++ (now ∷ []))
        ≡ within window start log + bit (leb start now && leb now (start + window))
  within-append start now [] = omega arith
  within-append start now (t ∷ ts) = omega (arith, within-append start now ts)

IsOrdered-append :
    (log : List ℕ) (last now : ℕ)
    → IsOrdered log last
    → last ≤ now
    → IsOrdered (log ++ (now ∷ [])) now
IsOrdered-append [] last now o le = (tt, omega arith, tt)
IsOrdered-append (t ∷ ts) last now (a, b, o) le = (
  All-append (λ u. t ≤ u) ts (now ∷ []) a (omega arith, tt),
  omega arith,
  IsOrdered-append ts last now o le,
)

IsOrdered-later :
    (log : List ℕ) (last now : ℕ) → IsOrdered log last → last ≤ now → IsOrdered log now
IsOrdered-later [] last now o le = tt
IsOrdered-later (t ∷ ts) last now (a, b, o) le = (a, omega arith, IsOrdered-later ts last now o le)

module _ (limit window : ℕ) where
  -- The verdict and the log of the specification: a call is let through if fewer than `limit`
  -- calls were let through in the window that ends with it.
  unfoldable pub specified : ℕ → List ℕ → Bool × List ℕ
  specified now log =
      let room = ltb (length (recent window now log)) limit in
      (room, if room then log ++ (now ∷ []) else log)

  pub judge-hits :
      (now : ℕ) (hits : List ℕ)
      → (is_allowed (judge limit window now hits).0 ≡ ltb (length hits) limit)
        × ((judge limit window now hits).1
            ≡ (if ltb (length hits) limit then hits ++ (now ∷ []) else hits))
  unfolding judge
  judge-hits now [] = (ground arith, ground arith)
  judge-hits now (hit ∷ hits) = (ground arith, ground arith)

  pub recent-specified :
      (now : ℕ) (log : List ℕ)
      → recent window now (specified now log).1 ≡ (
          if ltb (length (recent window now log)) limit
          then recent window now log ++ (now ∷ [])
          else recent window now log)
  unfolding specified
  recent-specified now log = elim (Bool-cases (ltb (length (recent window now log)) limit)) [
    | inl t ↦ rw t (recent-append window now log)
    | inr f ↦ rw f
  ]

  pub specified-IsOrdered :
      (now last : ℕ) (log : List ℕ)
      → IsOrdered log last
      → last ≤ now
      → IsOrdered (specified now log).1 now
  unfolding specified
  specified-IsOrdered now last log o le =
      elim (Bool-cases (ltb (length (recent window now log)) limit)) [
        | inl t ↦ rw t (IsOrdered-append log last now o le)
        | inr f ↦ rw f (IsOrdered-later log last now o le)
      ]

  pub specified-within :
      (now start : ℕ) (log : List ℕ)
      → within window start log ≤ limit
      → within window start (specified now log).1 ≤ limit
  unfolding specified
  specified-within now start log le =
      elim (Bool-cases (ltb (length (recent window now log)) limit)) [
        | inl t ↦
            rw t (
              ground
                (arith, within-append window start now log, within-recent window start now log))
        | inr f ↦ rw f le
      ]
