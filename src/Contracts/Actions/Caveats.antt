-- ===== src/Contracts/Actions/Caveats.antt =====
-- The bounds on a finished answer's caveats: normalize_caveats of backend/app/contracts/actions.py.
pub mod Spacing
use mathlib.Core.Bool.{false≢true}
use autonomous_agent_runtime.Contracts.Actions.{
  accept_caveats, normalize_caveats, fingerprint, strip, is_blank, max_caveats, max_caveat_length,
  codes_eq,
}
use autonomous_agent_runtime.Contracts.Actions.Caveats.Spacing.{
  starts_in_text, ends_in_text, words, spaced, strip-trimmed, collapse-trimmed,
}
use autonomous_agent_runtime.Prelude.{
  ℕ, zero, suc, ◌≤◌, String, ◌≡◌, refl, sym, ap, ◌∙◌, subst, ◌≢◌, inl, inr, Bool, true, false, ◌&&◌,
  not, Option, none, some, List, [], ◌∷◌, arith, ltb, leb, Bool-cases, length, any, all, All, codes,
}

-- The caveat is not empty, starts and ends with what is no white space, and is short enough.
abbrev pub fits : String → Bool
fits caveat =
    not (is_blank caveat)
    && starts_in_text (codes caveat)
    && ends_in_text (codes caveat)
    && leb (length (codes caveat)) max_caveat_length

module _ (casefold : List ℕ → List ℕ) where
  -- The words of a caveat with one space between them and without their case.
  abbrev pub plain : String → List ℕ
  plain caveat = casefold (spaced (words (codes caveat)))

  -- No two caveats differ in case or spacing only.
  abbrev pub AreDistinct : List String → Type 0
  AreDistinct [] = Unit
  AreDistinct (c ∷ cs) = All (λ d. plain d ≢ plain c) cs × AreDistinct cs

  fingerprint-plain : (s : String) → fingerprint casefold (strip s) ≡ plain (strip s)
  unfolding fingerprint
  fingerprint-plain s =
      let trimmed = strip-trimmed s in
      ap casefold (collapse-trimmed (codes (strip s)) trimmed.0 trimmed.1)

  -- No caveat is alike one in `seen` or an earlier one.
  abbrev are_new : List (List ℕ) → List String → Bool
  are_new seen [] = true
  are_new seen (c ∷ cs) = not (any (codes_eq (plain c)) seen) && are_new (plain c ∷ seen) cs

  codes_eq_refl : (a : List ℕ) → codes_eq a a ≡ true
  codes_eq_refl [] = refl
  codes_eq_refl (x ∷ xs) = ground (arith, codes_eq_refl xs)

  are_new-apart :
      (m : List ℕ) (seen : List (List ℕ)) (cs : List String)
      → any (codes_eq m) seen ≡ true
      → are_new seen cs ≡ true
      → All (λ d. plain d ≢ m) cs
  are_new-apart m seen [] h n = tt
  are_new-apart m seen (c ∷ cs) h n = (
    λ e. false≢true (
        sym (let b : (any (codes_eq (plain c)) seen ≡ false) = ground (arith, n) in b)
        ∙ subst (λ x. any (codes_eq x) seen ≡ true) (sym e) h),
    are_new-apart m (plain c ∷ seen) cs (ground (arith, h)) (ground (arith, n)),
  )

  are_new-AreDistinct :
      (seen : List (List ℕ)) (cs : List String) → are_new seen cs ≡ true → AreDistinct cs
  are_new-AreDistinct seen [] n = tt
  are_new-AreDistinct seen (c ∷ cs) n = (
    are_new-apart (plain c) (plain c ∷ seen) cs (ground (arith, codes_eq_refl (plain c)))
        (ground (arith, n)),
    are_new-AreDistinct (plain c ∷ seen) cs (ground (arith, n)),
  )

  accept_caveats-bounds :
      (room : ℕ) (seen : List (List ℕ)) (values : List (Option String))
      → (length (accept_caveats casefold room seen values) ≤ room)
        × (all fits (accept_caveats casefold room seen values) ≡ true)
        × (are_new seen (accept_caveats casefold room seen values) ≡ true)
  unfolding accept_caveats
  accept_caveats-bounds zero seen values = (omega arith, refl, refl)
  accept_caveats-bounds (suc room) seen [] = (omega arith, refl, refl)
  accept_caveats-bounds (suc room) seen (none ∷ values) =
      accept_caveats-bounds (suc room) seen values
  accept_caveats-bounds (suc room) seen (some value ∷ values) =
      let caveat = strip value in
      let trimmed = strip-trimmed value in
      let same = fingerprint-plain value in
      let kept = accept_caveats-bounds room (plain caveat ∷ seen) values in
      elim (Bool-cases (is_blank caveat)) [
        | inl b ↦ rw (b, accept_caveats) (accept_caveats-bounds (suc room) seen values)
        | inr b ↦ elim (Bool-cases (ltb max_caveat_length (length (codes caveat)))) [
          | inl l ↦ rw (b, l, accept_caveats) (accept_caveats-bounds (suc room) seen values)
          | inr l ↦ elim (Bool-cases (any (codes_eq (plain caveat)) seen)) [
            | inl d ↦
                rw (b, l, same, d, accept_caveats) (accept_caveats-bounds (suc room) seen values)
            | inr d ↦
                rw (b, l, same, d, accept_caveats)
                  (
                    omega (arith, kept.0),
                    ground (arith, b, l, trimmed, kept.1),
                    ground (arith, d, kept.2),
                  )
          ]
        ]
      ]

  -- Whatever values the model writes, at most ten caveats are kept, none of them empty, longer than
  -- 500 characters, or with white space at an end, and no two have the same words up to case.
  pub normalize_caveats-bounds :
      (values : List (Option String))
      → (length (normalize_caveats casefold values) ≤ max_caveats)
        × (all fits (normalize_caveats casefold values) ≡ true)
        × AreDistinct (normalize_caveats casefold values)
  unfolding normalize_caveats
  normalize_caveats-bounds values =
      let b = accept_caveats-bounds max_caveats [] values in
      (b.0, b.1, are_new-AreDistinct [] _ b.2)
