-- ===== src/Runtime/Actions/Citations.antt =====
-- The sources of an answer: resolve_citations of backend/app/observability/evidence.py.
use autonomous_agent_runtime.Runtime.Actions.{resolve_citations}
use autonomous_agent_runtime.Runtime.State.{AnswerSource}
use autonomous_agent_runtime.Prelude.{
  ℕ, ◌+◌, String, ◌≡◌, refl, sym, ap, ◌∙◌, subst, inl, inr, Bool, true, false, ◌&&◌, not, Option,
  none, some, List, [], ◌∷◌, arith, Bool-cases, Option-cases, contains, string_instance, ◌==◌,
  nat_instance, bit, count,
}

-- How often a text stands in a list.
abbrev pub occurrences : String → List String → ℕ
occurrences c = count (λ k. k == c)

-- The text stands in the second list and not in the first.
abbrev pub is_new : List String → List String → String → Bool
is_new seen citations c = contains citations c && not (contains seen c)

is_new-seen :
    (seen rest : List String) (d c : String)
    → contains seen d ≡ true
    → is_new seen (d ∷ rest) c ≡ is_new seen rest c
is_new-seen seen rest d c e = elim (Bool-cases (d == c)) [
  | inl t ↦
      let old : (contains seen c ≡ true) =
        subst (λ k. contains seen k ≡ true) ((string_instance.beq_iff d c).0 t) e in
      ground (arith, t, old)
  | inr f ↦ rw f refl
]

is_new-next :
    (seen rest : List String) (d c : String)
    → contains seen d ≡ false
    → bit (is_new seen (d ∷ rest) c) ≡ bit (d == c) + bit (is_new (d ∷ seen) rest c)
is_new-next seen rest d c e = elim (Bool-cases (d == c)) [
  | inl t ↦
      let fresh : (contains seen c ≡ false) =
        subst (λ k. contains seen k ≡ false) ((string_instance.beq_iff d c).0 t) e in
      ground (arith, t, fresh)
  | inr f ↦ rw f (omega arith)
]

module _ (ledger : String → Option AnswerSource) where
  -- Each source is what the ledger holds under the key beside it.
  abbrev pub AreHeld : List String → List AnswerSource → Type 0
  AreHeld [] [] = Unit
  AreHeld (key ∷ keys) (source ∷ sources) = (ledger key ≡ some source) × AreHeld keys sources
  AreHeld _ _ = ⊥

  abbrev pub AreAbsent : List String → Type 0
  AreAbsent [] = Unit
  AreAbsent (key ∷ keys) = (ledger key ≡ none) × AreAbsent keys

  -- The sources have keys, and each text is once among the keys and the unresolved references if it
  -- is a new citation, and not at all otherwise.
  abbrev pub IsResolution : List String → List String → List AnswerSource × List String → Type 0
  IsResolution seen citations result =
      (keys : List String) × AreHeld keys result.0
      × AreAbsent result.1
      × ((c : String) → occurrences c keys + occurrences c result.1 ≡ bit (is_new seen citations c))

  resolve_citations-resolves :
      (seen citations : List String)
      → IsResolution seen citations (resolve_citations ledger seen citations)
  unfolding resolve_citations
  resolve_citations-resolves seen [] = ([], tt, tt, λ c. refl)
  resolve_citations-resolves seen (d ∷ rest) = elim (Bool-cases (contains seen d)) [
    | inl e ↦
        let (keys, held, absent, once) = resolve_citations-resolves seen rest in
        rw (e, resolve_citations)
          (keys, held, absent, λ c. once c ∙ ap bit (sym (is_new-seen seen rest d c e)))
    | inr e ↦
        let (keys, held, absent, once) = resolve_citations-resolves (d ∷ seen) rest in
        elim (Option-cases (ledger d)) [
          | inl f ↦
              rw (e, f, resolve_citations)
                (keys, held, (f, absent), λ c. omega (arith, once c, is_new-next seen rest d c e))
          | inr (s, f) ↦
              rw (e, f, resolve_citations)
                (
                  d ∷ keys,
                  (f, held),
                  absent,
                  λ c. omega (arith, once c, is_new-next seen rest d c e),
                )
        ]
  ]

  -- The distinct citations of an answer contribute one entry each: there are keys under which the
  -- ledger holds the sources in their order, it holds nothing under the unresolved references, and
  -- each citation stands exactly once among the keys and the unresolved references, and no other
  -- text does.
  pub resolve_citations-IsResolution :
      (citations : List String) → IsResolution [] citations (resolve_citations ledger [] citations)
  resolve_citations-IsResolution citations = resolve_citations-resolves [] citations
