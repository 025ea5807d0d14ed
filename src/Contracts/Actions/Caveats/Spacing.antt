-- ===== src/Contracts/Actions/Caveats/Spacing.antt =====
-- White space in a caveat: what `strip` and the collapse of backend/app/contracts/actions.py leave.
use Prim.Native.Char.{code}
use autonomous_agent_runtime.Contracts.Actions.{is_space, lstrip, rstrip, strip, is_blank, collapse}
use autonomous_agent_runtime.Prelude.{
  ℕ, String, ◌≡◌, refl, sym, ap, ◌∙◌, inl, inr, Bool, true, false, ◌&&◌, not, List, [], ◌∷◌, ◌++◌,
  append-nil, arith, if◌then◌else◌, Bool-cases, codes,
}

abbrev pub starts_in_text : List ℕ → Bool
starts_in_text [] = true
starts_in_text (c ∷ cs) = not (is_space c)

abbrev pub ends_in_text : List ℕ → Bool
ends_in_text [] = true
ends_in_text (c ∷ []) = not (is_space c)
ends_in_text (c ∷ d ∷ cs) = ends_in_text (d ∷ cs)

lstrip-starts : (s : String) → starts_in_text (codes (lstrip s)) ≡ true
unfolding lstrip
lstrip-starts String.[] = refl
lstrip-starts (String.◌∷◌ c s) = elim (Bool-cases (is_space (code c))) [
  | inl t ↦ rw t (lstrip-starts s)
  | inr f ↦ rw f (rw f refl)
]

rstrip-starts :
    (s : String) → starts_in_text (codes s) ≡ true → starts_in_text (codes (rstrip s)) ≡ true
unfolding rstrip
rstrip-starts String.[] h = refl
rstrip-starts (String.◌∷◌ c s) h = elim (Bool-cases (is_space (code c) && is_blank (rstrip s))) [
  | inl t ↦ rw t refl
  | inr f ↦ rw f h
]

ends-cons :
    (c : ℕ) (s : String)
    → (is_space c && is_blank s) ≡ false
    → ends_in_text (codes s) ≡ true
    → ends_in_text (c ∷ codes s) ≡ true
ends-cons c String.[] f h = ground (arith, f)
ends-cons c (String.◌∷◌ d s) f h = h

rstrip-ends : (s : String) → ends_in_text (codes (rstrip s)) ≡ true
unfolding rstrip
rstrip-ends String.[] = refl
rstrip-ends (String.◌∷◌ c s) = elim (Bool-cases (is_space (code c) && is_blank (rstrip s))) [
  | inl t ↦ rw t refl
  | inr f ↦ rw f (ends-cons (code c) (rstrip s) f (rstrip-ends s))
]

-- A stripped text neither starts nor ends with white space.
pub strip-trimmed :
    (s : String)
    → (starts_in_text (codes (strip s)) ≡ true) × (ends_in_text (codes (strip s)) ≡ true)
unfolding strip
strip-trimmed s = (rstrip-starts (lstrip s) (lstrip-starts s), rstrip-ends (lstrip s))

abbrev cons_word : List ℕ → List (List ℕ) → List (List ℕ)
cons_word [] ws = ws
cons_word (c ∷ cs) ws = (c ∷ cs) ∷ ws

-- The word that a text starts with, which may be empty, and the words after it.
abbrev pub split : List ℕ → List ℕ × List (List ℕ)
split [] = ([], [])
split (c ∷ cs) =
    let rest = split cs in
    if is_space c then ([], cons_word rest.0 rest.1) else (c ∷ rest.0, rest.1)

-- The words between white space.
abbrev pub words : List ℕ → List (List ℕ)
words cs = cons_word (split cs).0 (split cs).1

-- `" ".join(words)`
abbrev pub spaced : List (List ℕ) → List ℕ
spaced [] = []
spaced (w ∷ []) = w
spaced (w ∷ v ∷ ws) = w ++ 32 ∷ spaced (v ∷ ws)

abbrev lead : List (List ℕ) → List ℕ
lead [] = []
lead (w ∷ ws) = 32 ∷ spaced (w ∷ ws)

spaced-cons : (w : List ℕ) (ws : List (List ℕ)) → spaced (w ∷ ws) ≡ w ++ lead ws
spaced-cons w [] = sym (append-nil w)
spaced-cons w (v ∷ ws) = refl

-- A text that does not end with white space has words.
lead-words :
    (c : ℕ) (cs : List ℕ)
    → ends_in_text (c ∷ cs) ≡ true
    → lead (words (c ∷ cs)) ≡ 32 ∷ spaced (words (c ∷ cs))
lead-words c [] h = elim (Bool-cases (is_space c)) [
  | inl t ↦ ground (arith, t, h)
  | inr f ↦ rw f refl
]
lead-words c (d ∷ cs) h = elim (Bool-cases (is_space c)) [
  | inl t ↦ rw t (lead-words d cs h)
  | inr f ↦ rw f refl
]

-- The words after a white space.
later-words :
    (c : ℕ) (cs : List ℕ)
    → is_space c ≡ true
    → ends_in_text (c ∷ cs) ≡ true
    → lead (words cs) ≡ 32 ∷ spaced (words cs)
later-words c [] t h = ground (arith, t, h)
later-words c (d ∷ cs) t h = lead-words d cs h

tail-ends : (c : ℕ) (cs : List ℕ) → ends_in_text (c ∷ cs) ≡ true → ends_in_text cs ≡ true
tail-ends c [] h = refl
tail-ends c (d ∷ cs) h = h

-- Inside white space, the collapse joins the words; before it, it keeps the word that is open.
collapse-words :
    (cs : List ℕ)
    → ends_in_text cs ≡ true
    → (collapse true cs ≡ spaced (words cs))
      × (collapse false cs ≡ (split cs).0 ++ lead (split cs).1)
unfolding collapse
collapse-words [] h = (refl, refl)
collapse-words (c ∷ cs) h =
    let ih = collapse-words cs (tail-ends c cs h) in
    elim (Bool-cases (is_space c)) [
      | inl t ↦ (rw t ih.0, rw t (ap (λ r. 32 ∷ r) ih.0 ∙ sym (later-words c cs t h)))
      | inr f ↦ (
        rw f (ap (λ r. c ∷ r) ih.1 ∙ sym (spaced-cons (c ∷ (split cs).0) (split cs).1)),
        rw f (ap (λ r. c ∷ r) ih.1),
      )
    ]

open_word :
    (cs : List ℕ) → starts_in_text cs ≡ true → (split cs).0 ++ lead (split cs).1 ≡ spaced (words cs)
open_word [] h = refl
open_word (c ∷ cs) h = elim (Bool-cases (is_space c)) [
  | inl t ↦ ground (arith, t, h)
  | inr f ↦ rw f (sym (spaced-cons (c ∷ (split cs).0) (split cs).1))
]

-- The collapse of a stripped text is its words with one space between them.
pub collapse-trimmed :
    (cs : List ℕ)
    → starts_in_text cs ≡ true
    → ends_in_text cs ≡ true
    → collapse false cs ≡ spaced (words cs)
collapse-trimmed cs s e = (collapse-words cs e).1 ∙ open_word cs s
