-- ===== src/Prelude/Dict.antt =====
-- A dictionary whose values carry their key, as a list in the order of insertion.
use Prim.Native.Nat.{ℕ, ◌+◌, ◌≤◌}
use Prim.Native.String.{String}
use mathlib.Core.Path.{◌≡◌, refl, sym, subst, ◌∙◌}
use mathlib.Core.Logic.{inl, inr, ◌≢◌}
use mathlib.Core.Bool.{Bool, true, false, false≢true}
use mathlib.Core.Option.{Option, none, some}
use mathlib.Core.List.{List, [], ◌∷◌}
use native.Mathlib.Omega.{arith}
use autonomous_agent_runtime.Prelude.Tests.{if◌then◌else◌, Bool-cases}
use autonomous_agent_runtime.Prelude.Enums.{◌==◌, ==-refl, ==-ne, string_instance}
use autonomous_agent_runtime.Prelude.Lists.{find, any}

abbrev pub bit : Bool → ℕ
bit true = 1
bit false = 0

abbrev pub is_some {ℓ} : {A : Type ℓ} → Option A → Bool
is_some none = false
is_some (some a) = true

module _ {ℓ} {A : Type ℓ} where
  -- `sum(1 for item in items if p(item))`
  abbrev pub count : (A → Bool) → List A → ℕ
  count p [] = 0
  count p (x ∷ xs) = bit (p x) + count p xs

  pub find-count : (p : A → Bool) (xs : List A) (x : A) → find p xs ≡ some x → 1 ≤ count p xs
  find-count p [] x h = grind arith
  find-count p (y ∷ ys) x h = ground (arith, find-count p ys x)

  pub find-holds : (p : A → Bool) (xs : List A) (x : A) → find p xs ≡ some x → p x ≡ true
  find-holds p [] x h = grind arith
  find-holds p (y ∷ ys) x h = elim (Bool-cases (p y)) [
    | inl t ↦ grind arith
    | inr f ↦ find-holds p ys x (grind arith)
  ]

  pub any-count : (p : A → Bool) (xs : List A) → any p xs ≡ false → count p xs ≡ 0
  any-count p [] h = refl
  any-count p (x ∷ xs) h = ground (arith, any-count p xs)

module _ {ℓ} {A : Type ℓ} (key : A → String) where
  -- `items.get(k)`
  abbrev pub lookup : String → List A → Option A
  lookup k [] = none
  lookup k (x ∷ xs) = if key x == k then some x else lookup k xs

  -- `items[key(x)] = x`
  abbrev pub put : A → List A → List A
  put new [] = new ∷ []
  put new (x ∷ xs) = let rest = put new xs in if key x == key new then new ∷ xs else x ∷ rest

  abbrev pub Distinct : List A → Type ℓ
  Distinct [] = Unit
  Distinct (x ∷ xs) = (lookup (key x) xs ≡ none) × Distinct xs

  pub key-lookup : (k : String) (xs : List A) (x : A) → lookup k xs ≡ some x → key x ≡ k
  key-lookup k [] x h = grind arith
  key-lookup k (y ∷ ys) x h = elim (Bool-cases (key y == k)) [
    | inl t ↦ grind (arith, (string_instance.beq_iff (key y) k).0 t)
    | inr f ↦ key-lookup k ys x (grind arith)
  ]

  pub lookup-put : (new : A) (xs : List A) → lookup (key new) (put new xs) ≡ some new
  lookup-put new [] = rw (==-refl (key new))
  lookup-put new (x ∷ xs) = elim (Bool-cases (key x == key new)) [
    | inl t ↦ rw (t, ==-refl (key new))
    | inr f ↦ rw (f, f, lookup-put new xs)
  ]

  pub lookup-put-other :
      (new : A) (k : String) (xs : List A)
      → (key new == k) ≡ false
      → lookup k (put new xs) ≡ lookup k xs
  lookup-put-other new k [] h = rw h
  lookup-put-other new k (x ∷ xs) h = elim (Bool-cases (key x == key new)) [
    | inl t ↦ rw (t, h, (string_instance.beq_iff (key x) (key new)).0 t, h)
    | inr f ↦ rw (f, lookup-put-other new k xs h)
  ]

  other : (a b : String) → (a == b) ≡ false → (b == a) ≡ false
  other a b f = ==-ne b a (λ e. false≢true (sym f ∙ (string_instance.beq_iff a b).1 (sym e)))

  here : (x : A) (k : String) (xs : List A) → (key x == k) ≡ true → lookup k (x ∷ xs) ≡ some x
  here x k xs t = rw t

  there :
      (x : A) (k : String) (xs : List A) → (key x == k) ≡ false → lookup k (x ∷ xs) ≡ lookup k xs
  there x k xs f = rw f

  pub put-Distinct : (new : A) (xs : List A) → Distinct xs → Distinct (put new xs)
  put-Distinct new [] d = (refl, tt)
  put-Distinct new (x ∷ xs) d = elim (Bool-cases (key x == key new)) [
    | inl t ↦
        rw t (
          subst (λ k. lookup k xs ≡ none) ((string_instance.beq_iff (key x) (key new)).0 t) d.0,
          d.1,
        )
    | inr f ↦
        rw f (
          lookup-put-other new (key x) xs (other (key x) (key new) f) ∙ d.0,
          put-Distinct new xs d.1,
        )
  ]

  pub find-lookup :
      (p : A → Bool) (xs : List A) (x : A)
      → Distinct xs
      → find p xs ≡ some x
      → lookup (key x) xs ≡ some x
  find-lookup p [] x d h = grind arith
  find-lookup p (y ∷ ys) x d h = elim (Bool-cases (p y)) [
    | inl t ↦ grind (arith, ==-refl (key x))
    | inr f ↦
        let ih = find-lookup p ys x d.1 (grind arith) in
        elim (Bool-cases (key y == key x)) [
          | inl t ↦ grind (arith, (string_instance.beq_iff (key y) (key x)).0 t)
          | inr g ↦ there y (key x) ys g ∙ ih
        ]
  ]

  pub count-put :
      (p : A → Bool) (new old : A) (xs : List A)
      → lookup (key new) xs ≡ some old
      → count p (put new xs) + bit (p old) ≡ count p xs + bit (p new)
  count-put p new old [] h = grind arith
  count-put p new old (x ∷ xs) h = elim (Bool-cases (key x == key new)) [
    | inl t ↦ ground (arith, here x (key new) xs t)
    | inr f ↦ rw f (omega (arith, count-put p new old xs (sym (there x (key new) xs f) ∙ h)))
  ]

  pub count-put-new :
      (p : A → Bool) (new : A) (xs : List A)
      → lookup (key new) xs ≡ none
      → count p (put new xs) ≡ count p xs + bit (p new)
  count-put-new p new [] h = omega arith
  count-put-new p new (x ∷ xs) h = elim (Bool-cases (key x == key new)) [
    | inl t ↦ grind arith
    | inr f ↦ rw f (omega (arith, count-put-new p new xs (sym (there x (key new) xs f) ∙ h)))
  ]

  pub lookup-count :
      (p : A → Bool) (k : String) (xs : List A) (x : A)
      → lookup k xs ≡ some x
      → p x ≡ true
      → 1 ≤ count p xs
  lookup-count p k [] x h px = grind arith
  lookup-count p k (y ∷ ys) x h px = elim (Bool-cases (key y == k)) [
    | inl t ↦ ground (arith, here y k ys t)
    | inr f ↦ ground (arith, lookup-count p k ys x (sym (there y k ys f) ∙ h) px)
  ]

  -- Two entries under different keys count twice.
  pub lookup-count-two :
      (p : A → Bool) (k l : String) (xs : List A) (x y : A)
      → lookup k xs ≡ some x
      → lookup l xs ≡ some y
      → p x ≡ true
      → p y ≡ true
      → k ≢ l
      → 2 ≤ count p xs
  lookup-count-two p k l [] x y hx hy px py ne = grind arith
  lookup-count-two p k l (z ∷ zs) x y hx hy px py ne = elim (Bool-cases (key z == k)) [
    | inl t ↦ elim (Bool-cases (key z == l)) [
      | inl u ↦ absurd (
          ne (
            sym ((string_instance.beq_iff (key z) k).0 t)
            ∙ (string_instance.beq_iff (key z) l).0 u))
      | inr g ↦ ground (arith, here z k zs t, lookup-count p l zs y (sym (there z l zs g) ∙ hy) py)
    ]
    | inr f ↦ elim (Bool-cases (key z == l)) [
      | inl u ↦ ground (arith, here z l zs u, lookup-count p k zs x (sym (there z k zs f) ∙ hx) px)
      | inr g ↦ ground (
        arith,
        lookup-count-two p k l zs x y (sym (there z k zs f) ∙ hx) (sym (there z l zs g) ∙ hy) px py
            ne,
      )
    ]
  ]

  -- The first entry that a test finds, written anew, is the first that it finds if it passes.
  pub find-put :
      (p : A → Bool) (new old : A) (xs : List A)
      → Distinct xs
      → find p xs ≡ some old
      → key new ≡ key old
      → p new ≡ true
      → find p (put new xs) ≡ some new
  find-put p new old [] d h e pn = grind arith
  find-put p new old (x ∷ xs) d h e pn = elim (Bool-cases (p x)) [
    | inl t ↦
        let same : (key x ≡ key old) = grind arith in
        rw ((string_instance.beq_iff (key x) (key new)).1 (same ∙ sym e), pn)
    | inr f ↦
        let h' : (find p xs ≡ some old) = grind arith in
        elim (Bool-cases (key x == key new)) [
          | inl u ↦
              grind (
                arith,
                find-lookup p xs old d.1 h',
                (string_instance.beq_iff (key x) (key new)).0 u,
              )
          | inr g ↦ rw (g, f, find-put p new old xs d.1 h' e pn)
        ]
  ]
