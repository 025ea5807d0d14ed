-- ===== src/Tenancy/Rows.antt =====
-- What the changes of one row of the membership store of backend/app/tenancy/store.py keep.
use autonomous_agent_runtime.Tenancy.Contracts.{Membership, role_eq, is_active_status}
use autonomous_agent_runtime.Tenancy.Store.Memberships.{
  membership_key, is_of, is_active_owner, count_active_owners, create,
}
use autonomous_agent_runtime.Prelude.{
  ℕ, ◌+◌, ◌≤◌, String, ◌≡◌, refl, ap, subst, ◌⊎◌, inl, inr, Bool, true, false, ◌&&◌, not, none,
  some, List, [], ◌∷◌, arith, Bool-cases, any, string_instance, bit, count, any-count, lookup, put,
  Distinct, put-Distinct, count-put, count-put-new,
}

-- A membership of a user in a workspace that gives access, and one that does not.
abbrev pub is_active_of : String → String → Membership → Bool
is_active_of w u m = is_of w u m && is_active_status m.status

abbrev pub is_disabled_of : String → String → Membership → Bool
is_disabled_of w u m = is_of w u m && not (is_active_status m.status)

pub count-split :
    (w u : String) (ms : List Membership)
    → count (is_active_of w u) ms + count (is_disabled_of w u) ms ≡ count (is_of w u) ms
count-split w u [] = refl
count-split w u (m ∷ ms) = ground (arith, count-split w u ms)

-- The user has a membership in the workspace, and none that is active.
abbrev pub IsBarred : String → String → List Membership → Type 0
IsBarred w u ms = (1 ≤ count (is_of w u) ms) × (count (is_active_of w u) ms ≡ 0)

-- What passes from one membership store to the next.
pub record Keeps (before after : List Membership) : Type 0 where
  pub distinct : Distinct membership_key before → Distinct membership_key after
  pub single : (w u : String) → count (is_of w u) before ≤ 1 → count (is_of w u) after ≤ 1
  pub owned : (w : String) → 1 ≤ count_active_owners w before → 1 ≤ count_active_owners w after
  pub barred : (w u : String) → IsBarred w u before → IsBarred w u after

pub Keeps-refl : (ms : List Membership) → Keeps ms ms
Keeps-refl ms = record {
  distinct = λ d. d;
  single = λ w u h. h;
  owned = λ w h. h;
  barred = λ w u b. b;
}

same_user :
    (w u : String) (a b : Membership)
    → a.workspace_id ≡ b.workspace_id
    → a.user_id ≡ b.user_id
    → is_of w u a ≡ is_of w u b
same_user w u a b ew eu = rw (ew, eu)

bit_le : (b : Bool) → bit b ≤ 1
bit_le b = ground arith

pub of_user :
    (w u : String) (m : Membership) → is_of w u m ≡ true → (m.workspace_id ≡ w) × (m.user_id ≡ u)
of_user w u m h =
    ground (arith, string_instance.beq_iff m.workspace_id w, string_instance.beq_iff m.user_id u)

-- A new row of a user who has none.
single_new :
    (w u : String) (new : Membership) (ms : List Membership)
    → lookup membership_key new.id ms ≡ none
    → any (is_of new.workspace_id new.user_id) ms ≡ false
    → count (is_of w u) ms ≤ 1
    → count (is_of w u) (put membership_key new ms) ≤ 1
single_new w u new ms fresh f le = elim (Bool-cases (is_of w u new)) [
  | inl t ↦ omega (
    arith,
    count-put-new membership_key (is_of w u) new ms fresh,
    bit_le (is_of w u new),
    any-count (is_of w u) ms (
        subst (λ v. any (is_of v u) ms ≡ false) (of_user w u new t).0
          (subst (λ v. any (is_of new.workspace_id v) ms ≡ false) (of_user w u new t).1 f)),
  )
  | inr g ↦ omega (arith, le, count-put-new membership_key (is_of w u) new ms fresh, ap bit g)
]

active_le :
    (w u : String) (new old : Membership)
    → is_of w u new ≡ is_of w u old
    → (is_active_status new.status ≡ true → is_active_status old.status ≡ true)
    → bit (is_active_of w u new) ≤ bit (is_active_of w u old)
active_le w u new old e stays = elim (Bool-cases (is_active_status new.status)) [
  | inl t ↦ ground (arith, e, t, stays t)
  | inr f ↦ ground (arith, f)
]

-- A new row of a user who has none bars nobody and lets nobody in who is barred.
IsBarred-new :
    (w u : String) (new : Membership) (ms : List Membership)
    → lookup membership_key new.id ms ≡ none
    → any (is_of new.workspace_id new.user_id) ms ≡ false
    → IsBarred w u ms
    → IsBarred w u (put membership_key new ms)
IsBarred-new w u new ms fresh f b = elim (Bool-cases (is_of w u new)) [
  | inl t ↦ absurd (
      omega (
        arith,
        b.0,
        any-count (is_of w u) ms (
            subst (λ v. any (is_of v u) ms ≡ false) (of_user w u new t).0
              (subst (λ v. any (is_of new.workspace_id v) ms ≡ false) (of_user w u new t).1 f)),
      ))
  | inr g ↦
      let out : (is_active_of w u new ≡ false) = ground (arith, g) in
      (
        omega (arith, b.0, count-put-new membership_key (is_of w u) new ms fresh, ap bit g),
        omega
            (arith, b.1, count-put-new membership_key (is_active_of w u) new ms fresh, ap bit out),
      )
]

pub Keeps-put :
    (new old : Membership) (ms : List Membership)
    → lookup membership_key new.id ms ≡ some old
    → new.workspace_id ≡ old.workspace_id
    → new.user_id ≡ old.user_id
    → (is_active_status new.status ≡ true → is_active_status old.status ≡ true)
    → ((w : String)
        → is_active_owner w old ≡ true
        → (is_active_owner w new ≡ true) ⊎ (2 ≤ count_active_owners w ms))
    → Keeps ms (put membership_key new ms)
Keeps-put new old ms h ew eu stays keep = record {
  barred = λ w u b. (
    omega (
      arith,
      b.0,
      count-put membership_key (is_of w u) new old ms h,
      ap bit (same_user w u new old ew eu),
    ),
    omega (
      arith,
      b.1,
      count-put membership_key (is_active_of w u) new old ms h,
      active_le w u new old (same_user w u new old ew eu) stays,
    ),
  );
  distinct = put-Distinct membership_key new ms;
  single = λ w u le. omega (
    arith,
    le,
    count-put membership_key (is_of w u) new old ms h,
    ap bit (same_user w u new old ew eu),
  );
  owned = λ w le. elim (Bool-cases (is_active_owner w old)) [
    | inl t ↦ elim (keep w t) [
      | inl u ↦
          omega (
            arith,
            le,
            count-put membership_key (is_active_owner w) new old ms h,
            ap bit t,
            ap bit u,
          )
      | inr two ↦ omega (
        arith,
        two,
        count-put membership_key (is_active_owner w) new old ms h,
        bit_le (is_active_owner w old),
      )
    ]
    | inr f ↦ omega (arith, le, count-put membership_key (is_active_owner w) new old ms h, ap bit f)
  ];
}

pub Keeps-create :
    (now : ℕ) (given : Membership) (ms : List Membership)
    → lookup membership_key given.id ms ≡ none
    → Keeps ms (create now given ms).1
unfolding create
Keeps-create now given ms fresh =
    elim (Bool-cases (any (is_of given.workspace_id given.user_id) ms)) [
      | inl t ↦ rw t (Keeps-refl ms)
      | inr f ↦ rw f (record {
        distinct =
            put-Distinct membership_key (record given { created_at = now; updated_at = now }) ms;
        single =
            λ w u. single_new w u (record given { created_at = now; updated_at = now }) ms fresh f;
        barred = λ w u.
            IsBarred-new w u (record given { created_at = now; updated_at = now }) ms fresh f;
        owned = λ w le. omega (
          arith,
          le,
          count-put-new membership_key (is_active_owner w)
              (record given { created_at = now; updated_at = now }) ms fresh,
        );
      })
    ]
