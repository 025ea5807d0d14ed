-- ===== src/Tenancy/Ownership/Transfer.antt =====
-- transfer_ownership of backend/app/tenancy/service.py, between two members and to oneself.
use autonomous_agent_runtime.Prelude.Json.{end, field, str}
use autonomous_agent_runtime.Tenancy.Contracts.{Membership, Role, role_eq, is_active_status}
use autonomous_agent_runtime.Tenancy.Store.Memberships.{
  membership_key, is_active_owner, get_for_user,
}
use autonomous_agent_runtime.Tenancy.Rows.{Keeps}
use autonomous_agent_runtime.Tenancy.Ownership.{
  IsKept, IsKept-refl, user_row, row_user, owner_holds, Keeps-role, update_role-row, audited-IsKept,
  audited, count_active_owners, owner_row,
}
use autonomous_agent_runtime.Tenancy.Service.State.{Tenancy, audited}
use autonomous_agent_runtime.Tenancy.Service.Owners.{hand_over, transfer_ownership}
use autonomous_agent_runtime.Prelude.{
  ℕ, String, ◌≡◌, refl, sym, ap, ◌∙◌, ◌≢◌, inl, inr, Bool, true, false, ◌||◌, not, Option, none,
  some, List, arith, Bool-cases, Option-cases, string_instance, ◌==◌, nat_instance, ==-ne, bit,
  lookup, put, Distinct, lookup-put, lookup-put-other, count-put, lookup-count-two,
}

Keeps-trans : (a b c : List Membership) → Keeps a b → Keeps b c → Keeps a c
Keeps-trans a b c k l = record {
  distinct = λ d. l.distinct (k.distinct d);
  single = λ w u h. l.single w u (k.single w u h);
  owned = λ w h. l.owned w (k.owned w h);
  barred = λ w u b. l.barred w u (k.barred w u b);
}

neither : (a b : Bool) → not a || not b ≡ false → (a ≡ true) × (b ≡ true)
neither a b h = ground arith

holds : (a : Bool) → not a ≡ false → a ≡ true
holds a h = ground arith

abbrev user_at : Option Membership → String
user_at none = ""
user_at (some m) = m.user_id

module _ (now : ℕ) (workspace_id from_user_id to_user_id : String) (s : Tenancy)
    (d : Distinct membership_key s.memberships) (ne : from_user_id ≢ to_user_id) where
  -- The keys of the rows of two users differ.
  rows_differ :
      (giver taker : Membership)
      → get_for_user workspace_id from_user_id s.memberships ≡ some giver
      → get_for_user workspace_id to_user_id s.memberships ≡ some taker
      → taker.id ≢ giver.id
  rows_differ giver taker hg ht e = ne (
      sym (row_user workspace_id from_user_id s.memberships giver hg).1
      ∙ ap user_at (
          sym (user_row workspace_id from_user_id s.memberships giver d hg)
          ∙ ap (λ k. lookup membership_key k s.memberships) (sym e)
          ∙ user_row workspace_id to_user_id s.memberships taker d ht)
      ∙ (row_user workspace_id to_user_id s.memberships taker ht).1)

  hand_over-IsKept :
      (giver taker : Membership)
      → get_for_user workspace_id from_user_id s.memberships ≡ some giver
      → get_for_user workspace_id to_user_id s.memberships ≡ some taker
      → is_active_status giver.status ≡ true
      → (giver.role == Role.owner) ≡ true
      → is_active_status taker.status ≡ true
      → IsKept s (hand_over now workspace_id from_user_id to_user_id giver taker s).1
  unfolding hand_over IsKept
  hand_over-IsKept giver taker hg ht ag rg at =
      let promoted : Membership = record taker { role = Role.owner; updated_at = now } in
      let ms = put membership_key promoted s.memberships in
      let row = user_row workspace_id to_user_id s.memberships taker d ht in
      let e = update_role-row now Role.owner taker s.memberships row in
      let there : (lookup membership_key giver.id ms ≡ some giver) =
        lookup-put-other membership_key promoted giver.id s.memberships
          (==-ne taker.id giver.id (rows_differ giver taker hg ht))
        ∙ user_row workspace_id from_user_id s.memberships giver d hg in
      let f = update_role-row now Role.admin giver ms there in
      let same = (row_user workspace_id from_user_id s.memberships giver hg).0 in
      let two =
        lookup-count-two membership_key (is_active_owner giver.workspace_id) giver.id taker.id ms
          giver promoted there (lookup-put membership_key promoted s.memberships)
          (owner_holds giver.workspace_id giver refl rg ag)
          (owner_holds giver.workspace_id promoted
            ((row_user workspace_id to_user_id s.memberships taker ht).0 ∙ sym same) refl at)
          (λ g. rows_differ giver taker hg ht (sym g)) in
      rw (hand_over, e, e, f)
        (audited-IsKept now from_user_id workspace_id "tenancy_ownership_transferred"
          (field "to_user_id" (str to_user_id) end) s
          (record s {
            memberships =
                put membership_key (record giver { role = Role.admin; updated_at = now }) ms;
          })
          (
            Keeps-trans s.memberships ms
                (put membership_key (record giver { role = Role.admin; updated_at = now }) ms)
                (Keeps-role now Role.owner taker s.memberships row (λ o. inl refl))
                (Keeps-role now Role.admin giver ms there (λ r. inr two)),
            refl,
          ))

  pub transfer_ownership-IsKept :
      (acting_role : Role)
      → IsKept s (transfer_ownership now workspace_id from_user_id to_user_id acting_role s).1
  unfolding transfer_ownership
  transfer_ownership-IsKept acting_role = elim (Bool-cases (acting_role == Role.owner)) [
    | inr f ↦ rw (transfer_ownership, f) (IsKept-refl s)
    | inl a ↦ elim (Option-cases (get_for_user workspace_id from_user_id s.memberships)) [
      | inl n ↦ rw (transfer_ownership, a, n) (IsKept-refl s)
      | inr (giver, hg) ↦
          elim (Bool-cases
            (not (giver.role == Role.owner) || not (is_active_status giver.status))) [
              | inl t ↦ rw (transfer_ownership, a, hg, t) (IsKept-refl s)
              | inr g ↦ elim (Option-cases (get_for_user workspace_id to_user_id s.memberships)) [
                | inl n ↦ rw (transfer_ownership, a, hg, g, n) (IsKept-refl s)
                | inr (taker, ht) ↦ elim (Bool-cases (not (is_active_status taker.status))) [
                  | inl t ↦ rw (transfer_ownership, a, hg, g, ht, t) (IsKept-refl s)
                  | inr at ↦
                      rw (transfer_ownership, a, hg, g, ht, at)
                        (hand_over-IsKept giver taker hg ht
                          (neither (giver.role == Role.owner) (is_active_status giver.status) g).1
                          (neither (giver.role == Role.owner) (is_active_status giver.status) g).0
                          (holds (is_active_status taker.status) at))
                ]
              ]
            ]
    ]
  ]

pub not_owner :
    (w : String) (m : Membership) → (m.role == Role.owner) ≡ false → is_active_owner w m ≡ false
unfolding is_active_owner
not_owner w m f = ground arith

-- An owner who transfers a workspace to themselves, being its only active owner, leaves it without
-- an active owner.
pub transfer_ownership_self :
    (now : ℕ) (w u : String) (s : Tenancy) (m : Membership)
    → Distinct membership_key s.memberships
    → get_for_user w u s.memberships ≡ some m
    → is_active_owner w m ≡ true
    → count_active_owners w s.memberships ≡ 1
    → count_active_owners w (transfer_ownership now w u u Role.owner s).1.memberships ≡ 0
unfolding transfer_ownership hand_over audited
transfer_ownership_self now w u s m d h o one =
    let promoted : Membership = record m { role = Role.owner; updated_at = now } in
    let demoted : Membership = record m { role = Role.admin; updated_at = now } in
    let ms = put membership_key promoted s.memberships in
    let row = user_row w u s.memberships m d h in
    let e = update_role-row now Role.owner m s.memberships row in
    let f =
      update_role-row now Role.admin promoted ms
        (lookup-put membership_key promoted s.memberships) in
    let (ew, r, a) = owner_row w m o in
    let p = is_active_owner w in
    rw (transfer_ownership, h, a, r, h, a, hand_over, e, e, f)
      (omega (
        arith,
        one,
        count-put membership_key p demoted promoted ms
            (lookup-put membership_key promoted s.memberships),
        count-put membership_key p promoted m s.memberships row,
        ap bit (owner_holds w promoted ew refl a),
        ap bit (not_owner w demoted refl),
        ap bit o,
      ))
