-- ===== src/Rotation/Drawing.antt =====
-- The order in which a merry-go-round pays its members (`createCycle`, services/mgr.service.ts).
use mduara_api.Prelude.{
  ℕ, zero, suc, ◌+◌, ◌-◌, ◌≡◌, refl, sym, ap, ◌∙◌, ◌&&◌, Option, some, List, [], ◌∷◌, ◌++◌, map,
  length, find, any, ◌==◌, if◌then◌else◌, inl, inr, Option-cases, arith, count_where, ltb,
}
use mduara_api.Prelude.Outcome.{Outcome, ok, >>=-eq-ok, guard, refuse, require, ok-pair}
use mduara_api.Roles.{is_leadership}
use mduara_api.Rotation.Types.{
  Turn, Failure, bidding_not_configured, chama_not_active, create_forbidden, active_cycle_exists,
  members_insufficient, constitution_required,
}
use mduara_api.Rotation.Service.{
  at_index, set_index, swap_at, shuffle_from, shuffle, turns_from, active_members, create_cycle,
  CycleInput, World, Mode, manual, randomized, bidding, is_bidding, require_group,
  assert_write_access, require_active_membership, is_active_cycle, order_of,
}

-- How often an id stands in a list.
abbrev pub occurrences : ℕ → List ℕ → ℕ
occurrences a = count_where (λ x. x == a)

abbrev counts : ℕ → ℕ → ℕ
counts a x = if x == a then 1 else 0

occurrences-set_index :
    (a i new : ℕ) (xs : List ℕ) {old : ℕ}
    → at_index i xs ≡ some old
    → occurrences a (set_index i new xs) + counts a old ≡ occurrences a xs + counts a new
occurrences-set_index a i new [] h = cc
occurrences-set_index a zero new (x ∷ xs) {old} h =
    let same : x ≡ old = ground (arith, h) in rw (← same) (omega arith)
occurrences-set_index a (suc i) new (x ∷ xs) {old} h =
    let rest = occurrences-set_index a i new xs {old = old} h in omega (arith, rest)

at_index-set_index :
    (i j new : ℕ) (xs : List ℕ) {old : ℕ}
    → at_index j xs ≡ some old
    → (kept : ℕ) × (at_index j (set_index i new xs) ≡ some kept)
      × (kept ≡ (if i == j then new else old))
at_index-set_index i j new [] h = cc
at_index-set_index zero zero new (x ∷ xs) {old} h = (new, refl, refl)
at_index-set_index zero (suc j) new (x ∷ xs) {old} h = (old, h, ground arith)
at_index-set_index (suc i) zero new (x ∷ xs) {old} h = (old, h, ground arith)
at_index-set_index (suc i) (suc j) new (x ∷ xs) {old} h =
    let (kept, stored, same) = at_index-set_index i j new xs {old = old} h in
    (kept, stored, ground (arith, same))

occurrences-swap_at : (a i j : ℕ) (xs : List ℕ) → occurrences a (swap_at i j xs) ≡ occurrences a xs
unfolding swap_at
occurrences-swap_at a i j xs = elim (Option-cases (at_index i xs)) [
  | inl out ↦ rw out refl
  | inr (x, at_i) ↦ elim (Option-cases (at_index j xs)) [
    | inl out ↦ rw (at_i, out) refl
    | inr (y, at_j) ↦
        let (kept, stored, same) = at_index-set_index i j y xs at_j in
        let first = occurrences-set_index a i y xs at_i in
        let second = occurrences-set_index a j x (set_index i y xs) stored in
        let back : kept ≡ y = ground (arith, same) in
        rw (at_i, at_j) (omega (arith, first, second, ap (counts a) back))
  ]
]

ok-injective : {a b : List ℕ} → ◌≡◌ {A = Outcome Failure (List ℕ)} (ok a) (ok b) → a ≡ b
ok-injective h = cc

occurrences-shuffle_from :
    (a : ℕ) (draw : ℕ → ℕ) (i : ℕ) (xs : List ℕ)
    → occurrences a (shuffle_from draw i xs) ≡ occurrences a xs
unfolding shuffle_from
occurrences-shuffle_from a draw zero xs = refl
occurrences-shuffle_from a draw (suc i) xs =
    occurrences-shuffle_from a draw i (swap_at (suc i) (draw (suc i)) xs)
    ∙ occurrences-swap_at a (suc i) (draw (suc i)) xs

-- The positions `index + 1`, …, `index + n`.
abbrev pub positions : ℕ → ℕ → List ℕ
positions index zero = []
positions index (suc n) = (index + 1) ∷ positions (index + 1) n

members-turns_from :
    (a id cycle_id chama_id index : ℕ) (input : CycleInput) (order : List ℕ)
    → count_where (λ t. t.member_id == a) (turns_from id cycle_id chama_id input index order)
      ≡ occurrences a order
members-turns_from a id cycle_id chama_id index input [] = refl
members-turns_from a id cycle_id chama_id index input (m ∷ order) =
    omega (arith, members-turns_from a (id + 1) cycle_id chama_id (index + 1) input order)

positions-turns_from :
    (id cycle_id chama_id index : ℕ) (input : CycleInput) (order : List ℕ)
    → map (λ t. t.rotation_position) (turns_from id cycle_id chama_id input index order)
      ≡ positions index (length order)
positions-turns_from id cycle_id chama_id index input [] = refl
positions-turns_from id cycle_id chama_id index input (m ∷ order) =
    ap (λ ps. (index + 1) ∷ ps)
      (positions-turns_from (id + 1) cycle_id chama_id (index + 1) input order)

length-turns_from :
    (id cycle_id chama_id index : ℕ) (input : CycleInput) (order : List ℕ)
    → length (turns_from id cycle_id chama_id input index order) ≡ length order
length-turns_from id cycle_id chama_id index input [] = refl
length-turns_from id cycle_id chama_id index input (m ∷ order) =
    omega (arith, length-turns_from (id + 1) cycle_id chama_id (index + 1) input order)

-- The order that is drawn holds the same members, as often.
order_of-randomized :
    (mode : Mode) (requested : Option (List ℕ)) (draw : ℕ → ℕ) (members : List ℕ) {order : List ℕ}
    → mode ≡ randomized
    → order_of mode requested draw members ≡ ok order
    → (a : ℕ) → occurrences a order ≡ occurrences a members
unfolding order_of shuffle
order_of-randomized manual requested draw members drawn h a = cc
order_of-randomized randomized requested draw members drawn h a =
    let same : shuffle draw members ≡ _ = ok-injective h in
    ap (occurrences a) (sym same) ∙ occurrences-shuffle_from a draw (length members - 1) members
order_of-randomized bidding requested draw members drawn h a = cc

-- A cycle whose order is drawn gets, whatever is drawn, as many new turns for each member as the
-- chama has active memberships of that id (one), none for anybody else, and their positions run from
-- 1 on without a gap or a repetition.
pub create_cycle-queues :
    (user_id chama_id : ℕ) (input : CycleInput) (draw : ℕ → ℕ) (w : World) (id : ℕ) (w' : World)
    → input.mode ≡ randomized
    → create_cycle user_id chama_id input draw w ≡ ok (id, w')
    → (turns : List Turn) × (w'.rotation.turns ≡ w.rotation.turns ++ turns)
      × ((member_id : ℕ)
          → count_where (λ t. t.member_id == member_id) turns
            ≡ occurrences member_id (active_members chama_id w.rotation.members))
      × (map (λ t. t.rotation_position) turns ≡ positions 0 (length turns))
unfolding create_cycle
create_cycle-queues user_id chama_id input draw w id w' drawn h =
    let (u1, allowed, h1) = >>=-eq-ok (refuse (is_bidding input.mode) bidding_not_configured) _ h in
    let (group, located, h2) = >>=-eq-ok (require_group chama_id w) _ h1 in
    let (u3, access, h3) = >>=-eq-ok (assert_write_access chama_id w.rotation) _ h2 in
    let (u4, live, h4) = >>=-eq-ok (guard group.is_active chama_not_active) _ h3 in
    let (official, joined, h5) =
      >>=-eq-ok (require_active_membership chama_id user_id w.rotation) _ h4 in
    let (u6, leads, h6) = >>=-eq-ok (guard (is_leadership official.role) create_forbidden) _ h5 in
    let (u7, free, h7) =
      >>=-eq-ok
        (refuse (any (λ c. c.chama_id == chama_id && is_active_cycle c.status) w.rotation.cycles)
          active_cycle_exists)
        _ h6 in
    let members = active_members chama_id w.rotation.members in
    let (u8, enough, h8) = >>=-eq-ok (refuse (ltb (length members) 2) members_insufficient) _ h7 in
    let (order, ordered, h9) =
      >>=-eq-ok (order_of input.mode input.member_order draw members) _ h8 in
    let (constitution, in_force, h10) =
      >>=-eq-ok
        (require (find (λ c. c.chama_id == chama_id && c.is_active) w.constitutions)
          constitution_required)
        _ h9 in
    let (same_id, same_world) = ok-pair h10 in
    let cycle_id = w.rotation.next_id in
    let turns = turns_from (cycle_id + 1) cycle_id chama_id input 0 order in
    (
      turns,
      sym (ap (λ (x : World). x.rotation.turns) same_world),
      λ member_id.
          members-turns_from member_id (cycle_id + 1) cycle_id chama_id 0 input order
          ∙ order_of-randomized input.mode input.member_order draw members drawn ordered member_id,
      positions-turns_from (cycle_id + 1) cycle_id chama_id 0 input order
          ∙ ap (positions 0)
              (sym (length-turns_from (cycle_id + 1) cycle_id chama_id 0 input order)),
    )
