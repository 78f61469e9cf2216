-- ===== src/Rotation/Service/Drawing.antt =====
-- `createCycle` (services/mgr.service.ts): the order of the turns is given or drawn.
use mduara_api.Prelude.{
  ℕ, zero, suc, ◌+◌, ◌-◌, ◌*◌, Bool, true, false, ◌&&◌, Option, none, some, List, [], ◌∷◌, ◌++◌,
  find, any, all, length, ltb, ◌==◌, if◌then◌else◌,
}
use mduara_api.Prelude.Outcome.{Outcome, ok, ◌>>=◌, ◌>>◌, guard, refuse, require}
use mduara_api.Roles.{is_leadership}
use mduara_api.Rotation.Types.{
  Cycle, Turn, Member, Tables, Failure, active, scheduled, bidding_not_configured, chama_not_found,
  chama_type_required, chama_not_active, create_forbidden, active_cycle_exists,
  members_insufficient, manual_order_incomplete, manual_order_invalid, constitution_required,
}
use mduara_api.Rotation.Service.Swaps.{
  assert_write_access, require_active_membership, is_active_cycle,
}

pub data Mode : Type 0 where
  manual randomized bidding : Mode

-- `CreateMgrCycleInput`; a date is the number of its day.
pub record CycleInput : Type 0 where
  pub mode : Mode
  pub payout_amount : ℕ
  pub first_payout_date : ℕ
  pub interval_days : ℕ
  pub member_order : Option (List ℕ)

-- A row of chamas.
pub record ChamaRow : Type 0 where
  pub id : ℕ
  pub is_merry_go_round : Bool
  pub is_active : Bool

-- The columns of merry_go_round_cycles that `Cycle` leaves out.
pub record CycleDetails : Type 0 where
  pub cycle_id : ℕ
  pub chama_id : ℕ
  pub cycle_no : ℕ
  pub mode : Mode
  pub constitution_id : ℕ

-- A row of chama_rules.
pub record Constitution : Type 0 where
  pub id : ℕ
  pub chama_id : ℕ
  pub is_active : Bool

-- `rotation.members` is in the order of `joined_at, id`.
pub record World : Type 0 where
  pub rotation : Tables
  pub groups : List ChamaRow
  pub constitutions : List Constitution
  pub details : List CycleDetails

-- `requireMerryGoRoundChama`
abbrev pub require_group : ℕ → World → Outcome Failure ChamaRow
require_group chama_id w = do
  g ← require (find (λ g. g.id == chama_id) w.groups) chama_not_found
  guard g.is_merry_go_round chama_type_required
  ok g

abbrev pub active_members : ℕ → List Member → List ℕ
active_members chama_id [] = []
active_members chama_id (m ∷ others) =
    let rest = active_members chama_id others in
    if m.chama_id == chama_id && m.is_active then m.id ∷ rest else rest

abbrev pub is_bidding : Mode → Bool
is_bidding bidding = true
is_bidding _ = false

-- `assertExactMemberOrder`
abbrev pub assert_exact_member_order : List ℕ → List ℕ → Outcome Failure (Unit {0})
assert_exact_member_order members requested = do
  guard (length members == length requested) manual_order_incomplete
  guard (all (λ id. any (λ m. m == id) members) requested) manual_order_invalid

abbrev pub at_index : ℕ → List ℕ → Option ℕ
at_index n [] = none
at_index zero (x ∷ xs) = some x
at_index (suc n) (x ∷ xs) = at_index n xs

abbrev pub set_index : ℕ → ℕ → List ℕ → List ℕ
set_index n y [] = []
set_index zero y (x ∷ xs) = y ∷ xs
set_index (suc n) y (x ∷ xs) = x ∷ set_index n y xs

abbrev pub swap_values : ℕ → ℕ → Option ℕ → Option ℕ → List ℕ → List ℕ
swap_values i j (some x) (some y) xs = set_index j x (set_index i y xs)
swap_values i j _ _ xs = xs

-- `[result[i], result[j]] = [result[j], result[i]]`, at indices in range.
unfoldable pub swap_at : ℕ → ℕ → List ℕ → List ℕ
swap_at i j xs = swap_values i j (at_index i xs) (at_index j xs) xs

-- The loop of `shuffle` from the index `i` down; `draw i` is what `randomInt(i + 1)` returns, at
-- most i.
unfoldable pub shuffle_from : (ℕ → ℕ) → ℕ → List ℕ → List ℕ
unfolding swap_at
shuffle_from draw zero xs = xs
shuffle_from draw (suc i) xs = shuffle_from draw i (swap_at (suc i) (draw (suc i)) xs)

unfoldable pub shuffle : (ℕ → ℕ) → List ℕ → List ℕ
unfolding shuffle_from
shuffle draw xs = shuffle_from draw (length xs - 1) xs

abbrev pub requested_order : Option (List ℕ) → List ℕ
requested_order none = []
requested_order (some order) = order

unfoldable pub order_of : Mode → Option (List ℕ) → (ℕ → ℕ) → List ℕ → Outcome Failure (List ℕ)
unfolding shuffle
order_of manual requested draw members = do
  assert_exact_member_order members (requested_order requested)
  ok (requested_order requested)
order_of randomized requested draw members = ok (shuffle draw members)
order_of bidding requested draw members = ok (shuffle draw members)

-- `COALESCE(MAX(cycle_no), 0)`
abbrev pub last_cycle_no : ℕ → List CycleDetails → ℕ
last_cycle_no chama_id [] = 0
last_cycle_no chama_id (d ∷ others) =
    let rest = last_cycle_no chama_id others in
    if d.chama_id == chama_id && ltb rest d.cycle_no then d.cycle_no else rest

-- The row of the turn at an index.
abbrev pub new_turn : ℕ → ℕ → ℕ → CycleInput → ℕ → ℕ → Turn
new_turn id cycle_id chama_id input member_id index = record {
  id = id;
  cycle_id = cycle_id;
  chama_id = chama_id;
  member_id = member_id;
  rotation_position = index + 1;
  payout_amount = input.payout_amount;
  scheduled_date = input.first_payout_date + index * input.interval_days;
  status = scheduled;
  receipt_number = none;
  ledger_transaction_id = none;
}

-- The turns from the index `index` on.
abbrev pub turns_from : ℕ → ℕ → ℕ → CycleInput → ℕ → List ℕ → List Turn
turns_from id cycle_id chama_id input index [] = []
turns_from id cycle_id chama_id input index (m ∷ order) =
    new_turn id cycle_id chama_id input m index
    ∷ turns_from (id + 1) cycle_id chama_id input (index + 1) order

abbrev pub new_cycle : ℕ → ℕ → Cycle
new_cycle id chama_id = record {
  id = id;
  chama_id = chama_id;
  current_position = 1;
  status = active;
}

abbrev pub new_details : ℕ → ℕ → CycleInput → Constitution → List CycleDetails → CycleDetails
new_details cycle_id chama_id input c details = record {
  cycle_id = cycle_id;
  chama_id = chama_id;
  cycle_no = last_cycle_no chama_id details + 1;
  mode = input.mode;
  constitution_id = c.id;
}

abbrev pub insert_cycle : ℕ → CycleInput → List ℕ → Constitution → World → World
insert_cycle chama_id input order c w =
    let id = w.rotation.next_id in
    record w {
      rotation = record w.rotation {
        cycles = w.rotation.cycles ++ new_cycle id chama_id ∷ [];
        turns = w.rotation.turns ++ turns_from (id + 1) id chama_id input 0 order;
        next_id = id + 1 + length order;
      };
      details = w.details ++ new_details id chama_id input c w.details ∷ [];
    }

-- The result is the id of the cycle.
unfoldable pub create_cycle : ℕ → ℕ → CycleInput → (ℕ → ℕ) → World → Outcome Failure (ℕ × World)
unfolding order_of
create_cycle user_id chama_id input draw w = do
  refuse (is_bidding input.mode) bidding_not_configured
  group ← require_group chama_id w
  assert_write_access chama_id w.rotation
  guard group.is_active chama_not_active
  official ← require_active_membership chama_id user_id w.rotation
  guard (is_leadership official.role) create_forbidden
  refuse (any (λ c. c.chama_id == chama_id && is_active_cycle c.status) w.rotation.cycles)
      active_cycle_exists
  let members = active_members chama_id w.rotation.members
  refuse (ltb (length members) 2) members_insufficient
  order ← order_of input.mode input.member_order draw members
  constitution ←
      require (find (λ c. c.chama_id == chama_id && c.is_active) w.constitutions)
        constitution_required
  ok (w.rotation.next_id, insert_cycle chama_id input order constitution w)
