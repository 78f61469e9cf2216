-- ===== src/Rotation/DrawingTests.antt =====
-- The creation of a cycle (`createCycle`, services/mgr.service.ts), at one chama.
use mduara_api.Prelude.{
  ℕ, ◌≡◌, refl, true, ◌==◌, if◌then◌else◌, none, List, [], ◌∷◌, ◌++◌, map, length, count_where,
}
use mduara_api.Prelude.Outcome.{Outcome, ok, err}
use mduara_api.Roles.{Role, member, chairperson}
use mduara_api.Rotation.Types.{Turn, Member, Failure, members_insufficient}
use mduara_api.Rotation.Service.{
  create_cycle, order_of, shuffle, shuffle_from, swap_at, active_members, CycleInput, World,
  randomized,
}
use mduara_api.Rotation.Drawing.{occurrences, positions, create_cycle-queues}

abbrev person : ℕ → ℕ → Role → Member
person id user_id role = record {
  id = id;
  chama_id = 1;
  user_id = user_id;
  role = role;
  is_active = true;
  phone = none;
}

abbrev world : World
world = record {
  rotation = record {
    ledger = record { chamas = []; transactions = []; next_id = 0 };
    cycles = [];
    turns = [];
    attempts = [];
    swaps = [];
    members = person 21 11 chairperson ∷ person 22 12 member ∷ person 23 13 member ∷ [];
    can_write = λ chama_id. true;
    next_id = 100;
  };
  groups = (record { id = 1; is_merry_go_round = true; is_active = true }) ∷ [];
  constitutions = (record { id = 5; chama_id = 1; is_active = true }) ∷ [];
  details = [];
}

abbrev input : CycleInput
input = record {
  mode = randomized;
  payout_amount = 300;
  first_payout_date = 700;
  interval_days = 7;
  member_order = none;
}

-- The last index is exchanged with the first one, then the middle one stays.
abbrev draw : ℕ → ℕ
draw i = if i == 2 then 0 else i

drawn_order : shuffle draw (21 ∷ 22 ∷ 23 ∷ []) ≡ 23 ∷ 22 ∷ 21 ∷ []
unfolding shuffle shuffle_from swap_at
drawn_order = refl

too_few_members :
    create_cycle 11 1 input draw (record world {
      rotation = record world.rotation { members = person 21 11 chairperson ∷ [] };
    })
    ≡ err members_insufficient
unfolding create_cycle
too_few_members = refl

abbrev state_of : Outcome Failure (ℕ × World) → World
state_of (err failure) = world
state_of (ok (id, w)) = w

abbrev created : World
unfolding create_cycle order_of shuffle shuffle_from swap_at
created = state_of (create_cycle 11 1 input draw world)

create_cycle-queues_example :
    (turns : List Turn) × (created.rotation.turns ≡ world.rotation.turns ++ turns)
    × ((member_id : ℕ)
        → count_where (λ t. t.member_id == member_id) turns
          ≡ occurrences member_id (active_members 1 world.rotation.members))
    × (map (λ t. t.rotation_position) turns ≡ positions 0 (length turns))
unfolding created create_cycle order_of shuffle shuffle_from swap_at
create_cycle-queues_example = create_cycle-queues 11 1 input draw world 100 created refl refl
