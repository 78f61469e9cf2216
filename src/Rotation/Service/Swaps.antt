-- ===== src/Rotation/Service/Swaps.antt =====
-- `requestSwap` and `decideSwap` (services/mgr.service.ts).
use mduara_api.Prelude.{
  ℕ, ◌+◌, Bool, true, false, not, ◌&&◌, ◌||◌, Option, List, [], ◌∷◌, ◌++◌, find, any, update_where,
  ltb, leb, ◌==◌, if◌then◌else◌,
}
use mduara_api.Prelude.Outcome.{Outcome, ok, ◌>>=◌, ◌>>◌, guard, refuse, require}
use mduara_api.Rotation.Types.{
  CycleStatus, TurnStatus, SwapStatus, SwapDecision, accept, reject, cancel, Cycle, Turn, Swap,
  Member, Tables, Failure, active, scheduled, accepted, rejected, cycle_not_found,
  subscription_inactive, cycle_not_active, membership_inactive, swap_self, swap_target_not_found,
  swap_turn_not_found, swap_turn_not_available, swap_pending_exists, swap_not_found,
  cancel_forbidden, decision_forbidden,
}

abbrev pub require_cycle : ℕ → Tables → Outcome Failure Cycle
require_cycle cycle_id s = require (find (λ c. c.id == cycle_id) s.cycles) cycle_not_found

abbrev pub assert_write_access : ℕ → Tables → Outcome Failure (Unit {0})
assert_write_access chama_id s = guard (s.can_write chama_id) subscription_inactive

abbrev pub require_active_membership : ℕ → ℕ → Tables → Outcome Failure Member
require_active_membership chama_id user_id s =
    require (find (λ m. m.chama_id == chama_id && m.user_id == user_id && m.is_active) s.members)
      membership_inactive

abbrev pub is_active_cycle : CycleStatus → Bool
is_active_cycle active = true
is_active_cycle _ = false

abbrev pub is_scheduled : TurnStatus → Bool
is_scheduled scheduled = true
is_scheduled _ = false

abbrev pub is_pending_swap : SwapStatus → Bool
is_pending_swap SwapStatus.pending = true
is_pending_swap _ = false

-- A turn that is still to come and that no payout has been asked for.
abbrev pub is_swappable : Cycle → Turn → Bool
is_swappable cycle t = is_scheduled t.status && leb cycle.current_position t.rotation_position

abbrev pub find_turn_of : ℕ → ℕ → Tables → Option Turn
find_turn_of cycle_id member_id s =
    find (λ t. t.cycle_id == cycle_id && t.member_id == member_id) s.turns

abbrev pub concerns : ℕ → ℕ → ℕ → Swap → Bool
concerns cycle_id a b w =
    w.cycle_id == cycle_id
    && is_pending_swap w.status
    && (w.requester_payout_id == a
        || w.requester_payout_id == b
        || w.target_payout_id == a
        || w.target_payout_id == b)

abbrev pub new_swap : ℕ → Cycle → Turn → Turn → Member → Member → Swap
new_swap id cycle first second requester target = record {
  id = id;
  cycle_id = cycle.id;
  requester_payout_id = first.id;
  target_payout_id = second.id;
  requester_member_id = requester.id;
  target_member_id = target.id;
  status = SwapStatus.pending;
}

unfoldable pub request_swap : ℕ → ℕ → ℕ → Tables → Outcome Failure (Swap × Tables)
request_swap user_id cycle_id target_member_id s = do
  cycle ← require_cycle cycle_id s
  assert_write_access cycle.chama_id s
  guard (is_active_cycle cycle.status) cycle_not_active
  requester ← require_active_membership cycle.chama_id user_id s
  refuse (requester.id == target_member_id) swap_self
  target ←
      require
        (find (λ m. m.id == target_member_id && m.chama_id == cycle.chama_id && m.is_active)
          s.members)
        swap_target_not_found
  first ← require (find_turn_of cycle.id requester.id s) swap_turn_not_found
  second ← require (find_turn_of cycle.id target.id s) swap_turn_not_found
  guard (is_swappable cycle first && is_swappable cycle second) swap_turn_not_available
  refuse (any (concerns cycle.id first.id second.id) s.swaps) swap_pending_exists
  let swap = new_swap s.next_id cycle first second requester target
  ok (swap, record s { swaps = s.swaps ++ swap ∷ []; next_id = s.next_id + 1 })

abbrev pub resolve_swap : ℕ → SwapStatus → Tables → Tables
resolve_swap id status s = record s {
  swaps = update_where (λ w. w.id == id) (λ w. record w { status = status }) s.swaps;
}

-- `COALESCE(MAX(rotation_position), 0)` of a cycle.
abbrev pub max_position : ℕ → List Turn → ℕ
max_position cycle_id [] = 0
max_position cycle_id (t ∷ ts) =
    let rest = max_position cycle_id ts in
    if t.cycle_id == cycle_id && ltb rest t.rotation_position then t.rotation_position else rest

abbrev pub move_turn : ℕ → ℕ → ℕ → List Turn → List Turn
move_turn id position date =
    update_where (λ t. t.id == id)
      (λ t. record t { rotation_position = position; scheduled_date = date })

abbrev pub place_turn : ℕ → ℕ → List Turn → List Turn
place_turn id position =
    update_where (λ t. t.id == id) (λ t. record t { rotation_position = position })

-- `swapPayoutPositions`, by way of a position that no turn of the cycle has.
unfoldable pub swap_payout_positions : ℕ → Turn → Turn → List Turn → List Turn
swap_payout_positions cycle_id first second turns =
    let temporary = max_position cycle_id turns + 1 in
    place_turn first.id second.rotation_position (
      move_turn second.id first.rotation_position first.scheduled_date
        (move_turn first.id temporary second.scheduled_date turns))

unfoldable pub accept_swap : Cycle → Swap → Tables → Outcome Failure (SwapStatus × Tables)
unfolding swap_payout_positions
accept_swap cycle swap s = do
  guard (is_active_cycle cycle.status) cycle_not_active
  first ←
      require (find (λ t. t.id == swap.requester_payout_id && t.cycle_id == cycle.id) s.turns)
        swap_turn_not_found
  second ←
      require (find (λ t. t.id == swap.target_payout_id && t.cycle_id == cycle.id) s.turns)
        swap_turn_not_found
  guard (is_swappable cycle first && is_swappable cycle second) swap_turn_not_available
  ok (
    accepted,
    resolve_swap swap.id accepted
        (record s { turns = swap_payout_positions cycle.id first second s.turns }),
  )

unfoldable pub decide_pending :
    SwapDecision → Cycle → Member → Swap → Tables → Outcome Failure (SwapStatus × Tables)
unfolding accept_swap
decide_pending cancel cycle member swap s = do
  guard (member.id == swap.requester_member_id) cancel_forbidden
  ok (SwapStatus.cancelled, resolve_swap swap.id SwapStatus.cancelled s)
decide_pending reject cycle member swap s = do
  guard (member.id == swap.target_member_id) decision_forbidden
  ok (rejected, resolve_swap swap.id rejected s)
decide_pending accept cycle member swap s = do
  guard (member.id == swap.target_member_id) decision_forbidden
  accept_swap cycle swap s

unfoldable pub decide_swap :
    ℕ → ℕ → ℕ → SwapDecision → Tables → Outcome Failure (SwapStatus × Tables)
unfolding decide_pending
decide_swap user_id cycle_id swap_id decision s = do
  cycle ← require_cycle cycle_id s
  assert_write_access cycle.chama_id s
  member ← require_active_membership cycle.chama_id user_id s
  swap ← require (find (λ w. w.id == swap_id && w.cycle_id == cycle_id) s.swaps) swap_not_found
  if not (is_pending_swap swap.status)
      then ok (swap.status, s)
      else decide_pending decision cycle member swap s
