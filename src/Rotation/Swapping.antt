-- ===== src/Rotation/Swapping.antt =====
-- What an accepted swap does to the turns (`decideSwap`, services/mgr.service.ts).
use mduara_api.Prelude.{
  ℕ, ◌+◌, ◌≤◌, ◌≡◌, ◌≢◌, refl, sym, ap, ◌∙◌, ◌&&◌, some, List, arith, find, update_where, ◌==◌,
  if◌then◌else◌, find-true, find-update_where,
}
use mduara_api.Prelude.Outcome.{ok, >>=-eq-ok, ok-pair, guard, guard-true, require, require-some}
use mduara_api.Rotation.Types.{
  Turn, active, scheduled, Cycle, Swap, SwapStatus, accepted, Tables, swap_turn_not_found,
  swap_turn_not_available, cycle_not_active,
}
use mduara_api.Rotation.Service.{
  max_position, move_turn, swap_payout_positions, accept_swap, is_swappable, is_active_cycle,
}
use mduara_api.Rotation.Statuses.{is_active_cycle-active, is_swappable-ahead}

-- Where a turn is after two turns have changed places.
abbrev pub exchanged : Turn → Turn → Turn → Turn
exchanged first second t =
    if t.id == first.id
    then record t {
      rotation_position = second.rotation_position;
      scheduled_date = second.scheduled_date;
    }
    else if t.id == second.id
    then record t {
      rotation_position = first.rotation_position;
      scheduled_date = first.scheduled_date;
    }
    else t

swap_payout_positions-find :
    (cycle_id : ℕ) (first second : Turn) (turns : List Turn) (i : ℕ) {t : Turn}
    → first.id ≢ second.id
    → find (λ x. x.id == i) turns ≡ some t
    → find (λ x. x.id == i) (swap_payout_positions cycle_id first second turns)
      ≡ some (exchanged first second t)
unfolding swap_payout_positions
swap_payout_positions-find cycle_id first second turns i {t} ne h =
    let temporary = max_position cycle_id turns + 1 in
    let one = move_turn first.id temporary second.scheduled_date turns in
    let two = move_turn second.id first.rotation_position first.scheduled_date one in
    rw
      (
        find-update_where (λ x. x.id == i) (λ x. x.id == first.id)
            (λ x. record x { rotation_position = second.rotation_position }) (λ x. refl) two,
        find-update_where (λ x. x.id == i) (λ x. x.id == second.id)
            (λ x. record x {
              rotation_position = first.rotation_position;
              scheduled_date = first.scheduled_date;
            })
            (λ x. refl) one,
        find-update_where (λ x. x.id == i) (λ x. x.id == first.id)
            (λ x. record x {
              rotation_position = temporary;
              scheduled_date = second.scheduled_date;
            })
            (λ x. refl) turns,
        h,
      )
      (ground (arith, ne))

required_turn :
    (i cycle_id : ℕ) (turns : List Turn) {t : Turn}
    → require (find (λ x. x.id == i && x.cycle_id == cycle_id) turns) swap_turn_not_found ≡ ok t
    → (find (λ x. x.id == i && x.cycle_id == cycle_id) turns ≡ some t) × (t.id ≡ i)
required_turn i cycle_id turns {t} h =
    let e =
      require-some (find (λ x. x.id == i && x.cycle_id == cycle_id) turns) swap_turn_not_found h in
    (e, ground (arith, find-true (λ x. x.id == i && x.cycle_id == cycle_id) turns {x = t} e))

-- An accepted swap of two different turns, in an active cycle, is of the turns of its cycle that its two ids name in the
-- tables, both scheduled and at the current position or later, and exchanges their positions and
-- dates: a turn of the tables is one of the two, with the other's position and date, or it is as it
-- was. The swap is marked as accepted, and cycles, attempts, members and ledger are as they were.
pub accept_swap-exchanges :
    (cycle : Cycle) (swap : Swap) (s : Tables) {st : SwapStatus} {s' : Tables} (i : ℕ) (t : Turn)
    → swap.requester_payout_id ≢ swap.target_payout_id
    → accept_swap cycle swap s ≡ ok (st, s')
    → find (λ x. x.id == i) s.turns ≡ some t
    → (first second : Turn) × (find
          (λ x. x.id == swap.requester_payout_id && x.cycle_id == cycle.id)
          s.turns
        ≡ some first)
      × (find (λ x. x.id == swap.target_payout_id && x.cycle_id == cycle.id) s.turns ≡ some second)
      × (first.id ≡ swap.requester_payout_id)
      × (second.id ≡ swap.target_payout_id)
      × (first.status ≡ scheduled)
      × (second.status ≡ scheduled)
      × (cycle.current_position ≤ first.rotation_position)
      × (cycle.current_position ≤ second.rotation_position)
      × (find (λ x. x.id == i) s'.turns ≡ some (exchanged first second t))
      × (cycle.status ≡ active)
      × (st ≡ accepted)
      × (s' ≡ record s {
        turns = s'.turns;
        swaps = update_where (λ w. w.id == swap.id) (λ w. record w { status = accepted }) s.swaps;
      })
unfolding accept_swap
accept_swap-exchanges cycle swap s {st} {s'} i t ne h found =
    let (u, a, x) = >>=-eq-ok (guard (is_active_cycle cycle.status) cycle_not_active) _ h in
    let (first, f, y) =
      >>=-eq-ok
        (require (find (λ t. t.id == swap.requester_payout_id && t.cycle_id == cycle.id) s.turns)
          swap_turn_not_found)
        _ x in
    let (second, g, z) =
      >>=-eq-ok
        (require (find (λ t. t.id == swap.target_payout_id && t.cycle_id == cycle.id) s.turns)
          swap_turn_not_found)
        _ y in
    let (v, b, w) =
      >>=-eq-ok
        (guard (is_swappable cycle first && is_swappable cycle second) swap_turn_not_available) _
        z in
    let (first_found, first_id) = required_turn _ _ s.turns f in
    let (second_found, second_id) = required_turn _ _ s.turns g in
    let (first_scheduled, first_ahead) = is_swappable-ahead cycle first (ground (arith, b)) in
    let (second_scheduled, second_ahead) = is_swappable-ahead cycle second (ground (arith, b)) in
    let (same_status, same_state) = ok-pair w in
    (
      first,
      second,
      first_found,
      second_found,
      first_id,
      second_id,
      first_scheduled,
      second_scheduled,
      first_ahead,
      second_ahead,
      ground (
        arith,
        w,
        swap_payout_positions-find cycle.id first second s.turns i {t = t}
            (ground (arith, ne, first_id, second_id)) found,
      ),
      is_active_cycle-active cycle.status (guard-true _ cycle_not_active a),
      sym same_status,
      sym same_state
          ∙ ap
              (λ ts. record s {
                turns = ts;
                swaps =
                    update_where (λ w. w.id == swap.id) (λ w. record w { status = accepted })
                      s.swaps;
              })
              (ap (λ (q : Tables). q.turns) same_state),
    )
