-- ===== src/Rotation/Passing.antt =====
-- The tests that a request for a payout passes (`disburse`, services/mgr.service.ts).
use mduara_api.Prelude.{
  ℕ, ◌+◌, ◌≡◌, refl, List, sym, ap, ◌∙◌, true, false, ◌&&◌, some, [], ◌∷◌, ◌++◌, arith, any,
  update_where, ◌==◌,
}
use mduara_api.Prelude.Text.{Text}
use mduara_api.Prelude.Outcome.{
  Outcome, ok, >>=-eq-ok, guard, guard-true, refuse, require, require-some,
}
use mduara_api.Ledger.Triggers.{pooled}
use mduara_api.Rotation.Types.{
  disbursement_pending, Cycle, Turn, Attempt, Member, Tables, Failure, cycle_not_active,
  disburse_forbidden, subscription_inactive, current_turn_not_found, payout_state_invalid,
  payout_phone_missing, attempt_unresolved, treasury_insufficient,
}
use mduara_api.Rotation.Service.{
  require_cycle, assert_write_access, require_active_membership, is_active_cycle, is_scheduled,
  may_pay_out, current_turn, given_phone, is_unresolved, covers, new_attempt, request_payout,
}

-- The tests of a request that returned, as the code makes them.
pub record HasPassed (user_id cycle_id : ℕ) (s : Tables) (attempt : Attempt) (phone : Text)
    (s' : Tables) : Type 0 where
  pub cycle : Cycle
  pub official : Member
  pub turn : Turn
  pub recipient : Member
  pub of_cycle : require_cycle cycle_id s ≡ ok cycle
  pub may_write : s.can_write cycle.chama_id ≡ true
  pub is_active : is_active_cycle cycle.status ≡ true
  pub by_official : require_active_membership cycle.chama_id user_id s ≡ ok official
  pub in_office : may_pay_out official.role ≡ true
  pub is_current : current_turn cycle s ≡ some (turn, recipient)
  pub was_scheduled : is_scheduled turn.status ≡ true
  pub to_phone : given_phone recipient.phone ≡ some phone
  pub all_ended : any (λ a. a.payout_id == turn.id && is_unresolved a.status) s.attempts ≡ false
  pub is_covered : covers (pooled cycle.chama_id s.ledger.chamas) turn.payout_amount ≡ true
  pub is_new : attempt ≡ new_attempt s.next_id turn s.attempts
  pub is_stored : s' ≡ record s {
    attempts = s.attempts ++ new_attempt s.next_id turn s.attempts ∷ [];
    turns =
        update_where
          (λ t. t.id == turn.id)
          (λ t. record t { status = disbursement_pending })
          s.turns;
    next_id = s.next_id + 1;
  }

same_turns :
    (id : ℕ) (turns : List Turn)
    → update_where (λ t. t.id == id && true) (λ t. record t { status = disbursement_pending }) turns
      ≡ update_where (λ t. t.id == id) (λ t. record t { status = disbursement_pending }) turns
same_turns id [] = refl
same_turns id (t ∷ turns) = ground (arith, same_turns id turns)

pub request_payout-HasPassed :
    (user_id cycle_id : ℕ) (s : Tables) {attempt : Attempt} {phone : Text} {s' : Tables}
    → request_payout user_id cycle_id s ≡ ok ((attempt, phone), s')
    → HasPassed user_id cycle_id s attempt phone s'
unfolding request_payout
request_payout-HasPassed user_id cycle_id s {attempt} {phone} {s'} h =
    let (cycle, a, x1) = >>=-eq-ok (require_cycle cycle_id s) _ h in
    let (u1, b, x2) = >>=-eq-ok (assert_write_access cycle.chama_id s) _ x1 in
    let (u2, c, x3) = >>=-eq-ok (guard (is_active_cycle cycle.status) cycle_not_active) _ x2 in
    let (official, d, x4) = >>=-eq-ok (require_active_membership cycle.chama_id user_id s) _ x3 in
    let (u3, e, x5) = >>=-eq-ok (guard (may_pay_out official.role) disburse_forbidden) _ x4 in
    let ((turn, m), f, x6) =
      >>=-eq-ok (require (current_turn cycle s) current_turn_not_found) _ x5 in
    let (u4, g, x7) = >>=-eq-ok (guard (is_scheduled turn.status) payout_state_invalid) _ x6 in
    let (to, i, x8) = >>=-eq-ok (require (given_phone m.phone) payout_phone_missing) _ x7 in
    let (u5, j, x9) =
      >>=-eq-ok
        (refuse (any (λ a. a.payout_id == turn.id && is_unresolved a.status) s.attempts)
          attempt_unresolved)
        _ x8 in
    let (u6, k, x10) =
      >>=-eq-ok
        (guard (covers (pooled cycle.chama_id s.ledger.chamas) turn.payout_amount)
          treasury_insufficient)
        _ x9 in
    record {
      cycle = cycle;
      official = official;
      turn = turn;
      recipient = m;
      of_cycle = a;
      may_write = guard-true (s.can_write cycle.chama_id) subscription_inactive b;
      is_active = ground (arith, c);
      by_official = d;
      in_office = ground (arith, e);
      is_current = require-some (current_turn cycle s) current_turn_not_found f;
      was_scheduled = ground (arith, g);
      to_phone = require-some (given_phone m.phone) payout_phone_missing i ∙ ground (arith, x10);
      all_ended = ground (arith, j);
      is_covered = ground (arith, k);
      is_new = ground (arith, x10);
      is_stored =
          sym (pair_state x10)
          ∙ ap
              (λ ts. record s {
                attempts = s.attempts ++ new_attempt s.next_id turn s.attempts ∷ [];
                turns = ts;
                next_id = s.next_id + 1;
              })
              (same_turns turn.id s.turns);
    }
  where
    pair_state :
        {a : Attempt × Text} {t : Tables}
        → ◌≡◌ {A = Outcome Failure ((Attempt × Text) × Tables)}
            (ok (a, t))
            (ok ((attempt, phone), s'))
        → t ≡ s'
    pair_state e = cc
