-- ===== src/Poll/Service/Acting.antt =====
-- `actOutcome` (services/poll.service.ts): the chairperson applies the outcome of a closed poll.
use mduara_api.Prelude.{
  ℕ, Bool, true, false, not, ◌&&◌, some, List, [], ◌∷◌, ◌++◌, find, any, count_where, update_where,
  ◌==◌,
}
use mduara_api.Prelude.Outcome.{Outcome, ok, err, ◌>>=◌, ◌>>◌, guard, refuse, require}
use mduara_api.Roles.{chairperson, role_eq}
use mduara_api.Poll.Types.{
  DecisionType, general, rule_amendment, member_removal, dissolution, payout_order_dispute,
  MembershipStatus, exited, Poll, Member, Tables, Failure, action_forbidden, poll_not_closed,
  already_acted, action_not_approved, use_constitution_endpoint, dissolution_not_configured,
  payout_not_configured, general_has_no_action, payload_invalid, target_not_found,
  member_already_exited, last_chairperson,
}
use mduara_api.Poll.Service.Tally.{
  lock_poll, evaluate_poll_within_transaction, is_closed, is_unset, update_polls,
}
use mduara_api.Poll.Service.Voting.{is_chair_of, is_active_member}

abbrev pub is_exited : MembershipStatus → Bool
is_exited exited = true
is_exited _ = false

-- The decisions that `actOutcome` does not apply.
abbrev pub check_decision : DecisionType → Outcome Failure (Unit {0})
check_decision rule_amendment = err use_constitution_endpoint
check_decision dissolution = err dissolution_not_configured
check_decision payout_order_dispute = err payout_not_configured
check_decision general = err general_has_no_action
check_decision member_removal = ok tt

abbrev pub is_active_chair : Member → Bool
is_active_chair m = role_eq m.role chairperson && is_active_member m.status

-- `otherChairs`
abbrev pub other_chairs : ℕ → ℕ → List Member → ℕ
other_chairs chama_id member_id members =
    count_where (λ m. m.chama_id == chama_id && is_active_chair m && not (m.id == member_id))
      members

abbrev pub remove_member : ℕ → Tables → Tables
remove_member id s = record s {
  members = update_where (λ m. m.id == id) (λ m. record m { status = exited }) s.members;
}

abbrev pub mark_acted : ℕ → ℕ → Tables → Tables
mark_acted poll_id now =
    update_polls (λ p. p.id == poll_id && is_unset p.acted_at)
      (λ p. record p { acted_at = some now })

abbrev pub audit_removal : ℕ → Poll → ℕ → Tables → Tables
audit_removal actor_id poll membership_id s = record s {
  audits =
      s.audits
      ++ (record {
        actor_id = actor_id;
        chama_id = poll.chama_id;
        membership_id = membership_id;
        poll_id = poll.id;
      })
        ∷ [];
}

-- The result is the id of the membership.
unfoldable pub act_outcome : ℕ → ℕ → ℕ → Tables → Outcome Failure (ℕ × Tables)
unfolding evaluate_poll_within_transaction
act_outcome actor_id poll_id now s₀ = do
  poll ← lock_poll poll_id s₀
  guard (any (is_chair_of poll.chama_id actor_id) s₀.members) action_forbidden
  evaluated ← evaluate_poll_within_transaction poll_id poll.chama_id now s₀
  let result = evaluated.0
  let s = evaluated.1
  guard (is_closed result.poll.status) poll_not_closed
  guard (is_unset result.poll.acted_at) already_acted
  guard result.majority_met action_not_approved
  check_decision result.poll.decision_type
  target ← require result.poll.target payload_invalid
  membership ←
      require (find (λ m. m.id == target && m.chama_id == poll.chama_id) s.members) target_not_found
  refuse (is_exited membership.status) member_already_exited
  refuse (is_active_chair membership && other_chairs poll.chama_id membership.id s.members == 0)
      last_chairperson
  guard (any (λ p. p.id == poll_id && is_unset p.acted_at) s.polls) already_acted
  ok (
    membership.id,
    audit_removal actor_id poll membership.id
        (mark_acted poll_id now (remove_member membership.id s)),
  )
