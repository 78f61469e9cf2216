-- ===== src/Poll/Effects.antt =====
-- What an evaluation and a vote that returned have done (services/poll.service.ts).
use mduara_api.Prelude.{ℕ, ◌≡◌, sym, subst, true, false, some, find, ◌==◌}
use mduara_api.Prelude.Outcome.{
  ok, guard, >>=-eq-ok, ok-pair, refuse-false, guard-true, require-some, refuse, require,
}
use mduara_api.Poll.Types.{
  Poll, Tables, poll_not_found, poll_cancelled, poll_closed, poll_not_open, voter_ineligible,
  vote_already_cast, option_not_found, Member, PollOption,
}
use mduara_api.Poll.Service.{
  Evaluation, VoteInput, vote, lock_poll, refresh_locked_poll, evaluate_locked_poll, evaluation,
  is_open, is_voter, has_voted, is_chosen, insert_vote, is_cancelled, is_closed, has_begun,
}

-- What an evaluation that returned has done: the poll is refreshed, and read again.
pub record HasEvaluated (poll_id chama_id now : ℕ) (s : Tables) (e : Evaluation) (s' : Tables)
    : Type 0 where
  pub poll : Poll
  pub locked : lock_poll poll_id s ≡ ok poll
  pub in_chama : (poll.chama_id == chama_id) ≡ true
  pub refreshed : s' ≡ refresh_locked_poll poll now s
  pub current : Poll
  pub relocked : lock_poll poll_id s' ≡ ok current
  pub evaluated : e ≡ evaluation current s'

pub evaluate-HasEvaluated :
    (poll_id chama_id now : ℕ) (s : Tables) {e : Evaluation} {s' : Tables}
    → evaluate_locked_poll poll_id chama_id now s ≡ ok (e, s')
    → HasEvaluated poll_id chama_id now s e s'
unfolding evaluate_locked_poll
evaluate-HasEvaluated poll_id chama_id now s {e} {s'} h =
    let (poll, locked, h1) = >>=-eq-ok (lock_poll poll_id s) _ h in
    let (u, in_chama, h2) = >>=-eq-ok (guard (poll.chama_id == chama_id) poll_not_found) _ h1 in
    let (current, again, h3) =
      >>=-eq-ok (lock_poll poll_id (refresh_locked_poll poll now s)) _ h2 in
    let (same_evaluation, same_state) = ok-pair h3 in
    record {
      poll = poll;
      locked = locked;
      in_chama = guard-true (poll.chama_id == chama_id) poll_not_found in_chama;
      refreshed = sym same_state;
      current = current;
      relocked = subst (λ t. lock_poll poll_id t ≡ ok current) same_state again;
      evaluated = subst (λ t. e ≡ evaluation current t) same_state (sym same_evaluation);
    }

-- What a vote that returned went by, and the state that it left before the evaluation.
pub record HasVoted (actor_id poll_id now : ℕ) (input : VoteInput) (s : Tables) (e : Evaluation)
    (s' : Tables) : Type 0 where
  pub poll : Poll
  pub locked : lock_poll poll_id s ≡ ok poll
  pub current : Poll
  pub relocked : lock_poll poll_id (refresh_locked_poll poll now s) ≡ ok current
  pub is_still_open : is_open current.status ≡ true
  pub member : Member
  pub entitled :
      find
        (is_voter current actor_id (refresh_locked_poll poll now s))
        (refresh_locked_poll poll now s).members
      ≡ some member
  pub unvoted : has_voted poll_id member.id (refresh_locked_poll poll now s).votes ≡ false
  pub option : PollOption
  pub chosen : find (is_chosen poll_id input) (refresh_locked_poll poll now s).options ≡ some option
  pub counted :
      evaluate_locked_poll poll_id current.chama_id now (
        refresh_locked_poll current now
          (insert_vote poll_id member.id option.id (refresh_locked_poll poll now s)))
      ≡ ok (e, s')

pub vote-HasVoted :
    (actor_id poll_id : ℕ) (input : VoteInput) (now : ℕ) (s : Tables) {e : Evaluation} {s' : Tables}
    → vote actor_id poll_id input now s ≡ ok (e, s')
    → HasVoted actor_id poll_id now input s e s'
unfolding vote
vote-HasVoted actor_id poll_id input now s₀ h =
    let (poll, locked, h1) = >>=-eq-ok (lock_poll poll_id s₀) _ h in
    let s = refresh_locked_poll poll now s₀ in
    let (current, relocked, h2) = >>=-eq-ok (lock_poll poll_id s) _ h1 in
    let (u3, uncancelled, h3) =
      >>=-eq-ok (refuse (is_cancelled current.status) poll_cancelled) _ h2 in
    let (u4, unclosed, h4) = >>=-eq-ok (refuse (is_closed current.status) poll_closed) _ h3 in
    let (u5, begun, h5) = >>=-eq-ok (guard (has_begun now current.opens_at) poll_not_open) _ h4 in
    let (u6, still_open, h6) = >>=-eq-ok (guard (is_open current.status) poll_not_open) _ h5 in
    let (member, entitled, h7) =
      >>=-eq-ok (require (find (is_voter current actor_id s) s.members) voter_ineligible) _ h6 in
    let (u8, unvoted, h8) =
      >>=-eq-ok (refuse (has_voted poll_id member.id s.votes) vote_already_cast) _ h7 in
    let (option, chosen, h9) =
      >>=-eq-ok (require (find (is_chosen poll_id input) s.options) option_not_found) _ h8 in
    record {
      poll = poll;
      locked = locked;
      current = current;
      relocked = relocked;
      is_still_open = guard-true (is_open current.status) poll_not_open still_open;
      member = member;
      entitled =
          require-some (find (is_voter current actor_id s) s.members) voter_ineligible entitled;
      unvoted = refuse-false (has_voted poll_id member.id s.votes) vote_already_cast unvoted;
      option = option;
      chosen = require-some (find (is_chosen poll_id input) s.options) option_not_found chosen;
      counted = h9;
    }
