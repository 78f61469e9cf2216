-- ===== src/Poll/Fairness.antt =====
-- Who has voted in a poll (services/poll.service.ts): each eligible voter at most once.
use mduara_api.Prelude.{
  ℕ, ◌≤◌, ◌≡◌, refl, ap, ◌∙◌, Bool, true, false, ◌&&◌, ◌||◌, ◌-◌, ◌*◌, ltb, leb, List, [], ◌∷◌, any,
  find, count_where, ◌==◌, ==_refl, inl, inr, Bool-cases, arith, count_where-append,
  any-false_count, any-true_count, find-true,
}
use mduara_api.Prelude.Text.{Text}
use mduara_api.Prelude.Outcome.{Outcome, ok, err, guard, refuse, require, >>=-eq-ok, require-some}
use mduara_api.Poll.Types.{
  Poll, EligibleVoter, Vote, Tables, Failure, create_forbidden, constitution_missing, time_invalid,
  window_invalid, window_too_long, no_eligible_voters, results_forbidden, poll_not_found,
  action_forbidden,
}
use mduara_api.Poll.Service.{
  Evaluation, PollInput, VoteInput, create_poll, vote, get_results, act_outcome, lock_poll,
  refresh_locked_poll, evaluate_locked_poll, evaluate_poll_within_transaction, insert_vote,
  new_vote, insert_poll, is_eligible, voters_for, is_member_of, is_chair_of, find_constitution,
  opening, is_any, is_voter, has_voted, new_poll,
}
use mduara_api.Poll.Effects.{evaluate-HasEvaluated, vote-HasVoted}

abbrev pub is_vote_of : ℕ → ℕ → Vote → Bool
is_vote_of poll_id member_id v = v.poll_id == poll_id && v.member_id == member_id

abbrev pub is_right_of : ℕ → ℕ → EligibleVoter → Bool
is_right_of poll_id member_id e = e.poll_id == poll_id && e.member_id == member_id

-- In no poll has a member more votes than rows among the eligible voters.
unfoldable pub IsFair : Tables → Type 0
IsFair s =
    (poll_id member_id : ℕ)
    → count_where (is_vote_of poll_id member_id) s.votes
      ≤ count_where (is_right_of poll_id member_id) s.voters

-- The votes and the voters of a state are those of another one.
abbrev pub HasSameVotes : Tables → Tables → Type 0
HasSameVotes s s' = (s'.votes ≡ s.votes) × (s'.voters ≡ s.voters)

pub refresh-votes :
    (poll : Poll) (now : ℕ) (s : Tables) → HasSameVotes s (refresh_locked_poll poll now s)
unfolding refresh_locked_poll
refresh-votes poll now s = ground arith

pub evaluate-votes :
    (poll_id chama_id now : ℕ) (s : Tables) {e : Evaluation} {s' : Tables}
    → evaluate_locked_poll poll_id chama_id now s ≡ ok (e, s')
    → HasSameVotes s s'
evaluate-votes poll_id chama_id now s h =
    let done = evaluate-HasEvaluated poll_id chama_id now s h in
    let same = refresh-votes done.poll now s in
    (
      ap (λ (t : Tables). t.votes) done.refreshed ∙ same.0,
      ap (λ (t : Tables). t.voters) done.refreshed ∙ same.1,
    )

-- One more vote, of a member that has a right to it and has not voted.
IsFair-insert_vote :
    (poll_id member_id option_id : ℕ) (s : Tables)
    → IsFair s
    → is_eligible poll_id member_id s.voters ≡ true
    → has_voted poll_id member_id s.votes ≡ false
    → IsFair (insert_vote poll_id member_id option_id s)
unfolding IsFair
IsFair-insert_vote poll_id member_id option_id s fair entitled unvoted p m =
    let added = new_vote s.next_id poll_id member_id option_id ∷ [] in
    elim (Bool-cases (poll_id == p && member_id == m)) [
      | inl same ↦
          let same_poll : poll_id ≡ p = ground (arith, same) in
          let same_member : member_id ≡ m = ground (arith, same) in
          rw (← same_poll, ← same_member)
            (ground (
              arith,
              any-false_count (is_vote_of poll_id member_id) s.votes unvoted,
              any-true_count (is_right_of poll_id member_id) s.voters entitled,
              count_where-append (is_vote_of poll_id member_id) s.votes added,
              ==_refl poll_id,
              ==_refl member_id,
            ))
      | inr other ↦
          ground (arith, other, fair p m, count_where-append (is_vote_of p m) s.votes added)
    ]

IsFair-kept : (s s' : Tables) → HasSameVotes s s' → IsFair s → IsFair s'
unfolding IsFair
IsFair-kept s s' (votes, voters) fair p m = ground (
  arith,
  fair p m,
  ap (count_where (is_vote_of p m)) votes,
  ap (count_where (is_right_of p m)) voters,
)

-- A new poll only adds rights.
IsFair-insert_poll :
    (poll : Poll) (options : List (Text × Text)) (s : Tables)
    → IsFair s
    → IsFair (insert_poll poll options s)
unfolding IsFair
IsFair-insert_poll poll options s fair p m = ground (
  arith,
  fair p m,
  count_where-append (is_right_of p m) s.voters (voters_for poll.id poll.chama_id s.members),
)

IsFair-refresh :
    (poll : Poll) (now : ℕ) (s : Tables) → IsFair s → IsFair (refresh_locked_poll poll now s)
IsFair-refresh poll now s =
    IsFair-kept s (refresh_locked_poll poll now s) (refresh-votes poll now s)

IsFair-evaluate :
    (poll_id chama_id now : ℕ) (s : Tables) {e : Evaluation} {s' : Tables}
    → evaluate_locked_poll poll_id chama_id now s ≡ ok (e, s')
    → IsFair s
    → IsFair s'
IsFair-evaluate poll_id chama_id now s {e} {s'} h =
    IsFair-kept s s' (evaluate-votes poll_id chama_id now s h)

IsFair-vote :
    (actor_id poll_id : ℕ) (input : VoteInput) (now : ℕ) (s : Tables) {e : Evaluation} {s' : Tables}
    → vote actor_id poll_id input now s ≡ ok (e, s')
    → IsFair s
    → IsFair s'
IsFair-vote actor_id poll_id input now s h fair =
    let done = vote-HasVoted actor_id poll_id input now s h in
    let before = refresh_locked_poll done.poll now s in
    let right = find-true (is_voter done.current actor_id before) before.members done.entitled in
    let same : done.current.id ≡ poll_id = ground (
      arith,
      find-true (λ p. p.id == poll_id) before.polls
          (require-some (find (λ p. p.id == poll_id) before.polls) poll_not_found done.relocked),
    ) in
    IsFair-evaluate poll_id done.current.chama_id now _ done.counted (
      IsFair-refresh done.current now (insert_vote poll_id done.member.id done.option.id before) (
        IsFair-insert_vote poll_id done.member.id done.option.id before
          (IsFair-refresh done.poll now s fair) (ground (arith, right, same)) done.unvoted))

IsFair-get_results :
    (actor_id poll_id now : ℕ) (s : Tables) {e : Evaluation} {s' : Tables}
    → get_results actor_id poll_id now s ≡ ok (e, s')
    → IsFair s
    → IsFair s'
unfolding get_results
IsFair-get_results actor_id poll_id now s h fair =
    let (poll, locked, h1) = >>=-eq-ok (lock_poll poll_id s) _ h in
    let (u, member, h2) =
      >>=-eq-ok (guard (any (is_member_of poll.chama_id actor_id) s.members) results_forbidden) _
        h1 in
    IsFair-evaluate poll_id poll.chama_id now _ h2 (IsFair-refresh poll now s fair)

IsFair-create_poll :
    (actor_id chama_id : ℕ) (input : PollInput) (now : ℕ) (s : Tables) {e : Evaluation}
    {s' : Tables}
    → create_poll actor_id chama_id input now s ≡ ok (e, s')
    → IsFair s
    → IsFair s'
unfolding create_poll
IsFair-create_poll actor_id chama_id input now s h fair =
    let (u1, chair, h1) =
      >>=-eq-ok (guard (any (is_chair_of chama_id actor_id) s.members) create_forbidden) _ h in
    let (rule, in_force, h2) =
      >>=-eq-ok (require (find_constitution chama_id s) constitution_missing) _ h1 in
    let (opens_at, opens, h3) =
      >>=-eq-ok (require (opening input.opens_at now) time_invalid) _ h2 in
    let (closes_at, closes, h4) = >>=-eq-ok (require input.closes_at time_invalid) _ h3 in
    let (u5, window, h5) =
      >>=-eq-ok (refuse (leb closes_at opens_at || leb closes_at now) window_invalid) _ h4 in
    let (u6, short, h6) =
      >>=-eq-ok (refuse (ltb (90 * 86_400_000) (closes_at - opens_at)) window_too_long) _ h5 in
    let (u7, voters, h7) =
      >>=-eq-ok (guard (is_any (voters_for s.next_id chama_id s.members)) no_eligible_voters) _
        h6 in
    IsFair-evaluate s.next_id chama_id now _ h7 (
      IsFair-insert_poll (new_poll s.next_id actor_id chama_id input rule opens_at closes_at now)
        input.options s fair)

IsFair-within :
    (poll_id chama_id now : ℕ) (s : Tables) {e : Evaluation × Tables}
    → evaluate_poll_within_transaction poll_id chama_id now s ≡ ok e
    → IsFair s
    → IsFair e.1
unfolding evaluate_poll_within_transaction
IsFair-within poll_id chama_id now s h fair =
    let (poll, locked, h1) = >>=-eq-ok (lock_poll poll_id s) _ h in
    let (u, in_chama, h2) = >>=-eq-ok (guard (poll.chama_id == chama_id) poll_not_found) _ h1 in
    IsFair-evaluate poll_id chama_id now _ h2 (IsFair-refresh poll now s fair)

IsFair-act_outcome :
    (actor_id poll_id now : ℕ) (s : Tables) {id : ℕ} {s' : Tables}
    → act_outcome actor_id poll_id now s ≡ ok (id, s')
    → IsFair s
    → IsFair s'
unfolding act_outcome
IsFair-act_outcome actor_id poll_id now s {id} {s'} h fair =
    let (poll, locked, h1) = >>=-eq-ok (lock_poll poll_id s) _ h in
    let (u, chair, h2) =
      >>=-eq-ok (guard (any (is_chair_of poll.chama_id actor_id) s.members) action_forbidden) _
        h1 in
    let (evaluated, done, h3) =
      >>=-eq-ok (evaluate_poll_within_transaction poll_id poll.chama_id now s) _ h2 in
    IsFair-kept evaluated.1 s' (ground (arith, h3))
      (IsFair-within poll_id poll.chama_id now s done fair)

-- A request to the service of polls.
pub data Request : Type 0 where
  create : ℕ → ℕ → PollInput → ℕ → Request
  cast_vote : ℕ → ℕ → VoteInput → ℕ → Request
  show_results : ℕ → ℕ → ℕ → Request
  act : ℕ → ℕ → ℕ → Request

abbrev pub committed : {A : Type 0} → Outcome Failure (A × Tables) → Tables → Tables
committed (err failure) s = s
committed (ok (result, s')) s = s'

unfoldable pub serve : Request → Tables → Tables
serve (create actor_id chama_id input now) s =
    committed (create_poll actor_id chama_id input now s) s
serve (cast_vote actor_id poll_id input now) s = committed (vote actor_id poll_id input now s) s
serve (show_results actor_id poll_id now) s = committed (get_results actor_id poll_id now s) s
serve (act actor_id poll_id now) s = committed (act_outcome actor_id poll_id now s) s

abbrev pub serve_polls : List Request → Tables → Tables
serve_polls [] s = s
serve_polls (r ∷ requests) s = serve_polls requests (serve r s)

committed-IsFair :
    {A : Type 0} (o : Outcome Failure (A × Tables)) (s : Tables)
    → ((result : A) (s' : Tables) → o ≡ ok (result, s') → IsFair s → IsFair s')
    → IsFair s
    → IsFair (committed o s)
committed-IsFair (err failure) s keep fair = fair
committed-IsFair (ok (result, s')) s keep fair = keep result s' refl fair

serve-IsFair : (r : Request) (s : Tables) → IsFair s → IsFair (serve r s)
unfolding serve
serve-IsFair (create actor_id chama_id input now) s =
    committed-IsFair (create_poll actor_id chama_id input now s) s
      (λ result s'. IsFair-create_poll actor_id chama_id input now s)
serve-IsFair (cast_vote actor_id poll_id input now) s =
    committed-IsFair (vote actor_id poll_id input now s) s
      (λ result s'. IsFair-vote actor_id poll_id input now s)
serve-IsFair (show_results actor_id poll_id now) s =
    committed-IsFair (get_results actor_id poll_id now s) s
      (λ result s'. IsFair-get_results actor_id poll_id now s)
serve-IsFair (act actor_id poll_id now) s =
    committed-IsFair (act_outcome actor_id poll_id now s) s
      (λ result s'. IsFair-act_outcome actor_id poll_id now s)

-- If in no poll a member has more votes than rows among the eligible voters (one row, by the primary
-- key), then this is so after any sequence of creations, votes, views of results and actions: nobody
-- votes twice, and nobody votes without a right to it.
pub serve_polls-IsFair :
    (requests : List Request) (s : Tables) → IsFair s → IsFair (serve_polls requests s)
serve_polls-IsFair [] s fair = fair
serve_polls-IsFair (r ∷ requests) s fair =
    serve_polls-IsFair requests (serve r s) (serve-IsFair r s fair)
