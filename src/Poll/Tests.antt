-- ===== src/Poll/Tests.antt =====
-- Runs of polls (services/poll.service.ts), and the theorems about them at these runs.
use mduara_api.Prelude.{ℕ, ◌≡◌, refl, true, false, Option, none, some, List, [], ◌∷◌, arith}
use mduara_api.Prelude.Text.{codes}
use mduara_api.Prelude.Outcome.{Outcome, ok, err}
use mduara_api.Roles.{Role, member, chairperson}
use mduara_api.Poll.Types.{
  Poll, Member, Constitution, Tables, Failure, member_removal, open_, active, exited, full_turnout,
  poll_closed,
}
use mduara_api.Poll.Double.{double_of, percentage, reaches}
use mduara_api.Poll.Service.{
  Evaluation, VoteInput, PollInput, vote, create_poll, act_outcome, evaluate_locked_poll,
  evaluate_poll_within_transaction, refresh_locked_poll, evaluation, is_quorum, is_majority,
  is_closed, closed_by, new_poll,
}
use mduara_api.Poll.Fairness.{
  IsFair, Request, create, cast_vote, act, serve, serve_polls, serve_polls-IsFair,
}
use mduara_api.Poll.Closing.{vote-last_closes}

-- 29 of 50 votes are 58 percent, but (29 / 50) * 100 is 57.99999999999999.
majority_missed_by_rounding : reaches (percentage 29 50) (double_of 5800 100) ≡ false
unfolding percentage reaches double_of
majority_missed_by_rounding = refl

quorum_missed_by_rounding : is_quorum 29 100 2900 ≡ false
unfolding is_quorum percentage reaches double_of
quorum_missed_by_rounding = refl

half_is_half : is_quorum 3 6 5000 ≡ true
unfolding is_quorum percentage reaches double_of
half_is_half = refl

abbrev person : ℕ → ℕ → Role → Member
person id user_id role = record {
  id = id;
  chama_id = 1;
  user_id = user_id;
  role = role;
  status = active;
}

abbrev rule : Constitution
rule = record {
  id = 5;
  chama_id = 1;
  is_active = true;
  quorum_threshold = 5000;
  majority_threshold = 6000;
}

abbrev group : Tables
group = record {
  polls = [];
  options = [];
  voters = [];
  votes = [];
  members = person 21 11 chairperson ∷ person 22 12 member ∷ person 23 13 member ∷ [];
  constitutions = rule ∷ [];
  audits = [];
  next_id = 100;
}

abbrev removal : PollInput
removal = record {
  decision_type = member_removal;
  target = some 23;
  action_option_code = some (codes "yes");
  opens_at = none;
  closes_at = some 9000;
  options = (codes "yes", codes "Yes") ∷ (codes "no", codes "No") ∷ [];
}

abbrev choice : VoteInput
choice = record { option_id = none; option_code = some (codes "yes") }

abbrev session : List Request
session =
    create 11 1 removal 1000
    ∷ cast_vote 11 100 choice 1001
    ∷ cast_vote 11 100 choice 1002
    ∷ cast_vote 12 100 choice 1003
    ∷ []

abbrev ballot : Tables
unfolding serve create_poll vote evaluate_locked_poll refresh_locked_poll evaluation is_quorum
    is_majority percentage reaches double_of
ballot = serve_polls session group

-- The second vote of the chairperson is not counted.
counted_once : ballot.votes ≡ (
    (record { id = 103; poll_id = 100; member_id = 21; option_id = 101 })
    ∷ (record { id = 104; poll_id = 100; member_id = 22; option_id = 101 })
    ∷ [])
unfolding ballot
counted_once = refl

serve_polls-IsFair_example : IsFair (serve_polls session group)
unfolding IsFair
serve_polls-IsFair_example = serve_polls-IsFair session group (λ poll_id member_id. omega arith)

abbrev last_vote : Outcome Failure (Evaluation × Tables)
unfolding ballot vote evaluate_locked_poll refresh_locked_poll evaluation is_quorum is_majority
    percentage reaches double_of
last_vote = vote 13 100 choice 1004 ballot

abbrev state_of : Outcome Failure (Evaluation × Tables) → Tables
state_of (err failure) = group
state_of (ok (e, s)) = s

removed_after_full_turnout :
    (serve (act 11 100 1005) (state_of last_vote)).members
    ≡ person 21 11 chairperson
      ∷ person 22 12 member
      ∷ record (person 23 13 member) { status = exited }
      ∷ []
unfolding last_vote serve act_outcome evaluate_poll_within_transaction evaluate_locked_poll
    refresh_locked_poll evaluation
removed_after_full_turnout = refl

abbrev evaluation_of : Outcome Failure (Evaluation × Tables) → Option Evaluation
evaluation_of (err failure) = none
evaluation_of (ok (e, s)) = some e

-- What the last vote shows.
abbrev shown : Evaluation
unfolding last_vote evaluation is_quorum is_majority percentage reaches double_of
shown = evaluation (closed_by 1004 full_turnout poll) (state_of last_vote)
  where
    poll : Poll
    poll = record (new_poll 100 11 1 removal rule 1000 9000 1000) { status = open_ }

vote-last_closes_example :
    (is_closed shown.poll.status ≡ true)
    × ((other_id later : ℕ) (answer : VoteInput)
        → vote other_id 100 answer later (state_of last_vote) ≡ err poll_closed)
unfolding last_vote shown
vote-last_closes_example =
    vote-last_closes 13 100 choice 1004 ballot shown (state_of last_vote) refl refl
