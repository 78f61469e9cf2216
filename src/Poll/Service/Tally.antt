-- ===== src/Poll/Service/Tally.antt =====
-- How a poll is locked, opened, closed and evaluated (services/poll.service.ts).
use mduara_api.Prelude.{
  ℕ, ◌+◌, Bool, true, false, not, ◌&&◌, ◌||◌, Option, none, some, List, [], ◌∷◌, map, find, any,
  count_where, update_where, ltb, leb, ◌==◌, if◌then◌else◌,
}
use mduara_api.Prelude.Text.{Text, text_eq}
use mduara_api.Prelude.Outcome.{Outcome, ok, ◌>>=◌, ◌>>◌, guard, require}
use mduara_api.Poll.Double.{double_of, percentage, reaches}
use mduara_api.Poll.Types.{
  DecisionType, general, PollStatus, draft, open_, closed, cancelled, CloseReason, deadline,
  full_turnout, Poll, PollOption, Vote, Tables, Failure, poll_not_found,
}

abbrev pub is_closed : PollStatus → Bool
is_closed closed = true
is_closed _ = false

abbrev pub is_over : PollStatus → Bool
is_over closed = true
is_over cancelled = true
is_over _ = false

abbrev pub is_draft : PollStatus → Bool
is_draft draft = true
is_draft _ = false

abbrev pub is_open : PollStatus → Bool
is_open open_ = true
is_open _ = false

-- `lockPoll`
abbrev pub lock_poll : ℕ → Tables → Outcome Failure Poll
lock_poll poll_id s = require (find (λ p. p.id == poll_id) s.polls) poll_not_found

abbrev pub coalesce : {A : Type 0} → Option A → A → Option A
coalesce none fallback = some fallback
coalesce (some value) fallback = some value

-- `SET status = 'closed', closed_at = COALESCE(closed_at, now), close_reason = COALESCE(…)`
abbrev pub closed_by : ℕ → CloseReason → Poll → Poll
closed_by now reason p = record p {
  status = closed;
  closed_at = coalesce p.closed_at now;
  close_reason = coalesce p.close_reason reason;
}

abbrev pub opened : Poll → Poll
opened p = record p { status = open_ }

-- `WHERE id = … AND status IN ('draft','open')`
abbrev pub is_pending_poll : ℕ → Poll → Bool
is_pending_poll id p = p.id == id && not (is_over p.status)

abbrev pub update_polls : (Poll → Bool) → (Poll → Poll) → Tables → Tables
update_polls p f s = record s { polls = update_where p f s.polls }

abbrev pub close_poll : ℕ → ℕ → CloseReason → Tables → Tables
close_poll id now reason = update_polls (is_pending_poll id) (closed_by now reason)

abbrev pub open_poll : ℕ → Tables → Tables
open_poll id = update_polls (λ p. p.id == id && is_draft p.status) opened

abbrev pub eligible_count : ℕ → Tables → ℕ
eligible_count poll_id s = count_where (λ e. e.poll_id == poll_id) s.voters

abbrev pub has_voted : ℕ → ℕ → List Vote → Bool
has_voted poll_id member_id votes =
    any (λ v. v.poll_id == poll_id && v.member_id == member_id) votes

-- The eligible voters who have voted: a voter is one row.
abbrev pub voted_count : ℕ → Tables → ℕ
voted_count poll_id s =
    count_where (λ e. e.poll_id == poll_id && has_voted e.poll_id e.member_id s.votes) s.voters

abbrev pub has_begun : ℕ → Option ℕ → Bool
has_begun now none = true
has_begun now (some time) = leb time now

abbrev pub is_full_turnout : ℕ → Tables → Bool
is_full_turnout poll_id s =
    ltb 0 (eligible_count poll_id s) && leb (eligible_count poll_id s) (voted_count poll_id s)

-- `refreshLockedPoll`
unfoldable pub refresh_locked_poll : Poll → ℕ → Tables → Tables
refresh_locked_poll poll now s =
    if is_over poll.status
    then s
    else if is_full_turnout poll.id s
    then close_poll poll.id now full_turnout s
    else if leb poll.closes_at now
    then close_poll poll.id now deadline s
    else if is_draft poll.status && has_begun now poll.opens_at
    then open_poll poll.id s
    else s

pub record Tally : Type 0 where
  pub option_id : ℕ
  pub code : Text
  pub votes : ℕ

abbrev pub comes_before : PollOption → PollOption → Bool
comes_before a b = ltb a.sort_order b.sort_order || a.sort_order == b.sort_order && leb a.id b.id

abbrev pub insert_option : PollOption → List PollOption → List PollOption
insert_option o [] = o ∷ []
insert_option o (x ∷ others) =
    let rest = insert_option o others in if comes_before o x then o ∷ x ∷ others else x ∷ rest

-- `WHERE poll_id = … ORDER BY sort_order, id`
abbrev pub options_of : ℕ → List PollOption → List PollOption
options_of poll_id [] = []
options_of poll_id (o ∷ others) =
    let rest = options_of poll_id others in
    if o.poll_id == poll_id then insert_option o rest else rest

abbrev pub tally_of : List Vote → PollOption → Tally
tally_of votes o = record {
  option_id = o.id;
  code = o.code;
  votes = count_where (λ v. v.option_id == o.id && v.poll_id == o.poll_id) votes;
}

abbrev pub tallies_of : ℕ → Tables → List Tally
tallies_of poll_id s = map (tally_of s.votes) (options_of poll_id s.options)

abbrev pub votes_cast : List Tally → ℕ
votes_cast [] = 0
votes_cast (t ∷ tallies) = t.votes + votes_cast tallies

abbrev pub max_votes : List Tally → ℕ
max_votes [] = 0
max_votes (t ∷ tallies) = let rest = max_votes tallies in if ltb rest t.votes then t.votes else rest

abbrev pub codes_with : ℕ → List Tally → List Text
codes_with votes [] = []
codes_with votes (t ∷ tallies) =
    let rest = codes_with votes tallies in if t.votes == votes then t.code ∷ rest else rest

-- `winningOptionCodes`
abbrev pub winning_codes : List Tally → List Text
winning_codes tallies =
    let most = max_votes tallies in if most == 0 then [] else codes_with most tallies

abbrev pub only_code : List Text → Option Text
only_code (code ∷ []) = some code
only_code _ = none

abbrev pub tally_with : Option Text → List Tally → Option Tally
tally_with none tallies = none
tally_with (some code) tallies = find (λ t. text_eq t.code code) tallies

-- `poll.action_option_code ? … : …`
abbrev pub action_row : Option Text → List Tally → Option Tally
action_row none tallies = tally_with (only_code (winning_codes tallies)) tallies
action_row (some []) tallies = tally_with (only_code (winning_codes tallies)) tallies
action_row (some (c ∷ code)) tallies = tally_with (some (c ∷ code)) tallies

-- `turnoutPct >= quorumThreshold`
unfoldable pub is_quorum : ℕ → ℕ → ℕ → Bool
unfolding percentage reaches double_of
is_quorum cast eligible threshold =
    let turnout =
      if eligible == 0 then record { mantissa = 0; shift = 0 } else percentage cast eligible in
    reaches turnout (double_of threshold 100)

-- `actionVotePct !== null && actionVotePct >= majorityThreshold`
unfoldable pub is_majority : Option Tally → ℕ → ℕ → Bool
unfolding percentage reaches double_of
is_majority none cast threshold = false
is_majority (some t) cast threshold =
    not (cast == 0) && reaches (percentage t.votes cast) (double_of threshold 100)

-- What `evaluateLockedPoll` returns, but for what it copies from the poll only to show it.
pub record Evaluation : Type 0 where
  pub poll : Poll
  pub eligible : ℕ
  pub votes_cast : ℕ
  pub quorum_met : Bool
  pub tallies : List Tally
  pub winning_codes : List Text
  pub action : Option Tally
  pub majority_met : Bool
  pub actionable : Bool

abbrev pub is_general : DecisionType → Bool
is_general general = true
is_general _ = false

abbrev pub is_unset : {A : Type 0} → Option A → Bool
is_unset none = true
is_unset (some value) = false

unfoldable pub evaluation : Poll → Tables → Evaluation
unfolding is_quorum is_majority
evaluation poll s =
    let tallies = tallies_of poll.id s in
    let cast = votes_cast tallies in
    let quorum = is_quorum cast (eligible_count poll.id s) poll.quorum_threshold in
    let action = action_row poll.action_option_code tallies in
    let majority = quorum && is_majority action cast poll.majority_threshold in
    record {
      poll = poll;
      eligible = eligible_count poll.id s;
      votes_cast = cast;
      quorum_met = quorum;
      tallies = tallies;
      winning_codes = winning_codes tallies;
      action = action;
      majority_met = majority;
      actionable =
          is_closed poll.status
          && majority
          && is_unset poll.acted_at
          && not (is_general poll.decision_type);
    }

-- `evaluateLockedPoll`
unfoldable pub evaluate_locked_poll : ℕ → ℕ → ℕ → Tables → Outcome Failure (Evaluation × Tables)
unfolding refresh_locked_poll evaluation
evaluate_locked_poll poll_id chama_id now s = do
  poll ← lock_poll poll_id s
  guard (poll.chama_id == chama_id) poll_not_found
  let refreshed = refresh_locked_poll poll now s
  current ← lock_poll poll_id refreshed
  ok (evaluation current refreshed, refreshed)

-- `evaluatePollWithinTransaction`
unfoldable pub evaluate_poll_within_transaction :
    ℕ → ℕ → ℕ → Tables → Outcome Failure (Evaluation × Tables)
unfolding refresh_locked_poll evaluate_locked_poll
evaluate_poll_within_transaction poll_id chama_id now s = do
  poll ← lock_poll poll_id s
  guard (poll.chama_id == chama_id) poll_not_found
  evaluate_locked_poll poll_id chama_id now (refresh_locked_poll poll now s)
