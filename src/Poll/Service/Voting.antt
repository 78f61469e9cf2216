-- ===== src/Poll/Service/Voting.antt =====
-- `createPoll`, `vote` and `getResults` (services/poll.service.ts).
use mduara_api.Prelude.{
  ℕ, ◌+◌, ◌*◌, ◌-◌, Bool, true, false, ◌&&◌, ◌||◌, Option, none, some, List, [], ◌∷◌, ◌++◌, find,
  any, ltb, leb, ◌==◌, if◌then◌else◌, length,
}
use mduara_api.Prelude.Text.{Text, text_eq}
use mduara_api.Prelude.Outcome.{Outcome, ◌>>=◌, ◌>>◌, guard, refuse, require}
use mduara_api.Roles.{chairperson, role_eq}
use mduara_api.Poll.Types.{
  DecisionType, PollStatus, draft, open_, cancelled, MembershipStatus, active, Poll, PollOption,
  EligibleVoter, Vote, Member, Constitution, Tables, Failure, create_forbidden,
  constitution_missing, time_invalid, window_invalid, window_too_long, no_eligible_voters,
  poll_cancelled, poll_closed, poll_not_open, voter_ineligible, vote_already_cast, option_not_found,
  results_forbidden,
}
use mduara_api.Poll.Service.Tally.{
  Evaluation, lock_poll, refresh_locked_poll, evaluate_locked_poll, is_closed, is_open, has_begun,
  has_voted,
}

abbrev pub is_active_member : MembershipStatus → Bool
is_active_member active = true
is_active_member _ = false

abbrev pub is_member_of : ℕ → ℕ → Member → Bool
is_member_of chama_id user_id m =
    m.chama_id == chama_id && m.user_id == user_id && is_active_member m.status

abbrev pub is_chair_of : ℕ → ℕ → Member → Bool
is_chair_of chama_id user_id m = is_member_of chama_id user_id m && role_eq m.role chairperson

abbrev pub find_constitution : ℕ → Tables → Option Constitution
find_constitution chama_id s = find (λ c. c.chama_id == chama_id && c.is_active) s.constitutions

-- `CreatePollInput`: the dates are `none` where they do not parse.
pub record PollInput : Type 0 where
  pub decision_type : DecisionType
  pub target : Option ℕ
  pub action_option_code : Option Text
  pub opens_at : Option (Option ℕ)
  pub closes_at : Option ℕ
  pub options : List (Text × Text)

-- `input.opensAt ? new Date(input.opensAt) : now`
abbrev pub opening : Option (Option ℕ) → ℕ → Option ℕ
opening none now = some now
opening (some time) now = time

abbrev pub new_poll : ℕ → ℕ → ℕ → PollInput → Constitution → ℕ → ℕ → ℕ → Poll
new_poll id actor_id chama_id input rule opens_at closes_at now = record {
  id = id;
  chama_id = chama_id;
  chama_rule_id = some rule.id;
  decision_type = input.decision_type;
  target = input.target;
  action_option_code = input.action_option_code;
  quorum_threshold = rule.quorum_threshold;
  majority_threshold = rule.majority_threshold;
  status = if leb opens_at now then open_ else draft;
  opens_at = some opens_at;
  closes_at = closes_at;
  created_by = actor_id;
  closed_at = none;
  close_reason = none;
  acted_at = none;
}

-- The rows of the options, from the index `i` on; ids are drawn in turn.
abbrev pub option_rows : ℕ → ℕ → ℕ → List (Text × Text) → List PollOption
option_rows poll_id id i [] = []
option_rows poll_id id i ((code, label) ∷ others) =
    (record { id = id; poll_id = poll_id; code = code; label = label; sort_order = i })
    ∷ option_rows poll_id (id + 1) (i + 1) others

-- `INSERT INTO poll_eligible_voters … SELECT … WHERE membership_status = 'active'`
abbrev pub voters_for : ℕ → ℕ → List Member → List EligibleVoter
voters_for poll_id chama_id [] = []
voters_for poll_id chama_id (m ∷ others) =
    let rest = voters_for poll_id chama_id others in
    if m.chama_id == chama_id && is_active_member m.status
    then (record { poll_id = poll_id; member_id = m.id }) ∷ rest
    else rest

abbrev pub is_any : {A : Type 0} → List A → Bool
is_any [] = false
is_any (x ∷ xs) = true

abbrev pub insert_poll : Poll → List (Text × Text) → Tables → Tables
insert_poll poll options s = record s {
  polls = s.polls ++ poll ∷ [];
  options = s.options ++ option_rows poll.id (s.next_id + 1) 0 options;
  voters = s.voters ++ voters_for poll.id poll.chama_id s.members;
  next_id = s.next_id + 1 + length options;
}

unfoldable pub create_poll : ℕ → ℕ → PollInput → ℕ → Tables → Outcome Failure (Evaluation × Tables)
unfolding evaluate_locked_poll
create_poll actor_id chama_id input now s = do
  guard (any (is_chair_of chama_id actor_id) s.members) create_forbidden
  rule ← require (find_constitution chama_id s) constitution_missing
  opens_at ← require (opening input.opens_at now) time_invalid
  closes_at ← require input.closes_at time_invalid
  refuse (leb closes_at opens_at || leb closes_at now) window_invalid
  refuse (ltb (90 * 86_400_000) (closes_at - opens_at)) window_too_long
  guard (is_any (voters_for s.next_id chama_id s.members)) no_eligible_voters
  evaluate_locked_poll s.next_id chama_id now (
      insert_poll (new_poll s.next_id actor_id chama_id input rule opens_at closes_at now)
        input.options s)

-- `VotePollInput`
pub record VoteInput : Type 0 where
  pub option_id : Option ℕ
  pub option_code : Option Text

abbrev pub is_id : Option ℕ → ℕ → Bool
is_id none id = false
is_id (some wanted) id = id == wanted

abbrev pub is_code : Option Text → Text → Bool
is_code none code = false
is_code (some wanted) code = text_eq code wanted

abbrev pub is_chosen : ℕ → VoteInput → PollOption → Bool
is_chosen poll_id input o =
    o.poll_id == poll_id && (is_id input.option_id o.id || is_code input.option_code o.code)

abbrev pub is_eligible : ℕ → ℕ → List EligibleVoter → Bool
is_eligible poll_id member_id voters =
    any (λ e. e.poll_id == poll_id && e.member_id == member_id) voters

abbrev pub is_voter : Poll → ℕ → Tables → Member → Bool
is_voter poll actor_id s m =
    is_member_of poll.chama_id actor_id m && is_eligible poll.id m.id s.voters

abbrev pub new_vote : ℕ → ℕ → ℕ → ℕ → Vote
new_vote id poll_id member_id option_id = record {
  id = id;
  poll_id = poll_id;
  member_id = member_id;
  option_id = option_id;
}

abbrev pub insert_vote : ℕ → ℕ → ℕ → Tables → Tables
insert_vote poll_id member_id option_id s = record s {
  votes = s.votes ++ new_vote s.next_id poll_id member_id option_id ∷ [];
  next_id = s.next_id + 1;
}

abbrev pub is_cancelled : PollStatus → Bool
is_cancelled cancelled = true
is_cancelled _ = false

unfoldable pub vote : ℕ → ℕ → VoteInput → ℕ → Tables → Outcome Failure (Evaluation × Tables)
unfolding refresh_locked_poll evaluate_locked_poll
vote actor_id poll_id input now s₀ = do
  poll ← lock_poll poll_id s₀
  let s = refresh_locked_poll poll now s₀
  current ← lock_poll poll_id s
  refuse (is_cancelled current.status) poll_cancelled
  refuse (is_closed current.status) poll_closed
  guard (has_begun now current.opens_at) poll_not_open
  guard (is_open current.status) poll_not_open
  member ← require (find (is_voter current actor_id s) s.members) voter_ineligible
  refuse (has_voted poll_id member.id s.votes) vote_already_cast
  option ← require (find (is_chosen poll_id input) s.options) option_not_found
  evaluate_locked_poll poll_id current.chama_id now
      (refresh_locked_poll current now (insert_vote poll_id member.id option.id s))

unfoldable pub get_results : ℕ → ℕ → ℕ → Tables → Outcome Failure (Evaluation × Tables)
unfolding refresh_locked_poll evaluate_locked_poll
get_results actor_id poll_id now s = do
  poll ← lock_poll poll_id s
  guard (any (is_member_of poll.chama_id actor_id) s.members) results_forbidden
  evaluate_locked_poll poll_id poll.chama_id now (refresh_locked_poll poll now s)
