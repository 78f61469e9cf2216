-- ===== src/Poll/Types.antt =====
-- The tables that services/poll.service.ts reads and writes.
use mduara_api.Prelude.{ℕ, Bool, Option, List}
use mduara_api.Prelude.Text.{Text}
use mduara_api.Roles.{Role}

pub data DecisionType : Type 0 where
  general rule_amendment member_removal dissolution payout_order_dispute : DecisionType

pub data PollStatus : Type 0 where
  draft open_ closed cancelled : PollStatus

pub data CloseReason : Type 0 where
  deadline full_turnout : CloseReason

pub data MembershipStatus : Type 0 where
  pending active suspended defaulted exited : MembershipStatus

-- Of `decision_payload` the member that a member_removal names, if the payload is valid; thresholds
-- are in hundredths of a percent (`NUMERIC(5,2)`).
pub record Poll : Type 0 where
  pub id : ℕ
  pub chama_id : ℕ
  pub chama_rule_id : Option ℕ
  pub decision_type : DecisionType
  pub target : Option ℕ
  pub action_option_code : Option Text
  pub quorum_threshold : ℕ
  pub majority_threshold : ℕ
  pub status : PollStatus
  pub opens_at : Option ℕ
  pub closes_at : ℕ
  pub created_by : ℕ
  pub closed_at : Option ℕ
  pub close_reason : Option CloseReason
  pub acted_at : Option ℕ

pub record PollOption : Type 0 where
  pub id : ℕ
  pub poll_id : ℕ
  pub code : Text
  pub label : Text
  pub sort_order : ℕ

-- A row of poll_eligible_voters.
pub record EligibleVoter : Type 0 where
  pub poll_id : ℕ
  pub member_id : ℕ

pub record Vote : Type 0 where
  pub id : ℕ
  pub poll_id : ℕ
  pub member_id : ℕ
  pub option_id : ℕ

pub record Member : Type 0 where
  pub id : ℕ
  pub chama_id : ℕ
  pub user_id : ℕ
  pub role : Role
  pub status : MembershipStatus

-- A row of chama_rules.
pub record Constitution : Type 0 where
  pub id : ℕ
  pub chama_id : ℕ
  pub is_active : Bool
  pub quorum_threshold : ℕ
  pub majority_threshold : ℕ

pub record Audit : Type 0 where
  pub actor_id : ℕ
  pub chama_id : ℕ
  pub membership_id : ℕ
  pub poll_id : ℕ

pub record Tables : Type 0 where
  pub polls : List Poll
  pub options : List PollOption
  pub voters : List EligibleVoter
  pub votes : List Vote
  pub members : List Member
  pub constitutions : List Constitution
  pub audits : List Audit
  pub next_id : ℕ

pub data Failure : Type 0 where
  create_forbidden constitution_missing time_invalid window_invalid window_too_long : Failure
  no_eligible_voters poll_not_found poll_cancelled poll_closed poll_not_open : Failure
  voter_ineligible vote_already_cast option_not_found results_forbidden : Failure
  action_forbidden poll_not_closed already_acted action_not_approved : Failure
  use_constitution_endpoint dissolution_not_configured payout_not_configured : Failure
  general_has_no_action payload_invalid target_not_found member_already_exited : Failure
  last_chairperson : Failure
