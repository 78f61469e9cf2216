-- ===== src/Trust/Tests.antt =====
-- Scores of members (services/trust-score.service.ts).
use mduara_api.Prelude.{ℕ, ◌≡◌, refl, ◌∷◌, [], none, some}
use mduara_api.Poll.Double.{double_of, reaches}
use mduara_api.Trust.Types.{
  ContributionPayment, Member, Records, paid, late, confirmed, active, defaulted,
}
use mduara_api.Trust.Score.{inputs_of, score_of, due_score, add}

abbrev someone : Member
someone = record { id = 21; chama_id = 1; user_id = 11; status = active }

abbrev paid_part : ℕ → ContributionPayment
paid_part id = record {
  id = id;
  contribution_id = 41;
  chama_id = 1;
  member_id = 21;
  amount = 100;
  provider_reference = none;
  status = confirmed;
  paid_at = 5;
}

-- One contribution paid on time, one missed.
abbrev history : Records
history = record {
  contributions =
      (record {
        id = 41;
        chama_id = 1;
        member_id = 21;
        expected_amount = 300;
        due_date = 6;
        status = paid;
        missed_at = none;
      })
      ∷ (record {
        id = 42;
        chama_id = 1;
        member_id = 21;
        expected_amount = 300;
        due_date = 7;
        status = late;
        missed_at = some 8;
      })
      ∷ [];
  payments = record (paid_part 51) { amount = 300 } ∷ [];
  members = someone ∷ [];
  formulas = [];
  snapshots = [];
}

score_paid_at_once : score_of (inputs_of 10 someone history) ≡ 60
unfolding score_of due_score add double_of reaches
score_paid_at_once = refl

-- The same contribution, paid in three parts, counts three times.
score_paid_in_parts :
    score_of (
      inputs_of 10 someone
        (record history { payments = paid_part 51 ∷ paid_part 52 ∷ paid_part 53 ∷ [] }))
    ≡ 80
unfolding score_of due_score add double_of reaches
score_paid_in_parts = refl

defaulted_scores_nothing :
    score_of (inputs_of 10 (record someone { status = defaulted }) history) ≡ 0
unfolding score_of
defaulted_scores_nothing = refl
