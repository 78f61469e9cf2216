-- ===== src/Loan/Requests.antt =====
-- What members, guarantors, officials and the payout gateway ask of services/loan.service.ts, as
-- requests that are served one transaction at a time.
use mduara_api.Prelude.{ℕ, Bool, Option, List, [], ◌∷◌}
use mduara_api.Prelude.Text.{Text}
use mduara_api.Mpesa.{B2cResult}
use mduara_api.Loan.Types.{Db}
use mduara_api.Loan.Service.{
  ApplyInput, apply, accept_guarantee, approve, record_dispatch, reject, record_repayment_intent,
  process_b2c_timeout, state_or, RuleInput, upsert_rule,
}

pub data Request : Type 0 where
  application : Bool → Option (Option ℕ) → ℕ → ℕ → ApplyInput → Request
  acceptance rejection : ℕ → ℕ → Request
  approval : Bool → ℕ → ℕ → Request
  dispatch : ℕ → ℕ → Text → ℕ → Request
  repayment : Bool → ℕ → ℕ → ℕ → Request
  timeout : B2cResult → Request
  rule_change : ℕ → ℕ → RuleInput → Request

-- A request that fails is rolled back.
unfoldable pub serve : Request → Db → Db
unfolding apply accept_guarantee reject approve record_dispatch record_repayment_intent
    process_b2c_timeout upsert_rule
serve (application production access now user_id input) s =
    state_or (apply production access now user_id input s) s
serve (acceptance user_id loan_id) s = state_or (accept_guarantee user_id loan_id s) s
serve (rejection user_id loan_id) s = state_or (reject user_id loan_id s) s
serve (approval production user_id loan_id) s = state_or (approve production user_id loan_id s) s
serve (dispatch user_id loan_id reference now) s =
    state_or (record_dispatch user_id loan_id reference now s) s
serve (repayment production user_id loan_id amount) s =
    state_or (record_repayment_intent production user_id loan_id amount s) s
serve (timeout r) s = state_or (process_b2c_timeout r s) s
serve (rule_change user_id chama_id input) s = state_or (upsert_rule user_id chama_id input s) s

abbrev pub serve_all : List Request → Db → Db
serve_all [] s = s
serve_all (r ∷ rs) s = serve_all rs (serve r s)
