-- ===== src/Loan/Samples.antt =====
-- Tables and results of the provider for the runs of the loan service.
use mduara_api.Prelude.{true, none, some, List, [], ◌∷◌}
use mduara_api.Prelude.Int.{ℤ, pos}
use mduara_api.Prelude.Text.{codes}
use mduara_api.Prelude.Outcome.{Outcome, ok, err}
use mduara_api.Roles.{chairperson, member}
use mduara_api.Mpesa.{B2cResult, number}
use mduara_api.Loan.Types.{
  LoanStatus, rejected, PaymentStatus, Member, Loan, Disbursement, Db, Failure, treasurer_approved,
}

abbrev pub loan_in : LoanStatus → Loan
loan_in status = record {
  id = 5;
  chama_id = 1;
  member_id = 11;
  principal_amount = 300;
  total_due = 330;
  status = status;
}

abbrev pub borrower : Member
borrower = record {
  id = 11;
  chama_id = 1;
  user_id = 21;
  role = member;
  is_active = true;
  phone = some (codes "254700000001");
}

abbrev pub chair : Member
chair = record {
  id = 12;
  chama_id = 1;
  user_id = 22;
  role = chairperson;
  is_active = true;
  phone = none;
}

abbrev pub payout : PaymentStatus → Disbursement
payout status = record {
  loan_id = 5;
  amount = 300;
  status = status;
  provider_reference = some (codes "AG_1");
  dispatched_at = some 50;
}

-- A loan whose treasurer has approved it and whose guarantor covers it.
abbrev pub tables : LoanStatus → List Disbursement → Db
tables status disbursements = record {
  ledger = record {
    chamas = record { id = 1; pooled_amount = 1000 } ∷ [];
    transactions = [];
    next_id = 100;
  };
  members = borrower ∷ chair ∷ [];
  loans = loan_in status ∷ [];
  guarantees =
      record { loan_id = 5; member_id = 13; guaranteed_amount = 300; is_approved = true } ∷ [];
  rules =
      record {
        chama_id = 1;
        interest_rate_hundredths = 1000;
        multiplier_hundredths = 300;
        min_guarantors = 1;
        max_term_days = none;
        interest_cycle_days = none;
      }
      ∷ [];
  disbursements = disbursements;
  repayments = [];
  payments = [];
  audits = record { loan_id = some 5; action = treasurer_approved; actor_id = some 23 } ∷ [];
  next_id = 200;
}

abbrev pub result : ℤ → B2cResult
result code = record {
  conversation_id = some (codes "AG_1 ");
  result_code = some code;
  transaction_id = some (codes "SAF1");
  receipt_parameter = none;
  transaction_parameter = none;
  amount_parameter = number (pos 300);
}

abbrev pub db_of : {A : Type 0} → Outcome Failure (A × Db) → Db
db_of (ok (a, s)) = s
db_of (err e) = tables rejected []
