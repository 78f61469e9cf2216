-- ===== src/Loan/Histories.antt =====
-- What a loan's row can become while requests of services/loan.service.ts are served.
use mduara_api.Prelude.{
  ℕ, ◌≡◌, refl, sym, ap, ◌∙◌, true, Option, none, some, List, [], ◌∷◌, inl, inr,
}
use mduara_api.Prelude.Outcome.{Outcome, ok, err}
use mduara_api.Loan.Types.{LoanStatus, rejected, Loan, Db, Failure}
use mduara_api.Loan.Queries.{find_loan}
use mduara_api.Loan.Service.{
  apply, accept_guarantee, approve, record_dispatch, reject, record_repayment_intent,
  process_b2c_timeout, state_or, upsert_rule,
}
use mduara_api.Loan.Requests.{
  Request, serve, serve_all, application, acceptance, rejection, approval, dispatch, repayment,
  timeout, rule_change,
}
use mduara_api.Loan.Transitions.{
  is_edge, Follows, Moves, Follows-refl, apply-Moves, accept_guarantee-Moves, reject-Moves,
  approve-Moves, record_dispatch-Moves, record_repayment_intent-Moves, process_b2c_timeout-Moves,
  upsert_rule-Moves,
}

state_or-Follows :
    (i : ℕ) (s : Db) {A : Type 0} (m : Outcome Failure (A × Db))
    → Moves i s m
    → Follows (find_loan i s.loans) (find_loan i (state_or m s).loans)
state_or-Follows i s (ok (a, t)) h = h
state_or-Follows i s (err e) h = Follows-refl (find_loan i s.loans)

serve-Follows :
    (i : ℕ) (s : Db) (r : Request) → Follows (find_loan i s.loans) (find_loan i (serve r s).loans)
unfolding serve
serve-Follows i s (application production access now user_id input) =
    state_or-Follows i s (apply production access now user_id input s)
      (apply-Moves i s production access now user_id input)
serve-Follows i s (acceptance user_id loan_id) =
    state_or-Follows i s (accept_guarantee user_id loan_id s)
      (accept_guarantee-Moves i s user_id loan_id)
serve-Follows i s (rejection user_id loan_id) =
    state_or-Follows i s (reject user_id loan_id s) (reject-Moves i s user_id loan_id)
serve-Follows i s (approval production user_id loan_id) =
    state_or-Follows i s (approve production user_id loan_id s)
      (approve-Moves i s production user_id loan_id)
serve-Follows i s (dispatch user_id loan_id reference now) =
    state_or-Follows i s (record_dispatch user_id loan_id reference now s)
      (record_dispatch-Moves i s user_id loan_id reference now)
serve-Follows i s (repayment production user_id loan_id amount) =
    state_or-Follows i s (record_repayment_intent production user_id loan_id amount s)
      (record_repayment_intent-Moves i s production user_id loan_id amount)
serve-Follows i s (timeout r) =
    state_or-Follows i s (process_b2c_timeout r s) (process_b2c_timeout-Moves i s r)
serve-Follows i s (rule_change user_id chama_id input) =
    state_or-Follows i s (upsert_rule user_id chama_id input s)
      (upsert_rule-Moves i s user_id chama_id input)

-- Statuses joined by edges of the life of a loan, the earlier one first.
pub data Reaches : LoanStatus → LoanStatus → Type 0 where
  stay : (a : LoanStatus) → Reaches a a
  move : (a b c : LoanStatus) → is_edge a b ≡ true → Reaches b c → Reaches a c

-- What has become of a loan, if it was there.
abbrev pub Develops : Option Loan → Option Loan → Type 0
Develops none after = Unit
Develops (some l) none = ⊥
Develops (some l) (some l') = (l' ≡ record l { status = l'.status }) × Reaches l.status l'.status

abbrev with_status : LoanStatus → Loan → Loan
with_status status l = record l { status = status }

Follows-Develops : (a b c : Option Loan) → Follows a b → Develops b c → Develops a c
Follows-Develops none b c f d = tt
Follows-Develops (some l) none c f d = elim f [ ]
Follows-Develops (some l) (some m) none f d = d
Follows-Develops (some l) (some m) (some n) (e, inl same) (e', r) =
    (e' ∙ ap (with_status n.status) e, rw (sym same) r)
Follows-Develops (some l) (some m) (some n) (e, inr edge) (e', r) =
    (e' ∙ ap (with_status n.status) e, move l.status m.status n.status edge r)

Develops-refl : (o : Option Loan) → Develops o o
Develops-refl none = tt
Develops-refl (some l) = (refl, stay l.status)

-- Over any sequence of applications, acceptances, approvals, dispatches, rejections, repayments,
-- timeouts and changes of the rules, a loan that was there is there, with its terms, and its status is one that the
-- edges of `is_edge` lead to from the one it had.
pub serve_all-Develops :
    (i : ℕ) (rs : List Request) (s : Db)
    → Develops (find_loan i s.loans) (find_loan i (serve_all rs s).loans)
serve_all-Develops i [] s = Develops-refl (find_loan i s.loans)
serve_all-Develops i (r ∷ rs) s =
    Follows-Develops (find_loan i s.loans) (find_loan i (serve r s).loans)
      (find_loan i (serve_all rs (serve r s)).loans) (serve-Follows i s r)
      (serve_all-Develops i rs (serve r s))

Reaches-rejected : {a b : LoanStatus} → Reaches a b → a ≡ rejected → b ≡ rejected
Reaches-rejected (stay a) h = h
Reaches-rejected (move a b c edge r) h = elim (no_edge b (rw h at edge)) [ ]
  where
    no_edge : (b : LoanStatus) → is_edge rejected b ≡ true → ⊥
    no_edge _ e = cc

Develops-rejected :
    (l : Loan) (after : Option Loan)
    → l.status ≡ rejected
    → Develops (some l) after
    → after ≡ some l
Develops-rejected l none h d = elim d [ ]
Develops-rejected l (some l') h (e, r) =
    ap some (e ∙ ap (λ st. with_status st l) (Reaches-rejected r h ∙ sym h))

-- A rejected loan is the same row after any sequence of applications, acceptances, approvals,
-- dispatches, rejections, repayments, timeouts and changes of the rules.
pub serve_all_rejected :
    (i : ℕ) (rs : List Request) (s : Db) (l : Loan)
    → find_loan i s.loans ≡ some l
    → l.status ≡ rejected
    → find_loan i (serve_all rs s).loans ≡ some l
serve_all_rejected i rs s l f h =
    Develops-rejected l (find_loan i (serve_all rs s).loans) h (rw f at (serve_all-Develops i rs s))
