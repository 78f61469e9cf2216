-- ===== src/Loan/Transitions.antt =====
-- The life of a loan as a graph of statuses, which the operations of services/loan.service.ts
-- follow.
use mduara_api.Prelude.{
  ℕ, ◌≡◌, ◌⊎◌, refl, sym, ap, ◌∙◌, Bool, true, false, ◌&&◌, Option, none, some, List, [], ◌∷◌, ◌++◌,
  arith, update_where, ◌==◌, if◌then◌else◌, inl, inr, find, find-true, find-append_some,
  find-update_where, Option-cases,
}
use mathlib.Core.Option
use mduara_api.Prelude.Outcome.{Outcome, ok, err, Outcome-cases}
use mduara_api.Mpesa.{B2cResult, trim_or_empty}
use mduara_api.Prelude.Text.{Text}
use mduara_api.Loan.Types.{
  LoanStatus, awaiting_guarantors, pending_admin_approval, partially_approved, disbursement_pending,
  disbursement_failed, rejected, Loan, Rule, Db, Failure,
}
use mduara_api.Loan.Queries.{
  find_loan, is_disbursement_pending, get_active_loan_rule, get_active_membership,
}
use mduara_api.Loan.Service.{
  ApplyInput, new_loan, apply, accept_guarantee, approve, record_dispatch, reject,
  record_repayment_intent, process_b2c_timeout, find_context, RuleInput, write_rule, audit_rule,
  upsert_rule,
}

-- The transitions that members and officials make, and those of a payout that does not come about.
abbrev pub is_edge : LoanStatus → LoanStatus → Bool
is_edge awaiting_guarantors pending_admin_approval = true
is_edge pending_admin_approval partially_approved = true
is_edge partially_approved disbursement_pending = true
is_edge disbursement_pending disbursement_failed = true
is_edge awaiting_guarantors rejected = true
is_edge pending_admin_approval rejected = true
is_edge partially_approved rejected = true
is_edge disbursement_failed rejected = true
is_edge _ _ = false

-- A loan that was there is there, with its terms, and its status is the same or moved by an edge.
abbrev pub Follows : Option Loan → Option Loan → Type 0
Follows none after = Unit
Follows (some l) none = ⊥
Follows (some l) (some l') =
    (l' ≡ record l { status = l'.status })
    × ((l'.status ≡ l.status) ⊎ (is_edge l.status l'.status ≡ true))

abbrev pub Moves : ℕ → Db → {A : Type 0} → Outcome Failure (A × Db) → Type 0
Moves i s (ok (a, s')) = Follows (find_loan i s.loans) (find_loan i s'.loans)
Moves i s (err e) = Unit

pub Follows-refl : (o : Option Loan) → Follows o o
Follows-refl none = tt
Follows-refl (some l) = (refl, inl refl)

Follows-map :
    (p : Loan → Bool) (status : LoanStatus) (o : Option Loan)
    → ((l : Loan) → o ≡ some l → p l ≡ true → is_edge l.status status ≡ true)
    → Follows o (Option.map (λ l. if p l then record l { status = status } else l) o)
Follows-map p status none h = tt
Follows-map p status (some l) h = ground (arith, h l refl)

-- The id is the primary key: rows that are found with one id are one row.
pub same_row :
    (i k : ℕ) (loans : List Loan) {l loan : Loan}
    → find_loan i loans ≡ some l
    → find_loan k loans ≡ some loan
    → (l.id == loan.id) ≡ true
    → l ≡ loan
same_row i k loans {l} {loan} f e same =
    let il = find-true (λ x. x.id == i) loans f in
    let kl = find-true (λ x. x.id == k) loans e in
    let ik : i ≡ k = ground (arith, il, kl, same) in
    let q : some l ≡ some loan = sym f ∙ (ap (λ j. find_loan j loans) ik ∙ e) in cc

-- Setting the status of a loan along an edge.
set_status-Follows :
    (i : ℕ) (status : LoanStatus) (loans : List Loan) (loan : Loan) (loan_id : ℕ)
    → find_loan loan_id loans ≡ some loan
    → is_edge loan.status status ≡ true
    → Follows (find_loan i loans) (
        find_loan i (update_where (λ l. l.id == loan.id) (λ l. record l { status = status }) loans))
set_status-Follows i status loans loan loan_id e edge =
    rw
      (find-update_where (λ l. l.id == i) (λ l. l.id == loan.id) (λ l. record l { status = status })
        (λ l. refl) loans)
      (Follows-map (λ l. l.id == loan.id) status (find_loan i loans)
        (λ l f g. rw (same_row i loan_id loans f e g) edge))

edge_of_pending :
    (status : LoanStatus)
    → is_disbursement_pending status ≡ true
    → is_edge status disbursement_failed ≡ true
edge_of_pending disbursement_pending h = refl
edge_of_pending _ h = cc

-- The timeout moves only a loan whose payout is pending.
time_out-Follows :
    (i loan_id : ℕ) (loans : List Loan)
    → Follows (find_loan i loans) (
        find_loan i (
          update_where
            (λ l. l.id == loan_id && is_disbursement_pending l.status)
            (λ l. record l { status = disbursement_failed })
            loans))
time_out-Follows i loan_id loans =
    let p : Loan → Bool = λ l. l.id == loan_id && is_disbursement_pending l.status in
    rw
      (find-update_where (λ l. l.id == i) p (λ l. record l { status = disbursement_failed })
        (λ l. refl) loans)
      (Follows-map p disbursement_failed (find_loan i loans)
        (λ l e h. edge_of_pending l.status (ground (arith, h))))

append-Follows :
    (i : ℕ) (loans : List Loan) (loan : Loan)
    → Follows (find_loan i loans) (find_loan i (loans ++ loan ∷ []))
append-Follows i loans loan = elim (Option-cases (find_loan i loans)) [
  | inl e ↦ rw e tt
  | inr (l, e) ↦
      rw e (rw (find-append_some (λ x. x.id == i) loans (loan ∷ []) {x = l} e) (refl, inl refl))
]

module _ (i : ℕ) (s : Db) where
  pub accept_guarantee-Moves :
      (user_id loan_id : ℕ) → Moves i s (accept_guarantee user_id loan_id s)
  unfolding accept_guarantee
  accept_guarantee-Moves user_id loan_id = elim (Option-cases (find_loan loan_id s.loans)) [
    | inl e ↦ ground (arith, e)
    | inr (loan, e) ↦ ground (
      arith,
      e,
      set_status-Follows i pending_admin_approval s.loans loan loan_id e,
      Follows-refl (find_loan i s.loans),
    )
  ]

  pub reject-Moves : (user_id loan_id : ℕ) → Moves i s (reject user_id loan_id s)
  unfolding reject
  reject-Moves user_id loan_id = elim (Option-cases (find_loan loan_id s.loans)) [
    | inl e ↦ ground (arith, e)
    | inr (loan, e) ↦ ground (arith, e, set_status-Follows i rejected s.loans loan loan_id e)
  ]

  pub record_repayment_intent-Moves :
      (production : Bool) (user_id loan_id amount : ℕ)
      → Moves i s (record_repayment_intent production user_id loan_id amount s)
  unfolding record_repayment_intent
  record_repayment_intent-Moves production user_id loan_id amount =
      ground (arith, Follows-refl (find_loan i s.loans))

  pub record_dispatch-Moves :
      (user_id loan_id : ℕ) (reference : Text) (now : ℕ)
      → Moves i s (record_dispatch user_id loan_id reference now s)
  unfolding record_dispatch
  record_dispatch-Moves user_id loan_id reference now =
      ground (arith, Follows-refl (find_loan i s.loans))

  pub approve-Moves :
      (production : Bool) (user_id loan_id : ℕ) → Moves i s (approve production user_id loan_id s)
  unfolding approve
  approve-Moves production user_id loan_id = elim (Option-cases (find_loan loan_id s.loans)) [
    | inl e ↦ ground (arith, e)
    | inr (loan, e) ↦ ground (
      arith,
      e,
      set_status-Follows i partially_approved s.loans loan loan_id e,
      set_status-Follows i disbursement_pending s.loans loan loan_id e,
    )
  ]

  pub process_b2c_timeout-Moves : (r : B2cResult) → Moves i s (process_b2c_timeout r s)
  unfolding process_b2c_timeout
  process_b2c_timeout-Moves r =
      elim (Option-cases (find_context (trim_or_empty r.conversation_id) s)) [
        | inl e ↦ ground (arith, e)
        | inr ((d, l), e) ↦ ground (arith, e, time_out-Follows i d.loan_id s.loans)
      ]

  pub apply-Moves :
      (production : Bool) (access : Option (Option ℕ)) (now user_id : ℕ) (input : ApplyInput)
      → Moves i s (apply production access now user_id input s)
  unfolding apply
  apply-Moves production access now user_id input =
      elim (Outcome-cases (get_active_membership input.chama_id user_id s)) [
        | inl (e, x) ↦ ground (arith, x)
        | inr (m, x) ↦ elim (Outcome-cases (get_active_loan_rule input.chama_id s)) [
          | inl (e, y) ↦ ground (arith, x, y)
          | inr (rule, y) ↦
              ground (arith, x, y, append-Follows i s.loans (new_loan s.next_id input m.id rule))
        ]
      ]

  rules-Follows :
      (user_id chama_id : ℕ) (input : RuleInput) (rule : Option Rule)
      → Follows
          (find_loan i s.loans)
          (find_loan i (audit_rule user_id (write_rule rule chama_id input s)).loans)
  rules-Follows user_id chama_id input none = Follows-refl (find_loan i s.loans)
  rules-Follows user_id chama_id input (some rule) = Follows-refl (find_loan i s.loans)

  pub upsert_rule-Moves :
      (user_id chama_id : ℕ) (input : RuleInput) → Moves i s (upsert_rule user_id chama_id input s)
  unfolding upsert_rule
  upsert_rule-Moves user_id chama_id input =
      elim (Outcome-cases (get_active_membership chama_id user_id s)) [
        | inl (e, x) ↦ ground (arith, x)
        | inr (m, x) ↦ ground (
          arith,
          x,
          rules-Follows user_id chama_id input (find (λ r. r.chama_id == chama_id) s.rules),
        )
      ]
