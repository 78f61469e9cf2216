-- ===== src/Commitment/Escrow.antt =====
-- The money of a commitment is in escrow exactly while the deposit is held: what the columns of a
-- deposit and the escrow entries of the ledger have to do with one another
-- (services/commitment.service.ts).
use mduara_api.Prelude.{
  ℕ, ◌+◌, ◌≡◌, ◌≢◌, Bool, true, false, ◌&&◌, Option, none, some, [], ◌∷◌, arith, ◌==◌, ◌<◌,
}
use mduara_api.Prelude.Text.{Text, codes}
use mduara_api.Ledger.Journals.{two_entries, insert_journal-appends}
use mduara_api.Prelude.Outcome.{ok}
use mduara_api.Ledger.Types.{Account, commitment_escrow, Side, Entry, Ledger}
use mduara_api.Ledger.Triggers.{
  is_debit, is_credit, journal_total, journal_total-append, entry_total,
}
use mduara_api.Commitment.Types.{State, applied, forfeited, partial_forfeit, refunded, Deposit}
use mduara_api.Commitment.Trigger.{has_hold}
use mduara_api.Commitment.Service.{
  JournalKind, hold, refund, forfeit, insert_commitment_journal, journal_type, debited_account,
  credited_account,
}

abbrev is_escrow : Account → Bool
is_escrow commitment_escrow = true
is_escrow _ = false

abbrev is_member : Option ℕ → ℕ → Bool
is_member none m = false
is_member (some k) m = k == m

abbrev pub escrow_side : (Side → Bool) → ℕ → Entry → Bool
escrow_side side m e = is_member e.member_id m && is_escrow e.account && side e.side

-- What the ledger holds in escrow for a membership: credits in, debits out.
abbrev pub escrow_in : ℕ → Ledger → ℕ
escrow_in m l = journal_total (escrow_side is_credit m) l.transactions

abbrev pub escrow_out : ℕ → Ledger → ℕ
escrow_out m l = journal_total (escrow_side is_debit m) l.transactions

-- What should be in escrow in a state: the whole amount between the hold and the settlement.
abbrev pub in_custody : State → ℕ → ℕ
in_custody applied n = 0
in_custody forfeited n = 0
in_custody refunded n = 0
in_custody partial_forfeit n = 0
in_custody _ n = n

abbrev pub refunded_in : State → ℕ → ℕ
refunded_in refunded n = n
refunded_in _ n = 0

abbrev pub forfeited_in : State → ℕ → ℕ
forfeited_in forfeited n = n
forfeited_in _ n = 0

pub record IsBacked (d : Deposit) (l : Ledger) : Type 0 where
  pub escrow :
      escrow_out d.membership_id l + in_custody d.state d.amount ≡ escrow_in d.membership_id l
  pub refunded_exactly : d.refunded_amount ≡ refunded_in d.state d.amount
  pub forfeited_exactly : d.forfeited_amount ≡ forfeited_in d.state d.amount
  pub positive : 0 < d.amount
  pub hold_recorded : has_hold d.state d ≡ true
  pub never_partial : d.state ≢ partial_forfeit

abbrev gain : JournalKind → ℕ → ℕ
gain hold n = n
gain _ n = 0

abbrev loss : JournalKind → ℕ → ℕ
loss hold n = 0
loss _ n = n

-- A commitment journal moves its amount into or out of the escrow of its membership.
pub insert-escrow :
    (kind : JournalKind) (reference : Text) (d : Deposit) (n : ℕ) (l : Ledger) {i : ℕ} {l' : Ledger}
    → insert_commitment_journal kind reference d n l ≡ ok (i, l')
    → (escrow_in d.membership_id l' ≡ escrow_in d.membership_id l + gain kind n)
      × (escrow_out d.membership_id l' ≡ escrow_out d.membership_id l + loss kind n)
unfolding insert_commitment_journal
insert-escrow kind reference d n l {i} {l'} h =
    let (t, entries, reference_eq, id_eq, new, journals, chamas) =
      insert_journal-appends (journal_type kind) reference (codes "KES")
        (two_entries d.chama_id (some d.membership_id) (debited_account kind) (some d.membership_id)
          (credited_account kind) n)
        l {i = i} {s' = l'} (ground (arith, h)) in
    let credits =
      journal_total-append (escrow_side is_credit d.membership_id) l.transactions (t ∷ []) in
    let debits =
      journal_total-append (escrow_side is_debit d.membership_id) l.transactions (t ∷ []) in
    (
      rw (journals, credits, entries) (totals_in kind),
      rw (journals, debits, entries) (totals_out kind),
    )
  where
    totals_in :
        (k : JournalKind)
        → escrow_in d.membership_id l
            + (entry_total (escrow_side is_credit d.membership_id) (
                  two_entries d.chama_id
                    (some d.membership_id)
                    (debited_account k)
                    (some d.membership_id)
                    (credited_account k)
                    n)
                + 0)
          ≡ escrow_in d.membership_id l + gain k n
    totals_in hold = ground arith
    totals_in refund = ground arith
    totals_in forfeit = ground arith

    totals_out :
        (k : JournalKind)
        → escrow_out d.membership_id l
            + (entry_total (escrow_side is_debit d.membership_id) (
                  two_entries d.chama_id
                    (some d.membership_id)
                    (debited_account k)
                    (some d.membership_id)
                    (credited_account k)
                    n)
                + 0)
          ≡ escrow_out d.membership_id l + loss k n
    totals_out hold = ground arith
    totals_out refund = ground arith
    totals_out forfeit = ground arith
