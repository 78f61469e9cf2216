-- ===== src/Commitment/Replays.antt =====
-- Deliveries of one provider confirmation more than once (services/commitment.service.ts).
use mduara_api.Prelude.{ℕ, ◌≡◌, ◌≢◌, ◌⊎◌, ◌∙◌, refl, true, some, arith, inl, inr}
use mduara_api.Prelude.Text.{trim, text_eq_refl, text_eq→eq}
use mduara_api.Prelude.Outcome.{ok, err, Outcome-cases}
use mduara_api.Commitment.Types.{
  applied, held, Deposit, Custody, Status, held_by_other_transaction, map_status,
}
use mduara_api.Commitment.Service.{
  Confirmation, confirm_hold_from_provider, take_hold, replay_hold, insert_commitment_journal,
  commitment_ledger_reference, hold, held_row, assert_provider_evidence,
}

-- The row that a hold leaves behind.
take_hold-row :
    (c : Confirmation) (n now : ℕ) (d : Deposit) (s : Custody) {st : Status} {s' : Custody}
    → take_hold c n now d s ≡ ok (st, s')
    → (d' : Deposit) × (s'.deposit ≡ some d')
      × (d'.state ≡ held)
      × (d'.provider ≡ some (trim c.provider))
      × (d'.provider_reference ≡ some (trim c.provider_reference))
      × (d'.amount ≡ n)
unfolding take_hold
take_hold-row c n now d s h =
    let reference = commitment_ledger_reference hold c.provider c.provider_reference in
    elim (Outcome-cases (insert_commitment_journal hold reference d n s.ledger)) [
      | inl (e, x) ↦ absurd (ground (arith, x))
      | inr ((i, l), x) ↦
          (held_row c i now d, ground (arith, x), refl, refl, refl, ground (arith, x))
    ]

confirm-take :
    (c : Confirmation) (now : ℕ) (s : Custody) (d : Deposit) {st : Status} {s' : Custody}
    → s.deposit ≡ some d
    → d.state ≡ applied
    → confirm_hold_from_provider c now s ≡ ok (st, s')
    → (n : ℕ) × (assert_provider_evidence c ≡ ok n) × (take_hold c n now d s ≡ ok (st, s'))
unfolding confirm_hold_from_provider
confirm-take c now s d f a h = elim (Outcome-cases (assert_provider_evidence c)) [
  | inl (e, x) ↦ absurd (ground (arith, x))
  | inr (n, x) ↦ (n, x, ground (arith, x, f, a))
]

again :
    (c : Confirmation) (now n : ℕ) (s : Custody) (d : Deposit)
    → assert_provider_evidence c ≡ ok n
    → s.deposit ≡ some d
    → d.state ≡ held
    → confirm_hold_from_provider c now s ≡ replay_hold c n d s
unfolding confirm_hold_from_provider
again c now n s d x f a = ground (arith, x, f, a)

-- A hold that is taken of a deposit in the state `applied`, from evidence without surrounding
-- blanks, is replayed when the same confirmation comes again: the custody stays as it is.
pub confirm_hold_twice :
    (c : Confirmation) (now later : ℕ) (s : Custody) (d : Deposit) {st : Status} {s' : Custody}
    → s.deposit ≡ some d
    → d.state ≡ applied
    → trim c.provider ≡ c.provider
    → trim c.provider_reference ≡ c.provider_reference
    → confirm_hold_from_provider c now s ≡ ok (st, s')
    → (st' : Status) × (confirm_hold_from_provider c later s' ≡ ok (st', s'))
      × (st'.replayed ≡ true)
confirm_hold_twice c now later s d {s' = s'} f a tp tr h =
    let (n, x, t) = confirm-take c now s d f a h in
    let (d', e, held_eq, p, r, m) = take_hold-row c n now d s t in
    (
      map_status d' s' true,
      again c later n s' d' x e held_eq
          ∙ ground
              (arith, p, r, m, tp, tr, text_eq_refl c.provider, text_eq_refl c.provider_reference),
      refl,
    )

-- The stored provider and reference are trimmed, and the evidence is compared as it came: when
-- the provider or the reference has blanks around it, the second delivery of the confirmation
-- that was taken is refused as one of another transaction.
pub confirm_hold_twice_untrimmed :
    (c : Confirmation) (now later : ℕ) (s : Custody) (d : Deposit) {st : Status} {s' : Custody}
    → s.deposit ≡ some d
    → d.state ≡ applied
    → (trim c.provider ≢ c.provider) ⊎ (trim c.provider_reference ≢ c.provider_reference)
    → confirm_hold_from_provider c now s ≡ ok (st, s')
    → confirm_hold_from_provider c later s' ≡ err held_by_other_transaction
confirm_hold_twice_untrimmed c now later s d {s' = s'} f a blanks h =
    let (n, x, t) = confirm-take c now s d f a h in
    let (d', e, held_eq, p, r, m) = take_hold-row c n now d s t in
    again c later n s' d' x e held_eq
    ∙ ground (
      arith,
      p,
      r,
      m,
      blanks,
      text_eq→eq (trim c.provider) c.provider,
      text_eq→eq (trim c.provider_reference) c.provider_reference,
    )
