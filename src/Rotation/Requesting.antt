-- ===== src/Rotation/Requesting.antt =====
-- What a request for a payout requires and does (`disburse`, services/mgr.service.ts).
use mduara_api.Prelude.{
  some_injective, ℕ, ◌+◌, ◌≤◌, ◌≡◌, ◌⊎◌, refl, Bool, subst, sym, ap, ◌∙◌, true, false, not, ◌&&◌,
  ◌||◌, Option, none, some, [], ◌∷◌, ◌++◌, arith, find, all, update_where, ltb, ◌==◌, ==_refl, inl,
  inr, Option-cases, find-update_where,
}
use mduara_api.Prelude.Text.{Text, is_empty}
use mduara_api.Prelude.Outcome.{ok, err, require-some, Outcome-cases}
use mduara_api.Roles.{chairperson, treasurer}
use mduara_api.Ledger.Triggers.{pooled}
use mduara_api.Rotation.Types.{
  active, scheduled, disbursement_pending, AttemptStatus, Cycle, Turn, Attempt, Member, Tables,
  Failure, cycle_not_found, membership_inactive,
}
use mduara_api.Rotation.Service.{
  current_turn, given_phone, covers, new_attempt, last_attempt_no, request_payout,
}
use mduara_api.Rotation.Statuses.{
  is_active_cycle-active, is_scheduled-scheduled, may_pay_out-role, has_ended, no_unresolved,
  numbered_above,
}
use mduara_api.Rotation.Passing.{HasPassed, request_payout-HasPassed}

-- A payout that is requested: by whom and for which turn, and what is written.
pub record IsRequested (user_id cycle_id : ℕ) (s : Tables) (attempt : Attempt) (phone : Text)
    (s' : Tables) : Type 0 where
  pub cycle : Cycle
  pub official : Member
  pub turn : Turn
  pub recipient : Member
  pub treasury : ℕ
  -- The cycle is active, and its chama may write.
  pub of_cycle : find (λ c. c.id == cycle_id) s.cycles ≡ some cycle
  pub is_active : cycle.status ≡ active
  pub may_write : s.can_write cycle.chama_id ≡ true
  -- An active chairperson or treasurer of the chama asks.
  pub by_official :
      find (λ m. m.chama_id == cycle.chama_id && m.user_id == user_id && m.is_active) s.members
      ≡ some official
  pub in_office : (official.role ≡ chairperson) ⊎ (official.role ≡ treasurer)
  -- The turn at the current position was scheduled, of an active member with a phone number.
  pub is_current :
      find (λ t. t.cycle_id == cycle.id && t.rotation_position == cycle.current_position) s.turns
      ≡ some turn
  pub was_scheduled : turn.status ≡ scheduled
  pub to_member : find (λ m. m.id == turn.member_id && m.is_active) s.members ≡ some recipient
  pub to_phone : recipient.phone ≡ some phone
  pub has_phone : is_empty phone ≡ false
  -- Every earlier attempt at the turn is confirmed or failed, and the treasury covers the payout.
  pub all_ended : all (λ a. not (a.payout_id == turn.id) || has_ended a.status) s.attempts ≡ true
  pub in_treasury : pooled cycle.chama_id s.ledger.chamas ≡ some treasury
  pub is_covered : turn.payout_amount ≤ treasury
  -- The new attempt is pending, of the turn's amount and with the highest number of the turn.
  pub is_new : attempt ≡ (record {
    id = s.next_id;
    payout_id = turn.id;
    attempt_no = attempt.attempt_no;
    amount = turn.payout_amount;
    status = AttemptStatus.pending;
    provider_reference = none;
    receipt = none;
  })
  pub is_last :
      all (λ a. not (a.payout_id == turn.id) || ltb a.attempt_no attempt.attempt_no) s.attempts
      ≡ true
  -- The attempt is added, the turn is pending, and nothing else of these tables changes.
  pub is_stored : s' ≡ record s {
    attempts = s.attempts ++ attempt ∷ [];
    turns =
        update_where
          (λ t. t.id == turn.id)
          (λ t. record t { status = disbursement_pending })
          s.turns;
    next_id = s.next_id + 1;
  }

current_turn-found :
    (cycle : Cycle) (s : Tables) {turn : Turn} {m : Member}
    → current_turn cycle s ≡ some (turn, m)
    → (find (λ t. t.cycle_id == cycle.id && t.rotation_position == cycle.current_position) s.turns
        ≡ some turn)
      × (find (λ x. x.id == turn.member_id && x.is_active) s.members ≡ some m)
current_turn-found cycle s {turn} {m} h =
    elim (Option-cases (
      find (λ t. t.cycle_id == cycle.id && t.rotation_position == cycle.current_position)
        s.turns)) [
          | inl nothing ↦ absurd (ground (arith, nothing, h))
          | inr (t, e) ↦
              elim (Option-cases (find (λ x. x.id == t.member_id && x.is_active) s.members)) [
                | inl nobody ↦ absurd (ground (arith, e, nobody, h))
                | inr (x, f) ↦
                    let same : ◌≡◌ {A = Option (Turn × Member)} (some (t, x)) (some (turn, m)) =
                      ground (arith, e, f, h) in
                    let same_turn : t ≡ turn = cc in
                    let same_member : x ≡ m = cc in
                    (e ∙ ap some same_turn, ground (arith, f, same_turn, same_member))
              ]
        ]

given_phone-some :
    (o : Option Text) {phone : Text}
    → given_phone o ≡ some phone
    → (o ≡ some phone) × (is_empty phone ≡ false)
given_phone-some none h = cc
given_phone-some (some []) h = cc
given_phone-some (some (c ∷ t)) h = (h, ground (arith, h))

covers-some :
    (o : Option ℕ) (n : ℕ)
    → covers o n ≡ true
    → (treasury : ℕ) × (o ≡ some treasury) × (n ≤ treasury)
covers-some none n h = cc
covers-some (some treasury) n h = (treasury, ground arith, ground arith)

request_payout-IsRequested :
    (user_id cycle_id : ℕ) (s : Tables) {attempt : Attempt} {phone : Text} {s' : Tables}
    → HasPassed user_id cycle_id s attempt phone s'
    → IsRequested user_id cycle_id s attempt phone s'
request_payout-IsRequested user_id cycle_id s {attempt} c =
    let (at_position, of_member) = current_turn-found c.cycle s c.is_current in
    let (phoned, given) = given_phone-some c.recipient.phone c.to_phone in
    let (treasury, held, covered) =
      covers-some (pooled c.cycle.chama_id s.ledger.chamas) c.turn.payout_amount c.is_covered in
    let same_no : attempt.attempt_no ≡ last_attempt_no c.turn.id s.attempts + 1 =
      ap (λ (a : Attempt). a.attempt_no) c.is_new in
    record {
      cycle = c.cycle;
      official = c.official;
      turn = c.turn;
      recipient = c.recipient;
      treasury = treasury;
      of_cycle = require-some (find (λ x. x.id == cycle_id) s.cycles) cycle_not_found c.of_cycle;
      is_active = is_active_cycle-active c.cycle.status c.is_active;
      may_write = c.may_write;
      by_official =
          require-some
            (find (λ x. x.chama_id == c.cycle.chama_id && x.user_id == user_id && x.is_active)
              s.members)
            membership_inactive c.by_official;
      in_office = may_pay_out-role c.official.role c.in_office;
      is_current = at_position;
      was_scheduled = is_scheduled-scheduled c.turn.status c.was_scheduled;
      to_member = of_member;
      to_phone = phoned;
      has_phone = given;
      all_ended = no_unresolved c.turn.id s.attempts c.all_ended;
      in_treasury = held;
      is_covered = covered;
      is_new =
          c.is_new
          ∙ ap (λ n. record (new_attempt s.next_id c.turn s.attempts) { attempt_no = n })
              (sym same_no);
      is_last =
          ap (λ n. all (λ a. not (a.payout_id == c.turn.id) || ltb a.attempt_no n) s.attempts)
            same_no
          ∙ numbered_above c.turn.id s.attempts;
      is_stored =
          c.is_stored
          ∙ ap
              (λ a. record s {
                attempts = s.attempts ++ a ∷ [];
                turns =
                    update_where (λ t. t.id == c.turn.id)
                      (λ t. record t { status = disbursement_pending }) s.turns;
                next_id = s.next_id + 1;
              })
              (sym c.is_new);
    }

-- Where the current turn is pending, no request for the cycle returns.
no_request :
    (cycle_id : ℕ) (s : Tables) (cycle : Cycle) (turn : Turn)
    → find (λ c. c.id == cycle_id) s.cycles ≡ some cycle
    → find (λ t. t.cycle_id == cycle.id && t.rotation_position == cycle.current_position) s.turns
      ≡ some turn
    → turn.status ≡ disbursement_pending
    → (again : ℕ) → (e : Failure) × (request_payout again cycle_id s ≡ err e)
no_request cycle_id s cycle turn of_cycle is_current is_pending again =
    elim (Outcome-cases (request_payout again cycle_id s)) [
      | inl refused ↦ refused
      | inr (((attempt, phone), s'), returned) ↦
          let q = request_payout-IsRequested again cycle_id s (
            request_payout-HasPassed again cycle_id s {attempt = attempt} {phone = phone} {s' = s'}
              returned) in
          let same_cycle : q.cycle ≡ cycle = some_injective (sym q.of_cycle ∙ of_cycle) in
          let same_turn : q.turn ≡ turn = some_injective (
            sym (
              subst
                (λ (c : Cycle).
                  find (λ t. t.cycle_id == c.id && t.rotation_position == c.current_position)
                    s.turns
                  ≡ some q.turn)
                same_cycle q.is_current)
            ∙ is_current) in
          absurd (clash (sym q.was_scheduled ∙ ap (λ (t : Turn). t.status) same_turn ∙ is_pending))
    ]
  where
    clash : scheduled ≡ disbursement_pending → ⊥
    clash e = cc

-- A payout that is requested is for the turn at the current position of an active cycle whose chama
-- may write, asked for by an active chairperson or treasurer. The turn was scheduled, of an active
-- member with a phone number; its earlier attempts are all confirmed or failed, and the treasury
-- covers it. One pending attempt of the turn's amount is added, with a number above all others of the
-- turn, the turn is pending, and nothing else of these tables changes. As long as they stay like this,
-- any request for the cycle is refused, whoever asks.
pub request_payout-checks :
    (user_id cycle_id : ℕ) (s : Tables) (attempt : Attempt) (phone : Text) (s' : Tables) (again : ℕ)
    → request_payout user_id cycle_id s ≡ ok ((attempt, phone), s')
    → IsRequested user_id cycle_id s attempt phone s'
      × ((e : Failure) × (request_payout again cycle_id s' ≡ err e))
request_payout-checks user_id cycle_id s attempt phone s' again h =
    let q = request_payout-IsRequested user_id cycle_id s (
      request_payout-HasPassed user_id cycle_id s {attempt = attempt} {phone = phone} {s' = s'}
        h) in
    let at_position : Turn → Bool =
      λ t. t.cycle_id == q.cycle.id && t.rotation_position == q.cycle.current_position in
    (
      q,
      no_request cycle_id s' q.cycle (record q.turn { status = disbursement_pending })
          (ap (λ (t : Tables). find (λ c. c.id == cycle_id) t.cycles) q.is_stored ∙ q.of_cycle)
          (ap (λ (t : Tables). find at_position t.turns) q.is_stored
            ∙ find-update_where at_position (λ t. t.id == q.turn.id)
                (λ t. record t { status = disbursement_pending }) (λ t. refl) s.turns
            ∙ ground (arith, q.is_current, ==_refl q.turn.id))
          refl again,
    )
