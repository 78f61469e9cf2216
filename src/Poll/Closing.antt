-- ===== src/Poll/Closing.antt =====
-- When a poll closes (services/poll.service.ts): at its deadline, and with the last vote.
use mduara_api.Prelude.{
  ℕ, ◌≡◌, refl, sym, ap, ◌∙◌, Bool, true, ◌&&◌, find, leb, ◌==◌, ==_refl, if◌then◌else◌, arith,
  find-update_where, find-true,
}
use mduara_api.Prelude.Outcome.{Outcome, ok, err, require-some}
use mduara_api.Poll.Types.{
  Poll, full_turnout, deadline, Tables, Failure, poll_not_found, poll_closed,
}
use mduara_api.Poll.Service.{
  Evaluation, VoteInput, vote, lock_poll, refresh_locked_poll, evaluate_locked_poll, evaluation,
  is_over, is_closed, is_draft, is_full_turnout, closed_by, opened, is_pending_poll, has_begun,
  is_open, insert_vote,
}
use mduara_api.Poll.Fairness.{HasSameVotes, refresh-votes, evaluate-votes}
use mduara_api.Poll.Effects.{evaluate-HasEvaluated, vote-HasVoted}

-- The poll itself, after it has been refreshed: what `refreshLockedPoll` makes of it.
abbrev pub refreshed_row : Poll → ℕ → Bool → Poll
refreshed_row poll now full =
    if is_over poll.status
    then poll
    else if full
    then closed_by now full_turnout poll
    else if leb poll.closes_at now
    then closed_by now deadline poll
    else if is_draft poll.status && has_begun now poll.opens_at
    then opened poll
    else poll

lock-refresh :
    (poll_id now : ℕ) (poll : Poll) (s : Tables)
    → lock_poll poll_id s ≡ ok poll
    → lock_poll poll_id (refresh_locked_poll poll now s)
      ≡ ok (refreshed_row poll now (is_full_turnout poll.id s))
unfolding refresh_locked_poll
lock-refresh poll_id now poll s h =
    let found = require-some (find (λ p. p.id == poll_id) s.polls) poll_not_found h in
    let same = find-true (λ p. p.id == poll_id) s.polls found in
    let update =
      λ (q : Poll → Bool) (f : Poll → Poll)
          (keep : (x : Poll) → ((f x).id == poll_id) ≡ (x.id == poll_id)).
        find-update_where (λ p. p.id == poll_id) q f keep s.polls in
    ground (
      arith,
      found,
      same,
      ==_refl poll.id,
      update (is_pending_poll poll.id) (closed_by now full_turnout) (λ x. refl),
      update (is_pending_poll poll.id) (closed_by now deadline) (λ x. refl),
      update (λ p. p.id == poll.id && is_draft p.status) opened (λ x. refl),
    )

turnout-kept :
    (poll_id : ℕ) (s s' : Tables)
    → HasSameVotes s s'
    → is_full_turnout poll_id s' ≡ is_full_turnout poll_id s
turnout-kept poll_id s s' (votes, voters) = rw (votes, voters) refl

ok-injective : {A : Type 0} {a b : A} → ◌≡◌ {A = Outcome Failure A} (ok a) (ok b) → a ≡ b
ok-injective h = cc

-- The poll that an evaluation returns.
evaluated-row :
    (poll_id chama_id now : ℕ) (s : Tables) (row : Poll) {e : Evaluation} {s' : Tables}
    → evaluate_locked_poll poll_id chama_id now s ≡ ok (e, s')
    → lock_poll poll_id s ≡ ok row
    → (e.poll ≡ refreshed_row row now (is_full_turnout row.id s))
      × (lock_poll poll_id s' ≡ ok (refreshed_row row now (is_full_turnout row.id s)))
unfolding evaluation
evaluated-row poll_id chama_id now s row {e} {s'} h locked =
    let done = evaluate-HasEvaluated poll_id chama_id now s h in
    let same : done.poll ≡ row = ok-injective (sym done.locked ∙ locked) in
    let stored =
      ap (lock_poll poll_id) done.refreshed ∙ lock-refresh poll_id now done.poll s done.locked in
    let current = ok-injective (sym done.relocked ∙ stored) in
    let rows = ap (λ (p : Poll). refreshed_row p now (is_full_turnout p.id s)) same in
    (
      ap (λ (v : Evaluation). v.poll) done.evaluated ∙ current ∙ rows,
      stored ∙ ap (λ (p : Poll). ok p) rows,
    )

closes :
    (row : Poll) (now : ℕ)
    → is_open row.status ≡ true
    → is_closed (refreshed_row row now true).status ≡ true
closes row now h = ground (arith, h)

stays_closed :
    (row : Poll) (now : ℕ) (full : Bool)
    → is_closed row.status ≡ true
    → refreshed_row row now full ≡ row
stays_closed row now full h = ground (arith, h)

locked-id :
    (poll_id : ℕ) (s : Tables) (row : Poll) → lock_poll poll_id s ≡ ok row → row.id ≡ poll_id
locked-id poll_id s row h = ground (
  arith,
  find-true (λ p. p.id == poll_id) s.polls
      (require-some (find (λ p. p.id == poll_id) s.polls) poll_not_found h),
)

-- No vote is taken once the poll is closed.
vote-refused :
    (actor_id poll_id : ℕ) (input : VoteInput) (now : ℕ) (s : Tables) (row : Poll)
    → lock_poll poll_id s ≡ ok row
    → is_closed row.status ≡ true
    → vote actor_id poll_id input now s ≡ err poll_closed
unfolding vote refresh_locked_poll
vote-refused actor_id poll_id input now s row locked closed = ground (arith, locked, closed)

-- If a vote returns and every eligible voter has voted after it, then the poll that it shows is
-- closed, and any later vote in this poll, whoever sends it, is refused as the poll is closed.
pub vote-last_closes :
    (actor_id poll_id : ℕ) (input : VoteInput) (now : ℕ) (s : Tables) (e : Evaluation) (s' : Tables)
    → vote actor_id poll_id input now s ≡ ok (e, s')
    → is_full_turnout poll_id s' ≡ true
    → (is_closed e.poll.status ≡ true)
      × ((other_id later : ℕ) (choice : VoteInput)
          → vote other_id poll_id choice later s' ≡ err poll_closed)
vote-last_closes actor_id poll_id input now s e s' h full =
    let done = vote-HasVoted actor_id poll_id input now s h in
    let s₁ =
      insert_vote poll_id done.member.id done.option.id (refresh_locked_poll done.poll now s) in
    let s₂ = refresh_locked_poll done.current now s₁ in
    let full₁ : is_full_turnout done.current.id s₁ ≡ true =
      ap (λ id. is_full_turnout id s₁) (locked-id poll_id s₁ done.current done.relocked)
      ∙ sym (turnout-kept poll_id s₁ s₂ (refresh-votes done.current now s₁))
      ∙ sym (
          turnout-kept poll_id s₂ s'
            (evaluate-votes poll_id done.current.chama_id now s₂ done.counted))
      ∙ full in
    let locked₂ : lock_poll poll_id s₂ ≡ ok (refreshed_row done.current now true) =
      lock-refresh poll_id now done.current s₁ done.relocked
      ∙ ap (λ b. ok (refreshed_row done.current now b)) full₁ in
    let (shown, stored) =
      evaluated-row poll_id done.current.chama_id now s₂ (refreshed_row done.current now true)
        done.counted locked₂ in
    let closed = closes done.current now done.is_still_open in
    let stays = stays_closed (refreshed_row done.current now true) now _ closed in
    (
      ap (λ (p : Poll). is_closed p.status) (shown ∙ stays) ∙ closed,
      λ other_id later choice.
          vote-refused other_id poll_id choice later s' (refreshed_row done.current now true)
            (stored ∙ ap (λ (p : Poll). ok p) stays) closed,
    )
