-- ===== src/Commitment/Histories.antt =====
-- A commitment deposit over any sequence of requests (services/commitment.service.ts).
use mduara_api.Prelude.{ℕ, ◌≡◌, ◌⊎◌, refl, true, Option, none, some, List, [], ◌∷◌, inl, inr}
use mduara_api.Prelude.Outcome.{Outcome, ok, err}
use mduara_api.Commitment.Types.{State, Deposit, Custody, Status, Failure}
use mduara_api.Commitment.Trigger.{allows}
use mduara_api.Commitment.Escrow.{IsBacked}
use mduara_api.Commitment.Requests.{Request, serve, custody_after, serve_requests}
use mduara_api.Commitment.Lifecycle.{IsKept, Keeps, serve-Keeps}

-- States that the changes of the database's trigger join, the earlier one first.
pub data Reaches : State → Deposit → Type 0 where
  stay : (d : Deposit) → Reaches d.state d
  move : (a : State) (b c : Deposit) → allows a b ≡ true → Reaches b.state c → Reaches a c

Reaches-same : (d e d' : Deposit) → e ≡ d → Reaches e.state d' → Reaches d.state d'
Reaches-same d e d' same r = rw same at r

custody_after-IsKept :
    (d : Deposit) (s : Custody) (o : Outcome Failure (Status × Custody))
    → s.deposit ≡ some d
    → IsBacked d s.ledger
    → Keeps d o
    → (d' : Deposit) × ((custody_after o s).deposit ≡ some d')
      × IsBacked d' (custody_after o s).ledger
      × ((d' ≡ d) ⊎ (allows d.state d' ≡ true))
custody_after-IsKept d s (err e) f v k = (d, f, v, inl refl)
custody_after-IsKept d s (ok (st, t)) f v k = kept t.deposit refl k
  where
    kept :
        (o : Option Deposit)
        → t.deposit ≡ o
        → IsKept d t.ledger o
        → (d' : Deposit) × (t.deposit ≡ some d')
          × IsBacked d' t.ledger
          × ((d' ≡ d) ⊎ (allows d.state d' ≡ true))
    kept none e k = elim k [ ]
    kept (some d') e (b, m) = (d', e, b, m)

-- Whatever is asked of a deposit that the ledger backs, in whatever order, the deposit is there, has
-- come to its state by changes that the database's trigger lets through, and the ledger backs it.
pub serve_requests-IsBacked :
    (rs : List (Request × ℕ)) (s : Custody) (d : Deposit)
    → s.deposit ≡ some d
    → IsBacked d s.ledger
    → (d' : Deposit) × ((serve_requests rs s).deposit ≡ some d')
      × IsBacked d' (serve_requests rs s).ledger
      × Reaches d.state d'
serve_requests-IsBacked [] s d f v = (d, f, v, stay d)
serve_requests-IsBacked ((r, now) ∷ rs) s d f v =
    let (e, g, w, m) = custody_after-IsKept d s (serve r now s) f v (serve-Keeps now s d f v r) in
    let (d', g', w', reached) =
      serve_requests-IsBacked rs (custody_after (serve r now s) s) e g w in
    (
      d',
      g',
      w',
      elim m [
        | inl same ↦ Reaches-same d e d' same reached
        | inr allowed ↦ move d.state e d' allowed reached
      ],
    )
