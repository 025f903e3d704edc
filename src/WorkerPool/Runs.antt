-- ===== src/WorkerPool/Runs.antt =====
-- The rules for runs of a pool of workerpool.go: what every move keeps, every run keeps.
use grnoti.Prelude.{◌≡◌, ap, Option, none, some, List, [], ◌∷◌, AllSome}
use grnoti.WorkerPool.{Pool, Move, step, and_then, run}

-- What holds after the first move leads to what holds after the rest.
pub AllSome-and_then {κ μ} :
    (P : Pool → Type κ) (Q : Pool → Type μ) (next : Option Pool) (then : Pool → Option Pool)
    → ((q : Pool) → P q → AllSome Q (then q))
    → AllSome P next
    → AllSome Q (and_then next then)
AllSome-and_then P Q none then keep v = tt
AllSome-and_then P Q (some q) then keep v = keep q v

pub run_keeps {κ} :
    (P : Pool → Type κ)
    → ((p : Pool) (move : Move) → P p → AllSome P (step p move))
    → (p : Pool) (moves : List Move) → P p
    → AllSome P (run p moves)
unfolding run
run_keeps P keep p [] v = v
run_keeps P keep p (move ∷ moves) v =
    AllSome-and_then P P (step p move) (λ next. run next moves) (λ q w. run_keeps P keep q moves w)
      (keep p move v)

-- A run goes on from the pool that its first move leaves.
pub run-step :
    (p q : Pool) (move : Move) (moves : List Move)
    → step p move ≡ some q
    → run p (move ∷ moves) ≡ run q moves
unfolding run
run-step p q move moves e = ap (λ x. and_then x (λ next. run next moves)) e
