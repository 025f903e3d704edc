-- ===== src/WorkerPool/Shutdown.antt =====
-- The invariant of a pool of workerpool.go: its bound, and what WorkerPool.Stop leaves.
use grnoti.Prelude.{
  ℕ, zero, suc, ◌≡◌, ◌≤◌, refl, Bool, true, false, ◌&&◌, Option, none, some, List, [], ◌∷◌, arith,
  ltb, ltb→lt, if_cases, length, length-append_one, AllSome, AllSome-weaken, AllSome-both,
  AllSome-at, all,
}
use grnoti.Types.{Event}
use grnoti.WorkerPool.{
  is_stopping, is_exited, Worker, idle, exited, handling, Phase, running, stopping, stopped, Pool,
  PoolConfig, or_default, idle_workers, new_worker_pool, is_open, submit, close, finish_stop, Turn,
  work_at, turned, work, Move, submits, works, closes, finishes, after_submit, step, run,
}
use grnoti.WorkerPool.Runs.{run_keeps}
use grnoti.WorkerPool.Accounts.{total, held_by, Conserves, nothing_lost}
use grnoti.WorkerPool.Stopping.{Drained, any_exited, loads, left_to_do, Acts, work_at-Acts}

abbrev pub is_stopped : Phase → Bool
is_stopped stopped = true
is_stopped _ = false

loads-exited : (ws : List Worker) → all is_exited ws ≡ true → loads ws ≡ 0
loads-exited [] h = refl
loads-exited (idle ∷ ws) h = ground (arith, h)
loads-exited (handling event ∷ ws) h = ground (arith, h)
loads-exited (exited ∷ ws) h = omega (arith, loads-exited ws h)

some_exited : (ws : List Worker) → 1 ≤ length ws → all is_exited ws ≡ true → any_exited ws ≡ true
some_exited [] n h = ground arith
some_exited (idle ∷ ws) n h = ground (arith, h)
some_exited (handling event ∷ ws) n h = ground (arith, h)
some_exited (exited ∷ ws) n h = refl

open_is_not_stopped : (phase : Phase) → is_open phase ≡ true → is_stopped phase ≡ false
open_is_not_stopped running h = refl
open_is_not_stopped stopping h = refl
open_is_not_stopped stopped h = ground (arith, h)

record Inv (p : Pool) : Type 0 where
  bounded : length p.queue ≤ p.capacity
  staffed : 1 ≤ length p.workers
  drained : Drained p.workers p.queue p.phase
  settled : is_stopped p.phase ≡ true → left_to_do p ≡ 0

all_done :
    (p : Pool)
    → 1 ≤ length p.workers
    → Drained p.workers p.queue p.phase
    → all is_exited p.workers ≡ true
    → left_to_do p ≡ 0
all_done p n d h =
    let v = d (some_exited p.workers n h) in omega (arith, v.0, loads-exited p.workers h)

turned-Inv :
    (p : Pool) (turn : Option Turn)
    → Inv p
    → AllSome (Acts p.workers p.queue p.phase) turn
    → AllSome Inv (turned p turn)
turned-Inv p none v a = tt
turned-Inv p (some t) v a = record {
  bounded = omega (arith, v.bounded, a.shorter);
  staffed = omega (arith, v.staffed, a.same_team);
  drained = a.still_drained v.drained;
  settled = λ h. omega (arith, v.settled h, a.one_less);
}

submit-Inv : (p : Pool) (event : Event) → Inv p → AllSome Inv (after_submit p (submit p event))
unfolding submit
submit-Inv p event v =
    if_cases (λ x. AllSome Inv (after_submit p x)) (is_open p.phase) _ _
      (λ o.
        if_cases (λ x. AllSome Inv (after_submit p x)) (ltb (length p.queue) p.capacity) _ _
          (λ room. record {
            bounded = omega (arith, ltb→lt _ _ room, length-append_one p.queue event);
            staffed = v.staffed;
            drained = λ e. ground (arith, v.drained e, o);
            settled = λ e. ground (arith, o, open_is_not_stopped p.phase o, e);
          })
          (λ full. record {
            bounded = v.bounded;
            staffed = v.staffed;
            drained = v.drained;
            settled = v.settled;
          }))
      (λ closed. tt)

step-Inv : (p : Pool) (move : Move) → Inv p → AllSome Inv (step p move)
unfolding step work close finish_stop
step-Inv p (submits event) v = submit-Inv p event v
step-Inv p (works i) v =
    turned-Inv p (work_at i p.workers p.queue p.phase) v (work_at-Acts i p.workers p.queue p.phase)
step-Inv p closes v =
    if_cases (AllSome Inv) (is_open p.phase) _ _
      (λ o. record {
        bounded = v.bounded;
        staffed = v.staffed;
        drained = λ e. ground (arith, v.drained e, o);
        settled = λ e. ground (arith, e);
      })
      (λ closed. tt)
step-Inv p finishes v =
    if_cases (AllSome Inv) (is_stopping p.phase && all is_exited p.workers) _ _
      (λ h. record {
        bounded = v.bounded;
        staffed = v.staffed;
        drained = λ e. (omega (arith, (v.drained e).0), refl);
        settled = λ e. all_done p v.staffed v.drained (ground (arith, h));
      })
      (λ not_yet. tt)

idle_workers-length : (n : ℕ) → length (idle_workers n) ≡ n
idle_workers-length zero = refl
idle_workers-length (suc n) = omega (arith, idle_workers-length n)

none_exited : (n : ℕ) → any_exited (idle_workers n) ≡ false
none_exited zero = refl
none_exited (suc n) = none_exited n

or_default-positive : (value default : ℕ) → 1 ≤ default → 1 ≤ or_default value default
or_default-positive value default h = ground (arith, h)

new-Inv : (config : PoolConfig) → Inv (new_worker_pool config)
unfolding new_worker_pool
new-Inv config = record {
  bounded = omega arith;
  staffed = omega (
    arith,
    idle_workers-length (or_default config.workers 10),
    or_default-positive config.workers 10 (omega arith),
  );
  drained = λ e. ground (arith, e, none_exited (or_default config.workers 10));
  settled = λ e. ground (arith, e);
}

-- In every run of a new pool, the queue never holds more events than its capacity: Submit pushes
-- back instead.
pub queue_within_capacity :
    (config : PoolConfig) (moves : List Move)
    → AllSome (λ p. length p.queue ≤ p.capacity) (run (new_worker_pool config) moves)
queue_within_capacity config moves =
    AllSome-weaken Inv _ (run (new_worker_pool config) moves) (λ p v. v.bounded)
      (run_keeps Inv step-Inv (new_worker_pool config) moves (new-Inv config))

held-exited : (f : Event → ℕ) (ws : List Worker) → loads ws ≡ 0 → held_by f ws ≡ 0
held-exited f [] h = refl
held-exited f (idle ∷ ws) h = ground (arith, h)
held-exited f (exited ∷ ws) h = omega (arith, held-exited f ws (omega (arith, h)))
held-exited f (handling event ∷ ws) h = ground (arith, h)

total-empty : (f : Event → ℕ) (events : List Event) → length events ≡ 0 → total f events ≡ 0
total-empty f [] h = refl
total-empty f (event ∷ events) h = ground (arith, h)

abbrev Drains : (Event → ℕ) → Pool → Type 0
Drains f p = is_stopped p.phase ≡ true → total f p.accepted ≡ total f p.handled

run-Drains :
    (f : Event → ℕ) (config : PoolConfig) (moves : List Move)
    → AllSome (Drains f) (run (new_worker_pool config) moves)
run-Drains f config moves =
    AllSome-both (Conserves f) Inv (Drains f) (run (new_worker_pool config) moves)
      (λ p c v h. omega (
        arith,
        c,
        v.settled h,
        held-exited f p.workers (omega (arith, v.settled h)),
        total-empty f p.queue (omega (arith, v.settled h)),
      ))
      (nothing_lost f config moves)
      (run_keeps Inv step-Inv (new_worker_pool config) moves (new-Inv config))

-- In every run of a new pool in which Stop returned, each event that Submit accepted was handled
-- as often as it was accepted: the measure of events is any, such as the count of one event.
pub stop_drains :
    (f : Event → ℕ) (config : PoolConfig) (moves : List Move) (p : Pool)
    → run (new_worker_pool config) moves ≡ some p
    → is_stopped p.phase ≡ true
    → total f p.accepted ≡ total f p.handled
stop_drains f config moves p reached h =
    AllSome-at (Drains f) (run (new_worker_pool config) moves) p reached (run-Drains f config moves)
      h
