-- ===== src/WorkerPool/Stopping.antt =====
-- The shutdown of a pool of workerpool.go: Stop returns, and only when all is handled.
use grnoti.Prelude.{
  ℕ, zero, suc, ◌+◌, ◌*◌, ◌≡◌, ◌≤◌, refl, sym, ◌∙◌, Bool, true, false, ◌||◌, Option, none, some,
  List, [], ◌∷◌, ◌++◌, arith, length, length-append, AllSome,
}
use grnoti.Types.{Event}
use grnoti.WorkerPool.{
  is_exited, Worker, idle, exited, handling, Phase, running, stopping, stopped, Pool, is_open, Turn,
  act, and_others, put_before, work_at,
}

abbrev pub any_exited : List Worker → Bool
any_exited [] = false
any_exited (w ∷ ws) = is_exited w || any_exited ws

-- A worker returns only from a queue that is closed and empty.
abbrev pub DrainedIf : Bool → List Event → Phase → Type 0
DrainedIf any queue phase = any ≡ true → (length queue ≡ 0) × (is_open phase ≡ false)

abbrev pub Drained : List Worker → List Event → Phase → Type 0
Drained ws queue phase = DrainedIf (any_exited ws) queue phase

DrainedIf-beside :
    (x y z : Bool) (queue rest : List Event) (phase : Phase)
    → length rest ≤ length queue
    → (DrainedIf x queue phase → DrainedIf y rest phase)
    → DrainedIf (x || z) queue phase
    → DrainedIf (y || z) rest phase
DrainedIf-beside true y z queue rest phase shorter keep d e =
    let v = d refl in (omega (arith, v.0, shorter), v.1)
DrainedIf-beside false true z queue rest phase shorter keep d e =
    keep (λ no. ground (arith, no)) refl
DrainedIf-beside false false z queue rest phase shorter keep d e =
    let v = d e in (omega (arith, v.0, shorter), v.1)

-- What is left to do: to take an event from the queue and handle it, or to return.
abbrev pub load : Worker → ℕ
load idle = 1
load exited = 0
load (handling event) = 2

abbrev pub loads : List Worker → ℕ
loads [] = 0
loads (w ∷ ws) = load w + loads ws

-- The worker actions that a shutdown still takes.
abbrev pub left_to_do : Pool → ℕ
left_to_do p = loads p.workers + 2 * length p.queue

-- What every action of a worker does to these.
pub record Acts (ws : List Worker) (queue : List Event) (phase : Phase) (t : Turn) : Type 0 where
  pub one_less : suc (loads t.workers + 2 * length t.queue) ≡ loads ws + 2 * length queue
  pub shorter : length t.queue ≤ length queue
  pub same_team : length t.workers ≡ length ws
  pub still_drained : Drained ws queue phase → Drained t.workers t.queue phase

act-Acts :
    (w : Worker) (queue : List Event) (phase : Phase)
    → AllSome (Acts (w ∷ []) queue phase) (act w queue phase)
unfolding act
act-Acts exited queue phase = tt
act-Acts (handling event) queue phase = record {
  one_less = omega arith;
  shorter = omega arith;
  same_team = refl;
  still_drained = λ d e. ground (arith, e);
}
act-Acts idle (event ∷ rest) phase = record {
  one_less = omega arith;
  shorter = omega arith;
  same_team = refl;
  still_drained = λ d e. ground (arith, e);
}
act-Acts idle [] running = tt
act-Acts idle [] stopping = record {
  one_less = omega arith;
  shorter = omega arith;
  same_team = refl;
  still_drained = λ d e. (refl, refl);
}
act-Acts idle [] stopped = record {
  one_less = omega arith;
  shorter = omega arith;
  same_team = refl;
  still_drained = λ d e. (refl, refl);
}

any_exited-append : (xs ys : List Worker) → any_exited (xs ++ ys) ≡ (any_exited xs || any_exited ys)
any_exited-append [] ys = refl
any_exited-append (x ∷ xs) ys = ground (arith, any_exited-append xs ys)

loads-append : (xs ys : List Worker) → loads (xs ++ ys) ≡ loads xs + loads ys
loads-append [] ys = omega arith
loads-append (x ∷ xs) ys = omega (arith, loads-append xs ys)

others-Acts :
    (w : Worker) (ws : List Worker) (queue : List Event) (phase : Phase) (turn : Option Turn)
    → AllSome (Acts (w ∷ []) queue phase) turn
    → AllSome (Acts (w ∷ ws) queue phase) (and_others turn ws)
others-Acts w ws queue phase none a = tt
others-Acts w ws queue phase (some t) a = record {
  one_less = omega (arith, a.one_less, loads-append t.workers ws);
  shorter = a.shorter;
  same_team = omega (arith, a.same_team, length-append t.workers ws);
  still_drained = λ d e.
      DrainedIf-beside (any_exited (w ∷ [])) (any_exited t.workers) (any_exited ws) queue t.queue
        phase a.shorter a.still_drained (λ h. d (ground (arith, h)))
        (sym (any_exited-append t.workers ws) ∙ e);
}

before-Acts :
    (w : Worker) (ws : List Worker) (queue : List Event) (phase : Phase) (turn : Option Turn)
    → AllSome (Acts ws queue phase) turn
    → AllSome (Acts (w ∷ ws) queue phase) (put_before w turn)
before-Acts w ws queue phase none a = tt
before-Acts w ws queue phase (some t) a = record {
  one_less = omega (arith, a.one_less);
  shorter = a.shorter;
  same_team = omega (arith, a.same_team);
  still_drained = λ d e.
      DrainedIf-beside (any_exited ws) (any_exited t.workers) (is_exited w) queue t.queue phase
        a.shorter a.still_drained (λ h. d (ground (arith, h))) (ground (arith, e));
}

pub work_at-Acts :
    (i : ℕ) (ws : List Worker) (queue : List Event) (phase : Phase)
    → AllSome (Acts ws queue phase) (work_at i ws queue phase)
unfolding work_at
work_at-Acts i [] queue phase = tt
work_at-Acts zero (w ∷ ws) queue phase =
    others-Acts w ws queue phase (act w queue phase) (act-Acts w queue phase)
work_at-Acts (suc i) (w ∷ ws) queue phase =
    before-Acts w ws queue phase (work_at i ws queue phase) (work_at-Acts i ws queue phase)
