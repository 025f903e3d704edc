-- ===== src/WorkerPool/Returns.antt =====
use grnoti.Prelude.{
  ℕ, zero, suc, ◌+◌, ◌≡◌, ◌≤◌, ◌⊎◌, inl, inr, refl, ap, ◌∙◌, Bool, true, false, ◌&&◌, Option, none,
  some, List, [], ◌∷◌, ◌++◌, arith, if◌then◌else◌, length, AllSome, AllSome-weaken, all, map,
  is_some,
}
use grnoti.Types.{Event}
use grnoti.WorkerPool.{
  is_stopping, is_exited, Worker, idle, exited, handling, Phase, running, stopping, stopped, Pool,
  is_open, finish_stop, Turn, act, put_before, work_at, turned, work, works, finishes, step,
  and_then, run,
}
use grnoti.WorkerPool.Runs.{AllSome-and_then, run-step}
use grnoti.WorkerPool.Stopping.{left_to_do, Acts, work_at-Acts}
use grnoti.WorkerPool.Shutdown.{is_stopped}

worked :
    (p : Pool) (turn : Option Turn)
    → AllSome (Acts p.workers p.queue p.phase) turn
    → AllSome (λ q. (suc (left_to_do q) ≡ left_to_do p) × (q.phase ≡ p.phase)) (turned p turn)
worked p none a = tt
worked p (some t) a = (a.one_less, refl)

-- The workers take no more actions than there is left to do, whatever the schedule: after any
-- number of them, that many are gone from what was left.
pub workers_run_out :
    (p : Pool) (schedule : List ℕ)
    → AllSome (λ q. length schedule + left_to_do q ≡ left_to_do p) (run p (map works schedule))
unfolding run step work
workers_run_out p [] = omega arith
workers_run_out p (i ∷ schedule) =
    AllSome-and_then (λ q. (suc (left_to_do q) ≡ left_to_do p) × (q.phase ≡ p.phase)) _ (work p i)
      (λ next. run next (map works schedule))
      (λ q v.
        AllSome-weaken (λ r. length schedule + left_to_do r ≡ left_to_do q) _
          (run q (map works schedule)) (λ r w. omega (arith, v.0, w)) (workers_run_out q schedule))
      (worked p (work_at i p.workers p.queue p.phase) (work_at-Acts i p.workers p.queue p.phase))

put_before-some :
    (w : Worker) (turn : Option Turn) → is_some turn ≡ true → is_some (put_before w turn) ≡ true
put_before-some w none h = h
put_before-some w (some t) h = refl

-- Once the queue is closed, some worker can act, unless all have returned.
ready :
    (ws : List Worker) (queue : List Event) (phase : Phase)
    → is_open phase ≡ false
    → (all is_exited ws ≡ true) ⊎ ((i : ℕ) × (is_some (work_at i ws queue phase) ≡ true))
unfolding work_at act
ready [] queue phase h = inl refl
ready (idle ∷ ws) (event ∷ queue) phase h = inr (0, refl)
ready (idle ∷ ws) [] running h = ground (arith, h)
ready (idle ∷ ws) [] stopping h = inr (0, refl)
ready (idle ∷ ws) [] stopped h = inr (0, refl)
ready (handling event ∷ ws) queue phase h = inr (0, refl)
ready (exited ∷ ws) queue phase h = elim (ready ws queue phase h) [
  | inl out ↦ inl out
  | inr r ↦ inr (suc r.0, put_before-some exited (work_at r.0 ws queue phase) r.1)
]

-- The pool after an action that a worker can take.
record Acted (p : Pool) (i : ℕ) : Type 0 where
  after : Pool
  acted : step p (works i) ≡ some after
  less : suc (left_to_do after) ≡ left_to_do p
  same_phase : after.phase ≡ p.phase

turned-Acted :
    (p : Pool) (turn : Option Turn)
    → is_some turn ≡ true
    → AllSome (Acts p.workers p.queue p.phase) turn
    → (q : Pool) × (turned p turn ≡ some q)
      × (suc (left_to_do q) ≡ left_to_do p)
      × (q.phase ≡ p.phase)
turned-Acted p none h a = ground (arith, h)
turned-Acted p (some t) h a = (_, refl, a.one_less, refl)

work-Acted : (p : Pool) (i : ℕ) → is_some (work_at i p.workers p.queue p.phase) ≡ true → Acted p i
unfolding step work
work-Acted p i h =
    let v =
      turned-Acted p (work_at i p.workers p.queue p.phase) h
        (work_at-Acts i p.workers p.queue p.phase) in
    record { after = v.0; acted = v.1; less = v.2; same_phase = v.3 }

-- A schedule of worker actions after which Stop returns.
pub record StopReturns (p : Pool) : Type 0 where
  pub schedule : List ℕ
  pub last : Pool
  pub reached : run p (map works schedule ++ (finishes ∷ [])) ≡ some last
  pub returned : is_stopped last.phase ≡ true

both_true : {x y : Bool} → x ≡ true → y ≡ true → (x && y) ≡ true
both_true h k = ground (arith, h, k)

finish_now :
    (p : Pool) → is_stopping p.phase ≡ true → all is_exited p.workers ≡ true → StopReturns p
unfolding run step finish_stop
finish_now p h out = record {
  schedule = [];
  last = record p { phase = stopped };
  reached =
      ap (λ b. and_then (if b then some (record p { phase = stopped }) else none) some)
        (both_true h out);
  returned = refl;
}

stopping_is_closed : (phase : Phase) → is_stopping phase ≡ true → is_open phase ≡ false
stopping_is_closed stopping h = refl
stopping_is_closed stopped h = refl
stopping_is_closed running h = ground (arith, h)

first_then : (p : Pool) (i : ℕ) → (a : Acted p i) → StopReturns a.after → StopReturns p
first_then p i a v = record {
  schedule = i ∷ v.schedule;
  last = v.last;
  reached =
      run-step p a.after (works i) (map works v.schedule ++ (finishes ∷ [])) a.acted ∙ v.reached;
  returned = v.returned;
}

returns_in : (n : ℕ) (p : Pool) → left_to_do p ≤ n → is_stopping p.phase ≡ true → StopReturns p
returns_in zero p b h = elim (ready p.workers p.queue p.phase (stopping_is_closed p.phase h)) [
  | inl out ↦ finish_now p h out
  | inr r ↦ ground (arith, b, (work-Acted p r.0 r.1).less)
]
returns_in (suc n) p b h = elim (ready p.workers p.queue p.phase (stopping_is_closed p.phase h)) [
  | inl out ↦ finish_now p h out
  | inr r ↦
      let a = work-Acted p r.0 r.1 in
      first_then p r.0 a
        (returns_in n a.after (omega (arith, b, a.less)) (ap is_stopping a.same_phase ∙ h))
]

-- From every pool whose queue is closed and whose context is not yet cancelled, a schedule of
-- worker actions leads to the return of Stop. With workers_run_out, every schedule that goes on as
-- long as a worker can act does.
pub stop_returns : (p : Pool) → is_stopping p.phase ≡ true → StopReturns p
stop_returns p h = returns_in (left_to_do p) p (omega arith) h
