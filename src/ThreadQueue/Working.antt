-- ===== src/ThreadQueue/Working.antt =====
-- A queue of a thread that is kept has a job at work: src/lib/turns/turn-queue.ts.
use sandi.Prelude.{
  ℕ, ◌+◌, ◌≡◌, refl, sym, subst, String, ◌==◌, Bool, true, false, Option, none, some, List, [], ◌∷◌,
  if_ind, eqb, is_some, take_first, arith,
}
use sandi.Prelude.Dict.{Dict, lookup, insert, erase, lookup-insert, lookup-erase}
use sandi.ThreadQueue.{
  QueuedJob, ActiveJob, QueueState, ThreadQueue, new_queue, queue_or_new, drain_jobs, drain,
  with_job, start_or_keep, enqueue, cancel_in, cancel_queue, cancel, abort_job, abort_queue,
  abort_active, end_queue, job_ends, Event, enqueues, cancels, aborts, ends, step, run,
}

-- The queue of a key, if there is one, is running and has an active job.
abbrev pub Working : Option QueueState → Type 0
Working none = Unit {0}
Working (some queue) = (queue.running ≡ true) × (is_some queue.active_job ≡ true)

abbrev pub AllWorking : ThreadQueue → Type 0
AllWorking t = (key : String) → Working (lookup key t.queues)

insert-Working :
    (own key : String) (queue : QueueState) (queues : Dict QueueState)
    → Working (some queue)
    → Working (lookup key queues)
    → Working (lookup key (insert own queue queues))
insert-Working own key queue queues new old =
    subst Working (sym (lookup-insert own key queue queues))
      (if_ind Working (own == key) (λ _. new) (λ _. old))

erase-Working :
    (own key : String) (queues : Dict QueueState)
    → Working (lookup key queues)
    → Working (lookup key (erase own queues))
erase-Working own key queues old =
    subst Working (sym (lookup-erase own key queues))
      (if_ind Working (own == key) (λ _. tt) (λ _. old))

drain-Working :
    (own : String) (queue : QueueState) (t : ThreadQueue)
    → queue.running ≡ true
    → AllWorking t
    → AllWorking (drain own queue t)
unfolding drain
drain-Working own queue t running h key = go queue.jobs
  where
    go : (jobs : List QueuedJob) → Working (lookup key (drain_jobs own queue jobs t).queues)
    go [] = erase-Working own key t.queues (h key)
    go (job ∷ rest) =
        insert-Working own key
          (record queue {
            jobs = rest;
            active_job = some (record { name = job.name; aborted = false });
          })
          t.queues (running, refl) (h key)

enqueue-Working :
    (own name : String) (t : ThreadQueue) → AllWorking t → AllWorking (enqueue own name t)
unfolding enqueue start_or_keep
enqueue-Working own name t h key = go (lookup own t.queues) (h own)
  where
    go :
        (o : Option QueueState)
        → Working o
        → Working (
            lookup key
              (start_or_keep own
                (with_job (queue_or_new o) t.next_job name)
                (record t { next_job = t.next_job + 1 })).queues)
    go none w =
        drain-Working own (record (with_job (queue_or_new none) t.next_job name) { running = true })
          (record t { next_job = t.next_job + 1 }) refl h key
    go (some queue) w =
        if_ind (λ (t : ThreadQueue). Working (lookup key t.queues)) queue.running
          (λ _. insert-Working own key (with_job queue t.next_job name) t.queues w (h key))
          (λ idle. absurd (ground (arith, w, idle)))

cancel-Working :
    (own : String) (serial : ℕ) (t : ThreadQueue)
    → AllWorking t
    → AllWorking (cancel own serial t).0
unfolding cancel cancel_queue
cancel-Working own serial t h key = go (lookup own t.queues) (h own)
  where
    last :
        (queue : QueueState) (take : Option (QueuedJob × List QueuedJob))
        → Working (some queue)
        → Working (lookup key (cancel_in own queue take t).0.queues)
    last queue none w = h key
    last queue (some (job, rest)) w =
        insert-Working own key (record queue { jobs = rest }) t.queues w (h key)

    go :
        (o : Option QueueState)
        → Working o
        → Working (lookup key (cancel_queue own serial o t).0.queues)
    go none w = h key
    go (some queue) w = last queue (take_first (λ job. eqb job.serial serial) queue.jobs) w

abort-Working : (own : String) (t : ThreadQueue) → AllWorking t → AllWorking (abort_active own t).0
unfolding abort_active
abort-Working own t h key = go (lookup own t.queues) (h own)
  where
    last :
        (queue : QueueState) (job : Option ActiveJob)
        → Working (some queue)
        → Working (lookup key (abort_job own queue job t).0.queues)
    last queue none w = h key
    last queue (some job) w =
        if_ind (λ (p : ThreadQueue × Bool). Working (lookup key p.0.queues)) job.aborted
          (λ _. h key)
          (λ _.
            insert-Working own key
              (record queue { active_job = some (record job { aborted = true }) }) t.queues
              (w.0, refl) (h key))

    go : (o : Option QueueState) → Working o → Working (lookup key (abort_queue own o t).0.queues)
    go none w = h key
    go (some queue) w = last queue queue.active_job w

ends-Working : (own : String) (t : ThreadQueue) → AllWorking t → AllWorking (job_ends own t)
unfolding job_ends end_queue
ends-Working own t h key = go (lookup own t.queues) (h own)
  where
    go : (o : Option QueueState) → Working o → Working (lookup key (end_queue own o t).queues)
    go none w = h key
    go (some queue) w = drain-Working own (record queue { active_job = none }) t w.0 h key

step-Working : (event : Event) (t : ThreadQueue) → AllWorking t → AllWorking (step event t)
unfolding step
step-Working (enqueues key name) t h = enqueue-Working key name t h
step-Working (cancels key serial) t h = cancel-Working key serial t h
step-Working (aborts key) t h = abort-Working key t h
step-Working (ends key) t h = ends-Working key t h

run_from-Working :
    (events : List Event) (t : ThreadQueue) → AllWorking t → AllWorking (run events t)
unfolding run
run_from-Working [] t h = h
run_from-Working (event ∷ events) t h =
    run_from-Working events (step event t) (step-Working event t h)

pub history-Working : (events : List Event) → AllWorking (run events new_queue)
unfolding lookup
history-Working events = run_from-Working events new_queue (λ key. tt)
