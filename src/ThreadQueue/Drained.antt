-- ===== src/ThreadQueue/Drained.antt =====
-- The ends of its jobs empty the queue of a thread: src/lib/turns/turn-queue.ts.
use sandi.Prelude.{
  ℕ, suc, ◌+◌, ◌-◌, ◌≤◌, ◌≡◌, refl, sym, ap, ◌∙◌, String, ◌==◌, eq_iff, Bool, true, false, Option,
  none, some, List, [], ◌∷◌, if◌then◌else◌, if_ind, eqb, length, Taken-length, take_first,
  take_first-Taken, arith, any, count,
}
use sandi.Prelude.Dict.{Dict, lookup, insert, lookup-insert, lookup-erase}
use sandi.ThreadQueue.{
  QueuedJob, ActiveJob, QueueState, ThreadQueue, new_queue, status, status_of, queue_or_new,
  drain_jobs, drain, with_job, start_or_keep, enqueue, cancel_in, cancel_queue, cancel, abort_job,
  abort_queue, abort_active, end_queue, job_ends, Event, enqueues, cancels, aborts, ends, step, run,
}
use sandi.ThreadQueue.Working.{Working, history-Working}

-- The active job of a queue and the waiting ones.
abbrev jobs_left : Option QueueState → ℕ
jobs_left none = 0
jobs_left (some queue) = suc (length queue.jobs)

abbrev left : String → ThreadQueue → ℕ
left key t = jobs_left (lookup key t.queues)

abbrev pub enqueues_at : String → Event → Bool
enqueues_at key (enqueues other name) = other == key
enqueues_at key (cancels other serial) = false
enqueues_at key (aborts other) = false
enqueues_at key (ends other) = false

abbrev pub ends_at : String → Event → Bool
ends_at key (enqueues other name) = false
ends_at key (cancels other serial) = false
ends_at key (aborts other) = false
ends_at key (ends other) = other == key

module _ (own key : String) where
  left-insert :
      (queue : QueueState) (queues : Dict QueueState)
      → jobs_left (lookup key (insert own queue queues))
        ≡ (if own == key then suc (length queue.jobs) else jobs_left (lookup key queues))
  left-insert queue queues = ground (arith, lookup-insert own key queue queues)

  left-own :
      (t : ThreadQueue) {o : Option QueueState}
      → lookup own t.queues ≡ o
      → (own == key) ≡ true
      → left key t ≡ jobs_left o
  left-own t e same =
      ap (λ k. jobs_left (lookup k t.queues)) (sym ((eq_iff own key).0 same)) ∙ ap jobs_left e

  left-drain :
      (queue : QueueState) (t : ThreadQueue)
      → left key (drain own queue t) ≡ (if own == key then length queue.jobs else left key t)
  unfolding drain
  left-drain queue t = go queue.jobs
    where
      go :
          (jobs : List QueuedJob)
          → left key (drain_jobs own queue jobs t)
            ≡ (if own == key then length jobs else left key t)
      go [] = ground (arith, lookup-erase own key t.queues)
      go (job ∷ rest) =
          left-insert
            (record queue {
              jobs = rest;
              active_job = some (record { name = job.name; aborted = false });
            })
            t.queues

  left-enqueue :
      (name : String) (t : ThreadQueue)
      → (own == key) ≡ false
      → left key (enqueue own name t) ≡ left key t
  unfolding enqueue start_or_keep
  left-enqueue name t other =
      let queue = with_job (queue_or_new (lookup own t.queues)) t.next_job name in
      if_ind (λ (after : ThreadQueue). left key after ≡ left key t) queue.running
        (λ _. left-insert queue t.queues ∙ ground (arith, other))
        (λ _.
          left-drain (record queue { running = true }) (record t { next_job = t.next_job + 1 })
          ∙ ground (arith, other))

  left-ends :
      (t : ThreadQueue)
      → left key (job_ends own t) ≡ (if own == key then left key t - 1 else left key t)
  unfolding job_ends end_queue
  left-ends t = go (lookup own t.queues) refl
    where
      go :
          (o : Option QueueState)
          → lookup own t.queues ≡ o
          → left key (end_queue own o t) ≡ (if own == key then left key t - 1 else left key t)
      go none e = ground (arith, left-own t e)
      go (some queue) e =
          left-drain (record queue { active_job = none }) t ∙ ground (arith, left-own t e)

  left-cancel : (serial : ℕ) (t : ThreadQueue) → left key (cancel own serial t).0 ≤ left key t
  unfolding cancel cancel_queue
  left-cancel serial t = go (lookup own t.queues) refl
    where
      last :
          (queue : QueueState) (take : Option (QueuedJob × List QueuedJob))
          → lookup own t.queues ≡ some queue
          → take_first (λ job. eqb job.serial serial) queue.jobs ≡ take
          → left key (cancel_in own queue take t).0 ≤ left key t
      last queue none e f = omega arith
      last queue (some (job, rest)) e f =
          let (taken, _) = take_first-Taken (λ job. eqb job.serial serial) queue.jobs f in
          ground (
            arith,
            e,
            left-insert (record queue { jobs = rest }) t.queues,
            Taken-length taken,
            left-own t e,
          )

      go :
          (o : Option QueueState)
          → lookup own t.queues ≡ o
          → left key (cancel_queue own serial o t).0 ≤ left key t
      go none e = omega arith
      go (some queue) e = last queue (take_first (λ job. eqb job.serial serial) queue.jobs) e refl

  left-abort : (t : ThreadQueue) → left key (abort_active own t).0 ≡ left key t
  unfolding abort_active
  left-abort t = go (lookup own t.queues) refl
    where
      last :
          (queue : QueueState) (job : Option ActiveJob)
          → lookup own t.queues ≡ some queue
          → left key (abort_job own queue job t).0 ≡ left key t
      last queue none e = refl
      last queue (some job) e =
          if_ind (λ (p : ThreadQueue × Bool). left key p.0 ≡ left key t) job.aborted (λ _. refl)
            (λ _.
              left-insert (record queue { active_job = some (record job { aborted = true }) })
                t.queues
              ∙ ground (arith, left-own t e))

      go :
          (o : Option QueueState)
          → lookup own t.queues ≡ o
          → left key (abort_queue own o t).0 ≡ left key t
      go none e = refl
      go (some queue) e = last queue queue.active_job e

left-step :
    (key : String) (event : Event) (t : ThreadQueue)
    → enqueues_at key event ≡ false
    → left key (step event t) ≤ (if ends_at key event then left key t - 1 else left key t)
unfolding step
left-step key (enqueues own name) t none_added =
    ground (arith, left-enqueue own key name t none_added)
left-step key (cancels own serial) t none_added = left-cancel own key serial t
left-step key (aborts own) t none_added = ground (arith, left-abort own key t)
left-step key (ends own) t none_added = ground (arith, left-ends own key t)

left-run :
    (key : String) (events : List Event) (t : ThreadQueue)
    → any (enqueues_at key) events ≡ false
    → left key (run events t) ≤ left key t - count (ends_at key) events
unfolding run
left-run key [] t none_added = omega arith
left-run key (event ∷ events) t none_added = ground (
  arith,
  left-step key event t (ground (arith, none_added)),
  left-run key events (step event t) (ground (arith, none_added)),
)

left-status : (key : String) (t : ThreadQueue) → left key t ≤ suc (status key t).1
left-status key t = go (lookup key t.queues)
  where
    go : (o : Option QueueState) → jobs_left o ≤ suc (length (queue_or_new o).jobs)
    go none = omega arith
    go (some queue) = omega arith

idle-status : (key : String) (t : ThreadQueue) → left key t ≡ 0 → status key t ≡ (false, 0)
idle-status key t = go (lookup key t.queues)
  where
    go : (o : Option QueueState) → jobs_left o ≡ 0 → status_of (queue_or_new o) ≡ (false, 0)
    go none e = refl
    go (some queue) e = absurd (omega (arith, e))

-- At any point of any history, a queue that is kept for a thread is running and has an active job. From
-- there, any further events that enqueue nothing for the thread and hold as many ends of its jobs as it has
-- waiting jobs and one more, in any interleaving with cancellations, aborts and the events of other
-- threads, leave the thread with no running queue and no waiting job.
pub run-Drained :
    (key : String) (events more : List Event)
    → any (enqueues_at key) more ≡ false
    → suc (status key (run events new_queue)).1 ≤ count (ends_at key) more
    → Working (lookup key (run events new_queue).queues)
      × (status key (run more (run events new_queue)) ≡ (false, 0))
run-Drained key events more none_added enough =
    let t = run events new_queue in
    (
      history-Working events key,
      idle-status key (run more t)
          (omega (arith, left-run key more t none_added, left-status key t, enough)),
    )
