-- ===== src/ThreadQueue.antt =====
-- The jobs of a thread, one after the other: src/lib/turns/turn-queue.ts.
-- A job is an object, so it has a serial number. A job that is queued stands in the list of the queue that
-- the map has for its key, so a handle finds it there, and `queued` says no more than that. `#drain` runs up
-- to its wait for a job, and from there again when the job is done or has failed.
pub mod Working
pub mod Drained
mod Tests
use sandi.Prelude.{
  ℕ, ◌+◌, String, Bool, true, false, Option, none, some, List, [], ◌∷◌, ◌++◌, if◌then◌else◌, eqb,
  length, take_first,
}
use sandi.Prelude.Dict.{Dict, lookup, insert, erase}

pub record QueuedJob : Type 0 where
  pub serial : ℕ
  pub name : String

pub record ActiveJob : Type 0 where
  pub name : String
  pub aborted : Bool

pub record QueueState : Type 0 where
  pub running : Bool
  pub jobs : List QueuedJob
  pub active_job : Option ActiveJob

-- `started` is the jobs whose `run` was called.
pub record ThreadQueue : Type 0 where
  pub queues : Dict QueueState
  pub next_job : ℕ
  pub started : List (String × QueuedJob)

abbrev pub new_queue : ThreadQueue
new_queue = record { queues = []; next_job = 0; started = [] }

abbrev pub empty_queue : QueueState
empty_queue = record { running = false; jobs = []; active_job = none }

abbrev pub queue_or_new : Option QueueState → QueueState
queue_or_new none = empty_queue
queue_or_new (some queue) = queue

abbrev pub ThreadQueueStatus : Type 0
ThreadQueueStatus = Bool × ℕ

-- `status`
abbrev pub status_of : QueueState → ThreadQueueStatus
status_of queue = (queue.running, length queue.jobs)

abbrev pub status : String → ThreadQueue → ThreadQueueStatus
status key t = status_of (queue_or_new (lookup key t.queues))

-- `#drain`, from the test of its loop on.
abbrev pub drain_jobs : String → QueueState → List QueuedJob → ThreadQueue → ThreadQueue
drain_jobs key queue [] t = record t { queues = erase key t.queues }
drain_jobs key queue (job ∷ rest) t = record t {
  queues =
      insert key
        (record queue {
          jobs = rest;
          active_job = some (record { name = job.name; aborted = false });
        })
        t.queues;
  started = t.started ++ (key, job) ∷ [];
}

unfoldable pub drain : String → QueueState → ThreadQueue → ThreadQueue
drain key queue t = drain_jobs key queue queue.jobs t

-- `enqueue`; its handle is the key and the serial number of the job.
abbrev pub with_job : QueueState → ℕ → String → QueueState
with_job queue serial name = record queue {
  jobs = queue.jobs ++ record { serial = serial; name = name } ∷ [];
}

abbrev pub start_or_keep : String → QueueState → ThreadQueue → ThreadQueue
unfolding drain
start_or_keep key queue t =
    if queue.running
    then record t { queues = insert key queue t.queues }
    else drain key (record queue { running = true }) t

unfoldable pub enqueue : String → String → ThreadQueue → ThreadQueue
unfolding start_or_keep
enqueue key name t =
    start_or_keep key (with_job (queue_or_new (lookup key t.queues)) t.next_job name)
      (record t { next_job = t.next_job + 1 })

-- The handle's `cancel`.
abbrev pub cancel_in :
    String → QueueState → Option (QueuedJob × List QueuedJob) → ThreadQueue → ThreadQueue × Bool
cancel_in key queue none t = (t, false)
cancel_in key queue (some (job, rest)) t =
    (record t { queues = insert key (record queue { jobs = rest }) t.queues }, true)

abbrev pub cancel_queue : String → ℕ → Option QueueState → ThreadQueue → ThreadQueue × Bool
unfolding take_first
cancel_queue key serial none t = (t, false)
cancel_queue key serial (some queue) t =
    cancel_in key queue (take_first (λ job. eqb job.serial serial) queue.jobs) t

unfoldable pub cancel : String → ℕ → ThreadQueue → ThreadQueue × Bool
unfolding cancel_queue
cancel key serial t = cancel_queue key serial (lookup key t.queues) t

-- `abortActive`
abbrev pub abort_job : String → QueueState → Option ActiveJob → ThreadQueue → ThreadQueue × Bool
abort_job key queue none t = (t, false)
abort_job key queue (some job) t = if job.aborted then (t, false) else (
  record t {
    queues =
        insert key (record queue { active_job = some (record job { aborted = true }) }) t.queues;
  },
  true,
)

abbrev pub abort_queue : String → Option QueueState → ThreadQueue → ThreadQueue × Bool
abort_queue key none t = (t, false)
abort_queue key (some queue) t = abort_job key queue queue.active_job t

unfoldable pub abort_active : String → ThreadQueue → ThreadQueue × Bool
abort_active key t = abort_queue key (lookup key t.queues) t

-- The end of the active job, and `#drain` from there.
abbrev pub end_queue : String → Option QueueState → ThreadQueue → ThreadQueue
unfolding drain
end_queue key none t = t
end_queue key (some queue) t = drain key (record queue { active_job = none }) t

unfoldable pub job_ends : String → ThreadQueue → ThreadQueue
unfolding end_queue
job_ends key t = end_queue key (lookup key t.queues) t

pub data Event : Type 0 where
  enqueues : (key name : String) → Event
  cancels : (key : String) (serial : ℕ) → Event
  aborts ends : (key : String) → Event

unfoldable pub step : Event → ThreadQueue → ThreadQueue
step (enqueues key name) t = enqueue key name t
step (cancels key serial) t = (cancel key serial t).0
step (aborts key) t = (abort_active key t).0
step (ends key) t = job_ends key t

unfoldable pub run : List Event → ThreadQueue → ThreadQueue
unfolding step
run [] t = t
run (event ∷ events) t = run events (step event t)
