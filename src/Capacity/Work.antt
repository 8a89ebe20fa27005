-- ===== src/Capacity/Work.antt =====
-- The data of the admission controller, and how it picks the oldest of the fitting items:
-- src/lib/provider/capacity-controller.ts.
use text.Mathlib.Text.{starts_with}
use sandi.Prelude.{
  ℕ, ◌+◌, min, String, ◌==◌, Bool, true, false, not, ◌&&◌, ◌||◌, Option, none, some, List, [], ◌∷◌,
  ltb, leb, eqb, if◌then◌else◌, get_or_else,
}

pub record Config : Type 0 where
  pub max_concurrent : ℕ
  pub max_queued : ℕ
  pub max_queued_per_identity : ℕ
  pub shutdown_grace_ms : ℕ

abbrev pub default_provider_capacity : Config
default_provider_capacity = record {
  max_concurrent = 3;
  max_queued = 64;
  max_queued_per_identity = 8;
  shutdown_grace_ms = 5000;
}

-- `validateConfig`, over the values that a natural number can be.
abbrev pub validate_config : Config → Bool
validate_config c =
    leb 1 c.max_concurrent
    && leb 1 c.max_queued
    && leb 1 c.max_queued_per_identity
    && leb 1 c.shutdown_grace_ms

pub data Rejection : Type 0 where
  overloaded identity_overloaded passive_coalesced title_discarded shutting_down aborted : Rejection

pub data WorkKind : Type 0 where
  interactive passive background title : WorkKind

-- The fields of a request that the controller reads; `signal_aborted` is `signal?.aborted`.
pub record Request : Type 0 where
  pub conversation_id : String
  pub identity_id : Option String
  pub signal_aborted : Bool

pub record QueuedWork : Type 0 where
  pub sequence : ℕ
  pub kind : WorkKind
  pub identity_id : String
  pub request : Request

pub record Active : Type 0 where
  pub work : QueuedWork
  pub signal_aborted : Bool

-- How the promise of an accepted turn was settled.
pub data Settlement : Type 0 where
  resolved failed : Settlement
  rejected : Rejection → Settlement

-- `passed_on` is what the provider behind was asked for, the latest first.
pub record Provider : Type 0 where
  pub config : Config
  pub queue : List QueuedWork
  pub active : List Active
  pub idle_waiters : ℕ
  pub shutdowns_done : ℕ
  pub accepting : Bool
  pub sequence : ℕ
  pub interactive_streak : ℕ
  pub settled : List (ℕ × Settlement)
  pub passed_on : List QueuedWork

abbrev pub new_provider : Config → Provider
new_provider c = record {
  config = c;
  queue = [];
  active = [];
  idle_waiters = 0;
  shutdowns_done = 0;
  accepting = true;
  sequence = 0;
  interactive_streak = 0;
  settled = [];
  passed_on = [];
}

unfoldable pub work_kind : Request → WorkKind
work_kind r =
    if starts_with r.conversation_id "title:" || starts_with r.conversation_id "thread-title:"
    then title
    else if starts_with r.conversation_id "passive-gate:"
    then passive
    else if starts_with r.conversation_id "dream:" || starts_with r.conversation_id "dream-encode:"
    then background
    else interactive

abbrev pub is_interactive : WorkKind → Bool
is_interactive interactive = true
is_interactive _ = false

abbrev pub is_passive : WorkKind → Bool
is_passive passive = true
is_passive _ = false

abbrev pub is_title : WorkKind → Bool
is_title title = true
is_title _ = false

abbrev pub priority_of : WorkKind → ℕ
priority_of interactive = 0
priority_of passive = 1
priority_of background = 2
priority_of title = 3

abbrev pub non_interactive : QueuedWork → Bool
non_interactive work = not (is_interactive work.kind)

abbrev pub of_identity : String → QueuedWork → Bool
of_identity identity work = work.identity_id == identity

-- `#hasQueued`, which is asked for passive work only.
abbrev pub passive_of : String → QueuedWork → Bool
passive_of identity work = is_passive work.kind && work.identity_id == identity

-- `Math.min` over the priorities; `none` is its infinity on the empty queue.
abbrev pub least_of : ℕ → Option ℕ → Option ℕ
least_of priority none = some priority
least_of priority (some least) = some (min priority least)

abbrev pub min_priority : List QueuedWork → Option ℕ
min_priority [] = none
min_priority (w ∷ ws) = least_of (priority_of w.kind) (min_priority ws)

abbrev pub has_priority : Option ℕ → QueuedWork → Bool
has_priority none work = false
has_priority (some priority) work = eqb (priority_of work.kind) priority

-- The loop of `#oldestIndex`: the index chosen so far with its sequence number; `none` stands for
-- the index -1 with an infinite sequence number.
abbrev pub earlier : ℕ → Option (ℕ × ℕ) → Bool
earlier sequence none = true
earlier sequence (some (index, chosen)) = ltb sequence chosen

abbrev pub better : (QueuedWork → Bool) → ℕ → QueuedWork → Option (ℕ × ℕ) → Option (ℕ × ℕ)
better fits index work chosen =
    if fits work && earlier work.sequence chosen then some (index, work.sequence) else chosen

unfoldable pub oldest_loop :
    (QueuedWork → Bool) → ℕ → Option (ℕ × ℕ) → List QueuedWork → Option (ℕ × ℕ)
oldest_loop fits index chosen [] = chosen
oldest_loop fits index chosen (work ∷ works) =
    oldest_loop fits (index + 1) (better fits index work chosen) works

unfoldable pub oldest_index : (QueuedWork → Bool) → List QueuedWork → Option (ℕ × ℕ)
unfolding oldest_loop
oldest_index fits queue = oldest_loop fits 0 none queue

abbrev pub identity_of : Request → String
identity_of r = get_or_else r.identity_id "unrouted"
