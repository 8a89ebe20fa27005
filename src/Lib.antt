-- ===== src/Lib.antt =====
-- Verification library of sandi, a personal assistant that runs as one host process with several
-- surfaces (Discord, GitHub, an HTTP API) and a desktop app with a pet.
--
-- A surface turns an incoming message into a turn. Turns are journaled (src/lib/turns), pass the
-- admission control of the model provider (src/lib/provider) and answer through a durable outbox
-- (src/lib/delivery), which retries until the answer is out. A desktop app is bound to a person by a
-- pairing code (src/lib/pairing), talks to the API surface, and shows what it is doing as an animated
-- pet (app/src/shared). The library has a module tree for each of these parts:
--
-- - Prelude: shared tests, lists over native numbers, objects as association lists, texts.
-- - Capacity: src/lib/provider/capacity-controller.ts. The state of `CapacityControlledProvider` is the
--   record `Provider`; `generateTurn` is `generate_turn`, `#takeNext` is `take_next`, `#pump` is `pump`,
--   `shutdown`, `onAbort` and the settling of a running turn are functions on the record. Promises are
--   entries of a list of settlements, and what the provider behind was asked for is a list too. A history is a
--   list of events in any order.
-- - Outbox: src/lib/delivery/outbox.ts. The file's state is a dictionary of `DeliveryRecord`s, and each
--   of `enqueue`, `#claimNext`, `#renewClaim`, `#settleSuccess`, `#settleError` and `#scheduleNext` a
--   function on it. A history is a list of these mutations by any workers at any times, since each of
--   them runs under the lock of the file.
-- - Pairing: src/lib/pairing/pairing-store.ts. The file is the list of `ApiPairing`s; `createPairing`,
--   `consumePairing` and `redeemPairingTransaction` are `create_pairing`, `consume_pairing` and `redeem`.
--   What the callbacks answer and which writes fail is the argument `Surroundings`.
-- - TurnJournal: src/lib/turns/turn-journal.ts. The entries are a dictionary; `accept`, `settle` and
--   `claimReplayable` are `accept`, `settle` and `claim_replayable`, which gives back the new entries and
--   the turns to run again.
-- - TurnManager: app/src/main/turn-manager.ts. The map of queues is a dictionary, `submit`, `stop` and
--   `cancelQueued` are `submit`, `stop` and `cancel_queued`; the closure `settle` is `settle` up to the wait
--   for the event's handler and `finish` from there. What was sent, settled and shown is kept as lists.
-- - ThreadQueue: src/lib/turns/turn-queue.ts. `enqueue`, `abortActive` and the handle's `cancel` are `enqueue`,
--   `abort_active` and `cancel`; `job_ends` is the loop of `#drain` after the wait for a job.
-- - ResponseBuffer: app/src/shared/response-buffer.ts. The variables of `createResponseBuffer` are the record
--   `ResponseBuffer`, with `accept` and `settle` as functions on it; `reconcileSuffix` is
--   `reconcile_suffix`.
-- - RateLimiter: src/surfaces/api/auth/rate-limiter.ts. `FixedWindowLimiter` is a record and `tryConsume` a
--   function on it.
-- - Devices: src/surfaces/api/devices/device-registry.ts. `DeviceRegistry` is a record of the keyed map, of
--   every link object by a serial number, and of what was sent and settled. A method that waits is a
--   function up to the wait and another one from there, so histories interleave them.
-- - Broker: src/surfaces/api/devices/tool-broker.ts, over Devices. `#handle` is `handle`, from the bearer token
--   to the reply or to the link that `dispatch` goes on with; `#targetDesktop` is `target_desktop`.
-- - TodoFormat: src/surfaces/discord/shared/todo-format.ts, with src/surfaces/discord/shared/format.ts. A text
--   is a list of UTF-16 code units; `formatTodoList` is `format_todo_list`, its loop over the items
--   `show_loop`.
-- - Pet: app/src/shared/pet-state-machine.ts, with the rows of app/src/shared/animation-manifest.ts.
--   `reducePetState` is `reduce_pet_state` on the record `PetState`.
--
-- Bounds. `pump` takes the length of the queue as its fuel: each round takes an item off the queue, so
-- no more rounds are possible. `generate_unique_code` has the 16 attempts of the source.
-- `digits` of TodoFormat has one more than the number as its fuel, and each step divides the number by ten.
-- The remaining loops are structural. Numbers are natural: milliseconds and counters stay far below 2 ^ 53
-- in the source, and subtractions are written where they cannot go below 0 or where the source clamps them.
--
-- Not modelled: input and output (HTTP, Discord, files, processes), schema parsing of stored JSON but for
-- the conditions that the operations rely on, digests, random numbers and clocks, which are parameters,
-- and timers and promises, whose effects are the events of a history. An object used as a map has its own
-- properties only, so a key that names a member of `Object.prototype` is outside the model.
pub mod Broker
pub mod Capacity
pub mod Devices
pub mod Outbox
pub mod Pairing
pub mod Pet
pub mod Prelude
pub mod RateLimiter
pub mod ResponseBuffer
pub mod ThreadQueue
pub mod TodoFormat
pub mod TurnJournal
pub mod TurnManager
