-- ===== src/Lib.antt =====
-- The notebortt backend: boards that several people edit at once. An Express API, a Socket.IO
-- service and a worker share the state of the boards in Redis, and Postgres keeps the boards, the
-- members, the invitations and the billing. Paths below are from the repository's root.
--
-- The parts and how they interact. A client's operations come as a batch, over a socket
-- (src/modules/realtime/socketio) or over HTTP (src/modules/boards/routes). The mutation processor
-- takes the board's lock, reads the elements that matter, refuses what a lock on an element forbids,
-- and turns an operation into a change set, which the board state applies to Redis with a new
-- sequence, cascading the deletes, and marks as dirty. A board with one participant (solo) is
-- persisted after the batch, one with several (collab) by the worker's flush, which may run while
-- changes go on. The access to a board comes from its members, its workspace or a share link, and
-- invitations create members. A board that nobody uses is written and its keys are deleted; the next
-- one who comes loads it again. Changes and departures go over a bus of events, as jobs of BullMQ, to
-- the worker that renders the previews. Stripe's events write the subscriptions from which the
-- billing profile reads the plan.
--
-- Which file models what:
--   Common, Common/*: tests on numbers, lists, sets of texts (Keys), maps (Assoc), code units (Texts).
--   Collab/Element, Mutation: src/modules/collaboration/mutations/types.ts and
--     board-state/types.ts; an element is a map from field names to JSON values.
--   Collab/Locks: mutations/lock-enforcement.ts, with `isMutationBlockedByLock` and
--     `validateReconcileMonthRange`.
--   Collab/Cascade: `collectCascadeDeleteIds` in board-state/state-utils.ts.
--   Collab/Board: one board's keys (board-state/keys.ts) and its operations
--     (board-state/state-domain.ts): `applyChangeSet`, `tryMarkSeen`, the sequence and the log.
--   Collab/Persistence: board-state/persistence-domain.ts and the rows of load-domain.ts; Steps has
--     a flush in its separate accesses to Redis and Postgres, with any changes between them,
--     Processes the flushes of a board by several processes, which may overlap, and Table the
--     table of the elements of all boards, which Persistence sees as the rows of one board.
--   Collab/Store: all that Redis and Postgres hold of one board, with the same two files and
--     redis-cleanup.service.ts, board-persistence.service.ts. Persist is `persistBoard` with its
--     errors (Errors) and Marks what it leaves marked, DirtyBoards the flush of dirty boards with
--     its retries, whose `persistBoard` is a parameter, Cleanup the idle boards.
--   Collab/Presence: board-state/presence-domain.ts, the clients, the viewers and the write mode.
--   Collab/Processor: mutations/processor.ts, one mutation in the context of its batch.
--   Collab/Batch: `processMutation` and `processBatch` of the same file, for boards that exist and
--     are loaded and a database that does not fail.
--   Collab/MutationLock: board-state/mutation-lock-domain.ts, the lock that processes share. Each
--     poll of the wait takes any times to reach Redis, to return and to sleep on.
--   Realtime/Participants, Throttle, Payload, Session, Handlers, Ticks:
--     src/modules/realtime/socketio/participants.ts, server.ts (token bucket, payload caps, the
--     state of a connection), handlers/*.handler.ts and tick-persistence.ts.
--   Realtime/Parsing: payloads.ts, a payload as its fields, a number that is no natural number and no
--     integer text as text (`dec`).
--   Realtime/Identity: identity.ts, user-color.ts and the gate of the handshake in server.ts.
--   Realtime/Crdt: crdt-room.ts, with the document of yjs and its merge as parameters.
--   Realtime/Join: handlers/join.handler.ts, disconnect.handler.ts and `detachFromBoard`; Steps and
--     Complete have the join, and Join the detachment, with one action of the others at each wait.
--   Events: src/shared/events.ts. Consumer is the bus over the queues, Producer its `emit`, Local
--     the bus within a process.
--   Previews: src/modules/previews/preview-job.service.ts.
--   Boards/Members, Copies, Routes: src/modules/boards/domain/members.ts, lifecycle.ts,
--     board.service.utils.ts, utils.ts and the routes that change members, links and elements.
--   Boards/Access, Sharing, Invitations: src/modules/boards/domain/access.ts, catalog.ts,
--     sharing.ts and invitation-transitions.ts, on the rows of Boards/Rows
--     (src/platform/db/schema).
--   Billing/Plans, Webhook, Profile: src/modules/billing/billing.
--   Workspaces/Members: src/modules/workspaces/workspace/core.ts and invitations.ts.
-- A function has the source's name in snake case. A Tests module has concrete runs.
--
-- State and effects. The state of a part is a record that its operations take and return. A Redis
-- script, a pipeline and a transaction of the database are one step; a handler that waits is in two
-- parts, a join and a detachment in one for each of their waits, and a flush in the steps of
-- Collab/Persistence/Steps. (ioredis does not run a pipeline as a transaction: another client's
-- command may come between two commands of a pipeline, which the model leaves out.) The clock,
-- generated identifiers and tokens are arguments. A failing statement is a value: `none`, or an
-- error of a reply type. Times are in milliseconds, tokens of the throttle in thousandths, all
-- natural numbers.
--
-- Fuel. The cascade runs on as much fuel as requested identifiers and elements, and one: each round
-- takes one identifier off the queue, and an identifier is queued once. The wait for the lock has
-- 81 polls: 2000 ms in sleeps of at least 25 ms, and the one at the deadline. The chain of an
-- error's causes runs on two more than there are objects, since no object is visited twice. The loops of a loading
-- and of the wait for it are modelled by one round and by the condition on which they end.
--
-- Not modelled: metrics, logs and traces; the text of JSON; the merging of CRDT updates (yjs); the
-- drawing of a preview; Express, Socket.IO, BullMQ, Stripe and the schema's other tables; users and
-- their sign-in; the reads, favourites and invitation routes of the boards' API; the queues of
-- promises within one process; the cleanup of transient keys by their idle time. An empty identifier,
-- which the reads of a flush skip, is left out of what a flush is said to save.
pub mod Common
pub mod Collab
pub mod Billing
pub mod Boards
pub mod Events
pub mod Previews
pub mod Realtime
pub mod Workspaces
