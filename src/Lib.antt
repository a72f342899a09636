-- ===== src/Lib.antt =====
-- The chat service: two users write each other in channels that are stored in MongoDB, and every
-- change of a channel is announced on Kafka through an outbox that is stored in the same database.
-- This library models the Go code of the service under internal/ and pkg/.
--
-- The parts and how they interact
--
-- A request comes in on a route (internal/router), whose guard checks the token and finds the user
-- (internal/middleware); a controller (internal/message/message.controller.go,
-- internal/channel/channel.controller.go) reads its parameters and calls a service, and answers
-- what pkg/mapper makes of the result. The service (internal/message/message.service.go,
-- internal/channel/channel.service.go) checks the request and calls a repository
-- (internal/message/repo/message.repo.go, internal/channel/repo/channel.repo.go). A repository
-- calls the driver of MongoDB, one collection at a time and without transactions, and writes the
-- event of each change into the outbox. The relay (internal/outbox/relay.go) takes the pending
-- events from the outbox (internal/outbox/repository.go), hands them to Kafka and marks what became
-- of them.
--
--   Schema              internal/schema: the documents and the events
--   Platform            internal/dto/message.dto.go; ObjectID hex texts and digests as parameters
--   Response            pkg/response/errors.go
--   GoText              Go strings as lists of bytes: `==`, `<`, `strings.TrimSpace`,
--                       `strings.Fields`, `utf8.ValidString`, `strconv.ParseInt`
--   Mongo               what the driver promises of the calls that the repositories make
--   Store               the five collections with their unique indexes, and programs on them
--   Channel.Repo        internal/channel/repo/channel.repo.go
--   Channel.Service     internal/channel/channel.service.go
--   Message.Events      the outbox events of internal/message/repo/message.repo.go
--   Message.Queries     its filters, `Get` and `List`
--   Message.Create      its `Create`
--   Message.Mutate      its `mutate`, `Edit` and `Recall`
--   Message.ReadCursor  its `Read`
--   Message.Service     internal/message/message.service.go
--   Outbox.Repo         internal/outbox/repository.go; Outbox.Repo.Lock is the lock that its lease is
--                       to be
--   Outbox.Telemetry    internal/outbox/telemetry.go
--   Outbox.Relay        internal/outbox/relay.go
--   Outbox.Relay.Rounds its `Run`
--   Middleware          internal/middleware/keycloak.middleware.go
--   Middleware.Verifier its `NewKeycloakVerifier`
--   Setting             pkg/setting/config.go and the checks of internal/initialize/config.go
--   Mapper              pkg/mapper/chat.mapper.go and the answers of internal/dto
--   Http                pkg/response/response.go and what the controllers take from gin
--   Message.Controller  internal/message/message.controller.go
--   Channel.Controller  internal/channel/channel.controller.go
--   Router              internal/router
--   Outbox.Publisher    internal/outbox/publisher.go
--   Initialize          internal/initialize/run.go
--   History             how the documents may change while requests and relays run side by side
--   Concurrency         requests and relays side by side
--   Tests               a small database and the theorems applied to it
--
-- In `Router`, `HttpCall` is a request on one of the routes and `serve` its handler with the guards
-- before it. Functions keep their names in snake_case, and types theirs. The child modules of a part
-- hold its proofs.
--
-- The store
--
-- The driver and the server are not part of the repository. `Mongo.Docs.Op` has one constructor for
-- each kind of call, and `Does` relates the documents before a call, its answer and the documents
-- after it, as the documentation has it: a find answers a document that matches and comes first in
-- the order asked for, an update replaces exactly one document that matches or inserts the one of
-- the upsert, a unique index refuses a second document with its keys, and a call that fails for
-- another reason may or may not have taken effect. A repository function is a `Store.Action`: a tree
-- of calls, each with what the code does on its answer. `Ensures m Q v` states that every run of `m`
-- from the collections `v`, whatever the server answers within `Does`, ends with a result and
-- collections that satisfy `Q`. Such a run always ends, since the tree is finite; it is a run with
-- no other writer in between. `Store.Noting.Notes` is the same with a note of whether the driver
-- failed a call. `Store.Actions.run` runs a program on a given server, and `Store.Rules.Ensures-run`
-- transfers what is ensured to it. Tests.Memory has such a server, which keeps lists, and Tests.Runs
-- runs a request on it.
--
-- Side by side
--
-- `Concurrency.World` has the collections and the tasks that are under way: handlers of requests
-- and relays, of one instance of the service or of several. A `Step` is the arrival of a job, one
-- driver call of one of the tasks with any answer within `Does`, or the end of a task, which may
-- come in the middle. A sequence of steps is a `Runs`. `History.Abides hex v m` states that each call
-- of `m` changes the collections in a lawful way, whatever lawful changes others have made since
-- the call before. `Store.Counts.AtMost` bounds the calls of a program over all answers.
--
-- Numbers, times and fuel
--
-- An ObjectID is a number, and so is a time (of nanoseconds). Sequences are integers, and `sequence
-- + 1` wraps at 2 ^ 63. Counters (revisions, event versions, attempts) count up from 0 and are
-- taken not to reach 2 ^ 63. The loop of `Create` has at most 64 rounds, as in the code, so it
-- needs no other fuel. The workers of a round of the relay run side by side and make one call of
-- the database each, so they are run one after the other in an order that is a parameter. The loop
-- of `retryDelay` runs on the number of rounds that its own condition on the attempt leaves.
-- `strings.TrimSpace` runs on the length of the text, since each round drops a byte at least, and
-- so do `strings.Fields` and the loop of `wrapBase64`. `Run` is a list of rounds, those before its
-- context is done. `GoText.ParseInt.Decimals.decimal` writes at most 20 digits, and a number of
-- `int64` has no more than 19.
--
-- Not modelled
--
-- Routing by path and the recovery from panics, which are gin's, CORS, the health routes, reading
-- the configuration, logging, the text of the metrics, and scripts/local-api-smoke, which calls a
-- running server. Reading a JSON body with the `binding` tags of internal/dto is a parameter, and
-- so are the check of a JWT, the file of the public key and its PEM parser. Kafka's answer to a
-- publication is a parameter of the worker; contexts that are cancelled show as failures of the
-- driver or of Kafka. What `Ensures` states of an operation is for a run without
-- other writers in between; what holds with them is stated in `Concurrency`.
pub mod Prelude
pub mod GoText
pub mod Mongo
pub mod Schema
pub mod Response
pub mod Store
pub mod Platform
pub mod Mapper
pub mod Http
pub mod Channel
pub mod Message
pub mod Outbox
pub mod History
pub mod Concurrency
pub mod Middleware
pub mod Router
pub mod Setting
pub mod Initialize
pub mod Tests
