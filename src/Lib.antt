-- ===== src/Lib.antt =====
-- workspace-os: humans and agents share a board of work items under one policy. This library models
-- the core of the TypeScript packages and proves what makes them correct.
--
-- Parts, and how they interact:
--   Base         shared types: results, texts as `trim` sees them, arrays as sets, JavaScript
--                numbers and dates, maps as association lists.
--   Core         packages/core/src/domain: Member (member.ts), WorkItem (work-item.ts), Persona
--                (persona.ts), AgentCredential (agent-credential.ts). A class is a record, its static
--                `create` returns a Result whose errors carry what the message shows, and a method
--                that makes a changed copy is a function to a new record.
--   Governance   packages/governance/src: Action (authz/action.ts), PolicyDefinition
--                (policy/policy-definition.ts) and PolicyEngine (authz/policy-engine.ts), which
--                decides about a member of Core and an action of a policy.
--   Agent        packages/agent/src: Identity (identity/agent-credential-service.ts) issues and
--                verifies the credentials of Core; Tools.Gateway (tools/tool-gateway.ts) asks an
--                authorizer, brokers secrets, calls a tool and records it, and its child Engine
--                puts the PolicyEngine in the authorizer's place; Model.Gateway
--                (model/model-gateway.ts) routes, checks and meters completions; Model.Anthropic
--                (model/anthropic-model-provider.ts) is a provider, Tools.Mcp
--                (tools/mcp-tool.ts) a tool; Model.Fake (model/fake-model-provider.ts) is the provider
--                for tests. Runner (runtime/agent-runner.ts) is one turn of an agent, over Board,
--                Model.Gateway and Activity.
--   Adapters     packages/adapters/src: Board (repository/drizzle-work-item-repository.ts) is the
--                table of work items with save, find, list and `claimNext`; Board.Concurrency is
--                the step relation of claimers that run at the same time.
--                Queue (queue/postgres-queue.ts), Activity (activity/drizzle-activity-log.ts),
--                Members (repository/drizzle-member-repository.ts), HumanCredentials
--                (repository/drizzle-human-credential-repository.ts) and Versions
--                (repository/drizzle-policy-repository.ts and drizzle-persona-repository.ts)
--                are the other tables, Vector (db/schema.ts) is the codec of a column. Sandbox
--                (sandbox/docker-sandbox-runner.ts) is the command line of a run and the events that
--                lead to its result, ObjectStore (object-store/filesystem-object-store.ts) keeps
--                objects in files, and Profile (profile/ and secrets-broker/env-secrets-broker.ts)
--                selects the adapters.
--   Server       apps/server/src: Session (auth/session-token.ts, auth/require-member.ts) signs and
--                verifies session tokens; Password and Signup (auth/password.ts and
--                auth/signup-service.ts) make and check accounts; WorkItems, Auth and Members
--                (routes/work-items.ts, routes/auth.ts and routes/members.ts) are the handlers, over
--                Adapters; App (app.ts) is liveness and readiness. System (build-server.ts) puts all
--                routes over one database: a state, one function `handle` for a request, and the
--                states that sequences of requests reach.
--   Tests        runs at concrete inputs and each theorem at such an input.
--
-- How code becomes definitions: a thrown error is `err` of a result, a promise is what it resolves
-- or rejects with, a mutable field is passed in and returned, and the calls that a gateway makes are
-- a list in the order of the calls. A `Set` that is spread into an array is a list without
-- duplicates in the order of first occurrence. `x.trim() === ""` is `is_blank`, which knows the white
-- space of ASCII, the no-break space, the byte order mark and the separators of Unicode.
--
-- Numbers: a JavaScript number is a finite dyadic fraction, NaN or an infinity, and is exact here;
-- versions and token counts are natural numbers (in the code they are exact below 2 ^ 53). A column
-- of 4 bytes refuses a wider priority or version, and JSON keeps null for NaN. A date is
-- a whole number of milliseconds or invalid, as NaN makes it. No function needs fuel: every loop of
-- the code runs over a list or a text, and turns of the runner are counted.
--
-- Parameters, since their code is not in the repository: the hash, HMAC, scrypt, random token and
-- random id of node:crypto, the JSON, hexadecimal and base64url codecs, the printing of a number,
-- lower-casing, the files and paths of node:fs and node:path, the SDK's client, the tools, the vault
-- and the activity log that a caller hands to the tool gateway, the providers of the model gateway,
-- and what is said of PostgreSQL: a statement runs as described by the call of the query builder,
-- and `for update skip locked` passes over locked rows. What the code relies on of a codec, of the
-- files and of the paths is a record of laws (IsPlatform, IsCodec, IsJoin, IsFiles, IsPrinted), each
-- of which the tests fill for a concrete one.
--
-- Not modelled: the web application, the database connection and migrations, and the start of the
-- server, which are I/O and wiring; the HTTP framework, which parses a request and answers 500
-- to a handler that throws; the listing of the object store, which walks directories. The requests of
-- System are answered one after another; what happens between the statements of two of them is in
-- Board.Concurrency and Queue for claims, and in Signup for two sign-ups. The database is one that is
-- reached, and refuses a statement for a key, a foreign key, a unique column or, for the priority of an
-- item and a version, for 4 bytes of integer: a lost connection, a text with the character 0 and a key
-- that is too long for an index are left out.
pub mod Base
pub mod Core
pub mod Governance
pub mod Agent
pub mod Adapters
pub mod Server
mod Tests
