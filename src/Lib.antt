-- ===== src/Lib.antt =====
-- A model of agentdir, a directory of agents that call one another's skills and pay for them.
--
-- The parts and the files that model them:
--   packages/sdk/src/agent-card.ts: `canonicalJson` is Canonical.canonical_json, the text under every
--     signature; Signed has the digest, `signDigest` of packages/agent/src/identity.ts, and the check
--     of a value that carries its signature.
--   packages/sdk/src/payments.ts: Sdk.Payments has the receipts of payments, `signReceipt`,
--     `verifyReceipt` and `checkReceiptShape`; Sdk.Payments.Settle has `settle` of the adapter, over
--     what its calls of the service gave, and its loop over a list of polls.
--   packages/sdk/src/rep.ts: Sdk.Rep has the chain of attestations, `append` with its lock, `walk`,
--     `score` and `scoreFor`; Sdk.Storage is what is assumed of the storage service.
--   packages/sdk/src/snapshot.ts: Sdk.Snapshot has the chain of snapshots. The head, the lock and the
--     walk, which the two chains share, are in Sdk.Links.
--   packages/agent/src/protocol.ts: Agent.Protocol has the envelopes and the tests on them.
--   packages/agent/src/agent.ts: Agent.Runtime has the types, Agent.Runtime.Admit the tests on a
--     request (`rejectStale`, `validateInput`, `checkPayment`), Agent.Runtime.Handle the work on it
--     (`handleInbound`, `handleSkillRequest`, replies, chunks, `attest`, `bumpStats`,
--     `maybeSnapshot`). The state of the object is the record Agent; what it sends is its field
--     `sent`. A method is a function of the state that returns or throws, module Agent.Act.
--   packages/agent/src/caller.ts: Agent.Caller has the arguments, Agent.Caller.Check the tests on a
--     response and on a chunk, Agent.Caller.Loop the loops, `callSkill` and `callSkillStream`. A
--     poll of the receive queue carries the times that the source reads there. A run over a list of
--     polls that is too short has the outcome `waiting`, which Agent.Caller.Calls shows to be
--     impossible once the deadline has passed.
--   packages/sdk/src/agent-card.ts: Sdk.Cards has `buildAgentCard`, `validateAgentCard` and
--     `parseAgentCard`, which ENS and the directory use.
--   packages/sdk/src/ens.ts: Sdk.Ens has the resolver of records and `verifyIdentity`.
--   packages/sdk/src/directory.ts: Sdk.Directory has the query, over Sdk.Ens, Sdk.Cards and Sdk.Rep.
--   packages/agent/src/local-bus.ts: Agent.Bus has the queues of the bus within one process.
--   packages/agent/src/skills.ts: Agent.Skills has the registry and the skills that ask a model, over
--     the client of the model; Agent.Skills.Route has the route skill, with the types of
--     packages/sdk/src/swarm.ts, over `callSkill`. Agent.Skills.Route.Network puts routers together: a
--     call to a router runs its handler, on fuel, and every unit of the hop budget needs one.
--   Frontend/lib/rate-limit.ts: Web.RateLimit has the limiter; its map of buckets is the state.
--   Frontend/lib/wallet-auth.ts: Web.Auth has the challenges; the rows of the collection are the state.
--     Web.Auth.Once interleaves the two halves of requests, the update of the row and what follows the
--     check of the signature.
--   Frontend/lib/identity-crypto.ts and Frontend/lib/identity-store.ts: Web.Identity has the sealing of
--     keys, Web.Identity.Store the collection and the cache, which are the state.
--   Frontend/lib/call-server.ts: Web.Callee has the runtimes of the hosted agents, which start with
--     the skills of Agent.Skills on a bus of Agent.Bus, and Web.Calls has `callAgentSkill` and
--     `callAgentSkillStream` (their events and results are in Web.Trace), over Sdk.Ens, Sdk.Cards, a
--     boot and a call of Agent.Caller.
--   Frontend/lib/prompt-skills.ts: Web.PromptSkills has the collection of the skills that owners publish.
--   Base and Js have what the models share: lists and tests over the native numbers, JSON values,
--     strings, maps in insertion order, calls that throw.
--
-- How the code is read. A number is an integer or NaN. A fraction is exact. Arithmetic reads a text as
-- the integer that it spells (Js.Coerce); texts that spell fractions or infinities are not modelled.
-- `toLowerCase` folds the ASCII letters, which are all that keys and addresses have; a name in other
-- letters keeps their case, where the source folds them too. Times are milliseconds;
-- each call of `Date.now()` is an argument, since nothing is known of two calls but that each gives
-- some time. JSON.parse, the transport, the storage, keccak256 and ed25519 are parameters; Crypto and
-- Sdk.Storage say what is assumed of the last ones. Skill handlers are functions of their input that
-- return or throw. The loop of `walk` takes its limit for fuel, which is the bound of the source's own
-- loop, so it never runs out early. The nonce cache is a list with the oldest nonce first, as a Map
-- of JavaScript iterates.
--
-- Not modelled: `snapshotNow` of the agent, `recv` of the local bus, the writers of ENS records and of
-- the iNFT, the compute clients, the other libraries of Frontend/lib, HTTP and chain clients, the
-- frontend's pages, the command line, and the parts that need a live service.
pub mod Base
pub mod Js
pub mod Crypto
pub mod Canonical
pub mod Signed
pub mod Sdk
pub mod Agent
pub mod Web
pub mod Examples
