-- ===== src/Lib.antt =====
-- Avorelo's decision kernel: what decides whether work may continue or is done, what records it, what
-- routes it to a model, and what queues and admits the tools that do it.
--
-- The program grades the artifacts of a piece of work (Evidence, kernel/evidence/index.ts), and the
-- gate alone turns graded evidence, the policy's verdict, the reviewers and the state of the
-- environment into CONTINUE, STOP_BLOCKED or STOP_DONE (Gate, kernel/stop-continue-gate/index.ts).
-- Events are stored, redacted, in a chain of hashes (Json for the stable text that is hashed and Ledger
-- for the chain, kernel/state-ledger/index.ts). A task frame is routed in steps (Routing): a primitive
-- by twelve rules (Routing/Primitives, validation/model-routing/index.ts), a model out of the registry
-- by safety filters, provider health and cost (Routing/Registry, Routing/Providers, Routing/Resolver:
-- model-registry.ts, provider-registry.ts and resolver.ts of kernel/model-routing), a cascade of steps
-- and a safe projection (Routing/Cascade: cascade.ts and receipt.ts), and a check of the whole
-- (Routing/Verifier: verifier.ts and index.ts, with its defaults in Routing/Defaults). A session keeps
-- the highest profile of its route (Routing/Session, session-memory.ts). Tool runs wait in a queue
-- (ToolAdapters/TaskQueue and ToolAdapters/Scrub, kernel/tool-adapters/task-queue.ts), and policies say
-- which adapter may run (ToolAdapters/Policies and ToolAdapters/TeamPolicy, policies.ts and
-- team-policy.ts beside it). Continuity is the part of
-- capabilities/session-continuity/policy.ts that infers how the work goes on. Entries of evidence with a
-- confidence, and the savings that may be claimed from them, are Evidence/Foundation
-- (kernel/evidence/foundation.ts).
--
-- A task becomes a routed contract with a risk, a proof tier and an approval (WorkContract,
-- kernel/work-contract/routing.ts; WorkContract/Words holds the words that it looks for). A loop of an
-- agent (LoopControl, capabilities/loop-control) starts from that: Readiness classifies the task
-- (readiness.ts), Policy bounds the loop (policy-builder.ts), and Orchestrator with its children Iteration
-- and Loop runs it (orchestrator.ts), with Checks (checks-runner.ts, check-detection.ts), Drift
-- (iteration-drift.ts) and DriftGuard (kernel/drift-guard/index.ts), asks the gate, writes a receipt
-- into the ledger (Receipts, kernel/receipts/index.ts) and records what was done (Metadata,
-- loop-metadata.ts). Orchestrator/Rules has the iterations as a step relation, with the induction
-- that the theorems on loops use. Regex is JavaScript's regular expressions, for the patterns of these
-- parts. SecretBoundary is the safe run that a contract starts from
-- (capabilities/secret-boundary/safe-run.ts, with its patterns), WorkControls weighs an action by
-- its hints and selects capabilities (kernel/work-controls/index.ts), EvidenceGate matches the
-- results of adapters against a proof contract (kernel/evidence-gate/index.ts), and ContextControl
-- gives the token budget to the items of the memory (kernel/context-control/budget.ts). The types
-- of shared/schemas/index.ts are in Schemas and beside the part that uses them. All paths are below
-- src/avorelo.
--
-- Functions keep their names, in snake case, as do the fields of records. A module's variables, an object
-- that is changed and a clock are arguments and results. A missing optional value is `none`. Numbers
-- are natural, and a difference that may be negative is an integer. A text is compared and cut by code
-- points. The loops are structural recursions, so none needs fuel, but for the decimal digits of
-- a number, where the number's successor is enough; the loop of an agent recurses on the iterations that
-- its policy leaves.
--
-- SHA-256, the redaction of payloads, `toUpperCase` and `toLowerCase` are parameters, and so are
-- what the adapter, git, the commands of the checks and the clock answer in a loop, the detector of
-- secrets, and the engine's order on the members that a table of ranks inherits. Not modelled: JSON
-- numbers other than the natural ones; the processes, files and servers, which are input and
-- output; and the other components of the repository.
pub mod Common
pub mod Schemas
pub mod Evidence
pub mod Gate
pub mod Json
pub mod Ledger
pub mod Routing
pub mod ToolAdapters
pub mod Continuity
pub mod Regex
pub mod DriftGuard
pub mod LoopControl
pub mod Receipts
pub mod WorkContract
pub mod SecretBoundary
pub mod EvidenceGate
pub mod WorkControls
pub mod ContextControl
