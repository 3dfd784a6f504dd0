-- ===== src/Lib.antt =====
-- A model of the kernel of UADS, the orchestration layer that plans, routes and checks the work of
-- coding agents, and what is proved of it. The kernel takes a normalized intake, classifies it by
-- scope and risk, gives it a context radius, a token budget and gates, routes it to a model
-- profile, and lets it pass only on evidence and independent reviews of the current change; a cost
-- governor keeps the ledger and holds the budget; a masker prepares sources for the search for
-- dependencies.
--
-- Which module models which part:
--   Common       lists, texts, options, integers, equality and stable sorting: the array and text
--                methods that the source uses, with the lemmas on them.
--   Kernel       src/kernel/types.ts (Types), ids.ts (Ids), policy.ts and domains.ts (Policy):
--                classifyScopeSize, classifyRisk, selectDomains, selectContextRadius,
--                selectCapabilityClass, TOKEN_BUDGETS. The theorems stand in Policy/Scope,
--                Policy/Risk, Policy/Domains and Policy/Tiers.
--   Model        src/kernel/model-types.ts (Types), model-runtime.ts (Runtime),
--                model-requirements.ts (Requirements/Floors, Requirements/Derive; theorems in
--                Requirements/Escalation) and model-router.ts (Router): compareCandidate in
--                Router/Compare, profileRejection in Router/Reject, the parts of a plan in
--                Router/Plan, routeModel in Router/Route; theorems in Router/Adequate,
--                Router/Choice, Router/Selection and Router/Safety.
--   Gates        src/kernel/gates.ts (Registry), cache-policy.ts (Reuse), the records of
--                execution-types.ts (Records), and of execution.ts evidenceSatisfiesGate
--                (Evidence), reviewGateState and deriveGateStates (States); Current names the
--                current records by their fields; theorems in Reuse, Evidence, Settled,
--                Verdicts and Reviews.
--   Lexer        src/kernel/js-ts-lex.ts: characters (Units), the scans of one comment, string or
--                regular expression (Scan), the loops (Machine); theorems in Covers, Turns,
--                Alignment and Words.
--   Cost         src/kernel/cost-types.ts and cost-persist.ts (Types, Ledger) and
--                cost-governor.ts (Ledger, Budget); theorems in Accounting, Counting and
--                Enforcement.
--   Impact       src/kernel/impact.ts over records of intelligence-types.ts (Types): the map of
--                items (Items) and the breadth-first search of analyzeImpact (Search); theorems in
--                Ends, Reach and Complete, by way of Layers, Expand and Turns.
--   Assurance    src/kernel/assurance-policy.ts over records of specialist-types.ts (Types): roles and
--                reasons (Roles), the identity of records and the selection plan (Binding), the
--                obligations and gates of a role (Selection), the loop over reviews (Reviews),
--                evaluateAssurancePolicy (Policy); theorems in Finalize, by way of Sound, Apart,
--                Approvals and Silent.
--   Execution    the run of a work order: src/kernel/execution.ts over the files of
--                execution-persist.ts, execution-integrity.ts, persist.ts and src/lib/safe-persist.ts
--                (Store, Sanitize, SanitizePlan, Persist). loadActive and buildPacket in Run,
--                runVerify in Verify, runEvidenceRecord in Contract and Record, runAssuranceStart
--                in Assure, runAssuranceRecord in Reviewer and Review, runFinalize in Finalize,
--                runContextExpand in Expand. Lifecycle is the abstract life of a run, a relation
--                for each kind of command, Valid the well-formed runs, Logic the rules for
--                commands; Steps, Frames, Commands, Held,
--                Kept, Moves, Blockers and Closing carry them to Refinement. What single commands
--                guarantee stands in Completed (by way of Ready and Reading), in Refused (by way
--                of Hindrances, Checks and Hindered), in Distinct and in Proven (by way of
--                Recordable); Returns is the logic of calls that return.
--
-- How the parts meet. Execution derives the gate states of Gates from the evidence and reviews that
-- it stores, asks the policy of Assurance before a review begins, before one is written and before
-- a run completes, and counts in the ledger of Cost.
--
-- How state and failure are modelled. A function that may throw returns Common.Result or, in Cost,
-- an outcome that carries the store it leaves. The store of Cost is the ledger's file and the
-- decisions written; each call takes a store and returns one. A command of Execution is an action on
-- a store of records that returns or throws; what it wrote before it throws stays written. A field that may be missing or null
-- is an Option. A field that only holds a schema's name is left out. Functions are by clauses and
-- run on concrete inputs: the modules named Tests do so.
--
-- Parameters. What is not code of the repository is a parameter: the SHA-256 digest of ids and
-- the order of localeCompare (the record RoutingEnv of Model/Router/Plan; theorems on the choice
-- ask that localeCompare orders the ids), the time, the digest, the redaction of secrets
-- and the verdicts of the JSON schemas (the record Surroundings of Cost/Types). The digest of a work order is a parameter too,
-- and so is validateCacheReuseEvidence of src/kernel/cache-integrity.ts, which compares a reused
-- record with the cache on disk: Gates/States takes any such test. The commands of Execution find
-- around them (the record World of Execution/Store) the change set of the work tree, the redaction
-- of secrets, the verdicts of the schemas, and the answers of the modules that are not modelled:
-- the bound specialist selection, the cache, the candidates and the pack of a wider context.
--
-- Bounds. Token counts, ranks and percentages are natural numbers, differences of them integers;
-- exit codes are integers. Lower-casing is that of ASCII letters, which is what the words that the
-- source looks for are made of. A source of the masker is a list of UTF-16 code units. Its loops
-- run on fuel, one more than the source has units: each turn takes at least one unit
-- (Lexer/Turns), so the fuel is enough (Lexer/Alignment). The search of Impact runs on fuel too: as
-- many turns as there are seeds and ends of edges, for a path is queued once (Impact/Ends).
-- Confidences, fractions of one in the source, are in hundredths.
--
-- Not modelled: paths, directories and JSON text (a file that holds no valid record reads as
-- missing), git, hashing, the extraction of dependencies, and the modules src/adapters,
-- src/commands, src/eval, src/github, src/release and, but for safe-persist.ts, src/lib. Of
-- src/kernel/execution.ts runDispatch, the parsing of findings, the quality snapshot, the filling
-- of the evidence cache, the failure memory and the views for status are left out, of
-- cost-governor.ts the quality snapshot, which divides
-- floating-point numbers, of impact.ts what happens before and after the search, and of
-- model-router.ts routeWorkOrder, which reads the store.
pub mod Common
pub mod Kernel
pub mod Model
pub mod Gates
pub mod Lexer
pub mod Cost
pub mod Impact
pub mod Assurance
pub mod Execution
