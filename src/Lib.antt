-- ===== src/Lib.antt =====
-- CodeJam: an agent control plane, whose server (apps/server/src) runs coding agents, judges each
-- command that they issue against a capability policy, holds what a human may approve, and stores
-- all of it with an audit log. This library models the server's core.
--
-- The parts and how they interact. A command is split into what it would run (shell-parse.ts),
-- and each of these texts, with those that it decodes, pipes or writes, into the capabilities
-- that it asks for (capabilities.ts), which the policy judges (command-policy.ts). A run executes
-- (`executeRun` in agent-service.ts) on a runner, which scans the commands it issued
-- (`scanCommands` in command-policy.ts). A denied command ends the run, and the service writes
-- the outcome, the evidence and perhaps a request for approval in one mutation of the store
-- (store.ts), which appends the events to a log before it replaces the database. An approver
-- resolves a request once, and an approval opens a continuation of the run. What a run's
-- container contacts goes through the egress broker (egress-broker.ts).
--
-- Files.
--   Prelude: the shared names. Lists on native numbers, texts as lists of UTF-16 units,
--     `Result` for a method that may throw, `Exec` for one that also changes a state.
--   Data: the records of types.ts. A time is its number of milliseconds.
--   Policy: command-policy.ts. Types and Rules hold the tables, Evaluate `evaluateCommand`,
--     Guarantees and EgressHosts what its decisions guarantee, Redact `redactCommand`, Scan `scanCommands`.
--   Store: store.ts. Migration is the walk of an old database to the current version, Log
--     `PolicyEventLog`, Json `JsonStore`.
--   Service: agent-service.ts and errors.ts. Agents, Allowlist, Approvals, Evidence, Runs, Failing and
--     Execution hold the methods. Outcomes, Recording, Settling, Releasing, Conclusion, Completing, Resolving,
--     Clearing, Allowing and Hosts hold what they guarantee. System takes every write of the service
--     as a step between databases, with what the store keeps of it and the restarts; Asked, Sound, Once
--     and Distinct are about all that such steps reach.
--   Regex: regular expressions as data, and the backtracking matcher of the language; Search is
--     `test`, `match`, `matchAll` and `replace`.
--   Shell: shell-parse.ts. Words, Segments and Substitutions scan a text, Invocations resolves what a
--     segment runs, Options and Names hold the tables, Hosts reads a host from an argument, Tools the
--     hosts of an invocation, Commands every command that a text would run.
--   Capabilities: capabilities.ts. Networks, Secrets and Writes read one text, Scripts, Decoders and
--     Payloads find the texts that it materialises, Extract is `extractCapabilities`, Carveout
--     `isTextualUrlOnly`.
--   Runner: codex-runner.ts. The events of Codex; Stream is a run, its callbacks as steps. Lines,
--     Judging, Following and Returning hold its lemmas, Guarantees what it promises. Replay:
--     replay-runner.ts, with Endings and Parity on what it decides.
--   Enforcement: the policy with the extraction put in; Completed is a run from its start to its end,
--     through the service, the runner and the policy.
--   Broker: egress-broker.ts. Addresses judges an address by its bytes, Endpoints reads the
--     configured endpoints and the target of a CONNECT request, Gate handles a request.
--   Principals: principals.ts, the table of bearer tokens.
--
-- State. `Store.Log.World` holds the database and the events in memory, the two files, the clock
-- and the fate of each coming write. An operation takes a world and returns its result, or what
-- it threw, with the world it left. `JsonStore` runs its mutations one at a time, so a mutation
-- is one function from the copy of the database to the changed copy. The clock stands still
-- within one operation. `fresh n` stands for the identifier that `randomUUID` gives to the n-th
-- record of a mutation.
--
-- Parameters. Policy takes the extraction of capabilities and the test for a textual command as
-- arguments, and Enforcement gives it those of Capabilities. The runner of a run, the platform's
-- `isIP`, `Number`, URL parser and Buffer (`Shell.Node`), and `JSON.parse` (`Runner.Parser`),
-- name resolution and dialling, the digest of a token, and the outcome of the workspace's file
-- operations are arguments of the definitions that use them, and the theorems hold for all of
-- them; one theorem assumes that no name resolves to an empty text.
--
-- Bounds. The walk over the migrations runs on five rounds, one more than there are steps, and is
-- shown to end. The decimal digits of a number are computed on its successor as fuel, which
-- exceeds the number of its digits. The loops over the words of a segment run on the number of
-- their code units and words, and the calls between `sshRoutingHosts` and
-- `hostsFromNetworkInvocation` on two more than that number, which is shown to be enough. A loop
-- of a regular expression runs on the length of the text, since each round must consume a unit.
-- The depths 6, 4 and 8 of `executableSegments`, `extractCapabilities` and `unwrapShell` are
-- those of the source. The other loops follow their lists.
--
-- Not modelled: letter case beyond ASCII; the broker's sockets and its DNS relay; the processes
-- of the runners with the signals they get, the container runner, and the replay runner's set of
-- active agents; the halves of a character that two chunks share, since a chunk carries its text;
-- the numbers of an event that are no naturals; the HTTP routes and the configuration; the
-- evaluation and the benchmarks; the web interface; the read-only listings of the service.
pub mod Prelude
pub mod Data
pub mod Policy
pub mod Store
pub mod Service
pub mod Broker
pub mod Principals
pub mod Regex
pub mod Runner
pub mod Shell
pub mod Capabilities
pub mod Enforcement
