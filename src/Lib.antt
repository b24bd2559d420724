-- ===== src/Lib.antt =====
-- Praesidio: a guard for FAssets agent vaults that runs in a trusted execution environment, and
-- the tools that deploy it. This library models the guard (tee/go/internal/extension), the
-- ledger contract that verifies its signatures (contracts/src/GuardianRegistry.sol), the
-- deployment checks (tee/tools/pkg/validate and tee/tools/cmd/verify-deploy), and the tools
-- that register an extension and its machine (tee/tools/pkg/fccutils, utils and support).
--
-- How the parts interact: a relayer calls POST /guard/check, or the tee-node calls POST
-- /action; either runs checkVaultJSON, which reads the vault's health and the guard's policy
-- over JSON-RPC, decides, and signs an action with the enclave's key. A relayer brings the
-- signed action to the contract's postAction. The deployment checks read extension.env, the
-- process environment and the chain, and fill a report that verify-deploy prints and turns into
-- an exit status. The tools send transactions: SetupExtension registers the extension,
-- SetTeeGovernance its signers, RegisterNode the machine in steps that a state file lets it
-- resume, and run-test sends two instructions and polls the proxy for their results.
--
-- The files:
--
-- - Prelude: shared names, Boolean tests, lists over native numbers; Outcome, a Go call that
--   returns a value and an error or panics; Text, functions of strings; Decimal,
--   big.Int.String, SetString and ParseUint, with their round trips.
-- - Guard/Data and Guard/World: types.go and config.go, and what the guard meets outside the
--   repository. Guard/Rpc is ethCall, readVaultHealth and readGuard; Guard/Price is
--   formatPrice; Guard/Words and Guard/Digest are uintWord, leftPadWord and registryDigest of
--   guard_rpc.go.
-- - Guard/Check: checkVaultJSON and signTopUpAction of extension.go as functions from a state
--   to a result and a state. Guard/Handlers: stateHandler, guardCheckHandler, processAction,
--   processGuard, checkVault of extension.go, actionHandler and buildResult of utils.go.
-- - Guard/Startup: the environment, the owner and the ports that tee/go/cmd/start-tee and
--   cmd/docker start with, the routes of the server, and how the processes end.
-- - Guard/Interleaving: the same check cut at its mutex, as the steps of a system of checks.
-- - Registry: postAction and _recover of the contract, over a state of guards, actions and the
--   signer. Registry/Contract is the whole contract: its constructor and every transaction, one
--   function each, and execute, which tells the calls apart. A transaction carries its sender,
--   its block and the asset manager's answer; one that reverts leaves the state alone.
-- - Validate/Report is report.go; Validate/Host is validate.go with what the checks meet
--   outside; Validate/EnvFile, Deploy, Registration, Services and Machine are checks.go;
--   Validate/Steps is about what the steps add; Validate/Command is main.go of verify-deploy.
-- - Tools/Chain: CheckTx of support.go and revert.go; Calls, actions that may fail and leave a
--   history of calls; Follows, Yields, Sending and Exactly, rules by which an action sends what
--   a plan says; Offers, the transactions that it gives to the node, which may take or refuse
--   them; Selectors is about the names of reverts.
-- - Tools/Proxy: tee_calls.go and policy_consistency.go; Identity is common.go with
--   CodeHashAndPlatform, Configuring is SetProxyUrl, and Polling is about the loop of
--   ActionResult.
-- - Tools/Registration: RegisterNode of registration.go; State is its state file, Machine and
--   Availability are the transactions of its steps, Diagnosis is diag.go. Plan is the
--   specification: the steps that the command names and the state file does not. Run and Steps
--   show that a run sends a start of its plan, Stages, Resume and Completion where a failure
--   leaves it and what resuming does.
-- - Tools/Extension, Governance, Version, Support and Instructions: extension.go; governance.go
--   with the parsers of cmd/set-governance; StringToBytes32 and AddTeeVersion with
--   cmd/allow-tee-version; support.go with its addresses file, the default key and the set-up
--   of clients; instructions.go, and cmd/run-test in Instructions/Trial.
-- - Tools/Command: the commands that put these together. Deploying is cmd/deploy-contract and
--   NewExtension is cmd/register-extension, whose printed identifier ends in extension.env;
--   RegisterTee is cmd/register-tee; Governing is the start of cmd/set-governance and
--   cmd/allow-tee-version; StartProxy is about the settings of cmd/start-proxy. Tools/Audit and
--   Tools/Query are the reports of cmd/audit-deploy and cmd/query-tee.
-- - Examples: concrete worlds, and the theorems applied to them.
--
-- What is a parameter: the process environment, the node's answers, go-ethereum (addresses,
-- keccak256, ECDSA, ABI packing), JSON, the tee-node's hash of a text and its parser of
-- messages, HTTP and TCP reachability, the chain client and the contract bindings.
-- Registry/Acceptance states as IsEcdsa what the ledger relies on in a signature: both sides
-- hash alike, and a signature has 65 bytes, a low s, a recovery byte of 0 or 1, and recovers to
-- the address of its key.
--
-- The chain, the proxies and the file system answer the tools as functions of the history of
-- all calls that were made before, so that nothing is assumed of them but what a theorem names;
-- IsReliable says of the state file that it can be read and written and that what is written is
-- read back. A call that a theorem does not tell apart is recorded by its name alone.
--
-- Numbers: uint64 counters and nonces wrap around with % 2 ^ 64; a big.Int that is never
-- negative is a natural number. Texts are lists of Unicode characters. Fuel: digits and bytes
-- of a number n run on fuel n, which is enough since every round divides it; the padding of a
-- price runs on its width, since every round adds a character; the loop of ActionResult is
-- recursion on the rounds that are left, 15 in all. The two maps of addresses that
-- RegisterDeployChecks walks are two lists, since Go walks a map in a different order each
-- time.
--
-- Not modelled: log lines, failures to write a reply, flag parsing, the JSON encoder, the
-- servers that start-up code runs with their shutdown and the loading of .env files, the proxy,
-- the contract's events and views, and the backend and web directories.
pub mod Examples
pub mod Guard
pub mod Prelude
pub mod Registry
pub mod Tools
pub mod Validate
