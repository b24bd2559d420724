-- ===== src/Tools/Query.antt =====
-- tee/tools/cmd/query-tee/main.go: the lines that it prints about an extension's machines and about
-- each machine that is asked for.
use Prim.Native.String.{String, ◌++◌ as ◌+++◌}
use praesidio.Prelude.{ℕ, ◌+◌, Bytes, List, [], ◌∷◌, ◌++◌, bytes_eq, if◌then◌else◌}
use praesidio.Prelude.Decimal.{ℤ, pos, negsuc, decimal}
use praesidio.Validate.Host.{Answer, ok, err, zero_address}
use praesidio.Tools.Audit.{Printout}

-- `GetTeeMachine`
pub record TeeMachine : Type 0 where
  pub tee_id : Bytes
  pub tee_proxy_id : Bytes
  pub url : String

-- What the command meets: the binding's calls, and the texts of values.
pub record Querier : Type 0 where
  -- `ethclient.Dial`, at a URL, and `NewMachineManager`, at an address
  pub dial : String → Answer {0} Unit
  pub bind_manager : Bytes → Answer {0} Unit
  -- each machine with its URL
  pub active_machines : ℕ → Answer (List (Bytes × String))
  pub get_tee_machine : Bytes → Answer TeeMachine
  pub machine_status : Bytes → Answer ℕ
  pub machine_owner : Bytes → Answer Bytes
  pub extension_of : Bytes → Answer ℕ
  pub last_status_change : Bytes → Answer ℕ
  pub initial_signing_policy : Bytes → Answer ℕ
  pub hex_to_address : String → Bytes
  pub address_hex : Bytes → String
  pub quote : String → String

-- The lines of the machines, numbered.
unfoldable pub machine_lines : Querier → ℕ → List (Bytes × String) → List String
machine_lines q i [] = []
machine_lines q i ((id, url) ∷ machines) =
    ("  " +++ decimal i +++ ": " +++ q.address_hex id +++ " url=" +++ q.quote url)
    ∷ machine_lines q (i + 1) machines

abbrev pub or_none : List String → List String
or_none [] = "  (none)" ∷ []
or_none (line ∷ lines) = line ∷ lines

unfoldable pub active_lines : Querier → Answer (List (Bytes × String)) → List String
active_lines q (err e) = ("getActiveTeeMachines ERROR: " +++ e) ∷ []
active_lines q (ok machines) = or_none (machine_lines q 0 machines)

unfoldable pub active_report : Querier → ℤ → List String
active_report q (negsuc n) = []
active_report q (pos ext) =
    ""
    ∷ ("=== Active TEEs for extensionId=" +++ decimal ext +++ " ===")
    ∷ active_lines q (q.active_machines ext)

-- An answer with its name, or its error.
abbrev pub answer_line : {A : Type 0} → String → (A → String) → Answer A → String
answer_line name show (ok a) = "  " +++ name +++ ": " +++ show a
answer_line name show (err e) = "  " +++ name +++ " ERROR: " +++ e

unfoldable pub tee_lines : Querier → Answer TeeMachine → List String
tee_lines q (err e) = ("  getTeeMachine ERROR: " +++ e) ∷ []
tee_lines q (ok m) =
    ("  getTeeMachine: teeId="
      +++ q.address_hex m.tee_id
      +++ " teeProxyId="
      +++ q.address_hex m.tee_proxy_id
      +++ " url="
      +++ q.quote m.url)
    ∷ (if bytes_eq m.tee_id zero_address then "  -> EMPTY/UNREGISTERED" ∷ [] else [])

unfoldable pub machine_report : Querier → String → List String
machine_report q raw =
    let id = q.hex_to_address raw in
    ""
    ∷ ("=== TEE " +++ q.address_hex id +++ " ===")
    ∷ (tee_lines q (q.get_tee_machine id)
        ++ (answer_line "getTeeMachineStatus" decimal (q.machine_status id)
            ∷ answer_line "getTeeMachineOwner" q.address_hex (q.machine_owner id)
            ∷ answer_line "getExtensionId" decimal (q.extension_of id)
            ∷ answer_line "getLastStatusChangeTs" decimal (q.last_status_change id)
            ∷ answer_line "getInitialSigningPolicyId" decimal (q.initial_signing_policy id)
            ∷ []))

unfoldable pub machine_reports : Querier → List String → List String
machine_reports q [] = []
machine_reports q (raw ∷ raws) = machine_report q raw ++ machine_reports q raws

-- `main`, at its URL, address, extension and arguments
abbrev pub bound_report : Querier → ℤ → List String → Answer {0} Unit → Printout
bound_report q ext raws (err e) = record {
  lines = [];
  errors = ("bind: " +++ e) ∷ [];
  exit_code = 1;
}
bound_report q ext raws (ok b) = record {
  lines = active_report q ext ++ machine_reports q raws;
  errors = [];
  exit_code = 0;
}

abbrev pub dialled_report : Querier → String → ℤ → List String → Answer {0} Unit → Printout
dialled_report q registry ext raws (err e) = record {
  lines = [];
  errors = ("dial: " +++ e) ∷ [];
  exit_code = 1;
}
dialled_report q registry ext raws (ok c) =
    bound_report q ext raws (q.bind_manager (q.hex_to_address registry))

unfoldable pub query_tee : Querier → String → String → ℤ → List String → Printout
query_tee q rpc_url registry ext raws = dialled_report q registry ext raws (q.dial rpc_url)
