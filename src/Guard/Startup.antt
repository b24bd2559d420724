-- ===== src/Guard/Startup.antt =====
-- How the guard's process starts: tee/go/cmd/start-tee/main.go, tee/go/cmd/docker/main.go, the ports
-- of tee/go/internal/config/config.go and StartExtension of tee/go/pkg/server/server.go.
pub mod Owner
use Prim.Native.String.{String, ◌++◌ as ◌+++◌}
use praesidio.Prelude.{
  suc, List, [], ◌∷◌, ℕ, Bytes, Bool, not, ◌||◌, Option, none, some, leb, str_eq, ◌==◌,
  if◌then◌else◌,
}
use praesidio.Prelude.Decimal.{ℤ, pos, negsuc, decimal, set_string}
use praesidio.Prelude.Text.{has_prefix2, drop2}
use praesidio.Validate.Host.{Answer, ok, err}
use praesidio.Tools.Proxy.{answer_bind}

-- `strconv.Atoi`: a signed number of 64 bits
abbrev in_range : ℤ → Option ℤ
in_range (pos n) = if leb n 9223372036854775807 then some (pos n) else none
in_range (negsuc n) = if leb n 9223372036854775807 then some (negsuc n) else none

abbrev ranged : Option ℤ → Option ℤ
ranged (some n) = in_range n
ranged none = none

unfoldable pub atoi : String → Option ℤ
atoi s = ranged (set_string s)

abbrev number_or : ℤ → Option ℤ → ℤ
number_or fallback (some v) = v
number_or fallback none = fallback

-- `intEnv`
unfoldable pub int_env : (String → String) → String → ℤ → ℤ
int_env getenv key fallback = number_or fallback (atoi (getenv key))

-- `init` of the configuration: a variable that is not set, or is no number, leaves the default.
unfoldable pub port_of : (String → String) → String → ℤ → ℤ
port_of getenv key default_port =
    let v = getenv key in
    if not (str_eq v "") then number_or default_port (atoi v) else default_port

pub record Ports : Type 0 where
  pub config_port : ℤ
  pub sign_port : ℤ
  pub extension_port : ℤ

-- The ports of the Docker process.
unfoldable pub docker_ports : (String → String) → Ports
docker_ports getenv = record {
  config_port = int_env getenv "CONFIG_PORT" (pos 5501);
  sign_port = port_of getenv "SIGN_PORT" (pos 9090);
  extension_port = port_of getenv "EXTENSION_PORT" (pos 8080);
}

-- Packages `crypto` and `common`.
pub record Library : Type 0 where
  -- `HexToECDSA` and `PubkeyToAddress`
  pub hex_to_ecdsa : String → Answer Bytes
  pub address_of : Bytes → Bytes
  -- `Address.String` and `HexToAddress`
  pub address_hex : Bytes → String
  pub hex_to_address : String → Bytes

-- What the local process meets.
pub record Machine : Type 0 where
  pub library : Library
  -- the error that the extension's server, at its port, has sent 100 milliseconds after its start
  pub early_failure : ℕ → Option String
  -- `json.Marshal` of a request with the URL, and `http.Post`: the status
  pub marshal_url : String → Answer Bytes
  pub post : String → Bytes → Answer ℕ

abbrev pub dev_key_hex : String
dev_key_hex = "804b01a8c27a65cc694a867be76edae3ccce7a7161cda1f67a8349df696d2207"

-- A process that ends at an error stands as that error.
abbrev fatal {ℓ} : {A : Type ℓ} → Answer A → Answer A
fatal (ok a) = ok a
fatal (err e) = err ("Error: " +++ e)

abbrev panic_with {ℓ} : {A : Type ℓ} → String → Answer A → Answer A
panic_with text (ok a) = ok a
panic_with text (err e) = err text

-- The key whose address stands for an owner that is not given.
unfoldable pub owner_key : Library → String → Answer Bytes
owner_key l key =
    if str_eq key ""
    then panic_with "cannot parse default private key" (l.hex_to_ecdsa dev_key_hex)
    else fatal (
        l.hex_to_ecdsa
          (if has_prefix2 b'0' b'x' key || has_prefix2 b'0' b'X' key then drop2 key else key))

-- `os.Setenv`
abbrev pub setenv : (String → String) → String → String → String → String
setenv env key value name = if str_eq name key then value else env name

-- `setOwnerAddress`: the address that it returns, and the environment that it leaves.
unfoldable pub set_owner_address : Library → (String → String) → Answer (Bytes × (String → String))
set_owner_address l env =
    let owner = env "INITIAL_OWNER" in
    if str_eq owner ""
    then answer_bind (owner_key l (env "DEPLOYMENT_PRIVATE_KEY")) (λ prv.
      ok (l.hex_to_address owner, setenv env "INITIAL_OWNER" (l.address_hex (l.address_of prv))))
    else ok (l.hex_to_address owner, env)

-- `setProxyURL`
unfoldable pub set_proxy_url : Machine → ℕ → ℕ → Answer {0} Unit
set_proxy_url m configuration_port proxy_port =
    answer_bind (m.marshal_url ("http://localhost:" +++ decimal proxy_port)) λ body.
      answer_bind (m.post ("http://localhost:" +++ decimal configuration_port +++ "/proxy") body)
        λ status.
          if status == 200 then ok tt else err ("unexpected status code: " +++ decimal status)

-- `runExtension`, behind the start of the two servers on their fixed ports
abbrev early : Option String → Answer {0} Unit → Answer {0} Unit
early (some e) rest = err ("extension server failed to start: " +++ e)
early none rest = rest

unfoldable pub run_extension : Machine → Answer {0} Unit
run_extension m = early (m.early_failure 7702) (fatal (set_proxy_url m 5501 6663))

abbrev with_extension_id : String → (String → String) → String → String
with_extension_id id env = if str_eq id "" then env else setenv env "EXTENSION_ID" id

-- `main` of start-tee, at its flag: the environment that the servers run in
unfoldable pub start_tee : Machine → String → (String → String) → Answer (String → String)
start_tee m extension_id env = answer_bind (set_owner_address m.library env) λ (returned, env1).
    let env2 = with_extension_id extension_id env1 in answer_bind (run_extension m) λ _. ok env2

-- What the extension's server listens on, and whom it hands a request to: `New`.
pub data Route : Type 0 where
  to_state to_action to_guard_check : Route

pub record Server : Type 0 where
  pub address : String
  pub routes : List (String × Route)

abbrev signed_decimal : ℤ → String
signed_decimal (pos n) = decimal n
signed_decimal (negsuc n) = "-" +++ decimal (suc n)

unfoldable pub new_server : ℤ → Server
new_server extension_port = record {
  address = ":" +++ signed_decimal extension_port;
  routes =
      ("GET /state", to_state)
      ∷ ("POST /action", to_action)
      ∷ ("POST /guard/check", to_guard_check)
      ∷ [];
}

-- How the Docker process is waiting until it ends: a signal, or an error of the server.
pub data Ending : Type 0 where
  signalled : Ending
  server_error : String → Ending

abbrev waited_for : Ending → Answer {0} Unit
waited_for signalled = ok tt
waited_for (server_error e) = err ("extension server error: " +++ e)

-- `main` of the Docker process: the failure within 100 milliseconds, then the ending
unfoldable pub docker_main : (ℤ → Option String) → (String → String) → Ending → Answer {0} Unit
docker_main early_failure getenv ending =
    let ports = docker_ports getenv in
    early (early_failure ports.extension_port) (waited_for ending)

-- What `ListenAndServe` returns in the plain process, whose server may have been shut down.
pub data ServeResult : Type 0 where
  server_closed : ServeResult
  listen_error : String → ServeResult

-- `main` of the plain process, behind the call
unfoldable pub plain_main : ServeResult → Answer {0} Unit
plain_main server_closed = ok tt
plain_main (listen_error e) = err ("server: " +++ e)
