-- ===== src/Tools/Command/StartProxy.antt =====
-- tee/tools/cmd/start-proxy/main.go: the configuration of the proxy, and the identifiers that are
-- logged once it runs.
use Prim.Native.String.{String, ◌++◌ as ◌+++◌}
use praesidio.Prelude.{Bytes, Bool, List, [], ◌∷◌, not, str_eq, if◌then◌else◌}
use praesidio.Validate.Host.{Answer, ok, err}
use praesidio.Tools.Chain.Calls.{Action, label, relabel, lift, ◌>>=◌}
use praesidio.Tools.Proxy.{Services}
use praesidio.Tools.Proxy.Identity.{get_tee_proxy_id}

-- What the command meets.
pub record Place : Type 0 where
  pub getenv : String → String
  -- the folder of the sources, three levels up, and `filepath.Join`
  pub project_root : String
  pub join : List String → String
  -- whether `os.Stat` finds a file
  pub exists : String → Bool
  -- the error of `godotenv.Load`, of a file and of the one in the working directory
  pub load_file : String → Answer {0} Unit
  pub load_default : Answer {0} Unit
  -- the external port in the configuration
  pub read_config : String → Answer String

-- `loadEnv`: the warning that it prints, if neither file loads.
abbrev warning_of : Answer {0} Unit → List String
warning_of (ok u) = []
warning_of (err e) = ("Warning: Error loading .env file: " +++ e) ∷ []

abbrev else_default : Place → Answer {0} Unit → List String
else_default p (ok u) = []
else_default p (err e) = warning_of p.load_default

unfoldable pub load_env : Place → List String
load_env p = else_default p (p.load_file (p.join (p.project_root ∷ ".env" ∷ [])))

-- `findProxyConfig`
unfoldable pub find_proxy_config : Place → String
find_proxy_config p =
    let given = p.getenv "PROXY_CONFIG" in
    let candidate = p.join (p.project_root ∷ "config" ∷ "proxy" ∷ "extension_proxy.toml" ∷ []) in
    if not (str_eq given "")
    then given
    else if p.exists candidate
    then candidate
    else "./config/proxy/extension_proxy.toml"

-- `logProxyAndTeeIds`: the identifiers of the machine and of the proxy
unfoldable pub log_proxy_and_tee_ids : Services → Place → String → Action (Bytes × Bytes)
log_proxy_and_tee_ids v p config_file = do
  port ← lift (label "failed to read proxy config: " (p.read_config config_file))
  relabel "failed to extract teeID and proxyID: "
      (get_tee_proxy_id v ("http://localhost:" +++ port))
