-- ===== src/Tools/Proxy/Configuring.antt =====
-- `SetProxyUrl` of tee/tools/pkg/fccutils/tee_calls.go.
use Prim.Native.String.{String, ◌++◌ as ◌+++◌}
use praesidio.Prelude.{ℕ, Bytes, ◌==◌, if◌then◌else◌}
use praesidio.Prelude.Decimal.{decimal}
use praesidio.Validate.Host.{Answer, ok, err}
use praesidio.Tools.Proxy.{answer_bind}

-- `json.Marshal` of a request with the URL, and `http.Post`: the status
pub record Poster : Type 0 where
  pub marshal_url : String → Answer Bytes
  pub post : String → Bytes → Answer ℕ

unfoldable pub set_tee_proxy_url : Poster → ℕ → ℕ → Answer {0} Unit
set_tee_proxy_url p configuration_port proxy_port =
    answer_bind (p.marshal_url ("http://localhost:" +++ decimal proxy_port)) λ body.
      answer_bind (p.post ("http://localhost:" +++ decimal configuration_port +++ "/proxy") body)
        λ status.
          if status == 200 then ok tt else err ("unexpected status code: " +++ decimal status)
