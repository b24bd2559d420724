-- ===== src/Examples/Starting.antt =====
-- The start of the local process.
use praesidio.Prelude.{[], ◌∷◌, ◌≡◌, refl, str_eq, if◌then◌else◌}
use praesidio.Prelude.Text.{trim_space}
use praesidio.Validate.Host.{ok}
use praesidio.Tools.Support.{Environment, default_private_key}
use praesidio.Tools.Command.Governing.{governance_key}
use praesidio.Guard.Startup.{Library, set_owner_address}
use praesidio.Guard.Startup.Owner.{SameLibrary, Agrees, initial_owner-Agrees}
use praesidio.Examples.StateFiles.{bytes_text, text_bytes, text_bytes-bytes_text}
use praesidio.Examples.Trying.{demo_environment}

abbrev library : Library
library = record {
  hex_to_ecdsa = λ text. ok (6 ∷ []);
  address_of = λ prv. 7 ∷ prv;
  address_hex = bytes_text;
  hex_to_address = text_bytes;
}

-- Only the deployment's key is set.
abbrev environment : Environment
environment = record demo_environment {
  hex_to_address = text_bytes;
  hex_to_ecdsa = λ text. ok (6 ∷ []);
  dev_key = 6 ∷ [];
  getenv = λ name. if str_eq name "DEPLOYMENT_PRIVATE_KEY" then "0x06" else "";
}

same : SameLibrary library environment
same = record {
  keys = refl;
  addresses = refl;
  dev_key = refl;
  reads_back = λ prv. text_bytes-bytes_text (7 ∷ prv);
}

key : default_private_key environment ≡ ok (6 ∷ [])
unfolding default_private_key
key = refl

trimmed : trim_space "" ≡ ""
unfolding trim_space
trimmed = refl

initial_owner-Agrees_example :
    (governance_key environment (6 ∷ []) ≡ ok (6 ∷ []))
    × Agrees library environment (6 ∷ []) (set_owner_address library environment.getenv)
initial_owner-Agrees_example =
    initial_owner-Agrees library environment (6 ∷ []) same key trimmed refl
