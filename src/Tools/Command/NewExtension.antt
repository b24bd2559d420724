-- ===== src/Tools/Command/NewExtension.antt =====
-- tee/tools/cmd/register-extension/main.go: the registration of an extension, and the text of its
-- identifier that the scripts put into extension.env.
pub mod Printing
pub mod ReadBack
use Prim.Native.Nat.{ℕ, zero, suc, ◌-◌, ◌/◌, ◌%◌}
use Prim.Native.String.{String, [], ◌∷◌, ◌++◌ as ◌+++◌}
use mathlib.Core.Option.{some}
use praesidio.Prelude.{Bytes, str_eq, if◌then◌else◌}
use praesidio.Prelude.Text.{nibble, text_length}
use praesidio.Validate.Host.{Host, zero_address, address_has_code}
use praesidio.Tools.Chain.Calls.{Action, pure, fail, lift, ◌>>=◌}
use praesidio.Tools.Support.{Environment, Dialer, Support, default_support}
use praesidio.Tools.Extension.{Registries, setup_extension}

-- The digits of `n` in front of `out`; `n` rounds are enough.
unfoldable pub hex_digits : ℕ → ℕ → String → String
hex_digits zero n out = out
hex_digits (suc fuel) zero out = out
hex_digits (suc fuel) (suc n) out = hex_digits fuel (suc n / 16) (nibble (suc n % 16) ∷ out)

unfoldable pub hex_zeros : ℕ → String → String
hex_zeros zero s = s
hex_zeros (suc k) s = "0" ∷ hex_zeros k s

-- `%064x`
unfoldable pub padded_hex : ℕ → String
padded_hex n = let digits = hex_digits n n "" in hex_zeros (64 - text_length digits) digits

abbrev pub extension_id_text : ℕ → String
extension_id_text id = "0" ∷ "x" ∷ padded_hex id

-- What the command meets.
pub record Registrar : Type 0 where
  pub host : Host
  pub environment : Environment
  pub dialer : Dialer
  -- the bindings; their key comes from the support
  pub registries : Registries

abbrev pub registries_of : Registrar → Support → Registries
registries_of r sup = record r.registries { prv = sup.prv }

unfoldable pub register_sender : Registrar → Bytes → Support → Action String
register_sender r instruction_sender sup = do
  _ ← lift (address_has_code r.host (some sup.chain_client) instruction_sender "InstructionSender")
  extension_id ← setup_extension (registries_of r sup) instruction_sender zero_address
  pure (extension_id_text extension_id)

-- `main`: the text that it prints
unfoldable pub register_new_extension : Registrar → String → String → String → Action String
register_new_extension r addresses_file chain_url instruction_sender =
    if str_eq instruction_sender "" then fail "--instructionSender flag is required" else (do
      sup ← lift (default_support r.environment r.dialer addresses_file chain_url)
      register_sender r (r.host.hex_to_address instruction_sender) sup)
