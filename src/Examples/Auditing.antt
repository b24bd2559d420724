-- ===== src/Examples/Auditing.antt =====
-- What the reports on the chain print.
use praesidio.Prelude.{[], ◌∷◌, ◌≡◌, refl, replicate, bytes_eq}
use praesidio.Prelude.Decimal.{decimal}
use praesidio.Validate.Host.{ok, err, zero_address}
use praesidio.Tools.Audit.{code_status, address_status}
use praesidio.Tools.Query.{Querier, machine_lines, active_lines}

-- The zero address is told of before its code.
status_zero : address_status zero_address (ok (96 ∷ [])) ≡ "ZERO ADDRESS"
unfolding address_status bytes_eq
status_zero = refl

status_code : address_status (7 ∷ []) (ok (96 ∷ 128 ∷ [])) ≡ "ok (2 bytes)"
unfolding address_status code_status bytes_eq decimal
status_code = refl

abbrev querier : Querier
querier = record {
  dial = λ url. ok tt;
  bind_manager = λ a. ok tt;
  active_machines = λ ext. ok ((7 ∷ [], "http://tee") ∷ []);
  get_tee_machine = λ id. err "not found";
  machine_status = λ id. ok 1;
  machine_owner = λ id. ok (9 ∷ []);
  extension_of = λ id. ok 10;
  last_status_change = λ id. ok 1000;
  initial_signing_policy = λ id. ok 6;
  hex_to_address = λ s. replicate 20 1;
  address_hex = λ a. "0xaddress";
  quote = λ s. s;
}

active_one : active_lines querier (querier.active_machines 0) ≡ "  0: 0xaddress url=http://tee" ∷ []
unfolding active_lines machine_lines decimal
active_one = refl

active_none : active_lines querier (ok []) ≡ "  (none)" ∷ []
unfolding active_lines machine_lines
active_none = refl
