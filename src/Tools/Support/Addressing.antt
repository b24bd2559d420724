-- ===== src/Tools/Support/Addressing.antt =====
-- Which entry of the addresses file counts.
use Prim.Native.String.{String}
use praesidio.Prelude.{
  Bytes, Bool, true, false, List, [], ◌∷◌, Option, some, none, str_eq, ◌≡◌, refl, ap, ◌∙◌,
  if◌then◌else◌,
}
use praesidio.Validate.Host.{ok}
use praesidio.Tools.Support.{
  Addresses, RawContract, Environment, no_addresses, set_target, set_targets, parse_addresses,
}

-- The last entry with a name.
abbrev later : Option Bytes → Bool → Bytes → Option Bytes
later (some found) same addr = some found
later none same addr = if same then some addr else none

abbrev pub last_named : Environment → String → List RawContract → Option Bytes
last_named e name [] = none
last_named e name (c ∷ cs) =
    later (last_named e name cs) (str_eq c.name name) (e.hex_to_address c.address)

abbrev pub found_or : Bytes → Option Bytes → Bytes
found_or d none = d
found_or d (some addr) = addr

-- A field that an entry may set first, and the later entries then.
found_or-later :
    (o : Option Bytes) (same : Bool) (addr d : Bytes)
    → found_or (if same then addr else d) o ≡ found_or d (later o same addr)
found_or-later none true addr d = refl
found_or-later none false addr d = refl
found_or-later (some found) same addr d = refl

module _ (e : Environment) where
  -- Each field over what it was.
  abbrev pub last_entries : List RawContract → Addresses → Addresses
  last_entries cs a = record {
    flare_system_manager = found_or a.flare_system_manager (last_named e "FlareSystemsManager" cs);
    fdc2_hub = found_or a.fdc2_hub (last_named e "Fdc2Hub" cs);
    flare_tee_manager = found_or a.flare_tee_manager (last_named e "FlareTeeManager" cs);
  }

  set_targets-last_entries :
      (cs : List RawContract) (a : Addresses) → set_targets e cs a ≡ last_entries cs a
  unfolding set_targets set_target
  set_targets-last_entries [] a = refl
  set_targets-last_entries (c ∷ cs) a =
      set_targets-last_entries cs (set_target c.name (e.hex_to_address c.address) a) ∙ (λ i.
        record {
          flare_system_manager =
              found_or-later (last_named e "FlareSystemsManager" cs)
                (str_eq c.name "FlareSystemsManager") (e.hex_to_address c.address)
                a.flare_system_manager i;
          fdc2_hub =
              found_or-later (last_named e "Fdc2Hub" cs) (str_eq c.name "Fdc2Hub")
                (e.hex_to_address c.address) a.fdc2_hub i;
          flare_tee_manager =
              found_or-later (last_named e "FlareTeeManager" cs) (str_eq c.name "FlareTeeManager")
                (e.hex_to_address c.address) a.flare_tee_manager i;
        })

  -- A file of contracts that is read and decoded gives each of the three addresses as that of the
  -- last entry with its name, and as the zero address if there is none; other entries do nothing.
  pub parse_addresses-last_entries :
      (path : String) (file : Bytes) (raw : List RawContract)
      → e.read_file path ≡ ok file
      → e.decode_contracts file ≡ ok raw
      → parse_addresses e path ≡ ok (last_entries raw no_addresses)
  unfolding parse_addresses
  parse_addresses-last_entries path file raw h g =
      rw h (rw g (ap ok (set_targets-last_entries raw no_addresses)))
