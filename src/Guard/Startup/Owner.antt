-- ===== src/Guard/Startup/Owner.antt =====
-- The owner that the local process names, and the signer that the governance is set to.
use Prim.Native.String.{String}
use praesidio.Prelude.{Bytes, true, str_eq, ◌≡◌, refl, sym, ap, ◌∙◌, Bool-cases, inl, inr}
use praesidio.Prelude.Text.{trim_space}
use praesidio.Validate.Host.{Answer, ok, err}
use praesidio.Tools.Support.{Environment, without_0x, default_private_key}
use praesidio.Tools.Command.Governing.{governance_key, default_signer}
use praesidio.Guard.Startup.{Library, dev_key_hex, fatal, panic_with, owner_key, set_owner_address}

-- The two programs use the same library, in which the address of a key reads back, and the tools' hardcoded
-- key is the one that the process parses.
pub record SameLibrary (l : Library) (e : Environment) : Type 0 where
  pub keys : e.hex_to_ecdsa ≡ l.hex_to_ecdsa
  pub addresses : e.hex_to_address ≡ l.hex_to_address
  pub dev_key : l.hex_to_ecdsa dev_key_hex ≡ ok e.dev_key
  pub reads_back :
      (prv : Bytes) → l.hex_to_address (l.address_hex (l.address_of prv)) ≡ l.address_of prv

-- The address that the process's environment names is the signer that the governance defaults to.
abbrev pub Agrees : Library → Environment → Bytes → Answer (Bytes × (String → String)) → Type 0
Agrees l e prv (ok (returned, env)) =
    l.hex_to_address (env "INITIAL_OWNER") ≡ default_signer e (l.address_of prv)
Agrees l e prv (err t) = ⊥

fatal-ok : (r : Answer Bytes) (prv : Bytes) → r ≡ ok prv → fatal r ≡ ok prv
fatal-ok r prv h = rw h refl

-- Both programs take the same key.
owner_key-default :
    (l : Library) (e : Environment) (prv : Bytes)
    → SameLibrary l e
    → default_private_key e ≡ ok prv
    → owner_key l (e.getenv "DEPLOYMENT_PRIVATE_KEY") ≡ ok prv
unfolding owner_key default_private_key without_0x
owner_key-default l e prv same h =
    elim (Bool-cases (str_eq (e.getenv "DEPLOYMENT_PRIVATE_KEY") "")) [
      | inl absent ↦
          let hardcoded : ok e.dev_key ≡ ok prv = rw absent at h in
          rw absent (ap (panic_with "cannot parse default private key") same.dev_key ∙ hardcoded)
      | inr given ↦
          let key = without_0x (e.getenv "DEPLOYMENT_PRIVATE_KEY") in
          let parsed : e.hex_to_ecdsa key ≡ ok prv = rw given at h in
          rw given (fatal-ok (l.hex_to_ecdsa key) prv (ap (λ f. f key) (sym same.keys) ∙ parsed))
    ]

owner-Agrees :
    (l : Library) (e : Environment) (prv : Bytes)
    → SameLibrary l e
    → default_private_key e ≡ ok prv
    → trim_space (e.getenv "INITIAL_OWNER") ≡ e.getenv "INITIAL_OWNER"
    → Agrees l e prv (set_owner_address l e.getenv)
unfolding set_owner_address default_signer
owner-Agrees l e prv same h trimmed = elim (Bool-cases (str_eq (e.getenv "INITIAL_OWNER") "")) [
  | inl absent ↦
      let silent : str_eq (trim_space (e.getenv "INITIAL_OWNER")) "" ≡ true =
        ap (λ t. str_eq t "") trimmed ∙ absent in
      rw (absent, owner_key-default l e prv same h, silent) (same.reads_back prv)
  | inr given ↦
      rw (given, trimmed, given) (ap (λ f. f (e.getenv "INITIAL_OWNER")) (sym same.addresses))
]

-- Where the two programs use the same library, EXTENSION_OWNER_KEY is not set, and INITIAL_OWNER has
-- no space around it: if the deployment's key can be read, setOwnerAddress goes through, set-governance
-- sends with the deployment's key, and the address that INITIAL_OWNER names to the process is the
-- signer that set-governance defaults to; that also holds where it was not set.
pub initial_owner-Agrees :
    (l : Library) (e : Environment) (prv : Bytes)
    → SameLibrary l e
    → default_private_key e ≡ ok prv
    → trim_space (e.getenv "INITIAL_OWNER") ≡ e.getenv "INITIAL_OWNER"
    → str_eq (e.getenv "EXTENSION_OWNER_KEY") "" ≡ true
    → (governance_key e prv ≡ ok prv) × Agrees l e prv (set_owner_address l e.getenv)
unfolding governance_key
initial_owner-Agrees l e prv same h trimmed absent =
    (rw absent refl, owner-Agrees l e prv same h trimmed)
