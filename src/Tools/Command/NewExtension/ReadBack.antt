-- ===== src/Tools/Command/NewExtension/ReadBack.antt =====
-- The identifier that register-extension prints is that of the extension that it set up.
use Prim.Native.String.{String}
use praesidio.Prelude.{
  ℕ, ◌<◌, ◌^◌, Bytes, true, List, [], ◌∷◌, str_eq, ◌≡◌, refl, sym, ap, subst, Bool-cases, inl, inr,
}
use praesidio.Prelude.Text.{drop2}
use praesidio.Validate.Host.{Answer, ok, err, zero_address}
use praesidio.Validate.EnvFile.{is_extension_id, hex_value}
use praesidio.Tools.Chain.Calls.{Session, label, lift, pure, fail, ◌>>=◌, >>=-eq-ok}
use praesidio.Tools.Support.{Support, default_support}
use praesidio.Tools.Extension.{
  Registries, with_contracts, registered_id, register_extension, setup_extension,
}
use praesidio.Tools.Extension.Permissions.{SetUp, setup_extension-SetUp}
use praesidio.Tools.Command.NewExtension.{
  Registrar, registries_of, extension_id_text, register_sender, register_new_extension,
}
use praesidio.Tools.Command.NewExtension.Printing.{is_extension_id-text, hex_value-text}

-- A binding yields identifiers of 256 bits.
abbrev pub IsUint256 : (Bytes → Answer ℕ) → Type 0
IsUint256 parse = (log : Bytes) (id : ℕ) → parse log ≡ ok id → id < 2 ^ 256

-- The text reads as the identifier of an extension that was set up for the sender.
abbrev pub Printed : Registries → Bytes → Session → Answer String × Session → Type 0
Printed r sender s (ok text, s1) =
    (is_extension_id text ≡ true) × SetUp r sender zero_address s (hex_value 0 (drop2 text)) s1
Printed r sender s (err e, s1) = Unit

-- What goes through a label was there before.
label-eq-ok : (prefix : String) (r : Answer ℕ) (id : ℕ) → label prefix r ≡ ok id → r ≡ ok id
label-eq-ok prefix (ok n) id e = e
label-eq-ok prefix (err t) id e = cc

with_contracts-eq-ok :
    (r : Answer ℕ) (set : Answer {0} Unit) (id : ℕ) → with_contracts r set ≡ ok id → r ≡ ok id
with_contracts-eq-ok (ok n) (ok u) id e = e
with_contracts-eq-ok (ok n) (err t) id e = cc
with_contracts-eq-ok (err t) set id e = cc

registered_id-range :
    (r : Registries) (logs : List Bytes) (id : ℕ)
    → IsUint256 r.parse_extension_registered
    → registered_id r logs ≡ ok id
    → id < 2 ^ 256
unfolding registered_id
registered_id-range r [] id u e = cc
registered_id-range r (log ∷ []) id u e = cc
registered_id-range r (log ∷ second ∷ logs) id u e = u log id (
    label-eq-ok "failed to parse TeeExtensionRegistered event: " (r.parse_extension_registered log)
      id (with_contracts-eq-ok _ _ id e))

register_extension-range :
    (r : Registries) (sender verifier : Bytes) (id : ℕ) (s s1 : Session)
    → IsUint256 r.parse_extension_registered
    → register_extension r sender verifier s ≡ (ok id, s1)
    → id < 2 ^ 256
unfolding register_extension lift
register_extension-range r sender verifier id s s1 u e =
    let (hash, s2, e1, f1) = >>=-eq-ok _ _ _ e in
    let (receipt, s3, e2, f2) = >>=-eq-ok _ _ _ f1 in
    registered_id-range r receipt.logs id u (ap (λ x. x.0) f2)

abbrev id_or : ℕ → Answer ℕ → ℕ
id_or d (ok id) = id
id_or d (err e) = d

setup_extension-range :
    (r : Registries) (sender verifier : Bytes) (id : ℕ) (s s1 : Session)
    → IsUint256 r.parse_extension_registered
    → setup_extension r sender verifier s ≡ (ok id, s1)
    → id < 2 ^ 256
unfolding setup_extension pure
setup_extension-range r sender verifier id s s1 u e =
    let (_, s2, e1, f1) = >>=-eq-ok _ _ _ e in
    let (id1, s3, e2, f2) = >>=-eq-ok _ _ _ f1 in
    let (_, s4, e3, f3) = >>=-eq-ok _ _ _ f2 in
    let same : id1 ≡ id = ap (λ x. id_or id1 x.0) f3 in
    subst (λ n. n < 2 ^ 256) same (register_extension-range r sender verifier id1 s2 s3 u e2)

Printed-id :
    (r : Registries) (sender : Bytes) (s s1 : Session) (id : ℕ)
    → id < 2 ^ 256
    → SetUp r sender zero_address s id s1
    → Printed r sender s (ok (extension_id_text id), s1)
Printed-id r sender s s1 id small up = (
  is_extension_id-text id small,
  subst (λ n. SetUp r sender zero_address s n s1) (sym (hex_value-text id)) up,
)

module _ (r : Registrar) (sup : Support) (sender : Bytes) where
  abbrev registries : Registries
  registries = registries_of r sup

  Printed-ok :
      (u : IsUint256 r.registries.parse_extension_registered) (s : Session)
      (out : Answer String × Session)
      → register_sender r sender sup s ≡ out
      → Printed registries sender s out
  unfolding register_sender lift pure
  Printed-ok u s (err t, s1) e = tt
  Printed-ok u s (ok text, s1) e =
      let (_, s2, e1, f1) = >>=-eq-ok _ _ _ e in
      let (id, s3, e2, f2) = >>=-eq-ok _ _ _ f1 in
      let start : s ≡ s2 = ap (λ x. x.1) e1 in
      let set_up : setup_extension registries sender zero_address s ≡ (ok id, s3) =
        subst (λ x. setup_extension registries sender zero_address x ≡ (ok id, s3)) (sym start)
          e2 in
      subst (Printed registries sender s) f2 (
        Printed-id registries sender s s3 id
          (setup_extension-range registries sender zero_address id s s3 u set_up)
          (setup_extension-SetUp registries sender zero_address id s s3 set_up))

-- Where the clients can be set up and the chain's identifiers have 256 bits: if register-extension
-- goes through, the text that it prints is of the form that the deployment's checks ask of
-- EXTENSION_ID, and the number that they read from it is that of an extension that this run
-- registered for the sender and gave the permissions that it did not have.
pub register_new_extension-Printed :
    (r : Registrar) (sup : Support) (addresses_file chain_url sender : String) (s : Session)
    → IsUint256 r.registries.parse_extension_registered
    → default_support r.environment r.dialer addresses_file chain_url ≡ ok sup
    → Printed
        (registries_of r sup)
        (r.host.hex_to_address sender)
        s
        (register_new_extension r addresses_file chain_url sender s)
unfolding register_new_extension ◌>>=◌ lift fail
register_new_extension-Printed r sup addresses_file chain_url sender s u made =
    elim (Bool-cases (str_eq sender "")) [
      | inl absent ↦ rw absent tt
      | inr given ↦ rw (given, made) (Printed-ok r sup (r.host.hex_to_address sender) u s _ refl)
    ]
