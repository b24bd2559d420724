-- ===== src/Tools/Chain/Calls.antt =====
-- Calls that may fail, in the order in which they are made: what was sent before an error stays
-- sent, and what was written stays written.
use Prim.Native.String.{◌++◌ as ◌+++◌}
use praesidio.Prelude.{ℕ, Bytes, String, List, [], ◌∷◌, ◌++◌, Option, ◌≡◌, refl, ap}
use praesidio.Validate.Host.{Answer, ok, err}

pub record MachineData : Type 0 where
  pub extension_id : ℕ
  pub initial_owner : Bytes
  pub code_hash : Bytes
  pub platform : Bytes
  pub public_key : Bytes × Bytes
  pub governance_hash : Bytes

pub record Signature : Type 0 where
  pub v : ℕ
  pub r : Bytes
  pub s : Bytes

-- The request and the response that the data providers signed.
pub record RequestBody : Type 0 where
  pub tee_id : Bytes
  pub rest : Bytes

pub record ResponseBody : Type 0 where
  pub status : ℕ
  pub tee_timestamp : ℕ
  pub code_hash : Bytes
  pub platform : Bytes
  pub initial_signing_policy_id : ℕ
  pub last_signing_policy_id : ℕ
  pub state : Bytes

pub record Proof : Type 0 where
  pub signatures : List Bytes
  pub header : Bytes
  pub request_body : RequestBody
  pub response_body : ResponseBody

-- The contract methods that the tools send.
pub data Method : Type 0 where
  call_register_machine : MachineData → Signature → Bytes → String → Bytes → Method
  call_request_tee_attestation : Bytes → Bytes → Method
  call_request_availability_check : Bytes → Bytes → Bytes → Bytes → Bytes → Method
  call_to_production : Proof → Method
  call_register_extension : Bytes → Bytes → Method
  call_add_machine_owners : ℕ → List Bytes → Method
  call_add_project_owners : ℕ → List Bytes → Method
  call_add_key_types : ℕ → List Bytes → Method
  call_add_tee_version : ℕ → Bytes → Bytes → List Bytes → Method
  call_set_governance : ℕ → List Bytes → ℕ → Method
  call_deploy_sender : Bytes → Bytes → Method
  call_set_extension_id : Bytes → Method
  call_say_hello : Bytes → Bytes → Method
  call_say_goodbye : Bytes → String → String → Method

-- A method with the wei that goes with it.
pub record Tx : Type 0 where
  pub method : Method
  pub value : ℕ

-- A call of the outside: a transaction that the node took, one that it refused, or another call.
pub data Call : Type 0 where
  accepted refused : Tx → Call
  asked : String → Call

-- The calls so far, the newest last.
abbrev pub History : Type 0
History = List Call

-- The calls so far, and the registration's state file.
pub record Session : Type 0 where
  pub history : History
  pub file : Option String

abbrev pub Action {ℓ} : Type ℓ → Type ℓ
Action A = Session → Answer A × Session

abbrev pub record_call : Call → Session → Session
record_call c s = record s { history = s.history ++ c ∷ [] }

-- The transactions that the node took, in their order.
abbrev pub sent : History → List Tx
sent [] = []
sent (accepted tx ∷ h) = tx ∷ sent h
sent (refused tx ∷ h) = sent h
sent (asked what ∷ h) = sent h

pub sent-append : (h g : History) → sent (h ++ g) ≡ sent h ++ sent g
sent-append [] g = refl
sent-append (accepted tx ∷ h) g = ap (λ r. tx ∷ r) (sent-append h g)
sent-append (refused tx ∷ h) g = sent-append h g
sent-append (asked what ∷ h) g = sent-append h g

-- `errors.Errorf("…%s", err)`
abbrev pub label {ℓ} : {A : Type ℓ} → String → Answer A → Answer A
label prefix (ok a) = ok a
label prefix (err e) = err (prefix +++ e)

module _ {ℓ} {A : Type ℓ} where
  unfoldable pub pure : A → Action A
  pure a s = (ok a, s)

  unfoldable pub fail : String → Action A
  fail e s = (err e, s)

  unfoldable pub lift : Answer A → Action A
  lift r s = (r, s)

  -- A call that sends no transaction.
  unfoldable pub ask : String → (History → A) → Action A
  ask what answer s = (ok (answer s.history), record_call (asked what) s)

module _ {ℓ κ} {A : Type ℓ} {B : Type κ} where
  abbrev pub continue : Answer A → (A → Action B) → Action B
  continue (ok a) f s = f a s
  continue (err e) f s = (err e, s)

  infixl 10 ◌>>=◌
  unfoldable pub ◌>>=◌ : Action A → (A → Action B) → Action B
  unfolding pure fail lift ask
  ◌>>=◌ m f s = let (r, s') = m s in continue r f s'

-- The text of an error, put behind another: `errors.Errorf("…%s", err)`.
unfoldable pub relabel {ℓ} : {A : Type ℓ} → String → Action A → Action A
relabel prefix m s = let (r, s1) = m s in (label prefix r, s1)

module _ {ℓ κ} {A : Type ℓ} {B : Type κ} (f : A → Action B) {b : B} {s2 : Session} where
  continue-eq-ok :
      (r : Answer A) (s1 : Session)
      → continue r f s1 ≡ (ok b, s2)
      → (a : A) × (r ≡ ok a) × (f a s1 ≡ (ok b, s2))
  continue-eq-ok (ok a) s1 e = (a, refl, e)
  continue-eq-ok (err t) s1 e = cc

  -- A block that went through came through both of its parts.
  pub >>=-eq-ok :
      (m : Action A) (s : Session)
      → (m >>= f) s ≡ (ok b, s2)
      → (a : A) × (s1 : Session) × (m s ≡ (ok a, s1)) × (f a s1 ≡ (ok b, s2))
  unfolding ◌>>=◌
  >>=-eq-ok m s e =
      let (a, er, ef) = continue-eq-ok (m s).0 (m s).1 e in
      (a, (m s).1, ap (λ r. (r, (m s).1)) er, ef)
