-- ===== src/Tools/Extension/Permissions.antt =====
-- What the set-up of an extension sends.
use praesidio.Prelude.{
  ℕ, Bytes, Bool, true, false, String, List, [], ◌∷◌, ◌++◌, ◌≡◌, refl, sym, ap, subst, ◌∙◌,
  append-nil, if◌then◌else◌,
}
use praesidio.Validate.Host.{Answer, ok, err}
use praesidio.Tools.Chain.{saying, send}
use praesidio.Tools.Chain.Calls.{
  Tx, Method, History, Session, Action, call_register_extension, call_add_machine_owners,
  call_add_project_owners, call_add_key_types, sent, sent-append, asked, record_call, label, pure,
  lift, ask, continue, ◌>>=◌, >>=-eq-ok,
}
use praesidio.Tools.Chain.Follows.{
  Follows, Follows-pure, Follows-lift, Follows-bind_quiet, Follows-bind_last, Follows-relabel,
}
use praesidio.Tools.Chain.Exactly.{exactly, sent-Follows}
use praesidio.Tools.Chain.Sending.{Follows-check_tx, Follows-send}
use praesidio.Tools.Extension.{
  Registries, call, register_extension, allow_tee_machine_owners, allow_tee_project_manager_owners,
  add_supported_key_types, ensure, half_done, set_permissions, setup_extension,
}

Follows-call :
    (r : Registries) (m : Method) (prefix : String)
    → Follows exactly (call m ∷ []) (send r.node (call m) (saying prefix))
Follows-call r m prefix =
    Follows-send exactly (call m) r.node (call m) (saying prefix) refl λ e. Follows-pure exactly _

Follows-allow_machine :
    (r : Registries) (id : ℕ) (owners : List Bytes)
    → Follows exactly
        (call (call_add_machine_owners id owners) ∷ [])
        (allow_tee_machine_owners r id owners)
unfolding allow_tee_machine_owners
Follows-allow_machine r id owners = Follows-bind_last exactly _ _ _ (Follows-call r _ _) λ hash.
    Follows-bind_quiet exactly [] _ _
      (Follows-relabel exactly [] _ _ (Follows-check_tx exactly r.node hash))
      λ receipt. Follows-lift exactly _

Follows-allow_project :
    (r : Registries) (id : ℕ) (owners : List Bytes)
    → Follows exactly
        (call (call_add_project_owners id owners) ∷ [])
        (allow_tee_project_manager_owners r id owners)
unfolding allow_tee_project_manager_owners
Follows-allow_project r id owners = Follows-bind_last exactly _ _ _ (Follows-call r _ _) λ hash.
    Follows-bind_quiet exactly [] _ _
      (Follows-relabel exactly [] _ _ (Follows-check_tx exactly r.node hash))
      λ receipt. Follows-lift exactly _

Follows-register :
    (r : Registries) (sender verifier : Bytes)
    → Follows exactly
        (call (call_register_extension verifier sender) ∷ [])
        (register_extension r sender verifier)
unfolding register_extension
Follows-register r sender verifier = Follows-bind_last exactly _ _ _ (Follows-call r _ _) λ hash.
    Follows-bind_quiet exactly [] _ _
      (Follows-relabel exactly [] _ _ (Follows-check_tx exactly r.node hash))
      λ receipt. Follows-lift exactly _

Follows-add_key_types :
    (r : Registries) (id : ℕ) (types : List Bytes)
    → Follows exactly (call (call_add_key_types id types) ∷ []) (add_supported_key_types r id types)
unfolding add_supported_key_types
Follows-add_key_types r id types = Follows-bind_quiet exactly _ _ _ (Follows-lift exactly _) λ _.
    Follows-bind_last exactly _ _ _ (Follows-call r _ _) λ hash.
      Follows-bind_quiet exactly [] _ _ (Follows-check_tx exactly r.node hash)
        λ _. Follows-pure exactly tt

-- The addition, if the permission is missing.
abbrev pub if_missing : Bool → Method → List Tx
if_missing present m = if present then [] else call m ∷ []

-- A permission that was ensured: what the chain answered when it was asked, and what was sent.
abbrev Ensured : (History → Answer Bool) → Method → Session → Session → Type 0
Ensured query m s s1 =
    (present : Bool) × (query s.history ≡ ok present)
    × (sent s1.history ≡ sent s.history ++ if_missing present m)

module _ (query : History → Answer Bool) (prefix : String) (m : Method)
    (add : Action {0} Unit) where
  Ensured-answered :
      (s s1 : Session) (answer : Answer Bool)
      → query s.history ≡ answer
      → Follows exactly (call m ∷ []) add
      → continue
          (label prefix answer)
          (λ present. if present then pure tt else add)
          (record_call (asked "eth_call") s)
        ≡ (ok tt, s1)
      → Ensured query m s s1
  unfolding pure
  Ensured-answered s s1 (ok true) q h e =
      (true, q, ap (λ x. sent x.1.history) (sym e) ∙ sent-append s.history (asked "eth_call" ∷ []))
  Ensured-answered s s1 (ok false) q h e = (
    false,
    q,
    sent-Follows (call m ∷ []) add (record_call (asked "eth_call") s) h e
        ∙ ap (λ x. x ++ call m ∷ [])
            (sent-append s.history (asked "eth_call" ∷ []) ∙ append-nil (sent s.history)),
  )
  Ensured-answered s s1 (err t) q h e = cc

  Ensured-ensure :
      (s s1 : Session)
      → Follows exactly (call m ∷ []) add
      → ensure prefix query add s ≡ (ok tt, s1)
      → Ensured query m s s1
  unfolding ensure ◌>>=◌ ask lift
  Ensured-ensure s s1 h e = Ensured-answered s s1 (query s.history) refl h e

-- An extension that was set up: at each query the chain's answer, and what is sent up to the next.
abbrev pub SetUp : Registries → Bytes → Bytes → Session → ℕ → Session → Type 0
SetUp r sender verifier s id s1 =
    (h1 : History) × (h2 : History) × (h3 : History) × (owner : Bool) × (project : Bool)
    × (key : Bool) × (r.is_allowed_machine_owner h1 id (r.node.address_of r.prv) ≡ ok owner)
    × (r.is_allowed_project_owner h2 id (r.node.address_of r.prv) ≡ ok project)
    × (r.is_key_type_supported h3 id r.evm_type ≡ ok key)
    × (sent h1 ≡ sent s.history ++ call (call_register_extension verifier sender) ∷ [])
    × (sent h2
        ≡ sent h1 ++ if_missing owner (call_add_machine_owners id (r.node.address_of r.prv ∷ [])))
    × (sent h3
        ≡ sent h2 ++ if_missing project (call_add_project_owners id (r.node.address_of r.prv ∷ [])))
    × (sent s1.history ≡ sent h3 ++ if_missing key (call_add_key_types id (r.evm_type ∷ [])))

module _ (r : Registries) (sender verifier : Bytes) where
  abbrev deployer : Bytes
  deployer = r.node.address_of r.prv

  SetUp-permitted :
      (id : ℕ) (s s0 s1 : Session)
      → sent s0.history ≡ sent s.history ++ call (call_register_extension verifier sender) ∷ []
      → set_permissions r id s0 ≡ (ok tt, s1)
      → SetUp r sender verifier s id s1
  unfolding set_permissions half_done
  SetUp-permitted id s s0 s1 registered e =
      let (_, s2, e1, f1) = >>=-eq-ok _ _ _ e in
      let (_, s3, e2, f2) = >>=-eq-ok _ _ _ f1 in
      let (owner, q1, d1) =
        Ensured-ensure _ _ (call_add_machine_owners id (deployer ∷ [])) _ s0 s2
          (Follows-relabel exactly _ _ _ (Follows-allow_machine r id _)) e1 in
      let (project, q2, d2) =
        Ensured-ensure _ _ (call_add_project_owners id (deployer ∷ [])) _ s2 s3
          (Follows-relabel exactly _ _ _ (Follows-allow_project r id _)) e2 in
      let (key, q3, d3) =
        Ensured-ensure _ _ (call_add_key_types id (r.evm_type ∷ [])) _ s3 s1
          (Follows-add_key_types r id _) f2 in
      (s0.history, s2.history, s3.history, owner, project, key, q1, q2, q3, registered, d1, d2, d3)

  -- An extension that is set up without an error was registered first; then the chain was asked
  -- for the deployer's two permissions and for the key type, in this order, and directly behind
  -- each answer the node took the transaction that adds what is missing, and none for what the
  -- chain has; it took no other transaction.
  pub setup_extension-SetUp :
      (id : ℕ) (s s1 : Session)
      → setup_extension r sender verifier s ≡ (ok id, s1)
      → SetUp r sender verifier s id s1
  unfolding setup_extension pure lift
  setup_extension-SetUp id s s1 e =
      let (_, s2, e1, f1) = >>=-eq-ok _ _ _ e in
      let (id1, s3, e2, f2) = >>=-eq-ok _ _ _ f1 in
      let (_, s4, e3, f3) = >>=-eq-ok _ _ _ f2 in
      let registered : sent s3.history
          ≡ sent s.history ++ call (call_register_extension verifier sender) ∷ [] =
        subst
          (λ x.
            sent s3.history ≡ sent x.history ++ call (call_register_extension verifier sender) ∷ [])
          (sym (ap (λ x. x.1) e1)) (sent-Follows _ _ s2 (Follows-register r sender verifier) e2) in
      subst SetUpAs f3 (SetUp-permitted id1 s s3 s4 registered e3)
    where
      SetUpAs : Answer ℕ × Session → Type 0
      SetUpAs (ok id, s1) = SetUp r sender verifier s id s1
      SetUpAs (err t, s1) = Unit
