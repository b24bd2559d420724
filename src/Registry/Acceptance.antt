-- ===== src/Registry/Acceptance.antt =====
-- From the guard's signature to the ledger: a fresh action is accepted once.
use Prim.Native.String.{String, ◌++◌ as ◌+++◌}
use praesidio.Prelude.{
  two_64, ◌%◌, ℕ, ◌≤◌, ◌<◌, ◌≡◌, sym, ap, ◌∙◌, ◌⊎◌, inl, inr, true, false, not, ◌&&◌, Bytes, [],
  ◌∷◌, leb, ltb, ◌==◌, ==_iff, Bool-cases, length, take, drop, bytes_eq, bytes_eq_refl, two_64,
  arith, str_eq,
}
use praesidio.Prelude.Text.{hex_encode, trim_0x}
use praesidio.Prelude.Decimal.{decimal, parse_uint}
use praesidio.Prelude.Outcome.{Result, ok, wrap, >>=-eq-ok, wrap-eq-ok, ok-injective}
use praesidio.Guard.Data.{SignedAction, action_redemption_handled}
use praesidio.Guard.World.{World}
use praesidio.Guard.Words.Encoding.{pow256, be_value}
use praesidio.Guard.Digest.{registry_words, registry_digest}
use praesidio.Guard.Digest.Preimage.{abi_encode, registry_words-abi_encode}
use praesidio.Guard.Check.{chain_id_of, sign_top_up_action}
use praesidio.Registry.{
  Registry, Chain, done, PostedAction, zero_address, half_order, recovery_id, recover,
  ledger_digest, append_action, checked_signer, post_action,
}

-- The parts of a successful signing.
record Parts (w : World) (g t : ℕ) (a : String) (n : ℕ) (act : SignedAction) : Type 0 where
  priv : Bytes
  digest : Bytes
  sig : Bytes
  key : w.hex_to_ecdsa (trim_0x (w.getenv "GUARDIAN_KEY")) ≡ ok priv
  hashed : registry_digest w (chain_id_of (parse_uint (w.getenv "CHAIN_ID"))) g t n a ≡ ok digest
  signs : w.sign digest priv ≡ ok sig
  shows : act.signature ≡ "0x" +++ hex_encode sig

sign-Parts :
    (w : World) (g t : ℕ) (a : String) (n : ℕ) (act : SignedAction)
    → sign_top_up_action w g t a n ≡ ok act
    → Parts w g t a n act
unfolding sign_top_up_action
sign-Parts w g t a n act h = elim (Bool-cases (str_eq (w.getenv "GUARDIAN_KEY") "")) [
  | inl unset ↦ absurd (absurd_err (rw unset at h))
  | inr set ↦
      let (priv, keyed, h1) =
        >>=-eq-ok _
          (wrap "parsing enclave key: " (w.hex_to_ecdsa (trim_0x (w.getenv "GUARDIAN_KEY"))))
          (rw set at h) in
      let (digest, hashed, h2) =
        >>=-eq-ok _ (registry_digest w (chain_id_of (parse_uint (w.getenv "CHAIN_ID"))) g t n a)
          h1 in
      let (sig, signed, h3) = >>=-eq-ok _ (wrap "signing digest: " (w.sign digest priv)) h2 in
      record {
        priv = priv;
        digest = digest;
        sig = sig;
        key = wrap-eq-ok "parsing enclave key: " _ keyed;
        hashed = hashed;
        signs = wrap-eq-ok "signing digest: " _ signed;
        shows = sym (ap (λ (r : SignedAction). r.signature) (ok-injective h3));
      }
]
  where
    absurd_err : {e : String} → Result.err e ≡ ok act → ⊥
    absurd_err h = cc

-- What the ledger relies on: both sides hash alike, and a signature has 65 bytes, a low `s`, a
-- recovery byte of 0 or 1, and recovers to the address of its key.
pub record IsEcdsa (w : World) (c : Chain) : Type 0 where
  pub same_hash : (bs : Bytes) → w.keccak256 bs ≡ c.keccak256 bs
  pub size : (digest priv sig : Bytes) → w.sign digest priv ≡ ok sig → length sig ≡ 65
  pub low :
      (digest priv sig : Bytes)
      → w.sign digest priv ≡ ok sig
      → be_value (take 32 (drop 32 sig)) 0 ≤ half_order
  pub parity :
      (digest priv sig : Bytes)
      → w.sign digest priv ≡ ok sig
      → (recovery_id (drop 64 sig) ≡ 27) ⊎ (recovery_id (drop 64 sig) ≡ 28)
  pub recovers :
      (digest priv sig : Bytes)
      → w.sign digest priv ≡ ok sig
      → c.ecrecover digest
          (recovery_id (drop 64 sig))
          (be_value (take 32 sig) 0)
          (be_value (take 32 (drop 32 sig)) 0)
        ≡ w.pubkey_to_address priv

le→not_ltb : (a b : ℕ) → b ≤ a → ltb a b ≡ false
le→not_ltb a b h = ground arith

lt→not_leb : (a b : ℕ) → b < a → leb a b ≡ false
lt→not_leb a b h = ground arith

recover-sign :
    (w : World) (c : Chain) (digest priv sig : Bytes)
    → IsEcdsa w c
    → w.sign digest priv ≡ ok sig
    → recover c digest sig ≡ done (w.pubkey_to_address priv)
unfolding recover
recover-sign w c digest priv sig e h =
    rw (size, low, parity (e.parity digest priv sig h)) (ap done (e.recovers digest priv sig h))
  where
    size : (length sig == 65) ≡ true
    size = (==_iff (length sig) 65).1 (e.size digest priv sig h)

    low : ltb half_order (be_value (take 32 (drop 32 sig)) 0) ≡ false
    low = le→not_ltb _ _ (e.low digest priv sig h)

    parity :
        (recovery_id (drop 64 sig) ≡ 27) ⊎ (recovery_id (drop 64 sig) ≡ 28)
        → (not (recovery_id (drop 64 sig) == 27) && not (recovery_id (drop 64 sig) == 28)) ≡ false
    parity (inl p) = rw p
    parity (inr p) = rw p

module _ (w : World) (c : Chain) (g : Registry) (guard_id action_type amount nonce : ℕ) where
  -- The ledger is open to the action: it runs on the chain and with the signer that the guard uses, it
  -- knows the guard, and the number is fresh.
  pub record IsOpen : Type 0 where
    pub ecdsa : IsEcdsa w c
    pub same_chain : chain_id_of (parse_uint (w.getenv "CHAIN_ID")) ≡ c.chain_id
    pub same_key :
        (priv : Bytes)
        → w.hex_to_ecdsa (trim_0x (w.getenv "GUARDIAN_KEY")) ≡ ok priv
        → w.pubkey_to_address priv ≡ g.guardian_signer
    pub not_paused : g.paused ≡ false
    pub known : bytes_eq (g.guards guard_id).agent_vault zero_address ≡ false
    pub fresh : (g.guards guard_id).last_action_nonce < nonce
    pub valid_type : action_type ≤ action_redemption_handled
    pub chain_fits : c.chain_id < two_64
    pub guard_fits : guard_id < two_64
    pub nonce_fits : nonce < two_64
    pub amount_fits : amount < pow256 32

  abbrev posted : PostedAction
  posted = record {
    action_type = action_type;
    amount = amount;
    nonce = nonce;
    timestamp = c.timestamp % two_64;
  }

  digest-eq :
      (o : IsOpen) (digest : Bytes)
      → registry_digest w
          (chain_id_of (parse_uint (w.getenv "CHAIN_ID")))
          guard_id
          action_type
          nonce
          (decimal amount)
        ≡ ok digest
      → digest ≡ ledger_digest c guard_id action_type amount nonce
  unfolding registry_digest ledger_digest
  digest-eq o digest h =
      let words : registry_words c.chain_id guard_id action_type nonce (decimal amount)
          ≡ ok (abi_encode (c.chain_id ∷ guard_id ∷ action_type ∷ amount ∷ nonce ∷ [])) =
        registry_words-abi_encode c.chain_id guard_id action_type nonce amount o.chain_fits
          o.guard_fits (omega (arith, o.valid_type)) o.nonce_fits o.amount_fits in
      sym (ok-injective (rw (o.same_chain, words) at h))
      ∙ (rw (o.ecdsa.same_hash, o.ecdsa.same_hash))

  -- A signed action is accepted by a ledger that is open to it: the ledger records the action under
  -- its number.
  pub signed_action_accepted :
      (act : SignedAction)
      → IsOpen
      → sign_top_up_action w guard_id action_type (decimal amount) nonce ≡ ok act
      → (sig : Bytes) × (act.signature ≡ "0x" +++ hex_encode sig)
        × (post_action c g guard_id action_type amount nonce sig
            ≡ done (append_action c g guard_id posted))
  unfolding post_action checked_signer
  signed_action_accepted act o h =
      let p : Parts w guard_id action_type (decimal amount) nonce act =
        sign-Parts w guard_id action_type (decimal amount) nonce act h in
      let e : p.digest ≡ ledger_digest c guard_id action_type amount nonce =
        digest-eq o p.digest p.hashed in
      let signs : w.sign (ledger_digest c guard_id action_type amount nonce) p.priv ≡ ok p.sig =
        rw (← e) p.signs in
      let recovered : recover c (ledger_digest c guard_id action_type amount nonce) p.sig
          ≡ done g.guardian_signer =
        recover-sign w c _ p.priv p.sig o.ecdsa signs ∙ ap done (o.same_key p.priv p.key) in
      (
        p.sig,
        p.shows,
        rw (
          o.not_paused,
          o.known,
          le→not_ltb _ _ o.valid_type,
          lt→not_leb _ _ o.fresh,
          recovered,
          bytes_eq_refl g.guardian_signer,
        ),
      )
