-- ===== src/Examples/Ledger.antt =====
-- The ledger with the sample guard.
use Prim.Native.String.{◌++◌ as ◌+++◌}
use praesidio.Prelude.{
  ◌≤◌, ◌<◌, ◌≢◌, ◌↔◌, ◌≡◌, refl, subst, inl, Bytes, [], ◌∷◌, false, bytes_eq, length, take, drop,
  replicate, max_u64, arith,
}
use praesidio.Prelude.Text.{hex_encode, trim_0x, has_prefix2, drop2}
use praesidio.Guard.Digest.{registry_digest, registry_words, amount_value}
use praesidio.Guard.Words.{uint_word, left_pad_word}
use praesidio.Prelude.Decimal.{decimal, parse_uint, set_string}
use praesidio.Prelude.Outcome.{ok, ok-injective}
use praesidio.Guard.Words.Encoding.{be_value}
use praesidio.Guard.Check.{next_nonce, chain_id_of, sign_top_up_action}
use praesidio.Registry.{
  Registry, Chain, done, half_order, recovery_id, recover, append_action, checked_signer,
  post_action,
}
use praesidio.Registry.Acceptance.{IsEcdsa, IsOpen, signed_action_accepted}
use praesidio.Registry.Replay.{Post, post, post_all, IsRevert, no_replay, next_nonce_fresh}
use praesidio.Examples.Worlds.{demo, demo_guard, demo_action, demo_signature}

abbrev pub chain : Chain
chain = record {
  chain_id = 114;
  timestamp = 1000;
  keccak256 = λ bs. replicate 32 7;
  ecrecover = λ digest v r s. replicate 20 3;
}

abbrev ledger : Registry
ledger = record {
  guardian_signer = replicate 20 3;
  paused = false;
  guards = λ n. demo_guard;
  actions = λ n. [];
}

demo-IsEcdsa : IsEcdsa demo chain
unfolding be_value recovery_id
demo-IsEcdsa = record {
  same_hash = λ bs. refl;
  size = λ digest priv sig h. subst (λ s. length s ≡ 65) (ok-injective h) refl;
  low = λ digest priv sig h.
      subst (λ s. be_value (take 32 (drop 32 s)) 0 ≤ half_order) (ok-injective h) (omega arith);
  parity =
      λ digest priv sig h. inl (subst (λ s. recovery_id (drop 64 s) ≡ 27) (ok-injective h) refl);
  recovers = λ digest priv sig h. refl;
}

ledger-IsOpen : IsOpen demo chain ledger 7 1 250 5
unfolding chain_id_of parse_uint bytes_eq
ledger-IsOpen = record {
  ecdsa = demo-IsEcdsa;
  same_chain = refl;
  same_key = λ priv keyed. refl;
  not_paused = refl;
  known = refl;
  fresh = omega arith;
  valid_type = omega arith;
  chain_fits = omega arith;
  guard_fits = omega arith;
  nonce_fits = omega arith;
  amount_fits = omega arith;
}

signed : sign_top_up_action demo 7 1 (decimal 250) 5 ≡ ok demo_action
unfolding sign_top_up_action chain_id_of parse_uint registry_digest registry_words amount_value
    uint_word left_pad_word decimal hex_encode set_string trim_0x has_prefix2 drop2
signed = refl

signed_action_accepted_example :
    (sig : Bytes) × (demo_action.signature ≡ "0x" +++ hex_encode sig)
    × (post_action chain ledger 7 1 250 5 sig
        ≡ done (
            append_action chain ledger 7
              (record { action_type = 1; amount = 250; nonce = 5; timestamp = 1000 })))
signed_action_accepted_example =
    signed_action_accepted demo chain ledger 7 1 250 5 demo_action ledger-IsOpen signed

abbrev first_post : Post
first_post = record {
  chain = chain;
  guard_id = 7;
  action_type = 1;
  amount = 250;
  nonce = 5;
  signature = demo_signature;
}

abbrev after_post : Registry
after_post =
    append_action chain ledger 7
      (record { action_type = 1; amount = 250; nonce = 5; timestamp = 1000 })

took : post ledger first_post ≡ done after_post
unfolding post_action checked_signer recover recovery_id be_value bytes_eq
took = refl

no_replay_example : IsRevert (post (post_all after_post (first_post ∷ [])) first_post)
no_replay_example =
    no_replay first_post first_post ledger after_post (first_post ∷ []) took refl (omega arith)

next_nonce_fresh_example :
    (demo_guard.last_action_nonce < next_nonce demo_guard)
    ↔ (demo_guard.last_action_nonce ≢ max_u64)
next_nonce_fresh_example = next_nonce_fresh demo_guard (omega arith)
