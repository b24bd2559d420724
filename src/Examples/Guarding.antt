-- ===== src/Examples/Guarding.antt =====
-- The check of a vault in the sample world.
use praesidio.Prelude.{◌≡◌, refl, true, false}
use praesidio.Prelude.Text.{trim_0x, has_prefix2, drop2, hex_encode}
use praesidio.Prelude.Decimal.{decimal, parse_uint, set_string}
use praesidio.Prelude.Outcome.{ok}
use praesidio.Guard.Rpc.{
  read_vault_health, read_guard, read_factors, read_collateral, read_price, eth_call,
}
use praesidio.Guard.Price.{format_price, pad_zeros, power_of_ten, width_of}
use praesidio.Guard.Digest.{registry_digest, registry_words, amount_value}
use praesidio.Guard.Words.{uint_word, left_pad_word}
use praesidio.Guard.Check.{
  observe, check_vault_json, decide_read, decide, in_danger, decision_of, sign_top_up_action,
  chain_id_of, next_nonce, attach,
}
use praesidio.Guard.Check.Decision.{signed_exactly, decision_sound, Carries}
use praesidio.Examples.Worlds.{
  demo, demo_request, demo_state, demo_health, demo_guard, demo_response,
}

seen : observe demo demo_request ≡ ok (demo_health, demo_guard)
unfolding observe read_vault_health read_guard read_factors read_collateral read_price eth_call
    trim_0x has_prefix2 drop2 decimal format_price pad_zeros power_of_ten width_of
seen = refl

answered : (check_vault_json demo demo_request demo_state).0 ≡ ok demo_response
unfolding check_vault_json decide_read decide in_danger decision_of sign_top_up_action chain_id_of
    next_nonce attach parse_uint registry_digest registry_words amount_value uint_word left_pad_word
    decimal hex_encode set_string
answered = rw seen refl

signed_exactly_example : Carries demo_request demo_guard true demo_response
signed_exactly_example =
    signed_exactly demo demo_request demo_state demo_health demo_guard seen demo_response answered

decision_sound_example :
    (demo_response.health ≡ demo_health)
    × (demo_response.healthy ≡ false)
    × (demo_response.decision ≡ "TOP_UP_REQUIRED")
decision_sound_example =
    decision_sound demo demo_request demo_state demo_health demo_guard seen demo_response answered
