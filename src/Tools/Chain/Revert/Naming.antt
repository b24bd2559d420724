-- ===== src/Tools/Chain/Revert/Naming.antt =====
-- A custom error whose data comes back from a simulation, and the name that it is given.
use Prim.Native.Char.{code}
use Prim.Native.String.{String, ◌++◌ as ◌+++◌}
use text.Mathlib.TextLemmas.{nil-append, cons-append}
use praesidio.Prelude.{
  ℕ, ◌<◌, ◌≤◌, ◌/◌, ◌%◌, Bytes, Bool, true, false, ◌&&◌, List, [], ◌∷◌, All, some, none, length,
  ltb, ◌==◌, ◌≡◌, refl, sym, subst, ap, ◌∙◌, arith,
}
use praesidio.Prelude.Text.{trim_0x, has_prefix2, drop2, nibble, hex_encode}
use praesidio.Prelude.Text.Hex.{hex_decode, hex_decode-hex_encode, nibble-hex}
use praesidio.Tools.Chain.{Node, returned}
use praesidio.Tools.Chain.Revert.Selectors.{Names, match_selector-Names}
use praesidio.Tools.Chain.Revert.{
  CustomError, decode_revert_hex, decode_revert_reason, simulation_text, match_selector,
  match_custom_error,
}

and_false : (c : Bool) → (c && false) ≡ false
and_false true = refl
and_false false = refl

-- The hexadecimal text of bytes has no `0x` in front.
trim_0x-hex_encode : (bs : Bytes) → All (λ b. b < 256) bs → trim_0x (hex_encode bs) ≡ hex_encode bs
unfolding trim_0x has_prefix2 hex_encode
trim_0x-hex_encode [] h = refl
trim_0x-hex_encode (b ∷ bs) (hb, h) =
    rw (no_x (b % 16) (code (nibble (b / 16)) == b'0') (omega arith)) refl
  where
    no_x : (d : ℕ) (c : Bool) → d < 16 → (c && code (nibble d) == b'x') ≡ false
    no_x d c g = ap (λ x. c && x) (nibble-hex d g) ∙ and_false c

prefix_0x : (s : String) → "0x" +++ s ≡ Prim.Native.String.◌∷◌ "0" (Prim.Native.String.◌∷◌ "x" s)
prefix_0x s =
    cons-append "0" "x" s
    ∙ ap (λ r. Prim.Native.String.◌∷◌ "0" r)
        (cons-append "x" "" s ∙ ap (λ r. Prim.Native.String.◌∷◌ "x" r) (nil-append s))

-- The text with `0x` in front, without it.
trim_0x-prefixed : (s : String) → trim_0x ("0x" +++ s) ≡ s
unfolding trim_0x has_prefix2 drop2
trim_0x-prefixed s = rw (prefix_0x s) refl

module _ (n : Node) (errors : List CustomError) (bytes : Bytes)
    (are_bytes : All (λ b. b < 256) bytes) (long : 4 ≤ length bytes)
    (undecodable : n.unpack_revert bytes ≡ none) where
  not_short : ltb (length bytes) 4 ≡ false
  not_short = ground arith

  -- What cannot be decoded is shown as it is.
  shown :
      (hex : String)
      → hex_decode (trim_0x hex) ≡ some bytes
      → trim_0x hex ≡ hex_encode bytes
      → decode_revert_hex n hex ≡ "0x" +++ hex_encode bytes
  unfolding decode_revert_hex
  shown hex e d = rw e (rw not_short (rw undecodable (ap (λ x. "0x" +++ x) d)))

  decoded : hex_decode (hex_encode bytes) ≡ some bytes
  decoded = hex_decode-hex_encode bytes are_bytes

  named_by_selector :
      match_custom_error errors ("0x" +++ hex_encode bytes) ≡ match_selector errors bytes
  unfolding match_custom_error
  named_by_selector = rw (trim_0x-prefixed (hex_encode bytes)) (rw decoded (rw not_short refl))

  -- What is looked up for the texts that are shown, by the selector of the data.
  looked_up :
      (text : String)
      → (match_custom_error errors (simulation_text n (returned bytes))
          ≡ match_selector errors bytes)
        × (match_custom_error errors (
              decode_revert_reason n
                (record { text = text; error_data = some ("0x" +++ hex_encode bytes) }))
            ≡ match_selector errors bytes)
  unfolding simulation_text decode_revert_reason
  looked_up text = (
    rw not_short (
        ap (match_custom_error errors) (
          shown (hex_encode bytes) (ap hex_decode (trim_0x-hex_encode bytes are_bytes) ∙ decoded)
            (trim_0x-hex_encode bytes are_bytes))
        ∙ named_by_selector),
    ap (match_custom_error errors) (
          shown ("0x" +++ hex_encode bytes)
            (ap hex_decode (trim_0x-prefixed (hex_encode bytes)) ∙ decoded)
            (trim_0x-prefixed (hex_encode bytes)))
        ∙ named_by_selector,
  )

  -- Revert data of at least four bytes that is no text: whether a node gives it in the result of a
  -- simulated call or in the data of its error, the name that is looked up for what is shown of
  -- it is that of the first error, in the order in which the map gives them, whose identifier begins
  -- with the first four bytes of the data, with the arguments behind it if there are any; if there
  -- is no such error it is the empty text.
  pub simulated_revert-Names :
      (text : String)
      → Names errors bytes (match_custom_error errors (simulation_text n (returned bytes)))
        × Names errors bytes (
            match_custom_error errors (
              decode_revert_reason n
                (record { text = text; error_data = some ("0x" +++ hex_encode bytes) })))
  simulated_revert-Names text =
      let (by_result, by_error) = looked_up text in
      let names = match_selector-Names errors bytes in
      (
        subst (Names errors bytes) (sym by_result) names,
        subst (Names errors bytes) (sym by_error) names,
      )
