-- ===== src/Tools/Version/ReadBack.antt =====
-- A version that is packed into 32 bytes, read back.
use Prim.Native.String.{String}
use praesidio.Prelude.{
  ℕ, zero, suc, ◌+◌, ◌-◌, ◌<◌, ◌≤◌, Bytes, false, Bool-cases, inl, inr, [], ◌∷◌, ◌++◌, length,
  length-append, length-replicate, replicate, All, ltb, ltb→lt, ◌≡◌, refl, ap, ◌∙◌, arith,
}
use praesidio.Prelude.Text.{trim_space}
use praesidio.Validate.Host.{Answer, ok, err}
use praesidio.Tools.Version.{string_to_bytes32, kept, cut_zeros, bytes32_to_string}

cut_zeros-replicate : (n : ℕ) → cut_zeros (replicate n 0) ≡ []
unfolding cut_zeros
cut_zeros-replicate zero = refl
cut_zeros-replicate (suc n) = ap (kept 0) (cut_zeros-replicate n)

kept-nonzero : (b : ℕ) (bs : Bytes) → 0 < b → kept b bs ≡ b ∷ bs
kept-nonzero b [] h = ground arith
kept-nonzero b (c ∷ cs) h = refl

-- Text without a zero byte is what is left of it behind any zeros.
cut_zeros-padded : (s : Bytes) (n : ℕ) → All (λ b. 0 < b) s → cut_zeros (s ++ replicate n 0) ≡ s
unfolding cut_zeros
cut_zeros-padded [] n h = cut_zeros-replicate n
cut_zeros-padded (b ∷ bs) n (hb, h) = ap (kept b) (cut_zeros-padded bs n h) ∙ kept-nonzero b bs hb

-- What packing a version gives: an error, and no bytes, if it is longer than 32 bytes; else 32
-- bytes that read back as it.
abbrev pub ReadsBack : (Bytes → String) → Bytes → Answer Bytes → Type 0
ReadsBack text_of version (ok bytes) =
    (length version ≤ 32)
    × (length bytes ≡ 32)
    × (bytes32_to_string text_of bytes ≡ trim_space (text_of version))
ReadsBack text_of version (err e) = 32 < length version

-- A version without a zero byte that is longer than 32 bytes is refused, and any other is packed
-- into 32 bytes from which audit-deploy's text is the version's, trimmed.
pub string_to_bytes32-ReadsBack :
    (quote text_of : Bytes → String) (version : Bytes)
    → All (λ b. 0 < b) version
    → ReadsBack text_of version (string_to_bytes32 quote version)
unfolding string_to_bytes32 bytes32_to_string
string_to_bytes32-ReadsBack quote text_of version h = elim (Bool-cases (ltb 32 (length version))) [
  | inl e ↦ rw e (ltb→lt 32 (length version) e)
  | inr e ↦ rw e (
    not_longer e,
    length-append version (replicate (32 - length version) 0)
        ∙ ap (λ n. length version + n) (length-replicate (32 - length version) 0)
        ∙ padded (not_longer e),
    ap (λ x. trim_space (text_of x)) (cut_zeros-padded version (32 - length version) h),
  )
]
  where
    not_longer : ltb 32 (length version) ≡ false → length version ≤ 32
    not_longer e = ground arith

    padded : length version ≤ 32 → length version + (32 - length version) ≡ 32
    padded g = omega arith
