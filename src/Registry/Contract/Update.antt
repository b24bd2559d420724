-- ===== src/Registry/Contract/Update.antt =====
-- A mapping of the contract after one of its places has been written.
use praesidio.Prelude.{
  ℕ, Bool, true, false, ◌==◌, ◌≡◌, refl, sym, subst, ==_iff, if◌then◌else◌, Bytes, bytes_eq,
  bytes_eq_iff,
}
use praesidio.Registry.{update}
use praesidio.Registry.Contract.{update_vault}

-- What holds of the written place and of the other places holds of them all.
pub update-all :
    {A : Type 0} (P : ℕ → A → Type 0) (f : ℕ → A) (k : ℕ) (a : A)
    → P k a
    → ((j : ℕ) → (j == k) ≡ false → P j (f j))
    → (j : ℕ) → P j (update f k a j)
update-all P f k a here there j =
    let at : (b : Bool) → (j == k) ≡ b → P j (if b then a else f j) = λ b.
      elim b as (λ b. (j == k) ≡ b → P j (if b then a else f j)) [
        | true ↦ λ e. subst (λ i. P i a) (sym ((==_iff j k).0 e)) here
        | false ↦ λ e. there j e
      ] in
    at (j == k) refl

pub update_vault-all :
    (P : Bytes → ℕ → Type 0) (f : Bytes → ℕ) (k : Bytes) (a : ℕ)
    → P k a
    → ((v : Bytes) → bytes_eq v k ≡ false → P v (f v))
    → (v : Bytes) → P v (update_vault f k a v)
update_vault-all P f k a here there v =
    let at : (b : Bool) → bytes_eq v k ≡ b → P v (if b then a else f v) = λ b.
      elim b as (λ b. bytes_eq v k ≡ b → P v (if b then a else f v)) [
        | true ↦ λ e. subst (λ i. P i a) (sym ((bytes_eq_iff v k).0 e)) here
        | false ↦ λ e. there v e
      ] in
    at (bytes_eq v k) refl
