-- ===== src/Prelude/Outcome.antt =====
-- A Go call that returns `(T, error)`: the value, the text of the error, or a run-time panic.
use Prim.Native.String.{String, ◌++◌}
use mathlib.Core.Path.{◌≡◌, refl}

pub data Result {ℓ} (A : Type ℓ) : Type ℓ where
  ok : A → Result A
  err : String → Result A
  panic : Result A

-- The rest of a function behind `if err != nil { return err }`.
infixl 5 ◌>>=◌
abbrev pub ◌>>=◌ {ℓ κ} :
    {A : Type ℓ} {B : Type κ} (first : Result A) (rest : A → Result B) → Result B
panic >>= rest = panic
err text >>= rest = err text
ok value >>= rest = rest value

-- `fmt.Errorf(prefix + "%w", err)` on the error path.
abbrev pub wrap {ℓ} : {A : Type ℓ} → String → Result A → Result A
wrap prefix (ok a) = ok a
wrap prefix (err e) = err (prefix ++ e)
wrap prefix panic = panic

module _ {ℓ κ} {A : Type ℓ} {B : Type κ} (rest : A → Result B) {last : B} where
  -- A call that went through came through both of its parts.
  pub >>=-eq-ok :
      (first : Result A)
      → (first >>= rest) ≡ ok last
      → (value : A) × (first ≡ ok value) × (rest value ≡ ok last)
  >>=-eq-ok panic e = cc
  >>=-eq-ok (err text) e = cc
  >>=-eq-ok (ok value) e = (value, refl, e)

pub wrap-eq-ok {ℓ} : {A : Type ℓ} (p : String) (m : Result A) {a : A} → wrap p m ≡ ok a → m ≡ ok a
wrap-eq-ok p (ok a) h = h
wrap-eq-ok p (err e) h = cc
wrap-eq-ok p panic h = cc

-- `P` holds of the value, if there is one.
abbrev pub Ensures {ℓ κ} : {A : Type ℓ} → (A → Type κ) → Result A → Type κ
Ensures P (ok a) = P a
Ensures P (err e) = Unit
Ensures P panic = Unit

module _ {ℓ κ μ} {A : Type ℓ} {B : Type κ} (P : B → Type μ) where
  pub Ensures-bind :
      (m : Result A) (f : A → Result B) → ((a : A) → Ensures P (f a)) → Ensures P (m >>= f)
  Ensures-bind (ok a) f h = h a
  Ensures-bind (err e) f h = tt
  Ensures-bind panic f h = tt

module _ {ℓ κ} {A : Type ℓ} (P : A → Type κ) where
  pub Ensures-wrap : (p : String) (m : Result A) → Ensures P m → Ensures P (wrap p m)
  Ensures-wrap p (ok a) h = h
  Ensures-wrap p (err e) h = tt
  Ensures-wrap p panic h = tt

module _ {ℓ κ μ ν} {A : Type ℓ} {B : Type κ} (Q : A → Type ν) (P : B → Type μ) where
  -- The rest of the block may use what is known of the value.
  pub Ensures-bind_keep :
      (m : Result A) (f : A → Result B)
      → Ensures Q m
      → ((a : A) → Q a → Ensures P (f a))
      → Ensures P (m >>= f)
  Ensures-bind_keep (ok a) f q h = h a q
  Ensures-bind_keep (err e) f q h = tt
  Ensures-bind_keep panic f q h = tt

pub ok-injective {ℓ} : {A : Type ℓ} {a b : A} → ok a ≡ ok b → a ≡ b
ok-injective h = cc
