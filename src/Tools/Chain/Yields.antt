-- ===== src/Tools/Chain/Yields.antt =====
-- What is known of the value that an action comes back with, if it goes through.
use praesidio.Prelude.{subst, Bool, true, false, List, ◌++◌, if◌then◌else◌}
use praesidio.Validate.Host.{Answer, ok, err}
use praesidio.Tools.Chain.Calls.{Session, Action, pure, continue, ◌>>=◌}
use praesidio.Tools.Chain.Follows.{Frame, Follows, After-continue}

abbrev pub Holds {ℓ} : {A : Type ℓ} → (A → Type 0) → Answer A → Type 0
Holds Q (ok a) = Q a
Holds Q (err e) = Unit

pub record Yields {ℓ} {A : Type ℓ} (Q : A → Type 0) (m : Action A) : Type 0 where
  pub at : (s : Session) → Holds Q (m s).0

module _ {ℓ} {A : Type ℓ} (Q : A → Type 0) where
  pub Yields-pure : (a : A) → Q a → Yields Q (pure a)
  unfolding pure
  Yields-pure a h = record { at = λ s. h }

  pub Yields-if :
      (b : Bool) (m n : Action A) → Yields Q m → Yields Q n → Yields Q (if b then m else n)
  Yields-if true m n hm hn = hm
  Yields-if false m n hm hn = hn

module _ {ℓ κ} {A : Type ℓ} {B : Type κ} (Q : B → Type 0) where
  Holds-continue :
      (f : A → Action B)
      → ((a : A) → Yields Q (f a))
      → (r : Answer A) (s : Session) → Holds Q (continue r f s).0
  Holds-continue f h (ok a) s = (h a).at s
  Holds-continue f h (err e) s = tt

  pub Yields-bind :
      (m : Action A) (f : A → Action B) → ((a : A) → Yields Q (f a)) → Yields Q (m >>= f)
  unfolding ◌>>=◌
  Yields-bind m f h = record { at = λ s. Holds-continue f h (m s).0 (m s).1 }

module _ {ℓ κ} {A : Type ℓ} {B : Type κ} (P : A → Type 0) (Q : B → Type 0) where
  Holds-continue_known :
      (f : A → Action B)
      → ((a : A) → P a → Yields Q (f a))
      → (r : Answer A) (s : Session) → Holds P r
      → Holds Q (continue r f s).0
  Holds-continue_known f h (ok a) s p = (h a p).at s
  Holds-continue_known f h (err e) s p = tt

  pub Yields-bind_known :
      (m : Action A) (f : A → Action B)
      → Yields P m
      → ((a : A) → P a → Yields Q (f a))
      → Yields Q (m >>= f)
  unfolding ◌>>=◌
  Yields-bind_known m f hm h = record {
    at = λ s. Holds-continue_known f h (m s).0 (m s).1 (hm.at s);
  }

module _ {K : Type 0} (S : Frame K) where
  -- The rest of the block may use what the first action yields.
  pub Follows-bind_known {ℓ κ} :
      {A : Type ℓ} {B : Type κ} (Q : A → Type 0) (ks ls : List K) (m : Action A) (f : A → Action B)
      → Follows S ks m
      → Yields Q m
      → ((a : A) → Q a → Follows S ls (f a))
      → Follows S (ks ++ ls) (m >>= f)
  unfolding ◌>>=◌
  Follows-bind_known Q ks ls m f km hm kf = record {
    at = λ s.
        After-continue S ks ls (m s).0 f s (m s).1 (km.at s)
          λ a e. kf a (subst (Holds Q) e (hm.at s));
  }
