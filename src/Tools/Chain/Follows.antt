-- ===== src/Tools/Chain/Follows.antt =====
-- Actions that send what a plan says, in the plan's order.
use praesidio.Prelude.{
  List, [], ◌∷◌, ◌++◌, append_assoc, append-nil, Option, String, Bool, true, false, ◌≡◌, refl, sym,
  ap, subst, ◌∙◌, if◌then◌else◌,
}
use praesidio.Validate.Host.{Answer, ok, err}
use praesidio.Tools.Chain.Calls.{
  Tx, Session, History, Action, sent, sent-append, Call, record_call, asked, pure, fail, lift, ask,
  continue, label, relabel, ◌>>=◌,
}

-- How transactions do the steps of a plan, and whether the state file has to stay as it is.
pub record Frame (K : Type 0) : Type 1 where
  pub serves : K → Tx → Type 0
  pub keeps_file : Bool

abbrev Kept : Bool → Option String → Option String → Type 0
Kept true file file' = file' ≡ file
Kept false file file' = Unit

Kept-refl : (keeps : Bool) (file : Option String) → Kept keeps file file
Kept-refl true file = refl
Kept-refl false file = tt

Kept-trans :
    (keeps : Bool) (x y z : Option String) → Kept keeps x y → Kept keeps y z → Kept keeps x z
Kept-trans true x y z h g = g ∙ h
Kept-trans false x y z h g = tt

module _ {K : Type 0} (S : Frame K) where
  -- The transactions serve the steps, one by one.
  abbrev pub Match : List K → List Tx → Type 0
  Match [] [] = Unit
  Match [] (t ∷ ts) = ⊥
  Match (k ∷ ks) [] = ⊥
  Match (k ∷ ks) (t ∷ ts) = S.serves k t × Match ks ts

  pub Match-append :
      (ks : List K) (ts : List Tx) (ls : List K) (us : List Tx)
      → Match ks ts
      → Match ls us
      → Match (ks ++ ls) (ts ++ us)
  Match-append [] [] ls us hk hl = hl
  Match-append [] (t ∷ ts) ls us hk hl = elim hk [ ]
  Match-append (k ∷ ks) [] ls us hk hl = elim hk [ ]
  Match-append (k ∷ ks) (t ∷ ts) ls us (h, hk) hl = (h, Match-append ks ts ls us hk hl)

  -- What was sent between two sessions serves the steps.
  abbrev pub Served : List K → Session → Session → Type 0
  Served ks s s' =
      (ts : List Tx) × (sent s'.history ≡ sent s.history ++ ts)
      × Match ks ts
      × Kept S.keeps_file s.file s'.file

  pub Served-nil : (s : Session) → Served [] s s
  Served-nil s = ([], sym (append-nil (sent s.history)), tt, Kept-refl S.keeps_file s.file)

  -- A call that leaves the file alone.
  pub Served-call :
      (ks : List K) (ts : List Tx) (c : Call) (s : Session)
      → sent (c ∷ []) ≡ ts
      → Match ks ts
      → Served ks s (record_call c s)
  Served-call ks ts c s e m = (
    ts,
    sent-append s.history (c ∷ []) ∙ ap (λ x. sent s.history ++ x) e,
    m,
    Kept-refl S.keeps_file s.file,
  )

  pub Served-append :
      (ks ls : List K) (s s1 s2 : Session)
      → Served ks s s1
      → Served ls s1 s2
      → Served (ks ++ ls) s s2
  Served-append ks ls s s1 s2 (ts, e, m, h) (us, d, n, g) = (
    ts ++ us,
    d ∙ ap (λ x. x ++ us) e ∙ append_assoc (sent s.history) ts us,
    Match-append ks ts ls us m n,
    Kept-trans S.keeps_file s.file s1.file s2.file h g,
  )

  -- All the steps if the action goes through, and the first of them if it fails.
  abbrev pub After {ℓ} : {A : Type ℓ} → List K → Session → Answer A × Session → Type 0
  After ks s (ok a, s') = Served ks s s'
  After ks s (err e, s') =
      (done : List K) × (rest : List K) × (done ++ rest ≡ ks) × Served done s s'

  pub record Follows {ℓ} {A : Type ℓ} (ks : List K) (m : Action A) : Type 0 where
    pub at : (s : Session) → After ks s (m s)

  module _ {ℓ} {A : Type ℓ} where
    pub Follows-pure : (a : A) → Follows [] (pure a)
    unfolding pure
    Follows-pure a = record { at = λ s. Served-nil s }

    pub Follows-fail : (ks : List K) (e : String) → Follows ks (fail {A = A} e)
    unfolding fail
    Follows-fail ks e = record { at = λ s. ([], ks, refl, Served-nil s) }

    pub Follows-lift : (r : Answer A) → Follows [] (lift r)
    unfolding lift
    Follows-lift (ok a) = record { at = λ s. Served-nil s }
    Follows-lift (err e) = record { at = λ s. ([], [], refl, Served-nil s) }

    pub Follows-ask : (what : String) (answer : History → A) → Follows [] (ask what answer)
    unfolding ask
    Follows-ask what answer = record { at = λ s. Served-call [] [] (asked what) s refl tt }

    pub Follows-if :
        (b : Bool) (ks ls : List K) (m n : Action A)
        → Follows ks m
        → Follows ls n
        → Follows (if b then ks else ls) (if b then m else n)
    Follows-if true ks ls m n km kn = km
    Follows-if false ks ls m n km kn = kn

    pub Follows-if_same :
        (b : Bool) (ks : List K) (m n : Action A)
        → Follows ks m
        → Follows ks n
        → Follows ks (if b then m else n)
    Follows-if_same true ks m n km kn = km
    Follows-if_same false ks m n km kn = kn

    -- What was sent earlier comes first.
    pub After-prefix :
        (ks ls : List K) (s s1 : Session) (out : Answer A × Session)
        → Served ks s s1
        → After ls s1 out
        → After (ks ++ ls) s out
    After-prefix ks ls s s1 (ok b, s2) h g = Served-append ks ls s s1 s2 h g
    After-prefix ks ls s s1 (err e, s2) h (done, rest, d, g) = (
      ks ++ done,
      rest,
      append_assoc ks done rest ∙ ap (λ x. ks ++ x) d,
      Served-append ks done s s1 s2 h g,
    )

  module _ {ℓ κ} {A : Type ℓ} {B : Type κ} where
    pub After-continue :
        (ks ls : List K) (r : Answer A) (f : A → Action B) (s s1 : Session)
        → After ks s (r, s1)
        → ((a : A) → r ≡ ok a → Follows ls (f a))
        → After (ks ++ ls) s (continue r f s1)
    After-continue ks ls (err e) f s s1 (done, rest, d, h) kf =
        (done, rest ++ ls, sym (append_assoc done rest ls) ∙ ap (λ x. x ++ ls) d, h)
    After-continue ks ls (ok a) f s s1 h kf = After-prefix ks ls s s1 (f a s1) h ((kf a refl).at s1)

    pub Follows-bind :
        (ks ls : List K) (m : Action A) (f : A → Action B)
        → Follows ks m
        → ((a : A) → Follows ls (f a))
        → Follows (ks ++ ls) (m >>= f)
    unfolding ◌>>=◌
    Follows-bind ks ls m f km kf = record {
      at = λ s. let (r, s1) = m s in After-continue ks ls r f s s1 (km.at s) (λ a _. kf a);
    }

    -- Before and after what sends nothing.
    pub Follows-bind_quiet :
        (ks : List K) (m : Action A) (f : A → Action B)
        → Follows [] m
        → ((a : A) → Follows ks (f a))
        → Follows ks (m >>= f)
    Follows-bind_quiet ks m f km kf = Follows-bind [] ks m f km kf

    pub Follows-bind_last :
        (ks : List K) (m : Action A) (f : A → Action B)
        → Follows ks m
        → ((a : A) → Follows [] (f a))
        → Follows ks (m >>= f)
    Follows-bind_last ks m f km kf =
        subst (λ x. Follows x (m >>= f)) (append-nil ks) (Follows-bind ks [] m f km kf)

  module _ {ℓ} {A : Type ℓ} where
    After-label :
        (ks : List K) (s : Session) (prefix : String) (r : Answer A) (s1 : Session)
        → After ks s (r, s1)
        → After ks s (label prefix r, s1)
    After-label ks s prefix (ok a) s1 h = h
    After-label ks s prefix (err e) s1 h = h

    pub Follows-relabel :
        (ks : List K) (prefix : String) (m : Action A)
        → Follows ks m
        → Follows ks (relabel prefix m)
    unfolding relabel
    Follows-relabel ks prefix m h = record {
      at = λ s. After-label ks s prefix (m s).0 (m s).1 (h.at s);
    }
