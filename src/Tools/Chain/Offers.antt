-- ===== src/Tools/Chain/Offers.antt =====
-- The transactions that an action gives to the node, whether the node takes or refuses them.
use praesidio.Prelude.{
  Bytes, Bool, true, false, String, List, [], ◌∷◌, ◌++◌, append_assoc, append-nil, ◌≡◌, refl, sym,
  ap, ◌∙◌, ◌==◌, if◌then◌else◌,
}
use praesidio.Validate.Host.{Answer, ok, err}
use praesidio.Tools.Chain.{
  Node, Submission, submitted, rejected, saying, after_submit, send, check_tx, get_failing_message,
  failing_text,
}
use praesidio.Tools.Chain.Calls.{
  Tx, Call, accepted, refused, asked, History, Session, Action, record_call, label, pure, fail,
  lift, ask, continue, ◌>>=◌,
}

-- In their order.
abbrev pub offered : History → List Tx
offered [] = []
offered (accepted tx ∷ h) = tx ∷ offered h
offered (refused tx ∷ h) = tx ∷ offered h
offered (asked what ∷ h) = offered h

offered-append : (h g : History) → offered (h ++ g) ≡ offered h ++ offered g
offered-append [] g = refl
offered-append (accepted tx ∷ h) g = ap (λ r. tx ∷ r) (offered-append h g)
offered-append (refused tx ∷ h) g = ap (λ r. tx ∷ r) (offered-append h g)
offered-append (asked what ∷ h) g = offered-append h g

-- These transactions, however the action ends.
abbrev pub OfferedFrom : Session → List Tx → Session → Type 0
OfferedFrom s ts s' = offered s'.history ≡ offered s.history ++ ts

pub OfferedFrom-none : (s : Session) → OfferedFrom s [] s
OfferedFrom-none s = sym (append-nil (offered s.history))

pub OfferedFrom-call : (c : Call) (s : Session) → OfferedFrom s (offered (c ∷ [])) (record_call c s)
OfferedFrom-call c s = offered-append s.history (c ∷ [])

pub OfferedFrom-append :
    (ts us : List Tx) (s s1 s2 : Session)
    → OfferedFrom s ts s1
    → OfferedFrom s1 us s2
    → OfferedFrom s (ts ++ us) s2
OfferedFrom-append ts us s s1 s2 h g =
    g ∙ ap (λ x. x ++ us) h ∙ append_assoc (offered s.history) ts us

pub record Offers {A : Type 0} (ts : List Tx) (m : Action A) : Type 0 where
  pub at : (s : Session) → OfferedFrom s ts (m s).1

module _ {A : Type 0} where
  pub Offers-pure : (a : A) → Offers [] (pure a)
  unfolding pure
  Offers-pure a = record { at = λ s. OfferedFrom-none s }

  pub Offers-fail : (e : String) → Offers [] (fail {A = A} e)
  unfolding fail
  Offers-fail e = record { at = λ s. OfferedFrom-none s }

  pub Offers-lift : (r : Answer A) → Offers [] (lift r)
  unfolding lift
  Offers-lift r = record { at = λ s. OfferedFrom-none s }

  pub Offers-ask : (what : String) (answer : History → A) → Offers [] (ask what answer)
  unfolding ask
  Offers-ask what answer = record { at = λ s. OfferedFrom-call (asked what) s }

  pub Offers-if :
      (b : Bool) (ts : List Tx) (m n : Action A)
      → Offers ts m
      → Offers ts n
      → Offers ts (if b then m else n)
  Offers-if true ts m n hm hn = hm
  Offers-if false ts m n hm hn = hn

module _ {A B : Type 0} where
  OfferedFrom-continue :
      (ts : List Tx) (r : Answer A) (f : A → Action B) (s s1 : Session)
      → OfferedFrom s ts s1
      → ((a : A) → Offers [] (f a))
      → OfferedFrom s ts (continue r f s1).1
  OfferedFrom-continue ts (err e) f s s1 h quiet = h
  OfferedFrom-continue ts (ok a) f s s1 h quiet =
      (quiet a).at s1 ∙ append-nil (offered s1.history) ∙ h

  -- What follows offers nothing.
  pub Offers-bind :
      (ts : List Tx) (m : Action A) (f : A → Action B)
      → Offers ts m
      → ((a : A) → Offers [] (f a))
      → Offers ts (m >>= f)
  unfolding ◌>>=◌
  Offers-bind ts m f hm hf = record {
    at = λ s. OfferedFrom-continue ts (m s).0 f s (m s).1 (hm.at s) hf;
  }

-- What is due if a preparation goes through.
abbrev pub prepared : Answer {0} Unit → List Tx → List Tx
prepared (ok u) ts = ts
prepared (err e) ts = []

pub Offers-prepared :
    {B : Type 0} (r : Answer {0} Unit) (ts : List Tx) (f : Unit {0} → Action B)
    → Offers ts (f tt)
    → Offers (prepared r ts) (lift r >>= f)
unfolding ◌>>=◌ lift
Offers-prepared (ok u) ts f h = record { at = λ s. h.at s }
Offers-prepared (err e) ts f h = record { at = λ s. OfferedFrom-none s }

pub Offers-labelled :
    {B : Type 0} (text : String) (r : Answer {0} Unit) (ts : List Tx) (f : Unit {0} → Action B)
    → Offers ts (f tt)
    → Offers (prepared r ts) (lift (label text r) >>= f)
unfolding ◌>>=◌ lift
Offers-labelled text (ok u) ts f h = record { at = λ s. h.at s }
Offers-labelled text (err e) ts f h = record { at = λ s. OfferedFrom-none s }

Offers-after_submit :
    (prefix : String) (tx : Tx) (answer : Submission) (s : Session)
    → OfferedFrom s (tx ∷ []) (after_submit (saying prefix) tx answer s).1
unfolding after_submit ◌>>=◌ pure fail
Offers-after_submit prefix tx (submitted hash) s = OfferedFrom-call (accepted tx) s
Offers-after_submit prefix tx (rejected e) s = OfferedFrom-call (refused tx) s

pub Offers-send :
    (n : Node) (tx : Tx) (prefix : String) → Offers (tx ∷ []) (send n tx (saying prefix))
unfolding send
Offers-send n tx prefix = record {
  at = λ s. Offers-after_submit prefix tx (n.submit s.history tx) s;
}

Offers-get_failing_message : (n : Node) (hash : Bytes) → Offers [] (get_failing_message n hash)
unfolding get_failing_message
Offers-get_failing_message n hash = Offers-bind [] _ _ (Offers-ask _ _) λ found.
    Offers-bind [] _ _ (Offers-lift found) λ tx.
      Offers-bind [] _ _ (Offers-lift (n.sender tx))
        λ from. Offers-bind [] _ _ (Offers-ask _ _) λ res. Offers-pure (failing_text n res)

pub Offers-check_tx : (n : Node) (hash : Bytes) → Offers [] (check_tx n hash)
unfolding check_tx
Offers-check_tx n hash = Offers-bind [] _ _ (Offers-ask _ _) λ mined.
    Offers-bind [] _ _ (Offers-lift _) λ receipt.
      Offers-if (receipt.status == 0) [] _ _
        (Offers-bind [] _ _ (Offers-get_failing_message n hash) λ reason. Offers-fail _)
        (Offers-pure receipt)
