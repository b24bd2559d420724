-- ===== src/Tools/Chain/Exactly.antt =====
-- Plans that name the transactions themselves.
use praesidio.Prelude.{true, List, [], ◌∷◌, ◌++◌, ◌≡◌, refl, sym, ap, ap₂, subst, ◌∙◌}
use praesidio.Validate.Host.{ok}
use praesidio.Tools.Chain.Calls.{Tx, Session, Action, sent}
use praesidio.Tools.Chain.Follows.{Frame, Match, After, Follows}

-- The transactions are those of the plan, and the file stays as it is.
abbrev pub exactly : Frame Tx
exactly = record { serves = λ k tx. k ≡ tx; keeps_file = true }

Match-same : (ks ts : List Tx) → Match exactly ks ts → ts ≡ ks
Match-same [] [] h = refl
Match-same [] (t ∷ ts) h = elim h [ ]
Match-same (k ∷ ks) [] h = elim h [ ]
Match-same (k ∷ ks) (t ∷ ts) (e, h) = ap₂ (λ x xs. x ∷ xs) (sym e) (Match-same ks ts h)

-- What an action sends that goes through.
pub sent-Follows :
    {A : Type 0} {a : A} {s1 : Session} (ks : List Tx) (m : Action A) (s : Session)
    → Follows exactly ks m
    → m s ≡ (ok a, s1)
    → sent s1.history ≡ sent s.history ++ ks
sent-Follows ks m s h e =
    let (ts, d, g, _) = subst (After exactly ks s) e (h.at s) in
    d ∙ ap (λ x. sent s.history ++ x) (Match-same ks ts g)
