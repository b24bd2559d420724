-- ===== src/Tools/Chain/Revert/Selectors.antt =====
-- MatchCustomError of tee/tools/pkg/fccutils/revert.go against what a selector is: the first of the
-- errors whose identifier begins with the four bytes that the data begins with.
use Prim.Native.String.{String, ◌++◌ as ◌+++◌}
use text.Mathlib.TextEquality.{eq_iff}
use praesidio.Prelude.{
  Bytes, false, List, [], ◌∷◌, ◌++◌, All, Option, some, none, take, ◌≡◌, ◌≢◌, ◌⊎◌, inl, inr, refl,
  bytes_eq, bytes_eq_iff, Bool-cases, str_eq,
}
use praesidio.Tools.Chain.Revert.{CustomError, named, match_selector}

-- What is shown of an error: its name, and the arguments behind it if it has any.
abbrev pub Shown : String → Option String → String → Type 0
Shown name none r = r ≡ name
Shown name (some text) r =
    (((text ≡ "[]") ⊎ (text ≡ "<nil>")) × (r ≡ name))
    ⊎ ((text ≢ "[]") × (text ≢ "<nil>") × (r ≡ name +++ text))

abbrev pub Selects : Bytes → CustomError → Type 0
Selects bytes e = take 4 e.id ≡ take 4 bytes

abbrev pub Passes : Bytes → CustomError → Type 0
Passes bytes e = take 4 e.id ≢ take 4 bytes

-- The name of revert data: that of the first error that it selects, and none if it selects none.
abbrev pub Names : List CustomError → Bytes → String → Type 0
Names errors bytes r =
    (All (Passes bytes) errors × (r ≡ ""))
    ⊎ ((front : List CustomError) × (e : CustomError) × (back : List CustomError) × (errors
          ≡ front ++ e ∷ back)
        × All (Passes bytes) front
        × Selects bytes e
        × Shown e.name (e.arguments bytes) r)

not_str : (s t : String) → str_eq s t ≡ false → s ≢ t
not_str s t h = λ p. let h' = (eq_iff s t).1 p in cc

Shown-text : (name text : String) → Shown name (some text) (named name (some text))
Shown-text name text = elim (Bool-cases (str_eq text "[]")) [
  | inl empty ↦ inl (inl ((eq_iff text "[]").0 empty), rw empty refl)
  | inr some_text ↦ elim (Bool-cases (str_eq text "<nil>")) [
    | inl nil ↦ inl (inr ((eq_iff text "<nil>").0 nil), rw (some_text, nil) refl)
    | inr other ↦
        inr (not_str text "[]" some_text, not_str text "<nil>" other, rw (some_text, other) refl)
  ]
]

named-Shown : (name : String) (text : Option String) → Shown name text (named name text)
named-Shown name none = refl
named-Shown name (some text) = Shown-text name text

Names-later :
    (e : CustomError) (es : List CustomError) (bytes : Bytes) (r : String)
    → Passes bytes e
    → Names es bytes r
    → Names (e ∷ es) bytes r
Names-later e es bytes r p (inl (ps, none_left)) = inl ((p, ps), none_left)
Names-later e es bytes r p (inr (front, f, back, split, ps, at, text)) =
    inr (e ∷ front, f, back, rw split refl, (p, ps), at, text)

pub match_selector-Names :
    (errors : List CustomError) (bytes : Bytes) → Names errors bytes (match_selector errors bytes)
unfolding match_selector
match_selector-Names [] bytes = inl (tt, refl)
match_selector-Names (e ∷ es) bytes = elim (Bool-cases (bytes_eq (take 4 e.id) (take 4 bytes))) [
  | inl same ↦ inr (
    [],
    e,
    es,
    refl,
    tt,
    (bytes_eq_iff _ _).0 same,
    rw same (named-Shown e.name (e.arguments bytes)),
  )
  | inr other ↦ rw other (
      Names-later e es bytes _ (λ p. let same = (bytes_eq_iff _ _).1 p in cc)
        (match_selector-Names es bytes))
]
