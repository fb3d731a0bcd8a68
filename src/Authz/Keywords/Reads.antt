-- ===== src/Authz/Keywords/Reads.antt =====
-- What a match of the parts of CLOSING_RE of control/sjg_control/authz.py says: a keyword, a gap, and
-- an issue.
use Prim.Native.Char.{Char, code}
use Prim.Native.String.{◌++◌}
use text.Mathlib.TextLemmas.{nil-append, cons-append, append-nil, append_assoc}
use scrum_jail_governance_pl.Base.{
  String, true, ◌||◌, some, ◌≡◌, refl, sym, ap, ◌∙◌, subst, arith, ◌⊎◌, inl, inr, Bool-cases,
}
use scrum_jail_governance_pl.Base.Regex.{Re, nothing, seq, matches, maybe}
use scrum_jail_governance_pl.Base.Regex.Takes.{last}
use scrum_jail_governance_pl.Base.Regex.Yields.{
  Yields, Both, IsOne, Yields-nothing, Yields-one, Yields-seq, Yields-map, Yields-alt,
}
use scrum_jail_governance_pl.Authz.Patterns.{Platform, cased, word, s_or_d, keyword}
use scrum_jail_governance_pl.Authz.Keywords.Words.{
  spells, Keyword, close, closes, closed, fix, fixes, fixed, resolve, resolves, resolved, spelling,
}

abbrev pub Spells : String → String → Type 0
Spells w t = spells w t ≡ true

Spells-append : (v w a b : String) → Spells v a → Spells w b → Spells (v ++ w) (a ++ b)
unfolding spells
Spells-append String.[] w String.[] b e f =
    ap (λ u. spells u ("" ++ b)) (nil-append w) ∙ ap (spells w) (nil-append b) ∙ f
Spells-append String.[] w (String.◌∷◌ d a) b e f = absurd (ground (arith, e))
Spells-append (String.◌∷◌ c v) w String.[] b e f = absurd (ground (arith, e))
Spells-append (String.◌∷◌ c v) w (String.◌∷◌ d a) b e f =
    ap (λ u. spells u (String.◌∷◌ d a ++ b)) (cons-append c v w)
    ∙ ap (spells (String.◌∷◌ c (v ++ w))) (cons-append d a b)
    ∙ ground (arith, e, Spells-append v w a b (ground (arith, e)) f)

pub Yields-word : (w : String) → Yields (word w) (Spells w)
unfolding word spells matches last
Yields-word String.[] k i s h = record {
  taken = "";
  rest = s;
  joined = nil-append s;
  is = refl;
  holds = h;
}
Yields-word (String.◌∷◌ c w) k i String.[] h = absurd (ground (arith, h))
Yields-word (String.◌∷◌ c w) k i (String.◌∷◌ d s) h =
    let x = Yields-word w k (some (code d)) s (ground (arith, h)) in
    record {
      taken = String.◌∷◌ d x.taken;
      rest = x.rest;
      joined = cons-append d x.taken x.rest ∙ ap (String.◌∷◌ d) x.joined;
      is = ground (arith, h, x.is);
      holds = x.holds;
    }

pub record IsKeyword (t : String) : Type 0 where
  pub keyword : Keyword
  pub spelled : spells (spelling keyword) t ≡ true

named : (w : Keyword) (t : String) → Spells (spelling w) t → IsKeyword t
named w t e = record { keyword = w; spelled = e }

-- A word with an optional ending.
Yields-stem :
    (v : String) (r : Re) (P Q : String → Type 0)
    → Yields r P
    → ((t : String) → Spells v t → Q t)
    → ((a b : String) → Spells v a → P b → Q (a ++ b))
    → Yields (seq (word v) (maybe r)) Q
Yields-stem v r P Q y alone longer =
    Yields-map (seq (word v) (maybe r)) (Both (Spells v) (λ t. P t ⊎ (t ≡ ""))) Q
      (λ t x. subst Q x.split (ended x.first x.second x.is_first x.is_second))
      (Yields-seq (word v) (maybe r) (Spells v) _ (Yields-word v) (
        Yields-alt r nothing (λ t. P t ⊎ (t ≡ "")) (Yields-map r P _ (λ t p. inl p) y)
          (Yields-map nothing (λ t. t ≡ "") _ (λ t e. inr e) Yields-nothing)))
  where
    ended : (a b : String) → Spells v a → P b ⊎ (b ≡ "") → Q (a ++ b)
    ended a b e (inl p) = longer a b e p
    ended a b e (inr f) = subst Q (sym (append-nil a) ∙ ap (λ u. a ++ u) (sym f)) (alone a e)

module _ (platform : Platform) where
  abbrev SorD : String → Type 0
  SorD t = Spells "s" t ⊎ Spells "d" t

  one_letter :
      (c : Char) → (cased 115 (code c) || cased 100 (code c)) ≡ true → SorD (String.◌∷◌ c "")
  unfolding spells
  one_letter c h = elim (Bool-cases (cased 115 (code c))) [
    | inl s ↦ inl (ground (arith, s))
    | inr other ↦ inr (ground (arith, h, other))
  ]

  Yields-s_or_d : Yields (s_or_d platform) SorD
  Yields-s_or_d =
      Yields-map (s_or_d platform) (IsOne (λ c. cased 115 c || cased 100 c)) SorD
        (λ t x. subst SorD x.alone (one_letter x.letter x.allowed))
        (Yields-one (λ c. cased 115 c || cased 100 c))

  either :
      (v : String)
      → ((t : String) → Spells (v ++ "s") t → IsKeyword t)
      → ((t : String) → Spells (v ++ "d") t → IsKeyword t)
      → (a b : String) → Spells v a
      → SorD b
      → IsKeyword (a ++ b)
  either v f g a b e (inl h) = f (a ++ b) (Spells-append v "s" a b e h)
  either v f g a b e (inr h) = g (a ++ b) (Spells-append v "d" a b e h)

  -- es or ed
  abbrev EsOrEd : String → Type 0
  EsOrEd = Both (Spells "e") SorD

  fix_ended : (a b : String) → Spells "fix" a → EsOrEd b → IsKeyword (a ++ b)
  fix_ended a b e x =
      subst (λ u. IsKeyword (a ++ u)) x.split
        (subst IsKeyword (append_assoc a x.first x.second) (
          either "fixe" (named fixes) (named fixed) (a ++ x.first) x.second
            (Spells-append "fix" "e" a x.first e x.is_first) x.is_second))

  pub Yields-keyword : Yields (keyword platform) IsKeyword
  Yields-keyword =
      Yields-alt _ _ IsKeyword
        (Yields-stem "close" (s_or_d platform) SorD IsKeyword Yields-s_or_d (named close)
          (either "close" (named closes) (named closed)))
        (Yields-alt _ _ IsKeyword
          (Yields-stem "fix" (seq (word "e") (s_or_d platform)) EsOrEd IsKeyword
            (Yields-seq (word "e") (s_or_d platform) _ _ (Yields-word "e") Yields-s_or_d)
            (named fix) fix_ended)
          (Yields-stem "resolve" (s_or_d platform) SorD IsKeyword Yields-s_or_d (named resolve)
            (either "resolve" (named resolves) (named resolved))))
