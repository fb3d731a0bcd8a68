-- ===== src/Base/Regex/Takes.antt =====
-- Texts that an expression takes, whatever stands around them.
use Prim.Native.Char.{Char, code}
use Prim.Native.String.{◌++◌}
use Prim.Native.Nat.{ℕ}
use Prim.Native.String.{String}
use mathlib.Core.Bool.{Bool, true, ◌&&◌}
use mathlib.Core.Option.{Option, some}
use mathlib.Core.Path.{◌≡◌, sym, ap, ◌∙◌, subst}
use native.Mathlib.Omega.{arith}
use text.Mathlib.TextLemmas.{nil-append, cons-append, append_assoc, append-nil}
use scrum_jail_governance_pl.Base.Regex.{
  Re, nothing, one, many, seq, alt, matches, take_one, take_many, take_many-here, search_from,
  starts-search, anywhere, at_least_one, maybe,
}

-- The code before a position that stands behind a text.
unfoldable pub last : Option ℕ → String → Option ℕ
last i String.[] = i
last i (String.◌∷◌ c s) = last (some (code c)) s

-- The expression takes the text, whatever stands around it.
abbrev pub Takes : Re → String → Type 0
Takes r t =
    (k : Option ℕ → String → Bool) (i : Option ℕ) (rest : String)
    → k (last i t) rest ≡ true
    → matches r k i (t ++ rest) ≡ true

pub last-append : (i : Option ℕ) (s t : String) → last i (s ++ t) ≡ last (last i s) t
unfolding last
last-append i String.[] t = ap (last i) (nil-append t)
last-append i (String.◌∷◌ c s) t = ap (last i) (cons-append c s t) ∙ last-append (some (code c)) s t

pub Takes-nothing : Takes nothing ""
unfolding matches last
Takes-nothing k i rest h = ap (k i) (nil-append rest) ∙ h

pub Takes-one : (p : ℕ → Bool) (c : Char) → p (code c) ≡ true → Takes (one p) (String.◌∷◌ c "")
unfolding matches last
Takes-one p c e k i rest h =
    ap (take_one p k) (cons-append c "" rest ∙ ap (String.◌∷◌ c) (nil-append rest))
    ∙ ground (arith, e, h)

pub Takes-seq : (a b : Re) (t u : String) → Takes a t → Takes b u → Takes (seq a b) (t ++ u)
unfolding matches
Takes-seq a b t u f g k i rest h =
    ap (matches a (matches b k) i) (append_assoc t u rest)
    ∙ f (matches b k) i (u ++ rest)
        (g k (last i t) rest (ap (λ j. k j rest) (sym (last-append i t u)) ∙ h))

pub Takes-left : (a b : Re) (t : String) → Takes a t → Takes (alt a b) t
unfolding matches
Takes-left a b t f k i rest h = ground (arith, f k i rest h)

pub Takes-right : (a b : Re) (t : String) → Takes b t → Takes (alt a b) t
unfolding matches
Takes-right a b t f k i rest h = ground (arith, f k i rest h)

unfoldable pub all_chars : (ℕ → Bool) → String → Bool
all_chars p String.[] = true
all_chars p (String.◌∷◌ c s) = p (code c) && all_chars p s

pub Takes-many : (p : ℕ → Bool) (t : String) → all_chars p t ≡ true → Takes (many p) t
unfolding matches take_many last all_chars
Takes-many p String.[] e k i rest h =
    ap (take_many p k i) (nil-append rest) ∙ take_many-here p k i rest h
Takes-many p (String.◌∷◌ c s) e k i rest h =
    ap (take_many p k i) (cons-append c s rest)
    ∙ ground (arith, e, Takes-many p s (ground (arith, e)) k (some (code c)) rest h)

pub Takes-at_least_one :
    (p : ℕ → Bool) (c : Char) (s : String)
    → p (code c) ≡ true
    → all_chars p s ≡ true
    → Takes (at_least_one p) (String.◌∷◌ c s)
Takes-at_least_one p c s e f =
    subst (Takes (at_least_one p)) (cons-append c "" s ∙ ap (String.◌∷◌ c) (nil-append s))
      (Takes-seq (one p) (many p) (String.◌∷◌ c "") s (Takes-one p c e) (Takes-many p s f))

pub Takes-last : (r : Re) (t : String) → Takes r t → Takes (seq r nothing) t
Takes-last r t f =
    subst (Takes (seq r nothing)) (append-nil t) (Takes-seq r nothing t "" f Takes-nothing)

pub Takes-without : (r q : Re) (t : String) → Takes q t → Takes (seq (maybe r) q) t
Takes-without r q t f =
    subst (Takes (seq (maybe r) q)) (nil-append t)
      (Takes-seq (maybe r) q "" t (Takes-right r nothing "" Takes-nothing) f)

-- A search goes past any text.
pub search_past :
    (r : Re) (i : Option ℕ) (before rest : String)
    → matches r anywhere (last i before) rest ≡ true
    → search_from r i (before ++ rest) ≡ true
unfolding last search_from
search_past r i String.[] rest h = ap (search_from r i) (nil-append rest) ∙ starts-search r i rest h
search_past r i (String.◌∷◌ c s) rest h =
    ap (search_from r i) (cons-append c s rest)
    ∙ ground (arith, search_past r (some (code c)) s rest h)
