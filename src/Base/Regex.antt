-- ===== src/Base/Regex.antt =====
-- Regular expressions as Python's `re` reads them, for tests that ask only whether there is a match.
-- A position is the code before it, if any, and the rest of the text.
pub mod Takes
pub mod Yields
use Prim.Native.Char.{Char, code}
use Prim.Native.Nat.{ℕ, zero, suc}
use Prim.Native.String.{String}
use mathlib.Core.Bool.{Bool, true, false, ◌&&◌, ◌||◌}
use mathlib.Core.Option.{Option, none, some}
use mathlib.Core.Logic.{◌↔◌, inl, inr}
use mathlib.Core.Path.{◌≡◌, refl}
use native.Mathlib.Omega.{arith}
use scrum_jail_governance_pl.Base.Tests.{eqb, leb, Bool-cases}

-- `at` tests the codes before and behind a position; `many` takes any number of characters.
pub data Re : Type 0 where
  nothing : Re
  one many : (ℕ → Bool) → Re
  at : (Option ℕ → Option ℕ → Bool) → Re
  seq alt : Re → Re → Re

abbrev pub next : String → Option ℕ
next String.[] = none
next (String.◌∷◌ c s) = some (code c)

abbrev pub take_one : (ℕ → Bool) → (Option ℕ → String → Bool) → String → Bool
take_one p k String.[] = false
take_one p k (String.◌∷◌ c s) = p (code c) && k (some (code c)) s

unfoldable pub take_many : (ℕ → Bool) → (Option ℕ → String → Bool) → Option ℕ → String → Bool
take_many p k i String.[] = k i ""
take_many p k i (String.◌∷◌ c s) =
    k i (String.◌∷◌ c s) || (p (code c) && take_many p k (some (code c)) s)

-- Is there a match from here, behind which `k` holds?
unfoldable pub matches : Re → (Option ℕ → String → Bool) → Option ℕ → String → Bool
unfolding take_many
matches nothing k i s = k i s
matches (one p) k i s = take_one p k s
matches (many p) k i s = take_many p k i s
matches (at test) k i s = test i (next s) && k i s
matches (seq a b) k i s = matches a (matches b k) i s
matches (alt a b) k i s = matches a k i s || matches b k i s

abbrev pub anywhere : Option ℕ → String → Bool
anywhere i s = true

abbrev pub at_end : Option ℕ → String → Bool
at_end i String.[] = true
at_end i (String.◌∷◌ c s) = false

unfoldable pub search_from : Re → Option ℕ → String → Bool
unfolding matches
search_from r i String.[] = matches r anywhere i ""
search_from r i (String.◌∷◌ c s) =
    matches r anywhere i (String.◌∷◌ c s) || search_from r (some (code c)) s

-- re.search, re.match and re.fullmatch, as tests
abbrev pub search : Re → String → Bool
search r s = search_from r none s

abbrev pub match_start : Re → String → Bool
match_start r s = matches r anywhere none s

abbrev pub full_match : Re → String → Bool
full_match r s = matches r at_end none s

-- Between the two numbers, both counted.
abbrev pub within : ℕ → ℕ → ℕ → Bool
within low high c = leb low c && leb c high

abbrev pub char : ℕ → Re
char n = one (eqb n)

abbrev pub at_least_one : (ℕ → Bool) → Re
at_least_one p = seq (one p) (many p)

abbrev pub maybe : Re → Re
maybe r = alt r nothing

-- p{0,n}
unfoldable pub up_to : ℕ → (ℕ → Bool) → Re
up_to zero p = nothing
up_to (suc n) p = maybe (seq (one p) (up_to n p))

-- p{n}
unfoldable pub exactly : ℕ → (ℕ → Bool) → Re
exactly zero p = nothing
exactly (suc n) p = seq (one p) (exactly n p)

pub take_many-here :
    (p : ℕ → Bool) (k : Option ℕ → String → Bool) (i : Option ℕ) (s : String)
    → k i s ≡ true
    → take_many p k i s ≡ true
unfolding take_many
take_many-here p k i String.[] h = h
take_many-here p k i (String.◌∷◌ c s) h = ground (arith, h)

pub starts-search :
    (r : Re) (i : Option ℕ) (s : String) → matches r anywhere i s ≡ true → search_from r i s ≡ true
unfolding search_from
starts-search r i String.[] h = h
starts-search r i (String.◌∷◌ c s) h = ground (arith, h)
