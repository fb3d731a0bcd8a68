-- ===== src/Base/Regex/Yields.antt =====
-- What a match says of the text that it takes, and what is left to match behind it.
use Prim.Native.Char.{Char, code}
use Prim.Native.Nat.{ℕ}
use Prim.Native.String.{String, ◌++◌}
use mathlib.Core.Bool.{Bool, true}
use mathlib.Core.Option.{Option, some}
use mathlib.Core.Logic.{inl, inr}
use mathlib.Core.Path.{◌≡◌, refl, sym, ap, ◌∙◌}
use native.Mathlib.Omega.{arith}
use text.Mathlib.TextLemmas.{nil-append, cons-append, append_assoc}
use scrum_jail_governance_pl.Base.Tests.{Bool-cases}
use scrum_jail_governance_pl.Base.Regex.{
  Re, nothing, one, many, seq, alt, matches, take_many, search_from, anywhere, at_least_one,
}
use scrum_jail_governance_pl.Base.Regex.Takes.{last, last-append, all_chars}

-- A first part of the text, of which P holds, with `k` behind it.
pub record Part (P : String → Type 0) (k : Option ℕ → String → Bool) (i : Option ℕ) (s : String)
    : Type 0 where
  pub taken : String
  pub rest : String
  pub joined : taken ++ rest ≡ s
  pub is : P taken
  pub holds : k (last i taken) rest ≡ true

abbrev pub Yields : Re → (String → Type 0) → Type 0
Yields r P =
    (k : Option ℕ → String → Bool) (i : Option ℕ) (s : String)
    → matches r k i s ≡ true
    → Part P k i s

-- Two parts of a text, one behind the other.
pub record Both (P Q : String → Type 0) (t : String) : Type 0 where
  pub first : String
  pub second : String
  pub split : first ++ second ≡ t
  pub is_first : P first
  pub is_second : Q second

-- One character.
pub record IsOne (p : ℕ → Bool) (t : String) : Type 0 where
  pub letter : Char
  pub alone : String.◌∷◌ letter "" ≡ t
  pub allowed : p (code letter) ≡ true

pub Yields-nothing : Yields nothing (λ t. t ≡ "")
unfolding matches last
Yields-nothing k i s h = record {
  taken = "";
  rest = s;
  joined = nil-append s;
  is = refl;
  holds = h;
}

pub Yields-one : (p : ℕ → Bool) → Yields (one p) (IsOne p)
unfolding matches last
Yields-one p k i String.[] h = absurd (ground (arith, h))
Yields-one p k i (String.◌∷◌ c s) h = record {
  taken = String.◌∷◌ c "";
  rest = s;
  joined = cons-append c "" s ∙ ap (String.◌∷◌ c) (nil-append s);
  is = record { letter = c; alone = refl; allowed = ground (arith, h) };
  holds = ground (arith, h);
}

pub Yields-seq :
    (a b : Re) (P Q : String → Type 0) → Yields a P → Yields b Q → Yields (seq a b) (Both P Q)
unfolding matches
Yields-seq a b P Q f g k i s h =
    let x = f (matches b k) i s h in
    let y = g k (last i x.taken) x.rest x.holds in
    record {
      taken = x.taken ++ y.taken;
      rest = y.rest;
      joined = append_assoc x.taken y.taken y.rest ∙ ap (λ u. x.taken ++ u) y.joined ∙ x.joined;
      is = record {
        first = x.taken;
        second = y.taken;
        split = refl;
        is_first = x.is;
        is_second = y.is;
      };
      holds = ap (λ j. k j y.rest) (last-append i x.taken y.taken) ∙ y.holds;
    }

pub Part-map :
    {P Q : String → Type 0} {k : Option ℕ → String → Bool} {i : Option ℕ} {s : String}
    → ((t : String) → P t → Q t)
    → Part P k i s
    → Part Q k i s
Part-map f x = record {
  taken = x.taken;
  rest = x.rest;
  joined = x.joined;
  is = f x.taken x.is;
  holds = x.holds;
}

pub Yields-map :
    (r : Re) (P Q : String → Type 0) → ((t : String) → P t → Q t) → Yields r P → Yields r Q
Yields-map r P Q f y k i s h = Part-map f (y k i s h)

pub Yields-alt : (a b : Re) (P : String → Type 0) → Yields a P → Yields b P → Yields (alt a b) P
unfolding matches
Yields-alt a b P f g k i s h = elim (Bool-cases (matches a k i s)) [
  | inl left ↦ f k i s left
  | inr other ↦ g k i s (ground (arith, h, other))
]

pub Yields-many : (p : ℕ → Bool) → Yields (many p) (λ t. all_chars p t ≡ true)
unfolding matches take_many all_chars last
Yields-many p k i String.[] h = record {
  taken = "";
  rest = "";
  joined = nil-append "";
  is = refl;
  holds = h;
}
Yields-many p k i (String.◌∷◌ c s) h = elim (Bool-cases (k i (String.◌∷◌ c s))) [
  | inl here ↦ record {
    taken = "";
    rest = String.◌∷◌ c s;
    joined = nil-append (String.◌∷◌ c s);
    is = refl;
    holds = here;
  }
  | inr further ↦
      let x = Yields-many p k (some (code c)) s (ground (arith, h, further)) in
      record {
        taken = String.◌∷◌ c x.taken;
        rest = x.rest;
        joined = cons-append c x.taken x.rest ∙ ap (String.◌∷◌ c) x.joined;
        is = ground (arith, h, further, x.is);
        holds = x.holds;
      }
]

-- A character and more of them.
pub record IsSome (p : ℕ → Bool) (t : String) : Type 0 where
  pub head : Char
  pub tail : String
  pub split : String.◌∷◌ head tail ≡ t
  pub is_head : p (code head) ≡ true
  pub is_tail : all_chars p tail ≡ true

pub Yields-at_least_one : (p : ℕ → Bool) → Yields (at_least_one p) (IsSome p)
Yields-at_least_one p =
    Yields-map (at_least_one p) (Both (IsOne p) (λ t. all_chars p t ≡ true)) (IsSome p)
      (λ t x. record {
        head = x.is_first.letter;
        tail = x.second;
        split =
            sym (
              cons-append x.is_first.letter "" x.second
              ∙ ap (String.◌∷◌ x.is_first.letter) (nil-append x.second))
            ∙ ap (λ u. u ++ x.second) x.is_first.alone
            ∙ x.split;
        is_head = x.is_first.allowed;
        is_tail = x.is_second;
      })
      (Yields-seq (one p) (many p) (IsOne p) _ (Yields-one p) (Yields-many p))

-- A search that finds something finds it behind some first part of the text.
pub record Behind (r : Re) (i : Option ℕ) (s : String) : Type 0 where
  pub before : String
  pub here : String
  pub joined : before ++ here ≡ s
  pub found : matches r anywhere (last i before) here ≡ true

pub search-Behind : (r : Re) (i : Option ℕ) (s : String) → search_from r i s ≡ true → Behind r i s
unfolding search_from last
search-Behind r i String.[] h = record { before = ""; here = ""; joined = nil-append ""; found = h }
search-Behind r i (String.◌∷◌ c s) h = elim (Bool-cases (matches r anywhere i (String.◌∷◌ c s))) [
  | inl now ↦ record {
    before = "";
    here = String.◌∷◌ c s;
    joined = nil-append (String.◌∷◌ c s);
    found = now;
  }
  | inr further ↦
      let b = search-Behind r (some (code c)) s (ground (arith, h, further)) in
      record {
        before = String.◌∷◌ c b.before;
        here = b.here;
        joined = cons-append c b.before b.here ∙ ap (String.◌∷◌ c) b.joined;
        found = b.found;
      }
]
