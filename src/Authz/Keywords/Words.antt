-- ===== src/Authz/Keywords/Words.antt =====
-- The keywords of CLOSING_RE of control/sjg_control/authz.py, in letters of either case.
use Prim.Native.Char.{Char, code}
use Prim.Native.String.{◌++◌}
use text.Mathlib.TextLemmas.{nil-append, cons-append, append-nil}
use scrum_jail_governance_pl.Base.{
  ℕ, String, Bool, true, false, ◌&&◌, some, ◌≡◌, refl, sym, ap, ◌∙◌, subst, arith,
}
use scrum_jail_governance_pl.Base.Regex.{Re, nothing, one, seq, matches, take_one, maybe}
use scrum_jail_governance_pl.Base.Regex.Takes.{
  last, Takes, Takes-nothing, Takes-one, Takes-seq, Takes-left, Takes-right,
}
use scrum_jail_governance_pl.Authz.Patterns.{Platform, cased, word, is_word, s_or_d, keyword}

-- The text is the word, but for the case of its letters.
unfoldable pub spells : String → String → Bool
spells String.[] String.[] = true
spells String.[] (String.◌∷◌ d t) = false
spells (String.◌∷◌ c w) String.[] = false
spells (String.◌∷◌ c w) (String.◌∷◌ d t) = cased (code c) (code d) && spells w t

pub Takes-word : (w t : String) → spells w t ≡ true → Takes (word w) t
unfolding word spells matches last
Takes-word String.[] String.[] e k i rest h = Takes-nothing k i rest h
Takes-word String.[] (String.◌∷◌ d t) e k i rest h = absurd (ground (arith, e))
Takes-word (String.◌∷◌ c w) String.[] e k i rest h = absurd (ground (arith, e))
Takes-word (String.◌∷◌ c w) (String.◌∷◌ d t) e k i rest h =
    ap (take_one (cased (code c)) (matches (word w) k)) (cons-append d t rest)
    ∙ ground (arith, e, Takes-word w t (ground (arith, e)) k (some (code d)) rest h)

spells-nothing : (t : String) → spells "" t ≡ true → t ≡ ""
unfolding spells
spells-nothing String.[] e = refl
spells-nothing (String.◌∷◌ d t) e = absurd (ground (arith, e))

-- A text that spells two words, one behind the other, has a part for each.
record Halves (v w t : String) : Type 0 where
  first : String
  second : String
  joined : first ++ second ≡ t
  spells_first : spells v first ≡ true
  spells_second : spells w second ≡ true

halves : (v w t : String) → spells (v ++ w) t ≡ true → Halves v w t
unfolding spells
halves String.[] w t e = record {
  first = "";
  second = t;
  joined = nil-append t;
  spells_first = refl;
  spells_second = ap (λ u. spells u t) (sym (nil-append w)) ∙ e;
}
halves (String.◌∷◌ c v) w String.[] e =
    absurd (ground (arith, sym e ∙ ap (λ u. spells u "") (cons-append c v w)))
halves (String.◌∷◌ c v) w (String.◌∷◌ d t) e =
    let both = ap (λ u. spells u (String.◌∷◌ d t)) (sym (cons-append c v w)) ∙ e in
    let h = halves v w t (ground (arith, both)) in
    record {
      first = String.◌∷◌ d h.first;
      second = h.second;
      joined = cons-append d h.first h.second ∙ ap (String.◌∷◌ d) h.joined;
      spells_first = ground (arith, both, h.spells_first);
      spells_second = h.spells_second;
    }

-- A letter that may be one of two.
Takes-letter :
    (p : ℕ → Bool) (n : Char) (t : String)
    → ((m : ℕ) → cased (code n) m ≡ true → p m ≡ true)
    → spells (String.◌∷◌ n "") t ≡ true
    → Takes (one p) t
unfolding spells
Takes-letter p n String.[] allows e = absurd (ground (arith, e))
Takes-letter p n (String.◌∷◌ d String.[]) allows e =
    Takes-one p d (allows (code d) (ground (arith, e)))
Takes-letter p n (String.◌∷◌ d (String.◌∷◌ d' t)) allows e = absurd (ground (arith, e))

pub data Keyword : Type 0 where
  close closes closed fix fixes fixed resolve resolves resolved : Keyword

abbrev pub spelling : Keyword → String
spelling close = "close"
spelling closes = "closes"
spelling closed = "closed"
spelling fix = "fix"
spelling fixes = "fixes"
spelling fixed = "fixed"
spelling resolve = "resolve"
spelling resolves = "resolves"
spelling resolved = "resolved"

Takes-alone : (v t : String) (r : Re) → spells v t ≡ true → Takes (seq (word v) (maybe r)) t
Takes-alone v t r e =
    subst (Takes (seq (word v) (maybe r))) (append-nil t) (
      Takes-seq (word v) (maybe r) t "" (Takes-word v t e) (Takes-right r nothing "" Takes-nothing))

Takes-extended :
    (v w t : String) (r : Re)
    → ((u : String) → spells w u ≡ true → Takes r u)
    → spells (v ++ w) t ≡ true
    → Takes (seq (word v) (maybe r)) t
Takes-extended v w t r takes e =
    let h = halves v w t e in
    subst (Takes (seq (word v) (maybe r))) h.joined (
      Takes-seq (word v) (maybe r) h.first h.second (Takes-word v h.first h.spells_first)
        (Takes-left r nothing h.second (takes h.second h.spells_second)))

module _ (platform : Platform) where
  Takes-s : (t : String) → spells "s" t ≡ true → Takes (s_or_d platform) t
  Takes-s t = Takes-letter _ "s" t (λ m h. ground (arith, h))

  Takes-d : (t : String) → spells "d" t ≡ true → Takes (s_or_d platform) t
  Takes-d t = Takes-letter _ "d" t (λ m h. ground (arith, h))

  Takes-e :
      (n : String)
      → ((t : String) → spells n t ≡ true → Takes (s_or_d platform) t)
      → (t : String) → spells ("e" ++ n) t ≡ true
      → Takes (seq (word "e") (s_or_d platform)) t
  Takes-e n takes t e =
      let h = halves "e" n t e in
      subst (Takes (seq (word "e") (s_or_d platform))) h.joined (
        Takes-seq (word "e") (s_or_d platform) h.first h.second
          (Takes-word "e" h.first h.spells_first) (takes h.second h.spells_second))

  pub Takes-keyword :
      (w : Keyword) (t : String) → spells (spelling w) t ≡ true → Takes (keyword platform) t
  Takes-keyword close t e = Takes-left _ _ t (Takes-alone "close" t _ e)
  Takes-keyword closes t e = Takes-left _ _ t (Takes-extended "close" "s" t _ Takes-s e)
  Takes-keyword closed t e = Takes-left _ _ t (Takes-extended "close" "d" t _ Takes-d e)
  Takes-keyword fix t e = Takes-right _ _ t (Takes-left _ _ t (Takes-alone "fix" t _ e))
  Takes-keyword fixes t e =
      Takes-right _ _ t (Takes-left _ _ t (Takes-extended "fix" "es" t _ (Takes-e "s" Takes-s) e))
  Takes-keyword fixed t e =
      Takes-right _ _ t (Takes-left _ _ t (Takes-extended "fix" "ed" t _ (Takes-e "d" Takes-d) e))
  Takes-keyword resolve t e = Takes-right _ _ t (Takes-right _ _ t (Takes-alone "resolve" t _ e))
  Takes-keyword resolves t e =
      Takes-right _ _ t (Takes-right _ _ t (Takes-extended "resolve" "s" t _ Takes-s e))
  Takes-keyword resolved t e =
      Takes-right _ _ t (Takes-right _ _ t (Takes-extended "resolve" "d" t _ Takes-d e))

-- A keyword starts with one of three letters, in either case, and so with a word character.
pub record StartsWord (platform : Platform) (t : String) : Type 0 where
  pub first : Char
  pub rest : String
  pub split : String.◌∷◌ first rest ≡ t
  pub is_first_word : is_word platform (code first) ≡ true

starts_word :
    (platform : Platform) (n : Char) (w t : String)
    → ((m : ℕ) → cased (code n) m ≡ true → is_word platform m ≡ true)
    → spells (String.◌∷◌ n w) t ≡ true
    → StartsWord platform t
unfolding spells
starts_word platform n w String.[] allows e = absurd (ground (arith, e))
starts_word platform n w (String.◌∷◌ d t) allows e = record {
  first = d;
  rest = t;
  split = refl;
  is_first_word = allows (code d) (ground (arith, e));
}

module _ (platform : Platform) where
  c_word : (m : ℕ) → cased (code "c") m ≡ true → is_word platform m ≡ true
  c_word m h = ground (arith, h)

  f_word : (m : ℕ) → cased (code "f") m ≡ true → is_word platform m ≡ true
  f_word m h = ground (arith, h)

  r_word : (m : ℕ) → cased (code "r") m ≡ true → is_word platform m ≡ true
  r_word m h = ground (arith, h)

  pub keyword-StartsWord :
      (w : Keyword) (t : String) → spells (spelling w) t ≡ true → StartsWord platform t
  keyword-StartsWord close t e = starts_word platform "c" "lose" t c_word e
  keyword-StartsWord closes t e = starts_word platform "c" "loses" t c_word e
  keyword-StartsWord closed t e = starts_word platform "c" "losed" t c_word e
  keyword-StartsWord fix t e = starts_word platform "f" "ix" t f_word e
  keyword-StartsWord fixes t e = starts_word platform "f" "ixes" t f_word e
  keyword-StartsWord fixed t e = starts_word platform "f" "ixed" t f_word e
  keyword-StartsWord resolve t e = starts_word platform "r" "esolve" t r_word e
  keyword-StartsWord resolves t e = starts_word platform "r" "esolves" t r_word e
  keyword-StartsWord resolved t e = starts_word platform "r" "esolved" t r_word e
