-- ===== src/Monitor/Marker.antt =====
-- control/sjg_control/governance.py reads back with MARKER what `source_marker` of
-- control/sjg_control/reconcile.py writes.
use Prim.Native.Char.{Char, code}
use Prim.Native.String.{◌++◌}
use text.Mathlib.TextLemmas.{nil-append, cons-append, append_cancel_right, cons≢nil}
use scrum_jail_governance_pl.Base.{
  String, ◌==◌, Bool, false, ◌||◌, Option, none, some, List, ◌∷◌, ◌≡◌, if◌then◌else◌, ap, ◌∙◌, sym,
  eqb, arith, is_empty, eq_refl, eq_iff, Bool-cases, inl, inr, strip_prefix,
}
use scrum_jail_governance_pl.Monitor.{marker, lines, strip_suffix, first_marker}
use scrum_jail_governance_pl.Monitor.Snapshot.{has_dashes}

-- "\n" in text
unfoldable pub has_line_feed : String → Bool
has_line_feed String.[] = false
has_line_feed (String.◌∷◌ c s) = eqb (code c) 10 || has_line_feed s

-- source_marker; none for its ValueError.
unfoldable pub source_marker : String → Option String
unfolding has_dashes has_line_feed
source_marker source =
    if is_empty source || has_dashes source || has_line_feed source
    then none
    else some ("<!-- governance-monitor-source:" ++ (source ++ " -->"))

-- The first line of a text that has a line feed.
lines_first :
    (line rest : String)
    → has_line_feed line ≡ false
    → lines (line ++ ("\n" ++ rest)) ≡ (line ∷ lines rest)
unfolding lines has_line_feed
lines_first String.[] rest h =
    ap lines (
      nil-append ("\n" ++ rest) ∙ cons-append "\n" "" rest ∙ ap (String.◌∷◌ "\n") (nil-append rest))
lines_first (String.◌∷◌ c s) rest h =
    ap lines (cons-append c s ("\n" ++ rest))
    ∙ ground (arith, h, lines_first s rest (ground (arith, h)))

longer : (c : Char) (s suffix : String) → (String.◌∷◌ c s ++ suffix == suffix) ≡ false
longer c s suffix = elim (Bool-cases (String.◌∷◌ c s ++ suffix == suffix)) [
  | inl same ↦ absurd (
      cons≢nil (
        append_cancel_right (String.◌∷◌ c s) "" suffix
          ((eq_iff (String.◌∷◌ c s ++ suffix) suffix).0 same ∙ sym (nil-append suffix))))
  | inr other ↦ other
]

strip_suffix-append :
    (suffix : String) (c : Char) (text : String)
    → strip_suffix suffix (String.◌∷◌ c text ++ suffix) ≡ some (String.◌∷◌ c text)
unfolding strip_suffix
strip_suffix-append suffix c String.[] =
    ap (strip_suffix suffix) (cons-append c "" suffix ∙ ap (String.◌∷◌ c) (nil-append suffix))
    ∙ ground (arith, eq_refl suffix)
strip_suffix-append suffix c (String.◌∷◌ d s) =
    ap (strip_suffix suffix) (cons-append c (String.◌∷◌ d s) suffix)
    ∙ ground (arith, longer d s suffix, strip_suffix-append suffix d s)

strip_prefix-append : (prefix text : String) → strip_prefix prefix (prefix ++ text) ≡ some text
unfolding strip_prefix
strip_prefix-append String.[] text = ap some (nil-append text)
strip_prefix-append (String.◌∷◌ c s) text =
    ap (strip_prefix (String.◌∷◌ c s)) (cons-append c s text)
    ∙ ground (arith, strip_prefix-append s text)

has_line_feed-append :
    (s t : String) → has_line_feed (s ++ t) ≡ (has_line_feed s || has_line_feed t)
unfolding has_line_feed
has_line_feed-append String.[] t = ap has_line_feed (nil-append t)
has_line_feed-append (String.◌∷◌ c s) t =
    ap has_line_feed (cons-append c s t) ∙ ground (arith, has_line_feed-append s t)

abbrev line_of : String → String
line_of source = "<!-- governance-monitor-source:" ++ (source ++ " -->")

line_alone :
    (source : String) → has_line_feed source ≡ false → has_line_feed (line_of source) ≡ false
unfolding has_line_feed
line_alone source h =
    has_line_feed-append "<!-- governance-monitor-source:" (source ++ " -->")
    ∙ has_line_feed-append source " -->"
    ∙ ground (arith, h)

read_back :
    (c : Char) (s : String) (rest : List String)
    → first_marker (line_of (String.◌∷◌ c s) ∷ rest) ≡ some (String.◌∷◌ c s)
unfolding first_marker
read_back c s rest = ground (
  arith,
  strip_prefix-append "<!-- governance-monitor-source:" (String.◌∷◌ c s ++ " -->"),
  strip_suffix-append " -->" c s,
)

abbrev text_in : Option String → String
text_in none = ""
text_in (some text) = text

written : (source text : String) → source_marker source ≡ some text → line_of source ≡ text
unfolding source_marker
written source text e =
    elim (Bool-cases (is_empty source || has_dashes source || has_line_feed source)) [
      | inl bad ↦ absurd (ground (arith, e, bad))
      | inr good ↦ ap text_in {x = some (line_of source)} {y = some text} (ground (arith, e, good))
    ]

-- What `source_marker` returns for a source, in front of a line feed and any further text, is read
-- back by MARKER as that source.
pub marker-source_marker :
    (source text rest : String)
    → source_marker source ≡ some text
    → marker (text ++ ("\n" ++ rest)) ≡ some source
unfolding source_marker lines first_marker
marker-source_marker String.[] text rest e = absurd (ground (arith, e))
marker-source_marker (String.◌∷◌ c s) text rest e =
    ap (λ t. marker (t ++ ("\n" ++ rest))) (sym (written (String.◌∷◌ c s) text e))
    ∙ ap first_marker (
        lines_first (line_of (String.◌∷◌ c s)) rest
          (line_alone (String.◌∷◌ c s) (ground (arith, e))))
    ∙ read_back c s (lines rest)
