-- ===== src/Monitor/Posted.antt =====
-- The blockers of control/sjg_control/governance.py: their sources, and the markers of their bodies.
use Prim.Native.String.{◌++◌}
use text.Mathlib.TextLemmas.{append_cancel_left}
use scrum_jail_governance_pl.Base.{
  String, ◌==◌, Bool, true, false, Option, none, some, List, [], ◌∷◌, ◌≡◌, refl, ap, ◌∙◌, subst,
  arith, mem, eq_iff, eq_refl, Bool-cases, inl, inr,
}
use scrum_jail_governance_pl.Base.Raising.{
  Raising, made, made_first, made_test, made_same, or_crash,
}
use scrum_jail_governance_pl.Base.Table.{select}
use scrum_jail_governance_pl.Base.Table.Laws.{All, All-mono}
use scrum_jail_governance_pl.Json.{Value, Arguments}
use scrum_jail_governance_pl.Monitor.{marker}
use scrum_jail_governance_pl.Monitor.Snapshot.{DesiredQueueItem, is_desired}
use scrum_jail_governance_pl.Monitor.Marker.{marker-source_marker}
use scrum_jail_governance_pl.Monitor.Blockers.{
  BlockerError, id_of, open_blocker, if_open, on_row, on_rows, blockers, appended,
}

-- The marker of the item's body names its source.
abbrev pub IsPosted : DesiredQueueItem → Type 0
IsPosted item = marker item.body ≡ some item.source_key

-- Every item's body has its marker, and no two have one source.
pub ArePosted : List DesiredQueueItem → Type 0
ArePosted [] = Unit
ArePosted (item ∷ items) =
    IsPosted item × (is_desired items item.source_key ≡ false) × ArePosted items

made_some :
    {A : Type 0} (o : Option A) (a : A)
    → ◌≡◌ {A = Raising BlockerError A} (or_crash o) (made a)
    → o ≡ some a
made_some none a e = absurd (ground (arith, e))
made_some (some b) a e = ap some (made_same b a e)

module _ (dumps : Value → Option String) where
  -- What an open blocker is posted as.
  IsOpen : String → DesiredQueueItem → Type 0
  IsOpen source item = (item.source_key ≡ source) × IsPosted item

  open_blocker-IsOpen :
      (source summary action : String) (blocks : Value) (item : DesiredQueueItem)
      → open_blocker dumps source summary action blocks ≡ made item
      → IsOpen source item
  unfolding open_blocker IsOpen
  open_blocker-IsOpen source summary action blocks item e =
      let (sized, e) = made_test _ _ _ _ e in
      let (marked, m, e) = made_first _ _ _ e in
      let (shown, d, e) = made_first _ _ _ e in
      subst (IsOpen source) (made_same _ _ e)
        (refl, marker-source_marker source marked _ (made_some _ _ m))

  IsOpenIf : String → Option DesiredQueueItem → Type 0
  IsOpenIf source none = Unit
  IsOpenIf source (some item) = IsOpen source item

  if_open-IsOpenIf :
      (is_open : Bool) (id : String) (row : Arguments) (item : Option DesiredQueueItem)
      → if_open dumps is_open id row ≡ made item
      → IsOpenIf ("blocker:" ++ id) item
  unfolding if_open IsOpenIf
  if_open-IsOpenIf false id row none e = tt
  if_open-IsOpenIf false id row (some item) e = absurd (cleared (made_same _ _ e))
    where
      cleared : ◌≡◌ {A = Option DesiredQueueItem} none (some item) → ⊥
      cleared p = ground (arith, p)
  if_open-IsOpenIf true id row item e =
      let (opened, o, e) = made_first _ _ _ e in
      subst (IsOpenIf ("blocker:" ++ id)) (made_same _ _ e)
        (open_blocker-IsOpen ("blocker:" ++ id) _ _ _ opened o)

  on_row-IsOpenIf :
      (id : String) (row : Arguments) (item : Option DesiredQueueItem)
      → on_row dumps id row ≡ made item
      → IsOpenIf ("blocker:" ++ id) item
  unfolding on_row
  on_row-IsOpenIf id row item e =
      let (is_open, s, e) = made_first _ _ _ e in
      let (needed, e) = made_test _ _ _ _ e in if_open-IsOpenIf is_open id row item e

  -- The item's source is none of the ids'.
  abbrev IsFresh : List String → DesiredQueueItem → Type 0
  IsFresh seen item =
      (id : String) → mem id seen ≡ true → (item.source_key == "blocker:" ++ id) ≡ false

  -- The items of a part of the loop.
  record IsListed (seen : List String) (items : List DesiredQueueItem) : Type 0 where
    posted : ArePosted items
    fresh : All (IsFresh seen) items

  other_source : (a b : String) → (a == b) ≡ false → ("blocker:" ++ a == "blocker:" ++ b) ≡ false
  other_source a b h = elim (Bool-cases ("blocker:" ++ a == "blocker:" ++ b)) [
    | inl same ↦ absurd (
        ground (
          arith,
          h,
          (eq_iff a b).1 (
              append_cancel_left "blocker:" a b
                ((eq_iff ("blocker:" ++ a) ("blocker:" ++ b)).0 same)),
        ))
    | inr other ↦ other
  ]

  not_listed :
      (id : String) (items : List DesiredQueueItem)
      → All (λ (item : DesiredQueueItem). (item.source_key == "blocker:" ++ id) ≡ false) items
      → is_desired items ("blocker:" ++ id) ≡ false
  unfolding select
  not_listed id [] a = refl
  not_listed id (item ∷ items) a = ground (arith, a.0, not_listed id items a.1)

  not_same :
      (seen : List String) (a b : String)
      → mem a seen ≡ false
      → mem b seen ≡ true
      → (a == b) ≡ false
  not_same seen a b out within = elim (Bool-cases (a == b)) [
    | inl same ↦ absurd (ground (arith, out, within, ap (λ s. mem s seen) ((eq_iff a b).0 same)))
    | inr other ↦ other
  ]

  IsFresh-before :
      (seen : List String) (id : String) (items : List DesiredQueueItem)
      → All (IsFresh (id ∷ seen)) items
      → All (IsFresh seen) items
  unfolding mem
  IsFresh-before seen id items =
      All-mono (IsFresh (id ∷ seen)) (IsFresh seen) items (λ item f k m. f k (ground (arith, m)))

  IsListed-appended :
      (seen : List String) (id : String) (item : Option DesiredQueueItem)
      (items : List DesiredQueueItem)
      → mem id seen ≡ false
      → IsOpenIf ("blocker:" ++ id) item
      → IsListed (id ∷ seen) items
      → IsListed seen (appended item items)
  unfolding ArePosted IsOpen IsOpenIf mem
  IsListed-appended seen id none items new opened rest = record {
    posted = rest.posted;
    fresh = IsFresh-before seen id items rest.fresh;
  }
  IsListed-appended seen id (some item) items new opened rest = record {
    posted = (
      opened.1,
      ap (is_desired items) opened.0
          ∙ not_listed id items (
              All-mono (IsFresh (id ∷ seen)) _ items (λ x f. f id (ground (arith, eq_refl id)))
                rest.fresh),
      rest.posted,
    );
    fresh = (
      (λ k m.
          ap (λ s. s == "blocker:" ++ k) opened.0 ∙ other_source id k (not_same seen id k new m)),
      IsFresh-before seen id items rest.fresh,
    );
  }

  on_rows-IsListed :
      (seen : List String) (values : List Value) (items : List DesiredQueueItem)
      → on_rows dumps seen values ≡ made items
      → IsListed seen items
  unfolding on_rows ArePosted
  on_rows-IsListed seen [] items e =
      subst (IsListed seen) (made_same _ _ e) (record { posted = tt; fresh = tt })
  on_rows-IsListed seen (value ∷ values) items e =
      let (row, r, e) = made_first _ _ _ e in
      let (new, e) = made_test _ _ _ _ e in
      let (item, i, e) = made_first _ _ _ e in
      let (desired, d, e) = made_first _ _ _ e in
      subst (IsListed seen) (made_same _ _ e) (
        IsListed-appended seen (id_of row) item desired (ground (arith, new))
          (on_row-IsOpenIf _ row item i) (on_rows-IsListed (id_of row ∷ seen) values desired d))

-- Of the items that `_blockers` returns, whatever `json.dumps` makes of what they block, no two
-- have one source, and MARKER finds in the body of each its own source, by which `_managed` will
-- know its issue.
pub blockers-ArePosted :
    (dumps : Value → Option String) (document : Value) (items : List DesiredQueueItem)
    → blockers dumps document ≡ made items
    → ArePosted items
unfolding blockers
blockers-ArePosted dumps document items e =
    let (fields, f, e) = made_first _ _ _ e in
    let (rows, r, e) = made_first _ _ _ e in (on_rows-IsListed dumps [] rows items e).posted
