-- ===== src/Monitor/Due.antt =====
-- The actions of a snapshot of control/sjg_control/governance.py are due.
use scrum_jail_governance_pl.Base.{
  ℕ, String, ◌==◌, Bool, true, false, not, ◌&&◌, ◌||◌, Option, none, some, List, [], ◌∷◌, ◌++◌, ◌≡◌,
  if◌then◌else◌, refl, arith, eqb, sorted_set, subst, sym, eq_iff,
}
use scrum_jail_governance_pl.Base.Raising.{made, made_test, made_same}
use scrum_jail_governance_pl.Base.Table.{select}
use scrum_jail_governance_pl.Base.Table.Laws.{All, select_sound}
use scrum_jail_governance_pl.Governance.{plan}
use scrum_jail_governance_pl.Monitor.{Action, create, close}
use scrum_jail_governance_pl.Monitor.Snapshot.{
  Issue, DesiredQueueItem, matches_of, sources_of, single, is_conflict, is_child, is_present,
  state_of, plans, creations, closings, create_of, close_if_stray, is_desired, in_order, keys_of,
  actions,
}

-- The one open sub-issue of the queue that carries the marker is this one.
abbrev pub is_only : List ℕ → ℕ → Option Issue → Bool
is_only children n none = false
is_only children n (some issue) = is_child children issue && eqb issue.number n

-- What each action is for: an item that no open sub-issue stands for, or a sub-issue that stands for none.
abbrev pub is_due : List Issue → List ℕ → List DesiredQueueItem → Action → Bool
is_due issues children items (create source title body existing version) =
    is_desired items source
    && not (is_conflict issues source)
    && not (is_present children (single (matches_of issues source)))
is_due issues children items (close source number version) =
    not (is_desired items source)
    && not (is_conflict issues source)
    && is_only children number (single (matches_of issues source))

abbrev pub AreDue : List Issue → List ℕ → List DesiredQueueItem → List Action → Type 0
AreDue issues children items = All (λ action. is_due issues children items action ≡ true)

plans-absent :
    (source : String) (present : Bool) → plans (state_of source present true) ≡ not present
unfolding plan
plans-absent source true = refl
plans-absent source false = refl

All-append : (P : Action → Type 0) (xs ys : List Action) → All P xs → All P ys → All P (xs ++ ys)
All-append P [] ys a b = b
All-append P (x ∷ xs) ys a b = (a.0, All-append P xs ys a.1 b)

All-if :
    (P : Action → Type 0) (b : Bool) (xs ys : List Action)
    → (b ≡ true → All P xs)
    → (b ≡ false → All P ys)
    → All P (if b then xs else ys)
All-if P true xs ys f g = f refl
All-if P false xs ys f g = g refl

module _ (issues : List Issue) (children : List ℕ) (items : List DesiredQueueItem) where
  abbrev IsKnown : DesiredQueueItem → Type 0
  IsKnown item = is_desired items item.source_key ≡ true

  creations-AreDue :
      (chosen : List DesiredQueueItem)
      → All IsKnown chosen
      → AreDue issues children items (creations issues children chosen)
  unfolding creations
  creations-AreDue [] k = tt
  creations-AreDue (item ∷ chosen) k =
      let found : Option Issue = single (matches_of issues item.source_key) in
      let more = creations-AreDue chosen k.1 in
      All-if (λ action. is_due issues children items action ≡ true)
        (not (is_conflict issues item.source_key)
          && plans (state_of item.source_key (is_present children found) true))
        (create_of item found ∷ creations issues children chosen) (creations issues children chosen)
        (λ h.
          (ground (arith, h, k.0, plans-absent item.source_key (is_present children found)), more))
        (λ h. more)

  stray-AreDue :
      (source : String) (found : Option Issue) (rest : List Action)
      → single (matches_of issues source) ≡ found
      → (is_desired items source || is_conflict issues source) ≡ false
      → AreDue issues children items rest
      → AreDue issues children items (close_if_stray children source found rest)
  stray-AreDue source none rest s h more = more
  stray-AreDue source (some issue) rest s h more =
      All-if (λ action. is_due issues children items action ≡ true)
        (is_child children issue && plans (state_of source true false))
        (close source issue.number issue.updated_at ∷ rest) rest (λ child. (stray_due child, more))
        (λ other. more)
    where
      stray_due :
          (is_child children issue && plans (state_of source true false)) ≡ true
          → is_due issues children items (close source issue.number issue.updated_at) ≡ true
      stray_due child =
          subst
            (λ o.
              (not (is_desired items source)
                && not (is_conflict issues source)
                && is_only children issue.number o)
              ≡ true)
            (sym s) (ground (arith, h, child))

  closings-AreDue :
      (sources : List String)
      → AreDue issues children items (closings issues children items sources)
  unfolding closings
  closings-AreDue [] = tt
  closings-AreDue (source ∷ sources) =
      All-if (λ action. is_due issues children items action ≡ true)
        (is_desired items source || is_conflict issues source)
        (closings issues children items sources)
        (close_if_stray children source (single (matches_of issues source))
          (closings issues children items sources))
        (λ kept. closings-AreDue sources)
        (λ stray. stray-AreDue source _ _ refl stray (closings-AreDue sources))

  IsKnown-item :
      (key : String) (item : DesiredQueueItem)
      → select (λ (i : DesiredQueueItem). i.source_key == key) items ≡ some item
      → IsKnown item
  IsKnown-item key item e =
      subst (λ k. is_desired items k ≡ true)
        (sym (
          (eq_iff item.source_key key).0
            (select_sound (λ (i : DesiredQueueItem). i.source_key == key) items e)))
        (ground (arith, e))

  in_order-IsKnown : (keys : List String) → All IsKnown (in_order items keys)
  unfolding in_order
  in_order-IsKnown [] = tt
  in_order-IsKnown (key ∷ keys) =
      listed (select (λ (i : DesiredQueueItem). i.source_key == key) items) refl
        (in_order-IsKnown keys)
    where
      listed :
          (o : Option DesiredQueueItem)
          → select (λ (i : DesiredQueueItem). i.source_key == key) items ≡ o
          → All IsKnown (in_order items keys)
          → All IsKnown
              (elim o [ none ↦ in_order items keys | some item ↦ item ∷ in_order items keys ])
      listed none e more = more
      listed (some item) e more = (IsKnown-item key item e, more)

-- Every action of a snapshot that is returned is due: it creates a desired item whose source has no
-- conflict and no open sub-issue of the queue, or it closes the one open sub-issue that carries the
-- marker of a source that is not desired and has no conflict.
pub actions-AreDue :
    (issues : List Issue) (children : List ℕ) (items : List DesiredQueueItem) (due : List Action)
    → actions issues children items ≡ made due
    → AreDue issues children items due
unfolding actions
actions-AreDue issues children items due e =
    let (distinct, e) = made_test _ _ _ _ e in
    let (valid, e) = made_test _ _ _ _ e in
    subst (AreDue issues children items) (made_same _ _ e) (
      All-append (λ action. is_due issues children items action ≡ true) _ _
        (creations-AreDue issues children items _
          (in_order-IsKnown issues children items (sorted_set (keys_of items))))
        (closings-AreDue issues children items (sorted_set (sources_of issues))))
