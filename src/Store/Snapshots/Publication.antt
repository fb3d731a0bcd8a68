-- ===== src/Store/Snapshots/Publication.antt =====
-- The publication of staged events by `finish_snapshot` of control/sjg_control/store.py.
use scrum_jail_governance_pl.Base.{
  ℕ, ◌+◌, ◌≤◌, String, ◌==◌, Bool, true, false, ◌&&◌, ◌≡◌, refl, some, List, [], ◌∷◌, arith,
  Option-cases, Bool-cases, inl, inr, eq_refl, eq_join, subst, sym, ap, ◌∙◌,
}
use scrum_jail_governance_pl.Base.Table.{select, update, count, exists}
use scrum_jail_governance_pl.Base.Table.Laws.{
  All, All-mono, select-none, exists_mono, count-update_eq,
}
use scrum_jail_governance_pl.Store.Schema.{
  Store, SnapshotEvent, ObservedEvent, SourceSnapshot, SourceCheckpoint,
}
use scrum_jail_governance_pl.Store.Action.{ok}
use scrum_jail_governance_pl.Store.Snapshots.{
  clashes, to_observed, publish, Finish, collected, finish_snapshot, by_snapshot, at_source,
}

-- The primary key of `observed_event`, and its UNIQUE(source_id, external_id, version_key).
pub record AreObservedKeyed (xs : List ObservedEvent) : Type 0 where
  pub by_id : (id : String) → count (λ row. row.event_id == id) xs ≤ 1
  pub by_version :
      (source_id external_id version_key : String)
      → count
          (λ row.
            row.source_id == source_id
            && row.external_id == external_id
            && row.version_key == version_key)
          xs
        ≤ 1

publish_keeps :
    (p : ObservedEvent → Bool) (es : List SnapshotEvent) (xs : List ObservedEvent)
    → count p xs ≤ count p (publish es xs).1
unfolding publish count
publish_keeps p [] xs = omega arith
publish_keeps p (e ∷ es) xs = ground (arith, publish_keeps p es xs)

publish-All :
    (es : List SnapshotEvent) (xs : List ObservedEvent)
    → All (λ e. exists (clashes e) (publish es xs).1 ≡ true) es
unfolding publish select
publish-All [] xs = tt
publish-All (e ∷ es) xs = (
  ground (arith, eq_refl e.event_id),
  All-mono _ _ es (λ x h. ground (arith, h)) (publish-All es xs),
)

-- SELECT count(*)
abbrev pub rows : {A : Type 0} → List A → ℕ
rows xs = count (λ x. true) xs

publish_counts :
    (es : List SnapshotEvent) (xs : List ObservedEvent)
    → rows (publish es xs).1 ≡ (publish es xs).0 + rows xs
unfolding publish count
publish_counts [] xs = omega arith
publish_counts (e ∷ es) xs = ground (arith, publish_counts es xs)

-- A row that clashes with none has a new key.
apart :
    (e : SnapshotEvent) (xs : List ObservedEvent) (q : ObservedEvent → Bool)
    → ((row : ObservedEvent) → q row ≡ true → q (to_observed e) ≡ true → clashes e row ≡ true)
    → exists (clashes e) xs ≡ false
    → count q xs ≤ 1
    → count q (to_observed e ∷ xs) ≤ 1
unfolding count
apart e xs q h absent one = elim (Bool-cases (q (to_observed e))) [
  | inl new ↦
      ground (arith, absent_count q xs (exists_mono q (clashes e) xs (λ x g. h x g new) absent))
  | inr old ↦ ground arith
]
  where
    absent_count :
        (r : ObservedEvent → Bool) (ys : List ObservedEvent) → exists r ys ≡ false → count r ys ≡ 0
    absent_count r ys g = elim (Option-cases (select r ys)) [
      | inl gone ↦ select-none r ys gone
      | inr (d, found) ↦ ground (arith, found, g)
    ]

same_id_clash :
    (e : SnapshotEvent) (row : ObservedEvent)
    → (row.event_id == e.event_id) ≡ true
    → clashes e row ≡ true
same_id_clash e row h = ground (arith, h)

same_version_clash :
    (e : SnapshotEvent) (row : ObservedEvent) (a b c : String)
    → (row.source_id == a && row.external_id == b && row.version_key == c) ≡ true
    → (e.source_id == a && e.external_id == b && e.version_key == c) ≡ true
    → clashes e row ≡ true
same_version_clash e row a b c h g = ground (
  arith,
  eq_join row.source_id e.source_id a,
  eq_join row.external_id e.external_id b,
  eq_join row.version_key e.version_key c,
)

one_more :
    (e : SnapshotEvent) (xs : List ObservedEvent)
    → AreObservedKeyed xs
    → exists (clashes e) xs ≡ false
    → AreObservedKeyed (to_observed e ∷ xs)
one_more e xs k new = record {
  by_id = λ id.
      apart e xs (λ row. row.event_id == id)
        (λ row h g. same_id_clash e row (eq_join row.event_id e.event_id id h g)) new (k.by_id id);
  by_version = λ a b c.
      apart e xs (λ row. row.source_id == a && row.external_id == b && row.version_key == c)
        (λ row h g. same_version_clash e row a b c h g) new (k.by_version a b c);
}

publish-AreObservedKeyed :
    (es : List SnapshotEvent) (xs : List ObservedEvent)
    → AreObservedKeyed xs
    → AreObservedKeyed (publish es xs).1
unfolding publish
publish-AreObservedKeyed [] xs k = k
publish-AreObservedKeyed (e ∷ es) xs k =
    let before = publish-AreObservedKeyed es xs k in
    elim (Bool-cases (exists (clashes e) (publish es xs).1)) [
      | inl known ↦ subst AreObservedKeyed (ground arith) before
      | inr new ↦ subst AreObservedKeyed (ground arith) (one_more e (publish es xs).1 before new)
    ]

-- An incomplete snapshot publishes nothing and moves no checkpoint, whether the call returns or
-- raises.
pub finish_withholds :
    (snapshot_id : String) (finish : Finish) (now : String) (s : Store)
    → finish.complete ≡ false
    → let s' = (finish_snapshot snapshot_id finish now s).1 in
      (s'.observed ≡ s.observed) × (s'.checkpoints ≡ s.checkpoints)
unfolding finish_snapshot
finish_withholds snapshot_id finish now s e = ground arith

abbrev moved : String → Finish → String → SourceCheckpoint → SourceCheckpoint
moved snapshot_id finish watermark row = record row {
  watermark = watermark;
  query_fingerprint = finish.query_fingerprint;
  etag = finish.etag;
  last_complete_snapshot_id = some snapshot_id;
}

-- What the call has done, on the branch of a complete snapshot that returns.
complete_effect :
    (snapshot_id : String) (finish : Finish) (now : String) (s : Store) (n : ℕ)
    (row : SourceSnapshot) (watermark : String)
    → finish.complete ≡ true
    → finish.next_watermark ≡ some watermark
    → select (by_snapshot snapshot_id) s.snapshots ≡ some row
    → (finish_snapshot snapshot_id finish now s).0 ≡ ok n
    → let s' = (finish_snapshot snapshot_id finish now s).1 in
      (n ≡ (publish (collected snapshot_id s) s.observed).0)
      × (s'.observed ≡ (publish (collected snapshot_id s) s.observed).1)
      × (s'.checkpoints
          ≡ update (at_source row.source_id) (moved snapshot_id finish watermark) s.checkpoints)
      × (count (at_source row.source_id) s.checkpoints ≡ 1)
unfolding finish_snapshot
complete_effect snapshot_id finish now s n row watermark e g f h = ground arith

moved_there :
    (snapshot_id source_id watermark : String) (finish : Finish) (xs : List SourceCheckpoint)
    → count (at_source source_id) xs ≡ 1
    → exists
        (λ c. at_source source_id c && c.watermark == watermark)
        (update (at_source source_id) (moved snapshot_id finish watermark) xs)
      ≡ true
unfolding count update select
moved_there snapshot_id source_id watermark finish [] one = absurd (omega (arith, one))
moved_there snapshot_id source_id watermark finish (x ∷ xs) one =
    ground (arith, eq_refl watermark, moved_there snapshot_id source_id watermark finish xs)

-- A complete snapshot whose finishing returns, on a table of events with its keys, has published
-- every event staged under it, has lost no event that was there, has added as many rows as it
-- reports, keeps both keys of the table, and has moved the one checkpoint of its source to the next
-- watermark.
pub finish_publishes :
    (snapshot_id : String) (finish : Finish) (now : String) (s : Store) (n : ℕ)
    (row : SourceSnapshot) (watermark : String) (p : ObservedEvent → Bool)
    → finish.complete ≡ true
    → finish.next_watermark ≡ some watermark
    → select (by_snapshot snapshot_id) s.snapshots ≡ some row
    → (finish_snapshot snapshot_id finish now s).0 ≡ ok n
    → AreObservedKeyed s.observed
    → let s' = (finish_snapshot snapshot_id finish now s).1 in
      All (λ e. exists (clashes e) s'.observed ≡ true) (collected snapshot_id s)
      × (count p s.observed ≤ count p s'.observed)
      × (rows s'.observed ≡ n + rows s.observed)
      × AreObservedKeyed s'.observed
      × (count (at_source row.source_id) s'.checkpoints ≡ 1)
      × (exists (λ c. at_source row.source_id c && c.watermark == watermark) s'.checkpoints ≡ true)
finish_publishes snapshot_id finish now s n row watermark p e g f h k =
    let (counted, seen, moved_on, one) =
      complete_effect snapshot_id finish now s n row watermark e g f h in
    let events = collected snapshot_id s in
    (
      subst (λ xs. All (λ e. exists (clashes e) xs ≡ true) events) (sym seen)
          (publish-All events s.observed),
      subst (λ xs. count p s.observed ≤ count p xs) (sym seen) (publish_keeps p events s.observed),
      ap rows seen ∙ publish_counts events s.observed ∙ ap (λ m. m + rows s.observed) (sym counted),
      subst AreObservedKeyed (sym seen) (publish-AreObservedKeyed events s.observed k),
      ap (count (at_source row.source_id)) moved_on
          ∙ count-update_eq (at_source row.source_id) (at_source row.source_id)
              (moved snapshot_id finish watermark) s.checkpoints (λ x q. refl)
          ∙ one,
      subst (λ xs. exists (λ c. at_source row.source_id c && c.watermark == watermark) xs ≡ true)
          (sym moved_on) (moved_there snapshot_id row.source_id watermark finish s.checkpoints one),
    )
