-- ===== src/Polling/Withheld.antt =====
-- What a poll of control/sjg_control/delivery.py leaves of the published events.
use scrum_jail_governance_pl.Base.{
  ℕ, String, false, Option, some, List, [], ◌∷◌, ◌≡◌, refl, arith, ◌∙◌, ◌+◌, Option-cases,
  Bool-cases, ◌⊎◌, inl, inr,
}
use scrum_jail_governance_pl.Base.Table.{select, exists}
use scrum_jail_governance_pl.Store.Schema.{Store, SourceCheckpoint, SnapshotEvent, ObservedEvent}
use scrum_jail_governance_pl.Store.Action.{Error, integrity_error, ok, err}
use scrum_jail_governance_pl.Store.Snapshots.{
  checkpoint, begin_snapshot, at_source, by_snapshot, stage_observation,
}
use scrum_jail_governance_pl.Store.Snapshots.Publication.{finish_withholds}
use scrum_jail_governance_pl.Polling.{
  Item, Answer, page, failure, PollResult, Totals, Progress, finished, waiting, broken,
  event_identity, stage_item, stage_items, event_of, newer_etag, incomplete, read_pages,
  start_totals, end_poll, poll_pages, poll_source,
}

-- What a poll publishes: the events, and the checkpoints.
abbrev pub published : Store → List ObservedEvent × List SourceCheckpoint
published s = (s.observed, s.checkpoints)

stage_effect :
    (event : SnapshotEvent) (s : Store) → published (stage_observation event s).1 ≡ published s
unfolding stage_observation
stage_effect event s = ground arith

module _ (event_id : String → String → String → String) (source_id snapshot_id : String) where
  stage_item-observed :
      (item : Item) (maximum : String) (s : Store)
      → published (stage_item event_id source_id snapshot_id item maximum s).1 ≡ published s
  unfolding stage_item
  stage_item-observed item maximum s = elim (Option-cases (event_identity source_id item)) [
    | inl gone ↦ ground (arith, gone)
    | inr (identity, found) ↦
        ground
          (arith, found, stage_effect (event_of event_id source_id snapshot_id item identity) s)
  ]

  stage_items-observed :
      (items : List Item) (maximum : String) (s : Store)
      → published (stage_items event_id source_id snapshot_id items maximum s).1 ≡ published s
  unfolding stage_items
  stage_items-observed [] maximum s = refl
  stage_items-observed (item ∷ items) maximum s =
      let one = stage_item event_id source_id snapshot_id item maximum s in
      ground (arith, stage_item-observed item maximum s, stage_items-observed items one.0.1 one.1)

  read_pages-observed :
      (answers : List Answer) (totals : Totals) (s : Store)
      → published (read_pages event_id source_id snapshot_id answers totals s).1 ≡ published s
  unfolding read_pages
  read_pages-observed [] totals s = refl
  read_pages-observed (failure name message ∷ answers) totals s = refl
  read_pages-observed (page items next etag ∷ answers) totals s =
      let staged = stage_items event_id source_id snapshot_id items totals.maximum s in
      ground (
        arith,
        stage_items-observed items totals.maximum s,
        read_pages-observed answers
            (record {
              pages = totals.pages + 1;
              maximum = staged.0.1;
              etag = newer_etag etag totals.etag;
            })
            staged.1,
      )

module _ (event_id : String → String → String → String) (back : String → ℕ → Option String)
    (fingerprint : String → String → String) (source_id now : String) where
  end_poll-observed :
      (row : SourceCheckpoint) (snapshot_id : String) (progress : Progress) (totals : Totals)
      (s : Store) (r : PollResult)
      → (end_poll event_id back fingerprint source_id now row snapshot_id progress totals s).0
        ≡ ok (some r)
      → r.complete ≡ false
      → (published
            (end_poll event_id back fingerprint source_id now row snapshot_id progress totals s).1
          ≡ published s)
        × (r.watermark ≡ row.watermark)
        × (r.inserted ≡ 0)
  unfolding end_poll
  end_poll-observed row snapshot_id waiting totals s r e c = cc
  end_poll-observed row snapshot_id (broken fault) totals s r e c =
      let same = finish_withholds snapshot_id (incomplete totals fault) now s refl in
      ground (arith, same, e)
  end_poll-observed row snapshot_id finished totals s r e c = ground (arith, e, c)

  checkpoint_known :
      (initial : String) (s : Store) (row : SourceCheckpoint)
      → select (at_source source_id) s.checkpoints ≡ some row
      → checkpoint source_id initial s ≡ (ok row, s)
  unfolding checkpoint
  checkpoint_known initial s row known = ground (arith, known)

  begin_effect :
      (fresh : String) (s : Store)
      → published (begin_snapshot source_id fresh now s).1 ≡ published s
  unfolding begin_snapshot
  begin_effect fresh s = ground arith

  begin_id :
      (fresh : String) (s : Store)
      → ((begin_snapshot source_id fresh now s).0 ≡ ok fresh)
        ⊎ ((e : Error) × ((begin_snapshot source_id fresh now s).0 ≡ err e))
  unfolding begin_snapshot
  begin_id fresh s = elim (Bool-cases (exists (by_snapshot fresh) s.snapshots)) [
    | inl taken ↦ inr (integrity_error, ground (arith, taken))
    | inr free ↦ inl (ground (arith, free))
  ]

  poll_pages-published :
      (row : SourceCheckpoint) (snapshot_id : String) (answers : List Answer) (s : Store)
      (r : PollResult)
      → (poll_pages event_id back fingerprint source_id now row snapshot_id answers s).0
        ≡ ok (some r)
      → r.complete ≡ false
      → (published (poll_pages event_id back fingerprint source_id now row snapshot_id answers s).1
          ≡ published s)
        × (r.watermark ≡ row.watermark)
        × (r.inserted ≡ 0)
  unfolding poll_pages
  poll_pages-published row snapshot_id answers s r e c =
      let read =
        read_pages event_id source_id snapshot_id answers
          (start_totals event_id back fingerprint source_id now row) s in
      let (same, at_mark, no_rows) =
        end_poll-observed row snapshot_id read.0.0 read.0.1 read.1 r e c in
      (
        same
            ∙ read_pages-observed event_id source_id snapshot_id answers
                (start_totals event_id back fingerprint source_id now row) s,
        at_mark,
        no_rows,
      )

  -- A poll of a source with a checkpoint that reports an incomplete result, whatever pages and
  -- exceptions the source has answered, has published no event and moved no checkpoint, and reports
  -- the checkpoint's watermark and no inserted event.
  pub poll_withholds :
      (initial fresh : String) (answers : List Answer) (s : Store) (row : SourceCheckpoint)
      (r : PollResult)
      → select (at_source source_id) s.checkpoints ≡ some row
      → (poll_source event_id back fingerprint source_id now initial fresh answers s).0
        ≡ ok (some r)
      → r.complete ≡ false
      → (published (poll_source event_id back fingerprint source_id now initial fresh answers s).1
          ≡ published s)
        × (r.watermark ≡ row.watermark)
        × (r.inserted ≡ 0)
  unfolding poll_source
  poll_withholds initial fresh answers s row r known e c =
      let begun = (begin_snapshot source_id fresh now s).1 in
      ground (
        arith,
        checkpoint_known initial s row known,
        begin_effect fresh s,
        poll_pages-published row fresh answers begun r,
        begin_id fresh s,
        e,
        c,
      )
