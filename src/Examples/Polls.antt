-- ===== src/Examples/Polls.antt =====
-- A poll of control/sjg_control/delivery.py whose source fails after one page, and an event of
-- control/sjg_control/routing.py.
use scrum_jail_governance_pl.Base.{
  ℕ, String, false, Option, none, some, List, [], ◌∷◌, ◌≡◌, refl, mem, text_leb, ends_with,
  strip_prefix,
}
use scrum_jail_governance_pl.Base.Table.{select, count}
use scrum_jail_governance_pl.Json.{nothing, text, get}
use scrum_jail_governance_pl.Store.Schema.{Store, SourceCheckpoint, empty}
use scrum_jail_governance_pl.Store.Action.{ok}
use scrum_jail_governance_pl.Store.Snapshots.{
  at_source, new_checkpoint, checkpoint, begin_snapshot, stage_observation, finish_snapshot,
}
use scrum_jail_governance_pl.Polling.{
  Item, Answer, page, failure, PollResult, poll_source, poll_pages, end_poll, read_pages,
  stage_items, stage_item, event_identity, require,
}
use scrum_jail_governance_pl.Polling.Withheld.{published, poll_withholds}
use scrum_jail_governance_pl.Routing.{RoutedEvent}
use scrum_jail_governance_pl.Routing.Normal.{Payload, event, normalize_event, before_at, basename}
use scrum_jail_governance_pl.Routing.Normal.Shape.{IsNormal, normalize_event-IsNormal}

abbrev uuid : String → String → String → String
uuid source external version = version

abbrev earlier : String → ℕ → Option String
earlier time seconds = some time

abbrev hash : String → String → String
hash source time = time

abbrev mark : SourceCheckpoint
mark = new_checkpoint "org-issues" "2026-01-01T00:00:00Z"

abbrev known : Store
known = record empty { checkpoints = mark ∷ [] }

abbrev issue : Item
issue = record {
  fields = ("number", text "7") ∷ ("updated_at", text "2026-01-02T00:00:00Z") ∷ [];
  payload = "{}";
}

abbrev answers : List Answer
answers = page (issue ∷ []) (some "2") none ∷ failure "TimeoutError" "no answer" ∷ []

abbrev report : PollResult
report = record {
  source_id = "org-issues";
  complete = false;
  page_count = 1;
  inserted = 0;
  watermark = "2026-01-01T00:00:00Z";
  error = some "no answer";
}

found_mark : select (at_source "org-issues") known.checkpoints ≡ some mark
unfolding select
found_mark = refl

failed_poll :
    (poll_source uuid earlier hash "org-issues" "2026-01-03T00:00:00Z" "2026-01-01T00:00:00Z" "p1"
      answers known).0
    ≡ ok (some report)
unfolding poll_source poll_pages end_poll read_pages stage_items stage_item event_identity require
    get ends_with mem text_leb select count checkpoint begin_snapshot stage_observation
    finish_snapshot
failed_poll = refl

poll_withholds_example :
    (published
        (poll_source uuid earlier hash "org-issues" "2026-01-03T00:00:00Z" "2026-01-01T00:00:00Z"
          "p1" answers known).1
      ≡ published known)
    × (report.watermark ≡ mark.watermark)
    × (report.inserted ≡ 0)
poll_withholds_example =
    poll_withholds uuid earlier hash "org-issues" "2026-01-03T00:00:00Z" "2026-01-01T00:00:00Z" "p1"
      answers known mark report found_mark failed_poll refl

abbrev run_payload : Payload
run_payload = record {
  path = text ".github/workflows/test.yml@main";
  workflow_path = nothing;
  conclusion = text "failure";
  state = nothing;
  is_pull_request = false;
  pull_merged = none;
  parent = none;
  raw_labels = none;
}

abbrev run_event : RoutedEvent
run_event = record {
  kind = "run";
  repository = "product";
  labels = [];
  workflow = some "test.yml";
  conclusion = some "failure";
  pr_state = none;
}

normalized : normalize_event "product-workflow-runs" run_payload ≡ event run_event
unfolding normalize_event mem ends_with strip_prefix before_at basename
normalized = refl

normalize_event-IsNormal_example : IsNormal run_event
normalize_event-IsNormal_example =
    normalize_event-IsNormal "product-workflow-runs" run_payload run_event normalized
