-- ===== src/Store/Budget/Buckets.antt =====
-- A bucket, looked up by its key, after each write to the table of buckets.
use scrum_jail_governance_pl.Base.{
  ℕ, String, ◌==◌, Bool, true, false, ◌&&◌, not, ◌≡◌, some, arith, eq_iff, if◌then◌else◌,
  Option-cases, inl, inr, ap,
}
use scrum_jail_governance_pl.Base.Table.{select, update, exists}
use scrum_jail_governance_pl.Base.Table.Laws.{map_option, changed, select-update, select_sound}
use scrum_jail_governance_pl.Store.Schema.{Store, BudgetBucket}
use scrum_jail_governance_pl.Store.Budget.{in_bucket, bucket, new_bucket, ensure_bucket}

-- Two keys of `budget_bucket` are one.
abbrev pub same_key : String → String → String → String → String → String → Bool
same_key scope subject epoch scope' subject' epoch' =
    scope == scope' && subject == subject' && epoch == epoch'

module _ (scope subject epoch scope' subject' epoch' : String) where
  -- A row that has the first key has the second exactly if the keys are one.
  pub in_bucket_key :
      (row : BudgetBucket)
      → in_bucket scope subject epoch row ≡ true
      → in_bucket scope' subject' epoch' row ≡ same_key scope subject epoch scope' subject' epoch'
  in_bucket_key row h = ground (
    arith,
    ap (λ k. k == scope') ((eq_iff row.scope scope).0 (ground arith)),
    ap (λ k. k == subject') ((eq_iff row.subject subject).0 (ground arith)),
    ap (λ k. k == epoch') ((eq_iff row.epoch epoch).0 (ground arith)),
  )

  -- An UPDATE under the second key, read under the first.
  pub bucket-update :
      (p : BudgetBucket → Bool) (f : BudgetBucket → BudgetBucket) (s : Store)
      → ((row : BudgetBucket) → in_bucket scope' subject' epoch' row ≡ false → p row ≡ false)
      → ((row : BudgetBucket)
          → (in_bucket scope subject epoch (f row)) ≡ (in_bucket scope subject epoch row))
      → bucket scope subject epoch (record s { buckets = update p f s.buckets }) ≡ (
          if same_key scope subject epoch scope' subject' epoch'
          then map_option (changed p f) (bucket scope subject epoch s)
          else bucket scope subject epoch s)
  bucket-update p f s narrow keeps = elim (Option-cases (bucket scope subject epoch s)) [
    | inl e ↦
        ground (arith, select-update (in_bucket scope subject epoch) p f s.buckets (λ x h. keeps x))
    | inr (row, e) ↦ ground (
      arith,
      select-update (in_bucket scope subject epoch) p f s.buckets (λ x h. keeps x),
      in_bucket_key row (select_sound _ s.buckets e),
      narrow row,
    )
  ]

  -- INSERT OR IGNORE under the second key, read under the first.
  pub bucket-ensure :
      (limit : ℕ) (s : Store)
      → bucket scope subject epoch (ensure_bucket scope' subject' epoch' limit s) ≡ (
          if not (exists (in_bucket scope' subject' epoch') s.buckets)
            && same_key scope' subject' epoch' scope subject epoch
          then some (new_bucket scope' subject' epoch' limit)
          else bucket scope subject epoch s)
  unfolding select
  bucket-ensure limit s = ground arith

  pub bucket-same_key :
      (s : Store)
      → same_key scope subject epoch scope' subject' epoch' ≡ true
      → bucket scope' subject' epoch' s ≡ bucket scope subject epoch s
  bucket-same_key s h = ground (
    arith,
    (eq_iff scope scope').0 (ground arith),
    (eq_iff subject subject').0 (ground arith),
    (eq_iff epoch epoch').0 (ground arith),
  )
