-- ===== src/Store/Budget/Filled.antt =====
-- The buckets after a reservation keep the invariants: what is held grows with what is reserved.
use scrum_jail_governance_pl.Base.{
  ℕ, ◌+◌, ◌≤◌, String, ◌==◌, true, false, ◌&&◌, ◌≡◌, ◌≢◌, refl, none, some, [], ◌∷◌, arith, eq_join,
  eq_trans, eq_sym, if◌then◌else◌, Option-cases, ◌⊎◌, inl, inr, ℤ, to_ℕ,
}
use scrum_jail_governance_pl.Base.Table.{select}
use scrum_jail_governance_pl.Base.Table.Laws.{map_option, changed, select_sound}
use scrum_jail_governance_pl.Base.Table.Sums.{total}
use scrum_jail_governance_pl.Store.Schema.{Store, WakeSession}
use scrum_jail_governance_pl.Store.Sessions.{by_session_id}
use scrum_jail_governance_pl.Store.Budget.{
  bucket, in_bucket, change_bucket, ensure_bucket, names_both,
}
use scrum_jail_governance_pl.Store.Budget.Buckets.{
  same_key, in_bucket_key, bucket-update, bucket-ensure, bucket-same_key,
}
use scrum_jail_governance_pl.Store.Budget.Held.{
  names, held, reserved_in, used_in, limit_in, Fits, IsCovered, IsWithin,
}
use scrum_jail_governance_pl.Store.Budget.Release.{scope_apart}
use scrum_jail_governance_pl.Store.Budget.Reserve.{
  add_tokens, opened_buckets, reserved, BothHaveRoom,
}

module _ (scope subject epoch scope' subject' epoch' : String) (s : Store) where
  add_moved :
      (tokens : ℕ)
      → bucket scope subject epoch (change_bucket scope' subject' epoch' (add_tokens tokens) s) ≡ (
          if same_key scope subject epoch scope' subject' epoch'
          then map_option
              (changed (in_bucket scope' subject' epoch') (add_tokens tokens))
              (bucket scope subject epoch s)
          else bucket scope subject epoch s)
  add_moved tokens =
      bucket-update scope subject epoch scope' subject' epoch' (in_bucket scope' subject' epoch')
        (add_tokens tokens) s (λ row h. h) (λ row. refl)

  -- Tokens added under a key show under that key, where its bucket is there.
  added :
      (tokens : ℕ)
      → let b = bucket scope subject epoch s in
        let b' =
          bucket scope subject epoch (change_bucket scope' subject' epoch' (add_tokens tokens) s) in
        (limit_in b' ≡ limit_in b)
        × (reserved_in b ≤ reserved_in b')
        × (same_key scope subject epoch scope' subject' epoch' ≡ false → b' ≡ b)
        × (same_key scope subject epoch scope' subject' epoch' ≡ true
            → b ≢ none
            → (reserved_in b' ≡ reserved_in b + tokens) × (used_in b' ≡ used_in b + tokens))
  added tokens = elim (Option-cases (bucket scope subject epoch s)) [
    | inl e ↦ ground (arith, add_moved tokens)
    | inr (b, e) ↦ ground (
      arith,
      add_moved tokens,
      in_bucket_key scope subject epoch scope' subject' epoch' b (select_sound _ s.buckets e),
    )
  ]

  -- A bucket that is opened is empty; the others stay as they are.
  ensured :
      (limit : ℕ)
      → let b = bucket scope subject epoch s in
        let b' = bucket scope subject epoch (ensure_bucket scope' subject' epoch' limit s) in
        (reserved_in b' ≡ reserved_in b)
        × (used_in b' ≡ used_in b)
        × (Fits b → Fits b')
        × (b ≢ none → b' ≡ b)
        × (same_key scope subject epoch scope' subject' epoch' ≡ true → b' ≢ none)
  ensured limit = ground (
    arith,
    bucket-ensure scope subject epoch scope' subject' epoch' limit s,
    bucket-same_key scope subject epoch scope' subject' epoch' s,
    bucket-same_key scope' subject' epoch' scope subject epoch s,
    eq_sym scope scope',
    eq_sym subject subject',
    eq_sym epoch epoch',
  )

module _ (scope subject epoch session_epoch : String) (row : WakeSession)
    (a b : String × String × ℤ) where
  -- A bucket that the session names is one of the two.
  names_key :
      names_both row (a ∷ b ∷ []) ≡ true
      → names scope subject row ≡ true
      → (epoch == session_epoch) ≡ true
      → (same_key scope subject epoch a.0 a.1 session_epoch ≡ true)
        ⊎ (same_key scope subject epoch b.0 b.1 session_epoch ≡ true)
  names_key both named same = ground (
    arith,
    eq_join scope a.0 "org",
    eq_join subject a.1 row.org_id,
    eq_join scope b.0 "org",
    eq_join subject b.1 row.org_id,
    eq_join scope a.0 "role",
    eq_join subject a.1 row.role,
    eq_join scope b.0 "role",
    eq_join subject b.1 row.role,
  )

  -- And only one of them, as the scopes differ.
  one_key :
      names_both row (a ∷ b ∷ []) ≡ true
      → same_key scope subject epoch a.0 a.1 session_epoch ≡ true
      → same_key scope subject epoch b.0 b.1 session_epoch ≡ false
  one_key both key = ground (
    arith,
    eq_trans scope a.0 "org",
    eq_trans scope b.0 "org",
    eq_trans scope a.0 "role",
    eq_trans scope b.0 "role",
    scope_apart scope,
  )

module _ (session_id epoch : String) (n : ℕ) (a b : String × String × ℤ) (fresh : String)
    (s : Store) (row : WakeSession) where
  abbrev mid : Store
  mid = ensure_bucket a.0 a.1 epoch (to_ℕ a.2) s

  abbrev base : Store
  base = opened_buckets session_id epoch n a b fresh s

  abbrev half : Store
  half = change_bucket a.0 a.1 epoch (add_tokens n) base

  reserved-held :
      (scope subject ep : String)
      → select (by_session_id session_id) s.sessions ≡ some row
      → held scope subject ep (reserved session_id epoch n a b fresh s)
        ≡ (if (ep == epoch) && names scope subject row then n else 0) + held scope subject ep s
  unfolding held total
  reserved-held scope subject ep e = ground arith

  pub reserved-IsCovered :
      select (by_session_id session_id) s.sessions ≡ some row
      → names_both row (a ∷ b ∷ []) ≡ true
      → IsCovered s
      → IsCovered (reserved session_id epoch n a b fresh s)
  reserved-IsCovered e both c = record {
    covers = λ scope subject ep. ground (
      arith,
      reserved-held scope subject ep e,
      c.covers scope subject ep,
      names_key scope subject ep epoch row a b both,
      ensured scope subject ep a.0 a.1 epoch s (to_ℕ a.2),
      ensured scope subject ep b.0 b.1 epoch mid (to_ℕ b.2),
      added scope subject ep a.0 a.1 epoch base n,
      added scope subject ep b.0 b.1 epoch half n,
      one_key scope subject ep epoch row a b both,
    );
  }

  pub reserved-IsWithin :
      names_both row (a ∷ b ∷ []) ≡ true
      → BothHaveRoom session_id epoch n a b fresh s
      → IsWithin s
      → IsWithin (reserved session_id epoch n a b fresh s)
  reserved-IsWithin both room w = record {
    within = λ scope subject ep. ground (
      arith,
      w.within scope subject ep,
      ensured scope subject ep a.0 a.1 epoch s (to_ℕ a.2),
      ensured scope subject ep b.0 b.1 epoch mid (to_ℕ b.2),
      bucket-same_key scope subject ep a.0 a.1 epoch mid,
      bucket-same_key scope subject ep b.0 b.1 epoch base,
      added scope subject ep a.0 a.1 epoch base n,
      added scope subject ep b.0 b.1 epoch half n,
      one_key scope subject ep epoch row a b both,
    );
  }
