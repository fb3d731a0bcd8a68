-- ===== src/Broker/Kept.antt =====
-- The rows of the request journal under the calls that `handle` of control/sjg_control/broker.py makes,
-- against the executions that it asks the backend for.
use scrum_jail_governance_pl.Base.{
  ℕ, ◌≤◌, String, ◌==◌, Bool, true, false, not, ◌&&◌, Option, none, some, List, [], ◌∷◌,
  if◌then◌else◌, mem, bit, ◌≡◌, refl, arith, Option-cases, Bool-cases, inl, inr, eq_iff, eq_refl,
  sym, ap, subst,
}
use scrum_jail_governance_pl.Base.Table.{select, update, count, filter, delete}
use scrum_jail_governance_pl.Base.Table.Laws.{map_option, changed, select-update}
use scrum_jail_governance_pl.Session.{Session}
use scrum_jail_governance_pl.Authz.{read_operations}
use scrum_jail_governance_pl.Store.Schema.{Store, BrokerRequest, RequestState}
use scrum_jail_governance_pl.Store.Action.{
  Error, state_error, value_error, integrity_error, type_error, Result, ok,
}
use scrum_jail_governance_pl.Store.Requests.{
  Prior, by_key, new_request, forgettable, forgettable_key, reserved_key, reserve_request,
  mark_request_applying, abandon_read_request, finish_request, audit,
}
use scrum_jail_governance_pl.Broker.{
  Outcome, returned, refused, conflicted, timed_out, failed, Reply, Request, World, by_text,
  indeterminate, give_up, store_raised, write_audit, journal_reply, conclude,
}

-- Is this execution one of a write under the key?
abbrev pub writes_under : String → String × String → Bool
writes_under key (k, operation) = k == key && not (mem operation read_operations)

abbrev pub executions : String → World → ℕ
executions key w = count (writes_under key) w.executed

-- Is the journal's row under the key one that no cleanup deletes?
abbrev pub is_kept : Option BrokerRequest → Bool
is_kept none = false
is_kept (some row) = not (mem row.operation forgettable)

abbrev pub kept : String → Store → Bool
kept key s = is_kept (select (by_key key) s.requests)

-- What the journal never loses.
pub record Grows (s s' : Store) : Type 0 where
  pub grows : (key : String) → bit (kept key s) ≤ bit (kept key s')

kept-update :
    (key : String) (q : BrokerRequest → Bool) (f : BrokerRequest → BrokerRequest)
    (xs : List BrokerRequest)
    → ((x : BrokerRequest) → (f x).idempotency_key ≡ x.idempotency_key)
    → ((x : BrokerRequest) → (f x).operation ≡ x.operation)
    → is_kept (select (by_key key) (update q f xs)) ≡ is_kept (select (by_key key) xs)
kept-update key q f xs same same_op = elim (Option-cases (select (by_key key) xs)) [
  | inl gone ↦ ground (arith, gone, moved)
  | inr (row, found) ↦ ground (arith, found, moved, ap (λ o. mem o forgettable) (same_op row))
]
  where
    moved : select (by_key key) (update q f xs) ≡ map_option (changed q f) (select (by_key key) xs)
    moved = select-update (by_key key) q f xs (λ x h. ap (λ k. k == key) (same x))

kept-delete :
    (key k : String) (xs : List BrokerRequest)
    → bit (is_kept (select (by_key key) xs))
      ≤ bit (is_kept (select (by_key key) (delete (forgettable_key k) xs)))
unfolding select filter
kept-delete key k [] = omega arith
kept-delete key k (x ∷ xs) = ground (arith, kept-delete key k xs)

finish-Grows :
    (key : String) (state : RequestState) (response now : String) (s : Store)
    → Grows s (finish_request key state response now s).1
unfolding finish_request
finish-Grows key state response now s = record {
  grows = λ k. ground (
    arith,
    kept-update k (by_key key)
        (λ row. record row { state = state; response_json = some response; updated_at = now })
        s.requests (λ x. refl) (λ x. refl),
  );
}

pub abandon-Grows : (key : String) (s : Store) → Grows s (abandon_read_request key s).1
unfolding abandon_read_request
abandon-Grows key s = record { grows = λ k. ground (arith, kept-delete k key s.requests) }

pub audit-Grows :
    (who : Option Session) (operation decision detail : String) (digest : Option String)
    (now : String) (s : Store)
    → Grows s (audit who operation decision detail digest now s).1
unfolding audit
audit-Grows who operation decision detail digest now s = record { grows = λ k. omega arith }

pub mark-Grows : (key now : String) (s : Store) → Grows s (mark_request_applying key now s).1
unfolding mark_request_applying
mark-Grows key now s = record {
  grows = λ k. ground (
    arith,
    kept-update k (reserved_key key)
        (λ row. record row { state = RequestState.applying; updated_at = now }) s.requests
        (λ x. refl) (λ x. refl),
  );
}

Grows-trans : {s t u : Store} → Grows s t → Grows t u → Grows s u
Grows-trans p q = record { grows = λ key. omega (arith, p.grows key, q.grows key) }

-- No write was executed that the journal has lost, and none twice.
pub record IsOnce (w : World) : Type 0 where
  pub once : (key : String) → executions key w ≤ bit (kept key w.store)

pub carried : {w : World} (s : Store) → Grows w.store s → IsOnce w → IsOnce (record w { store = s })
carried s g o = record { once = λ key. omega (arith, g.grows key, o.once key) }

reserve_new :
    (session_id key operation digest canonical now : String) (s : Store)
    → let out = reserve_request session_id key operation digest canonical now s in
      (out.0 ≡ ok none)
      → (select (by_key key) s.requests ≡ none)
        × (out.1 ≡ record s {
          requests = new_request session_id key operation digest canonical now ∷ s.requests;
        })
unfolding reserve_request
reserve_new session_id key operation digest canonical now s e = ground (arith, e)

pub reserve_old :
    (session_id key operation digest canonical now : String) (s : Store)
    (answer : Result (Option Prior))
    → let out = reserve_request session_id key operation digest canonical now s in
      (out.0 ≡ answer) → (answer ≡ ok none → ⊥) → out.1 ≡ s
unfolding reserve_request
reserve_old session_id key operation digest canonical now s answer e other = ground (arith, e)

-- A journal that has just taken the request, with no execution under its key.
pub record IsReady (key operation : String) (w : World) : Type 0 where
  pub once : IsOnce w
  pub fresh : executions key w ≡ 0
  pub taken : bit (not (mem operation read_operations)) ≤ bit (kept key w.store)

pub executed-IsOnce :
    (key operation : String) (w : World)
    → IsReady key operation w
    → IsOnce (record w { executed = (key, operation) ∷ w.executed })
unfolding count
executed-IsOnce key operation w r = record {
  once = λ k. elim (Bool-cases (key == k)) [
    | inl same ↦
        subst
          (λ j.
            executions j (record w { executed = (key, operation) ∷ w.executed })
            ≤ bit (kept j w.store))
          ((eq_iff key k).0 same) (ground (arith, r.fresh, r.taken))
    | inr other ↦ ground (arith, other, r.once.once k)
  ];
}

pub reserved-IsReady :
    (session_id key operation digest canonical now : String) (w : World)
    → (reserve_request session_id key operation digest canonical now w.store).0 ≡ ok none
    → IsOnce w
    → IsReady key operation (record w {
      store = (reserve_request session_id key operation digest canonical now w.store).1;
    })
unfolding select
reserved-IsReady session_id key operation digest canonical now w e o =
    subst (λ s. IsReady key operation (record w { store = s })) (sym new.1)
      (record {
        once = record { once = λ k. ground (arith, o.once k, empty_key k) };
        fresh = ground (arith, new.0, o.once key);
        taken = ground (arith, eq_refl key);
      })
  where
    new :
        (select (by_key key) w.store.requests ≡ none)
        × ((reserve_request session_id key operation digest canonical now w.store).1
            ≡ record w.store {
              requests =
                  new_request session_id key operation digest canonical now ∷ w.store.requests;
            })
    new = reserve_new session_id key operation digest canonical now w.store e

    empty_key : (k : String) → (key == k) ≡ true → kept k w.store ≡ false
    empty_key k h = subst (λ j. kept j w.store ≡ false) ((eq_iff key k).0 h) (ap is_kept new.0)

pub marked-IsReady :
    (key operation now : String) (w : World)
    → IsReady key operation w
    → IsReady key operation (record w { store = (mark_request_applying key now w.store).1 })
marked-IsReady key operation now w r =
    let g = mark-Grows key now w.store in
    record {
      once = carried (mark_request_applying key now w.store).1 g r.once;
      fresh = r.fresh;
      taken = omega (arith, r.taken, g.grows key);
    }

module _ (response_text detail_text : Reply → String) where
  pub raised-IsOnce :
      (request : Request) (error : Error) (w : World)
      → IsOnce w
      → IsOnce (store_raised response_text detail_text request error w).1
  raised-IsOnce request (state_error text) w o = o
  raised-IsOnce request (value_error text) w o = carried _ (abandon-Grows request.key w.store) o
  raised-IsOnce request integrity_error w o = carried _ (abandon-Grows request.key w.store) o
  raised-IsOnce request type_error w o = carried _ (abandon-Grows request.key w.store) o

  pub answered-IsOnce :
      (who : Option Session) (request : Request) (state : RequestState) (decision : String)
      (reply : Reply) (w : World)
      → IsOnce w
      → IsOnce (
          write_audit response_text detail_text who request decision reply
            (journal_reply response_text detail_text request state reply w))
  answered-IsOnce who request state decision reply w o =
      carried _
        (audit-Grows who request.operation decision (detail_text reply) (some request.digest)
          request.now _)
        (carried _ (finish-Grows request.key state (response_text reply) request.now w.store) o)

  pub conclude-IsOnce :
      (who : Session) (request : Request) (outcome : Outcome String) (w : World)
      → IsOnce w
      → IsOnce (conclude response_text detail_text who request outcome w).1
  unfolding conclude
  conclude-IsOnce who request (returned result) w o =
      answered-IsOnce (some who) request RequestState.succeeded "allowed" _ w o
  conclude-IsOnce who request (refused text) w o =
      answered-IsOnce (some who) request RequestState.failed "denied" _ w o
  conclude-IsOnce who request (conflicted text) w o = o
  conclude-IsOnce who request (timed_out text) w o =
      carried _ (finish-Grows request.key RequestState.verify_pending _ request.now w.store) o
  conclude-IsOnce who request (failed text) w o = go (mem request.operation read_operations)
    where
      go :
          (b : Bool)
          → IsOnce
              (if b then give_up response_text detail_text request (by_text text) w else (
                indeterminate (by_text text),
                journal_reply response_text detail_text request RequestState.verify_pending
                    (indeterminate (by_text text))
                    w,
              )).1
      go true = carried _ (abandon-Grows request.key w.store) o
      go false =
          carried _ (finish-Grows request.key RequestState.verify_pending _ request.now w.store) o
