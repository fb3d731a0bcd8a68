-- ===== src/Broker/Once.antt =====
-- The steps of `handle` of control/sjg_control/broker.py, and sequences of requests, each with the
-- backend's answers to it.
use scrum_jail_governance_pl.Base.{
  ◌≤◌, String, ◌==◌, Bool, true, false, not, ◌||◌, Option, none, some, List, [], ◌∷◌, if◌then◌else◌,
  bit, ◌≡◌, refl, arith, sym, subst,
}
use scrum_jail_governance_pl.Base.Table.{count}
use scrum_jail_governance_pl.Session.{Session}
use scrum_jail_governance_pl.Authz.Denials.{Verdict, allowed, type_error, denied, unknown_role}
use scrum_jail_governance_pl.Policy.{OrganizationPolicy}
use scrum_jail_governance_pl.Authz.Patterns.{Platform}
use scrum_jail_governance_pl.Authz.Facts.{Facts}
use scrum_jail_governance_pl.Json.{Arguments}
use scrum_jail_governance_pl.Store.Schema.{Store}
use scrum_jail_governance_pl.Store.Action.{Result, Done, ok, err}
use scrum_jail_governance_pl.Store.Requests.{Prior, reserve_request}
use scrum_jail_governance_pl.Broker.{
  Outcome, returned, refused, conflicted, timed_out, failed, Backend, Reply, Request, World,
  is_request_id, invalid, on_marked, on_reserved, on_authorized, on_facts, on_prior, on_verdict,
  on_session, on_arguments, handle,
}
use scrum_jail_governance_pl.Broker.Kept.{
  executions, kept, audit-Grows, abandon-Grows, IsOnce, carried, reserve_old, IsReady,
  executed-IsOnce, reserved-IsReady, marked-IsReady, raised-IsOnce, conclude-IsOnce,
}

nothing_yet : (s : Store) → IsOnce (record { store = s; executed = [] })
unfolding count
nothing_yet s = record { once = λ key. omega arith }

unchanged :
    (w : World) (session_id : String) (request : Request) (answer : Result (Option Prior))
    → let out =
        reserve_request session_id request.key request.operation request.digest request.canonical
          request.now w.store in
      out.0 ≡ answer → (answer ≡ ok none → ⊥) → IsOnce w → IsOnce (record w { store = out.1 })
unchanged w session_id request answer e other o =
    subst (λ s. IsOnce (record w { store = s }))
      (sym (
        reserve_old session_id request.key request.operation request.digest request.canonical
          request.now w.store answer e other))
      o

module _ (response_text detail_text : Reply → String) (platform : Platform)
    (policy : OrganizationPolicy) (backend : Backend) where
  marked-IsOnce :
      (who : Session) (request : Request) (arguments : Arguments) (w : World) (marked : Result Done)
      → IsReady request.key request.operation w
      → IsOnce
          (on_marked response_text detail_text platform policy backend who request arguments w
            marked).1
  unfolding on_marked
  marked-IsOnce who request arguments w (err error) r =
      raised-IsOnce response_text detail_text request error w r.once
  marked-IsOnce who request arguments w (ok done) r =
      conclude-IsOnce response_text detail_text who request _ _
        (executed-IsOnce request.key request.operation w r)

  reserved-IsOnce :
      (session_id : String) (who : Session) (request : Request) (arguments : Arguments) (w : World)
      (answer : Result (Option Prior))
      → let out =
          reserve_request session_id request.key request.operation request.digest request.canonical
            request.now w.store in
        out.0 ≡ answer
        → IsOnce w
        → IsOnce
            (on_reserved response_text detail_text platform policy backend who request arguments
              (record w { store = out.1 })
              answer).1
  unfolding on_reserved
  reserved-IsOnce session_id who request arguments w (err error) e o =
      raised-IsOnce response_text detail_text request error _
        (unchanged w session_id request (err error) e (λ p. cc) o)
  reserved-IsOnce session_id who request arguments w (ok (some prior)) e o =
      unchanged w session_id request (ok (some prior)) e (λ p. cc) o
  reserved-IsOnce session_id who request arguments w (ok none) e o =
      marked-IsOnce who request arguments _ _ (
        marked-IsReady request.key request.operation request.now _ (
          reserved-IsReady session_id request.key request.operation request.digest request.canonical
            request.now w e o))

  authorized-IsOnce :
      (session_id : String) (who : Session) (request : Request) (arguments : Arguments) (w : World)
      (verdict : Verdict)
      → IsOnce w
      → IsOnce
          (on_authorized response_text detail_text platform policy backend session_id who request
            arguments w verdict).1
  unfolding on_authorized
  authorized-IsOnce session_id who request arguments w (denied denial) o =
      carried _
        (audit-Grows (some who) request.operation "denied" _ (some request.digest) request.now
          w.store)
        o
  authorized-IsOnce session_id who request arguments w (unknown_role role) o =
      carried _ (abandon-Grows request.key w.store) o
  authorized-IsOnce session_id who request arguments w type_error o =
      carried _ (abandon-Grows request.key w.store) o
  authorized-IsOnce session_id who request arguments w allowed o =
      reserved-IsOnce session_id who request arguments w _ refl o

  facts-IsOnce :
      (session_id : String) (who : Session) (request : Request) (arguments : Arguments) (w : World)
      (facts : Outcome Facts)
      → IsOnce w
      → IsOnce
          (on_facts response_text detail_text platform policy backend session_id who request
            arguments w facts).1
  unfolding on_facts
  facts-IsOnce session_id who request arguments w (refused text) o =
      carried _
        (audit-Grows (some who) request.operation "denied" _ (some request.digest) request.now
          w.store)
        o
  facts-IsOnce session_id who request arguments w (conflicted text) o = o
  facts-IsOnce session_id who request arguments w (timed_out text) o = o
  facts-IsOnce session_id who request arguments w (failed text) o =
      carried _ (abandon-Grows request.key w.store) o
  facts-IsOnce session_id who request arguments w (returned facts) o =
      authorized-IsOnce session_id who request arguments w _ o

  prior-IsOnce :
      (session_id : String) (who : Session) (request : Request) (arguments : Arguments) (w : World)
      (answer : Result (Option Prior))
      → IsOnce w
      → IsOnce
          (on_prior response_text detail_text platform policy backend session_id who request
            arguments w answer).1
  unfolding on_prior
  prior-IsOnce session_id who request arguments w (err error) o =
      raised-IsOnce response_text detail_text request error w o
  prior-IsOnce session_id who request arguments w (ok (some prior)) o = o
  prior-IsOnce session_id who request arguments w (ok none) o =
      facts-IsOnce session_id who request arguments w _ o

  verdict-IsOnce :
      (session_id : String) (who : Session) (request : Request) (arguments : Arguments) (w : World)
      (verdict : Verdict)
      → IsOnce w
      → IsOnce
          (on_verdict response_text detail_text platform policy backend session_id who request
            arguments w verdict).1
  unfolding on_verdict
  verdict-IsOnce session_id who request arguments w (denied denial) o =
      carried _
        (audit-Grows (some who) request.operation "denied" _ (some request.digest) request.now
          w.store)
        o
  verdict-IsOnce session_id who request arguments w (unknown_role role) o =
      carried _ (abandon-Grows request.key w.store) o
  verdict-IsOnce session_id who request arguments w type_error o =
      carried _ (abandon-Grows request.key w.store) o
  verdict-IsOnce session_id who request arguments w allowed o =
      prior-IsOnce session_id who request arguments w _ o

  session-IsOnce :
      (session_id : String) (request : Request) (arguments : Arguments) (w : World)
      (found : Result Session)
      → IsOnce w
      → IsOnce
          (on_session response_text detail_text platform policy backend session_id request arguments
            w found).1
  unfolding on_session
  session-IsOnce session_id request arguments w (err error) o =
      raised-IsOnce response_text detail_text request error w o
  session-IsOnce session_id request arguments w (ok who) o =
      verdict-IsOnce session_id who request arguments w _ o

  arguments-IsOnce :
      (session_id : String) (request : Request) (w : World) (arguments : Option Arguments)
      → IsOnce w
      → IsOnce
          (on_arguments response_text detail_text platform policy backend session_id request w
            arguments).1
  unfolding on_arguments
  arguments-IsOnce session_id request w none o = o
  arguments-IsOnce session_id request w (some arguments) o =
      session-IsOnce session_id request arguments w _ o

  pub handle-IsOnce :
      (session_id : String) (request : Request) (w : World)
      → IsOnce w
      → IsOnce (handle response_text detail_text platform policy backend session_id request w).1
  unfolding handle
  handle-IsOnce session_id request w o =
      go (not (request.schema == "sjg.request/v1") || not (is_request_id request.key))
    where
      go :
          (b : Bool)
          → IsOnce
              (if b
                then (invalid, w)
                else on_arguments response_text detail_text platform policy backend session_id
                    request w request.arguments).1
      go true = o
      go false = arguments-IsOnce session_id request w request.arguments o

module _ (response_text detail_text : Reply → String) (platform : Platform)
    (policy : OrganizationPolicy) where
  -- Requests in sequence, each with the backend's answers to it.
  unfoldable pub handle_all : List (String × Request × Backend) → World → World
  handle_all [] w = w
  handle_all ((session_id, request, answers) ∷ rest) w =
      handle_all rest
        (handle response_text detail_text platform policy answers session_id request w).1

  all-IsOnce :
      (calls : List (String × Request × Backend)) (w : World)
      → IsOnce w
      → IsOnce (handle_all calls w)
  unfolding handle_all
  all-IsOnce [] w o = o
  all-IsOnce ((session_id, request, answers) ∷ rest) w o =
      all-IsOnce rest _
        (handle-IsOnce response_text detail_text platform policy answers session_id request w o)

  -- Whatever requests are handled in whatever sequence, on whatever database, and whatever the
  -- backend answers to each, at most one execution of a write is asked for under any idempotency
  -- key.
  pub handled_once :
      (calls : List (String × Request × Backend)) (s : Store) (key : String)
      → executions key (handle_all calls (record { store = s; executed = [] })) ≤ 1
  handled_once calls s key = capped (kept key out.store) (all.once key)
    where
      out : World
      out = handle_all calls (record { store = s; executed = [] })

      all : IsOnce out
      all = all-IsOnce calls _ (nothing_yet s)

      capped : (b : Bool) → executions key out ≤ bit b → executions key out ≤ 1
      capped true h = h
      capped false h = omega (arith, h)
