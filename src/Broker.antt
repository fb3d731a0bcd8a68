-- ===== src/Broker.antt =====
-- control/sjg_control/broker.py: `Broker.handle`, which checks a request, journals it, has the backend
-- execute it and answers. The backend is a parameter of each call; the texts of `json.dumps` and the
-- digest are the request's.
pub mod Kept
pub mod Once
pub mod Sanctioned
use scrum_jail_governance_pl.Base.{
  ℕ, ◌+◌, String, ◌==◌, Bool, true, false, not, ◌&&◌, ◌||◌, Option, none, some, List, [], ◌∷◌,
  if◌then◌else◌, mem, ltb, leb, eqb,
}
use Prim.Native.Char.{code}
use scrum_jail_governance_pl.Session.{Session}
use scrum_jail_governance_pl.Authz.{validate_request, read_operations}
use scrum_jail_governance_pl.Authz.Denials.{
  Denial, Verdict, allowed, type_error, denied, unknown_role,
}
use scrum_jail_governance_pl.Policy.{OrganizationPolicy}
use scrum_jail_governance_pl.Authz.Patterns.{Platform}
use scrum_jail_governance_pl.Authz.Facts.{Facts, bare_facts}
use scrum_jail_governance_pl.Authz.Authorize.{authorize}
use scrum_jail_governance_pl.Json.{Arguments}
use scrum_jail_governance_pl.Store.Schema.{Store, RequestState}
use scrum_jail_governance_pl.Store.Action.{Error, state_error, Result, Done, ok, err}
use scrum_jail_governance_pl.Store.Sessions.{session}
use scrum_jail_governance_pl.Store.Requests.{
  Prior, prior_request, reserve_request, mark_request_applying, abandon_read_request,
  finish_request, audit,
}

-- What a call of the backend comes to: a value, or one of the exceptions that `handle` tells apart.
pub data Outcome (A : Type 0) : Type 0 where
  returned : A → Outcome A
  refused conflicted timed_out failed : String → Outcome A

-- Protocol Backend
pub record Backend : Type 0 where
  pub facts : String → Arguments → Outcome Facts
  pub execute : String → Arguments → Session → String → Outcome String

-- The exception that a reply reports.
pub data Cause : Type 0 where
  by_scope : Denial → Cause
  by_text : String → Cause
  by_role : String → Cause
  by_store : Error → Cause
  by_type : Cause

-- The response, by its status; `earlier` is the response or the progress of an earlier request.
pub data Reply : Type 0 where
  invalid not_an_object : Reply
  success : String → Reply
  refusal conflict retryable indeterminate : Cause → Reply
  earlier : Prior → Reply

-- A request as it is read, with its arguments' digest and canonical text, and the clock's text.
pub record Request : Type 0 where
  pub schema : String
  pub operation : String
  pub key : String
  pub arguments : Option Arguments
  pub digest : String
  pub canonical : String
  pub now : String

-- The database, and every execution that the backend was asked for, newest first.
pub record World : Type 0 where
  pub store : Store
  pub executed : List (String × String)

abbrev pub is_alphanumeric : ℕ → Bool
is_alphanumeric c = (leb 48 c && leb c 57) || (leb 65 c && leb c 90) || (leb 97 c && leb c 122)

-- [A-Za-z0-9._:-]
abbrev pub is_key_char : ℕ → Bool
is_key_char c = is_alphanumeric c || eqb c 46 || eqb c 95 || eqb c 58 || eqb c 45

-- Of these characters only, and how many.
unfoldable pub key_tail : String → Bool × ℕ
key_tail String.[] = (true, 0)
key_tail (String.◌∷◌ c s) = let (fine, n) = key_tail s in (is_key_char (code c) && fine, n + 1)

-- REQUEST_ID.fullmatch(key)
unfoldable pub is_request_id : String → Bool
unfolding key_tail
is_request_id String.[] = false
is_request_id (String.◌∷◌ c s) =
    let (fine, n) = key_tail s in is_alphanumeric (code c) && fine && leb 15 n && leb n 127

-- Facts() for what reads or writes no work item.
abbrev needs_no_facts : String → Bool
needs_no_facts operation =
    mem operation read_operations || operation == "repo.submit" || operation == "worker.run"

abbrev pub look_up : Backend → Request → Arguments → Outcome Facts
look_up backend request arguments =
    if needs_no_facts request.operation
    then returned (bare_facts true)
    else backend.facts request.operation arguments

-- The texts of `json.dumps(response)`, and of the audit's detail.
module _ (response_text detail_text : Reply → String) where
  abbrev on_store : (Store → Store) → World → World
  on_store f w = record w { store = f w.store }

  abbrev pub journal_reply : Request → RequestState → Reply → World → World
  journal_reply request state reply =
      on_store (λ s. (finish_request request.key state (response_text reply) request.now s).1)

  abbrev pub write_audit : Option Session → Request → String → Reply → World → World
  write_audit who request decision reply = on_store (λ s.
      let out =
        audit who request.operation decision (detail_text reply) (some request.digest) request.now
          s in
      out.1)

  abbrev abandon : Request → World → World
  abandon request = on_store (λ s. (abandon_read_request request.key s).1)

  -- except AuthorizationError, before the request is applied
  abbrev refuse : Option Session → Request → Cause → World → Reply × World
  refuse who request cause w = (refusal cause, write_audit who request "denied" (refusal cause) w)

  -- except Exception, before the request is applied
  abbrev pub give_up : Request → Cause → World → Reply × World
  give_up request cause w = (retryable cause, abandon request w)

  -- An exception of the store: StateError, or another.
  abbrev pub store_raised : Request → Error → World → Reply × World
  store_raised request (state_error text) w = (conflict (by_store (state_error text)), w)
  store_raised request error w = give_up request (by_store error) w

  -- What follows the backend's execution.
  unfoldable pub conclude : Session → Request → Outcome String → World → Reply × World
  conclude who request (returned result) w = (
    success result,
    write_audit (some who) request "allowed" (success result)
        (journal_reply request RequestState.succeeded (success result) w),
  )
  conclude who request (refused text) w =
      let reply = refusal (by_text text) in
      (
        reply,
        write_audit (some who) request "denied" reply
            (journal_reply request RequestState.failed reply w),
      )
  conclude who request (conflicted text) w = (conflict (by_text text), w)
  conclude who request (timed_out text) w =
      let reply = indeterminate (by_text text) in
      (reply, journal_reply request RequestState.verify_pending reply w)
  conclude who request (failed text) w =
      if mem request.operation read_operations then give_up request (by_text text) w else (
        indeterminate (by_text text),
        journal_reply request RequestState.verify_pending (indeterminate (by_text text)) w,
      )

  module _ (platform : Platform) (policy : OrganizationPolicy) (backend : Backend) where
    -- After `mark_request_applying`, which has left the database `w.store`: the execution.
    unfoldable pub on_marked : Session → Request → Arguments → World → Result Done → Reply × World
    on_marked who request arguments w (err error) = store_raised request error w
    on_marked who request arguments w (ok done) =
        conclude who request (backend.execute request.operation arguments who request.key)
          (record w { executed = (request.key, request.operation) ∷ w.executed })

    -- After `reserve_request`.
    unfoldable pub on_reserved :
        Session → Request → Arguments → World → Result (Option Prior) → Reply × World
    on_reserved who request arguments w (err error) = store_raised request error w
    on_reserved who request arguments w (ok (some prior)) = (earlier prior, w)
    on_reserved who request arguments w (ok none) =
        let (marked, s) = mark_request_applying request.key request.now w.store in
        on_marked who request arguments (record w { store = s }) marked

    -- After `authorize`.
    unfoldable pub on_authorized :
        String → Session → Request → Arguments → World → Verdict → Reply × World
    on_authorized session_id who request arguments w (denied denial) =
        refuse (some who) request (by_scope denial) w
    on_authorized session_id who request arguments w (unknown_role role) =
        give_up request (by_role role) w
    on_authorized session_id who request arguments w type_error = give_up request by_type w
    on_authorized session_id who request arguments w allowed =
        let (answer, s) =
          reserve_request session_id request.key request.operation request.digest request.canonical
            request.now w.store in
        on_reserved who request arguments (record w { store = s }) answer

    -- After the facts.
    unfoldable pub on_facts :
        String → Session → Request → Arguments → World → Outcome Facts → Reply × World
    on_facts session_id who request arguments w (refused text) =
        refuse (some who) request (by_text text) w
    on_facts session_id who request arguments w (conflicted text) = (conflict (by_text text), w)
    on_facts session_id who request arguments w (timed_out text) = (retryable (by_text text), w)
    on_facts session_id who request arguments w (failed text) = give_up request (by_text text) w
    on_facts session_id who request arguments w (returned facts) =
        on_authorized session_id who request arguments w
          (authorize platform policy who request.operation arguments (some facts))

    -- After `prior_request`.
    unfoldable pub on_prior :
        String → Session → Request → Arguments → World → Result (Option Prior) → Reply × World
    on_prior session_id who request arguments w (err error) = store_raised request error w
    on_prior session_id who request arguments w (ok (some prior)) = (earlier prior, w)
    on_prior session_id who request arguments w (ok none) =
        on_facts session_id who request arguments w (look_up backend request arguments)

    -- After `validate_request`.
    unfoldable pub on_verdict :
        String → Session → Request → Arguments → World → Verdict → Reply × World
    on_verdict session_id who request arguments w (denied denial) =
        refuse (some who) request (by_scope denial) w
    on_verdict session_id who request arguments w (unknown_role role) =
        give_up request (by_role role) w
    on_verdict session_id who request arguments w type_error = give_up request by_type w
    on_verdict session_id who request arguments w allowed =
        on_prior session_id who request arguments w
          (prior_request session_id request.key request.operation request.digest w.store).0

    -- After `session`.
    unfoldable pub on_session :
        String → Request → Arguments → World → Result Session → Reply × World
    on_session session_id request arguments w (err error) = store_raised request error w
    on_session session_id request arguments w (ok who) =
        on_verdict session_id who request arguments w
          (validate_request policy who request.operation (some arguments))

    -- On the arguments.
    unfoldable pub on_arguments : String → Request → World → Option Arguments → Reply × World
    on_arguments session_id request w none = (not_an_object, w)
    on_arguments session_id request w (some arguments) =
        on_session session_id request arguments w (session session_id request.now w.store).0

    unfoldable pub handle : String → Request → World → Reply × World
    unfolding on_arguments
    handle session_id request w =
        if not (request.schema == "sjg.request/v1") || not (is_request_id request.key)
        then (invalid, w)
        else on_arguments session_id request w request.arguments
