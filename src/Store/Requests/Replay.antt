-- ===== src/Store/Requests/Replay.antt =====
-- A request of one key, reserved, finished, reserved again and looked up: the journal of broker requests
-- of control/sjg_control/store.py.
use scrum_jail_governance_pl.Base.{
  String, true, false, ◌≡◌, none, some, ◌∷◌, arith, is_empty, eq_refl,
}
use scrum_jail_governance_pl.Base.Table.{select, update}
use scrum_jail_governance_pl.Store.Schema.{Store, RequestState}
use scrum_jail_governance_pl.Store.Action.{ok}
use scrum_jail_governance_pl.Store.Requests.{
  answered, by_key, new_request, is_terminal_request, reserve_request, prior_request,
  finish_request,
}

-- What a reservation that is answered `none` has done: the key was free, and a row stands under it.
reserve_inserts :
    (session_id key operation hash arguments now : String) (s : Store)
    → (reserve_request session_id key operation hash arguments now s).0 ≡ ok none
    → (select (by_key key) s.requests ≡ none)
      × ((reserve_request session_id key operation hash arguments now s).1 ≡ record s {
        requests = new_request session_id key operation hash arguments now ∷ s.requests;
      })
unfolding reserve_request
reserve_inserts session_id key operation hash arguments now s e = ground arith

-- A request whose reservation was new, and which was then finished with some response, is answered
-- with that response, and with no change of the database, whether it is reserved again or looked
-- up.
pub reserve-finish-reserve :
    (session_id key operation hash arguments now : String) (s : Store) (state : RequestState)
    (response then_now : String)
    → (reserve_request session_id key operation hash arguments now s).0 ≡ ok none
    → is_terminal_request state ≡ true
    → is_empty response ≡ false
    → let s1 = (reserve_request session_id key operation hash arguments now s).1 in
      let s2 = (finish_request key state response then_now s1).1 in
      (reserve_request session_id key operation hash arguments then_now s2
        ≡ (ok (some (answered response)), s2))
      × (prior_request session_id key operation hash s2 ≡ (ok (some (answered response)), s2))
unfolding reserve_request finish_request prior_request select update
reserve-finish-reserve session_id key operation hash arguments now s state response then_now new
      done text =
    ground (
      arith,
      reserve_inserts session_id key operation hash arguments now s new,
      eq_refl key,
      eq_refl session_id,
      eq_refl operation,
      eq_refl hash,
      eq_refl arguments,
    )
