-- ===== src/Examples/Tables.antt =====
-- The theorems on the session tables, applied.
use mathlib.Core.Option.{map}
use isc_challenge_without_bo.Prelude.{◌≡◌, ◌≢◌, refl, false, some, none, pos, ◌==ℤ◌}
use isc_challenge_without_bo.IntMap.{lookup}
use isc_challenge_without_bo.Router.Session.{no_id, get_id, get_socket}
use isc_challenge_without_bo.Router.Sessions.{
  Sessions, accept_client, add_node, remove_session, find_session_by_socket, find_session_by_id,
}
use isc_challenge_without_bo.Router.Sessions.Invariant.{Inv}
use isc_challenge_without_bo.Router.Sessions.Reachable.{
  Returns, Reachable-Inv, perform-Returns, perform, accepts, removes,
}
use isc_challenge_without_bo.Router.Sessions.Refinement.{
  Describes, directory, perform-Describes, lookups-replay,
}
use isc_challenge_without_bo.Router.Sessions.Effects.{
  find_session_by_id-live, accept_client-deadlock,
}
use isc_challenge_without_bo.Router.Sessions.Defects.{
  remove_session-shared_id, remove_session-minus_one,
}
use isc_challenge_without_bo.Examples.{
  after_accept, after_accept-Reachable, one_node, one_node-Reachable, two_nodes,
  two_nodes-Reachable, shared_id, shared_id-Reachable,
}

five_is_an_id : pos 5 ≢ no_id
five_is_an_id h = cc (h)

six_is_an_id : pos 6 ≢ no_id
six_is_an_id h = cc (h)

ten_is_not_eleven : pos 10 ≢ pos 11
ten_is_not_eleven h = cc (h)

one_node-Inv : Inv one_node
one_node-Inv = (Reachable-Inv one_node-Reachable).0

two_nodes-Inv : Inv two_nodes
two_nodes-Inv = (Reachable-Inv two_nodes-Reachable).0

two_nodes-Free : two_nodes.locked ≡ false
two_nodes-Free = (Reachable-Inv two_nodes-Reachable).1

perform-Returns_example : Returns (perform (accepts (pos 11)) one_node)
unfolding lookup ◌==ℤ◌
perform-Returns_example = perform-Returns one_node-Inv refl (accepts (pos 11)) refl

-- The node on socket 11 goes.
perform-Describes_example : Describes (removes (pos 11)) two_nodes
perform-Describes_example = perform-Describes two_nodes-Inv two_nodes-Free (removes (pos 11)) tt

lookups-replay_example :
    (map (map (get_id two_nodes.store)) (find_session_by_socket (pos 11) two_nodes)
      ≡ some ((directory two_nodes-Reachable).node_of (pos 11)))
    × (map (map (get_socket two_nodes.store)) (find_session_by_id (pos 6) two_nodes)
        ≡ some ((directory two_nodes-Reachable).connection_of (pos 6)))
lookups-replay_example = lookups-replay two_nodes-Reachable (pos 11) (pos 6) six_is_an_id

find_session_by_id-live_example :
    (get_id two_nodes.store 0 ≡ pos 5)
    × (find_session_by_socket (get_socket two_nodes.store 0) two_nodes ≡ some (some 0))
unfolding find_session_by_id lookup ◌==ℤ◌
find_session_by_id-live_example =
    find_session_by_id-live two_nodes-Reachable (pos 5) 0 five_is_an_id refl

accept_client-deadlock_example : accept_client (pos 10) one_node ≡ none
unfolding find_session_by_socket lookup ◌==ℤ◌
accept_client-deadlock_example = accept_client-deadlock one_node-Reachable (pos 10) 0 refl

remove_session-shared_id_example :
    (t : Sessions) × (remove_session (pos 10) shared_id ≡ some t)
    × (find_session_by_socket (pos 11) t ≡ some (some 1))
    × (get_id t.store 1 ≡ pos 5)
    × (find_session_by_id (pos 5) t ≡ some none)
unfolding find_session_by_socket lookup ◌==ℤ◌ get_id
remove_session-shared_id_example =
    remove_session-shared_id shared_id-Reachable (pos 10) (pos 11) (pos 5) 0 1 ten_is_not_eleven
      five_is_an_id refl refl refl refl

remove_session-minus_one_example :
    (t u : Sessions) × (add_node (pos 10) no_id after_accept ≡ some t)
    × (remove_session (pos 10) t ≡ some u)
    × (find_session_by_id no_id u ≡ some (some 0))
    × (find_session_by_socket (pos 10) u ≡ some none)
unfolding find_session_by_socket lookup ◌==ℤ◌ get_id
remove_session-minus_one_example =
    remove_session-minus_one after_accept-Reachable (pos 10) 0 refl refl
