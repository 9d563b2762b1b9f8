-- ===== src/Router/Sessions/Directory.antt =====
-- What router/src/sessions.cpp promises, apart from how it stores it: a directory that says which
-- node each connection belongs to, and which connection leads to each node.
use isc_challenge_without_bo.Prelude.{
  List, [], ◌∷◌, Option, none, some, ℤ, ◌==ℤ◌, if◌then◌else◌, lt_pos,
}
use isc_challenge_without_bo.Router.Session.{no_id}
use isc_challenge_without_bo.Router.Sessions.{max_clients_count}
use isc_challenge_without_bo.Router.Sessions.Reachable.{Call, accepts, adds, removes}

-- `node_of` is -1 for a connection whose node is not yet known; `connection_of` leaves -1 out.
pub record Directory : Type 0 where
  pub node_of : ℤ → Option ℤ
  pub connection_of : ℤ → Option ℤ

abbrev pub nobody : Directory
nobody = record { node_of = λ k. none; connection_of = λ i. none }

-- A function, changed at one number.
abbrev pub update : ℤ → Option ℤ → (ℤ → Option ℤ) → ℤ → Option ℤ
update k v f j = if k ==ℤ j then v else f j

-- The same for ids: -1 is none.
abbrev pub redirect : ℤ → Option ℤ → (ℤ → Option ℤ) → ℤ → Option ℤ
redirect id v f = if id ==ℤ no_id then f else update id v f

abbrev pub named : ℤ → ℤ → Directory → Option ℤ → Directory
named k id a none = a
named k id a (some _) =
    if lt_pos id max_clients_count
    then record {
      node_of = update k (some id) a.node_of;
      connection_of = redirect id (some k) a.connection_of;
    }
    else a

abbrev pub dropped : ℤ → Directory → Option ℤ → Directory
dropped k a none = a
dropped k a (some id) = record {
  node_of = update k none a.node_of;
  connection_of = redirect id none a.connection_of;
}

abbrev pub describe : Call → Directory → Directory
describe (accepts k) a = record a { node_of = update k (some no_id) a.node_of }
describe (adds k id) a = named k id a (a.node_of k)
describe (removes k) a = dropped k a (a.node_of k)

-- The directory after calls, the last of them first.
abbrev pub replay : List Call → Directory
replay [] = nobody
replay (c ∷ before) = describe c (replay before)
