-- ===== src/Router/Workers/Handshakes.antt =====
-- What `handle_handshake` does.
use isc_challenge_without_bo.Prelude.{
  ◌<◌, ◌≡◌, refl, ◌⊎◌, inl, inr, [], ◌∷◌, ◌++◌, some, ok, ℤ, pos, length, arith,
}
use isc_challenge_without_bo.Text.{Bytes}
use isc_challenge_without_bo.Winsock.{Os, Delivers}
use isc_challenge_without_bo.Router.Message.{extract_src_id}
use isc_challenge_without_bo.Router.Sessions.{Sessions, add_node}
use isc_challenge_without_bo.Router.Sessions.Reachable.{
  Reachable, Reachable-Inv, adds, Allowed, perform, perform-Returns, Returns, call,
}
use isc_challenge_without_bo.Router.State.{State}
use isc_challenge_without_bo.Router.Workers.{handle_handshake, register}
use isc_challenge_without_bo.Router.Workers.Taking.{Takes, Dropped, Ends, reading-Ends}
use isc_challenge_without_bo.Router.Workers.Buffer.{extract_src_id-rest, extract_src_id-ok}

module _ {os : Os} (d : Delivers os) (socket : ℤ) (buffer : Bytes) (st : State os.World) where
  open d use {incoming}

  -- Three bytes are an id message: the session of the socket is given the id.
  pub record Greeted (bytes : Bytes) (result : ℤ) (st' : State os.World) : Type 0 where
    pub whole : length bytes ≡ 3
    pub counted : result ≡ pos 3
    pub id : ℤ
    pub named : extract_src_id (bytes ++ 0 ∷ []) (pos 3) ≡ ok id
    pub added : add_node socket id st.sessions ≡ some st'.sessions
    pub queued : st'.ready_write_sockets_queue_ ≡ st.ready_write_sockets_queue_

  -- Fewer bytes, or an error.
  pub record Ungreeted (bytes : Bytes) (result : ℤ) (st' : State os.World) : Type 0 where
    pub tables : st'.sessions ≡ st.sessions
    pub dropped : Dropped d socket buffer st 3 bytes result st'

  pub record Shaken (out : ℤ × Bytes) (st' : State os.World) : Type 0 where
    pub bytes : Bytes
    pub takes : Takes d socket buffer st bytes out st'
    pub reached : Reachable st'.sessions
    pub effect : Greeted bytes out.0 st' ⊎ Ungreeted bytes out.0 st'

  module _ (reached : Reachable st.sessions)
      (allowed : (id : ℤ) → Allowed st.sessions (adds socket id)) where
    add_node-Returns : (id : ℤ) → Returns (add_node socket id st.sessions)
    unfolding perform
    add_node-Returns id =
        let (inv, free) = Reachable-Inv reached in
        perform-Returns inv free (adds socket id) (allowed id)

    add_node-Reachable :
        (id : ℤ) {t : Sessions} → add_node socket id st.sessions ≡ some t → Reachable t
    unfolding perform
    add_node-Reachable id e = call (adds socket id) reached (allowed id) e

    whole-Shaken :
        (bytes rest : Bytes) (w' : os.World)
        → incoming st.world socket ≡ bytes ++ incoming w' socket
        → length bytes ≡ 3
        → length (bytes ++ 0 ∷ rest) ≡ length buffer
        → Ends d socket buffer st Shaken
            (register os socket (pos 3) (bytes ++ 0 ∷ rest) (record st { world = w' }))
    whole-Shaken bytes rest w' stream whole sized =
        let (id, named) = extract_src_id-ok bytes whole in
        let v = add_node-Returns id in
        rw (extract_src_id-rest bytes rest (pos 3), named, v.returned)
          (
            (pos 3, bytes ++ 0 ∷ rest),
            record st { world = w'; sessions = v.after },
            refl,
            record {
              bytes = bytes;
              takes = record {
                stream = stream;
                sized = sized;
                progress = λ p. omega arith;
                reads = refl;
              };
              reached = add_node-Reachable id v.returned;
              effect = inl (record {
                whole = whole;
                counted = refl;
                id = id;
                named = named;
                added = v.returned;
                queued = refl;
              });
            },
          )

    -- With `recv` and `send` as documented, on a state that the router can reach, for a session
    -- with no id and a buffer of more than 3 bytes, `handle_handshake` returns. It takes the next
    -- bytes of the connection and, if these are 3, calls `add_node` with the id that they spell;
    -- else no table changes. Nothing is queued.
    pub handle_handshake-Shaken :
        3 < length buffer → Ends d socket buffer st Shaken (handle_handshake os socket buffer st)
    unfolding handle_handshake
    handle_handshake-Shaken room =
        reading-Ends d socket buffer st Shaken 3 (register os socket)
          (λ bytes rest w' stream whole sized. whole-Shaken bytes rest w' stream whole sized)
          (λ bytes out w' takes dropped. record {
            bytes = bytes;
            takes = takes;
            reached = reached;
            effect = inr (record { tables = refl; dropped = dropped });
          })
          room (omega arith)
