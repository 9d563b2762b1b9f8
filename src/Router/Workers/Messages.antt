-- ===== src/Router/Workers/Messages.antt =====
-- What `process_message` does.
use isc_challenge_without_bo.Prelude.{
  ℕ, ◌<◌, ◌≡◌, refl, ap, ◌∙◌, ◌⊎◌, inl, inr, false, Option-cases, [], ◌∷◌, ◌++◌, none, some, ok, ℤ,
  pos, length, take-append, arith,
}
use isc_challenge_without_bo.Text.{Bytes}
use isc_challenge_without_bo.IntMap.{lookup}
use isc_challenge_without_bo.Winsock.{Os, Delivers}
use isc_challenge_without_bo.Router.Message.{extract_dst_id}
use isc_challenge_without_bo.Router.SignalingQueue.{push}
use isc_challenge_without_bo.Router.Session.{get_socket}
use isc_challenge_without_bo.Router.Sessions.{find_session_by_id}
use isc_challenge_without_bo.Router.State.{task_eq, State}
use isc_challenge_without_bo.Router.Workers.{process_message, forward, dispatch}
use isc_challenge_without_bo.Router.Workers.Taking.{Takes, Dropped, Ends, reading-Ends}
use isc_challenge_without_bo.Router.Workers.Buffer.{extract_dst_id-rest, extract_dst_id-ok}

module _ {os : Os} (d : Delivers os) (socket : ℤ) (buffer : Bytes) (st : State os.World) where
  open d use {incoming}

  -- A whole message goes to the session that its destination names.
  pub record Forwarded (bytes : Bytes) (result : ℤ) (st' : State os.World) : Type 0 where
    pub whole : length bytes ≡ 32
    pub counted : result ≡ pos 32
    pub id : ℤ
    pub session : ℕ
    pub addressed : extract_dst_id (bytes ++ 0 ∷ []) (pos 32) ≡ ok id
    pub known : find_session_by_id id st.sessions ≡ some (some session)
    pub queued :
        st'.ready_write_sockets_queue_
        ≡ push task_eq
            (get_socket st.sessions.store session, bytes)
            false
            st.ready_write_sockets_queue_

  -- A whole message to an id with no session is dropped.
  pub record Unknown (bytes : Bytes) (result : ℤ) (st' : State os.World) : Type 0 where
    pub whole : length bytes ≡ 32
    pub counted : result ≡ pos 0
    pub id : ℤ
    pub addressed : extract_dst_id (bytes ++ 0 ∷ []) (pos 32) ≡ ok id
    pub unknown : find_session_by_id id st.sessions ≡ some none
    pub queued : st'.ready_write_sockets_queue_ ≡ st.ready_write_sockets_queue_

  pub record Processed (out : ℤ × Bytes) (st' : State os.World) : Type 0 where
    pub bytes : Bytes
    pub takes : Takes d socket buffer st bytes out st'
    pub tables : st'.sessions ≡ st.sessions
    pub effect :
        Forwarded bytes out.0 st'
        ⊎ Unknown bytes out.0 st'
        ⊎ Dropped d socket buffer st 32 bytes out.0 st'

  find_session_by_id-answers :
      (id : ℤ)
      → st.sessions.locked ≡ false
      → find_session_by_id id st.sessions ≡ some (lookup id st.sessions.sessions_by_id_)
  unfolding find_session_by_id
  find_session_by_id-answers id free = rw free

  module _ (free : st.sessions.locked ≡ false) (bytes : Bytes) (w' : os.World)
      (stream : incoming st.world socket ≡ bytes ++ incoming w' socket) where
    whole-Processed :
        (rest : Bytes)
        → length bytes ≡ 32
        → length (bytes ++ 0 ∷ rest) ≡ length buffer
        → Ends d socket buffer st Processed
            (dispatch os (pos 32) (bytes ++ 0 ∷ rest) (record st { world = w' }))
    unfolding forward
    whole-Processed rest whole sized =
        let (id, named) = extract_dst_id-ok bytes whole in
        let answered = find_session_by_id-answers id free in
        let back = take-append bytes (0 ∷ rest) 32 whole in
        rw (extract_dst_id-rest bytes rest (pos 32) whole, named)
          (elim (Option-cases (lookup id st.sessions.sessions_by_id_)) [
            | inl missing ↦
                rw (answered, missing)
                  (
                    (pos 0, bytes ++ 0 ∷ rest),
                    record st { world = w' },
                    refl,
                    record {
                      bytes = bytes;
                      takes = record {
                        stream = stream;
                        sized = sized;
                        progress = λ p. cc;
                        reads = refl;
                      };
                      tables = refl;
                      effect = inr (
                          inl (record {
                            whole = whole;
                            counted = refl;
                            id = id;
                            addressed = named;
                            unknown = answered ∙ ap some missing;
                            queued = refl;
                          }));
                    },
                  )
            | inr (r, found) ↦
                rw (answered, found, back)
                  (
                    (pos 32, bytes ++ 0 ∷ rest),
                    record st {
                      world = w';
                      ready_write_sockets_queue_ =
                          push task_eq (get_socket st.sessions.store r, bytes) false
                            st.ready_write_sockets_queue_;
                    },
                    refl,
                    record {
                      bytes = bytes;
                      takes = record {
                        stream = stream;
                        sized = sized;
                        progress = λ p. omega arith;
                        reads = refl;
                      };
                      tables = refl;
                      effect = inl (record {
                        whole = whole;
                        counted = refl;
                        id = id;
                        session = r;
                        addressed = named;
                        known = answered ∙ ap some found;
                        queued = refl;
                      });
                    },
                  )
          ])

  -- With `recv` and `send` as documented, the mutex free, and a buffer of more than 32 bytes,
  -- `process_message` returns. It takes the next bytes of the connection and, if these are 32,
  -- queues them for the session that is registered under their destination, or drops them and
  -- returns 0 if there is none; no table changes.
  pub process_message-Processed :
      st.sessions.locked ≡ false
      → 32 < length buffer
      → Ends d socket buffer st Processed (process_message os socket buffer st)
  unfolding process_message
  process_message-Processed free room =
      reading-Ends d socket buffer st Processed 32 (dispatch os)
        (λ bytes rest w' stream whole sized. whole-Processed free bytes w' stream rest whole sized)
        (λ bytes out w' takes dropped. record {
          bytes = bytes;
          takes = takes;
          tables = refl;
          effect = inr (inr dropped);
        })
        room (omega arith)
