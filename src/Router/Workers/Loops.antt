-- ===== src/Router/Workers/Loops.antt =====
-- `do_reads` of router/src/router.cpp, round by round.
use isc_challenge_without_bo.Prelude.{
  ℕ, zero, suc, ◌<◌, ◌≡◌, ◌≢◌, refl, sym, ap, ◌∙◌, inl, inr, Bool, true, false, Bool-cases,
  Option-cases, none, some, ℤ, ◌==ℤ◌, ==ℤ_refl, eq_of_==ℤ, length, contains, if◌then◌else◌, arith,
}
use mathlib.Core.Path.{subst}
use isc_challenge_without_bo.Text.{Bytes}
use isc_challenge_without_bo.IntMap.{lookup}
use isc_challenge_without_bo.Winsock.{Os, Delivers, socket_error}
use isc_challenge_without_bo.Router.Sessions.{
  Sessions, find_session_by_socket, get_accepted_sockets,
}
use isc_challenge_without_bo.Router.Sessions.Reachable.{Reachable, Reachable-Inv}
use isc_challenge_without_bo.Router.Sessions.Effects.{remove_session-finds}
use isc_challenge_without_bo.Router.State.{State, Run, done, fault, and_then}
use isc_challenge_without_bo.Router.Workers.{do_reads, read_round, read_rounds, is_positive}
use isc_challenge_without_bo.Router.Workers.Rounds.{read_rounds-Rounds}

module _ (os : Os) (session : ℕ) (socket : ℤ) where
  -- Rounds of the loop: each but the last returns a positive number, the last does not.
  pub data Reading : State os.World → Bytes → ℤ → State os.World → Bytes → Type 0 where
    ends :
        {st st' : State os.World} {buffer buffer' : Bytes} {n : ℤ}
        → read_round os session socket buffer st ≡ done (n, buffer') st'
        → is_positive n ≡ false
        → Reading st buffer n st' buffer'
    reads :
        {st st' st'' : State os.World} {buffer buffer' buffer'' : Bytes} {n m : ℤ}
        → read_round os session socket buffer st ≡ done (n, buffer') st'
        → is_positive n ≡ true
        → Reading st' buffer' m st'' buffer''
        → Reading st buffer m st'' buffer''

  Reading-of : State os.World → Bytes → Run os.World (ℤ × Bytes) → Type 0
  Reading-of st buffer (done out st') = Reading st buffer out.0 st' out.1
  Reading-of st buffer (fault f) = Unit

  round_then-Reading :
      (st st' : State os.World) (buffer buffer' : Bytes) (n : ℤ) (b : Bool)
      (rest : Run os.World (ℤ × Bytes))
      → read_round os session socket buffer st ≡ done (n, buffer') st'
      → is_positive n ≡ b
      → Reading-of st' buffer' rest
      → Reading-of st buffer (if b then rest else done (n, buffer') st')
  unfolding Reading-of
  round_then-Reading st st' buffer buffer' n true (done out st'') e p h = reads e p h
  round_then-Reading st st' buffer buffer' n true (fault f) e p h = tt
  round_then-Reading st st' buffer buffer' n false rest e p h = ends e p

  after-Reading :
      (st : State os.World) (buffer : Bytes) (fuel : ℕ) (r : Run os.World (ℤ × Bytes))
      → read_round os session socket buffer st ≡ r
      → ((st' : State os.World) (buffer' : Bytes)
          → Reading-of st' buffer' (read_rounds os fuel session socket buffer' st'))
      → Reading-of st buffer (
          and_then r λ out st'.
            let rest = read_rounds os fuel session socket out.1 st' in
            if is_positive out.0 then rest else done out st')
  unfolding Reading-of
  after-Reading st buffer fuel (done out st') e h =
      round_then-Reading st st' buffer out.1 out.0 (is_positive out.0)
        (read_rounds os fuel session socket out.1 st') e refl (h st' out.1)
  after-Reading st buffer fuel (fault f) e h = tt

  read_rounds-Reading :
      (fuel : ℕ) (st : State os.World) (buffer : Bytes)
      → Reading-of st buffer (read_rounds os fuel session socket buffer st)
  unfolding read_rounds Reading-of
  read_rounds-Reading zero st buffer = tt
  read_rounds-Reading (suc fuel) st buffer =
      after-Reading st buffer fuel (read_round os session socket buffer st) refl
        (read_rounds-Reading fuel)

module _ (os : Os) (socket : ℤ) (buffer : Bytes) (st : State os.World) where
  -- The removal of the session has left no session for the socket, which is no accepted one any more;
  -- every other socket leads where it did.
  pub record Removed (s t : Sessions) : Type 0 where
    pub gone : find_session_by_socket socket t ≡ some none
    pub unaccepted : contains socket (get_accepted_sockets t) ≡ false
    pub others : (j : ℤ) → j ≢ socket → find_session_by_socket j t ≡ find_session_by_socket j s

  -- There was no session; the rounds ended without an error; they ended with one.
  pub data Handled (buffer' : Bytes) : State os.World → Type 0 where
    unknown :
        find_session_by_socket socket st.sessions ≡ some none
        → buffer' ≡ buffer
        → Handled buffer' st
    finished :
        {n : ℤ} {st' : State os.World} (session : ℕ)
        → find_session_by_socket socket st.sessions ≡ some (some session)
        → Reading os session socket st buffer n st' buffer'
        → n ≢ socket_error
        → Handled buffer' st'
    broken :
        {st' : State os.World} {t : Sessions} (session : ℕ)
        → find_session_by_socket socket st.sessions ≡ some (some session)
        → Reading os session socket st buffer socket_error st' buffer'
        → Removed st'.sessions t
        → Handled buffer' (record st' { sessions = t })

module _ {os : Os} (d : Delivers os) (socket : ℤ) (buffer : Bytes) (st : State os.World) where
  open d use {incoming}

  answers :
      {s : Sessions}
      → Reachable s
      → find_session_by_socket socket s ≡ some (lookup socket s.sessions_by_socket_)
  unfolding find_session_by_socket
  answers reached = rw (Reachable-Inv reached).1

  removed :
      {s t : Sessions}
      → contains socket (get_accepted_sockets t) ≡ false
      → ((j : ℤ)
          → find_session_by_socket j t
            ≡ (if socket ==ℤ j then some none else find_session_by_socket j s))
      → Removed os socket buffer st s t
  removed gone finds = record {
    gone = finds socket ∙ rw (==ℤ_refl socket);
    unaccepted = gone;
    others = λ j ne. elim (Bool-cases (socket ==ℤ j)) [
      | inl same ↦ absurd (ne (sym (eq_of_==ℤ socket j same)))
      | inr other ↦ finds j ∙ rw other refl
    ];
  }

  pub do_reads-Handled :
      (fuel : ℕ)
      → Reachable st.sessions
      → 32 < length buffer
      → length (incoming st.world socket) < fuel
      → (buffer' : Bytes) × (st' : State os.World) × (do_reads os fuel socket buffer st
          ≡ done buffer' st')
        × Handled os socket buffer st buffer' st'
  unfolding do_reads Reading-of
  do_reads-Handled fuel reached room enough =
      let answered = answers reached in
      elim (Option-cases (lookup socket st.sessions.sessions_by_socket_)) [
        | inl missing ↦
            rw (answered, missing) (buffer, st, refl, unknown (answered ∙ ap some missing) refl)
        | inr (session, held) ↦
            let known = answered ∙ ap some held in
            let (out, st', e, r) =
              read_rounds-Rounds d socket session fuel st buffer reached held room enough in
            let (t, returned, gone, finds) = remove_session-finds r.reached socket in
            let reading : Reading os session socket st buffer out.0 st' out.1 =
              subst (Reading-of os session socket st buffer) e
                (read_rounds-Reading os session socket fuel st buffer) in
            rw (answered, held, answered, held, e)
              (elim (Bool-cases (out.0 ==ℤ socket_error)) [
                | inl error ↦
                    let last = eq_of_==ℤ out.0 socket_error error in
                    rw (error, returned)
                      (
                        out.1,
                        record st' { sessions = t },
                        refl,
                        broken session known
                            (subst (λ n. Reading os session socket st buffer n st' out.1) last
                              reading)
                            (removed gone finds),
                      )
                | inr fine ↦ rw fine (
                  out.1,
                  st',
                  refl,
                  finished session known reading (λ h. ground (arith, ==ℤ_refl socket_error)),
                )
              ])
      ]
