-- ===== src/Router/Locks/Turns.antt =====
-- The workers of router/src/router.cpp in any order of moves.
use isc_challenge_without_bo.Prelude.{
  ℕ, ◌≤◌, ◌≡◌, ap, true, Bool-cases, inl, inr, List, [], some, ℤ, ◌==◌, set, get_elem?, All, arith,
}
use mathlib.Core.Path.{subst}
use isc_challenge_without_bo.Text.{Bytes}
use isc_challenge_without_bo.Winsock.{Os}
use isc_challenge_without_bo.Router.State.{Task, State, Run, done}
use isc_challenge_without_bo.Router.Locks.{
  Job, idle, mutex_of, is_locked, Turn, begin_reads, begin_writes, advance,
}
use isc_challenge_without_bo.Router.Locks.Holders.{
  count, held_by, holders, count-is_locked, count-unlock, holders-idle, holders-set, holders-get,
  held_by_self, holders-two, holders-some, HeldBy, count-locked,
}
use isc_challenge_without_bo.Router.Locks.Moves.{
  Moved, keeps, takes, gives_back, Moves, advance-Moves, begin_reads-Moves, begin_writes-Moves,
}

pub record Config (W : Type 0) : Type 0 where
  pub state : State W
  pub held : List ℕ
  pub workers : List (Job × Bytes)

-- The move of the worker at a position.
abbrev pub after : {W : Type 0} → Config W → ℕ → Turn → State W → Config W
after c i (job, buffer, held) st = record {
  state = st;
  held = held;
  workers = set c.workers i (job, buffer);
}

module _ (os : Os) (Change : State os.World → State os.World → Type 0) where
  -- A worker makes a move, or one that is in neither handler begins one, for any socket or task; the event
  -- loop, the queues and the system may change the rest of the state in the ways of `Change`.
  pub data Step (c : Config os.World) : Config os.World → Type 0 where
    advances :
        (i : ℕ) {job : Job} {buffer : Bytes} {turn : Turn} {st : State os.World}
        → get_elem? c.workers i ≡ some (job, buffer)
        → advance os job buffer c.held c.state ≡ done turn st
        → Step c (after c i turn st)
    reads :
        (i : ℕ) (socket : ℤ) {buffer : Bytes} {turn : Turn} {st : State os.World}
        → get_elem? c.workers i ≡ some (idle, buffer)
        → begin_reads os socket buffer c.held c.state ≡ done turn st
        → Step c (after c i turn st)
    writes :
        (i : ℕ) (task : Task) {buffer : Bytes} {turn : Turn} {st : State os.World}
        → get_elem? c.workers i ≡ some (idle, buffer)
        → begin_writes os task buffer c.held c.state ≡ done turn st
        → Step c (after c i turn st)
    elsewhere : (st : State os.World) → Change c.state st → Step c (record c { state = st })

module _ (os : Os) (Start : State os.World → Type 0)
    (Change : State os.World → State os.World → Type 0) where
  pub data Turned : Config os.World → Type 0 where
    starts :
        (st : State os.World) (workers : List (Job × Bytes))
        → Start st
        → All (λ w. w.0 ≡ idle) workers
        → Turned (record { state = st; held = []; workers = workers })
    steps : {c c' : Config os.World} → Turned c → Step os Change c c' → Turned c'

-- Each mutex is held by as many workers as it is held times, and by one at most.
pub Exclusive : List (Job × Bytes) → List ℕ → Type 0
Exclusive workers held = (m : ℕ) → (holders m workers ≡ count m held) × (count m held ≤ 1)

module _ (workers : List (Job × Bytes)) (held : List ℕ) (x : Exclusive workers held) (i : ℕ)
    (job job' : Job) (buffer buffer' : Bytes)
    (here : get_elem? workers i ≡ some (job, buffer)) where
  Moved-Exclusive :
      (held' : List ℕ) → Moved job held job' held' → Exclusive (set workers i (job', buffer')) held'
  unfolding Exclusive
  Moved-Exclusive held' (keeps same e) m = omega (
    arith,
    x m,
    ap (count m) e,
    ap (held_by m) same,
    holders-set m i workers job job' buffer buffer' here,
  )
  Moved-Exclusive held' (takes k free e e' h) m =
      let before = ap (held_by m) e in
      let behind = ap (held_by m) e' in
      let more = ap (count m) h in
      let others = holders-set m i workers job job' buffer buffer' here in
      let none_yet = count-is_locked k held free in
      elim (Bool-cases (k == m)) [
        | inl same ↦
            let equal : k ≡ m = ground arith in
            let here_too = ap (λ n. count n held) equal in
            ground (arith, x m, before, behind, more, others, none_yet, here_too)
        | inr other ↦ ground (arith, x m, before, behind, more, others)
      ]
  Moved-Exclusive held' (gives_back k e e' h) m =
      let before = ap (held_by m) e in
      let behind = ap (held_by m) e' in
      let fewer = ap (count m) h in
      let others = holders-set m i workers job job' buffer buffer' here in
      let mine : 1 ≤ count k held =
        omega
          (arith, x k, holders-get k i workers job buffer here, held_by_self k (mutex_of job) e) in
      omega (arith, x m, before, behind, fewer, others, count-unlock k m held mine)

-- A move of a worker keeps what holds of the mutexes.
after-Exclusive :
    {W : Type 0} (c : Config W) (i : ℕ) (job : Job) (buffer : Bytes) (turn : Turn) (st : State W)
    (r : Run W Turn)
    → Exclusive c.workers c.held
    → get_elem? c.workers i ≡ some (job, buffer)
    → Moves job c.held r
    → r ≡ done turn st
    → Exclusive (after c i turn st).workers (after c i turn st).held
after-Exclusive c i job buffer turn st r x here m e =
    Moved-Exclusive c.workers c.held x i job turn.0 buffer turn.1 here turn.2
      (subst (Moves job c.held) e m)

module _ {os : Os} {Change : State os.World → State os.World → Type 0} where
  Step-Exclusive :
      {c c' : Config os.World}
      → Exclusive c.workers c.held
      → Step os Change c c'
      → Exclusive c'.workers c'.held
  Step-Exclusive {c} x (advances i {job} {buffer} {turn} {st} here e) =
      after-Exclusive c i job buffer turn st _ x here (advance-Moves os buffer c.held job c.state) e
  Step-Exclusive {c} x (reads i socket {buffer} {turn} {st} here e) =
      after-Exclusive c i idle buffer turn st _ x here
        (begin_reads-Moves os buffer c.held socket c.state) e
  Step-Exclusive {c} x (writes i task {buffer} {turn} {st} here e) =
      after-Exclusive c i idle buffer turn st _ x here
        (begin_writes-Moves os buffer c.held task c.state) e
  Step-Exclusive x (elsewhere st change) = x

module _ {os : Os} {Start : State os.World → Type 0}
    {Change : State os.World → State os.World → Type 0} where
  Turned-Exclusive : {c : Config os.World} → Turned os Start Change c → Exclusive c.workers c.held
  unfolding Exclusive
  Turned-Exclusive (starts st workers start a) = λ m. (holders-idle m workers a, omega arith)
  Turned-Exclusive (steps t s) = Step-Exclusive (Turned-Exclusive t) s

  -- However the workers take turns, and whatever else happens to the state between their moves, no two
  -- workers hold the mutex of one session at a time.
  pub Turned-alone :
      {c : Config os.World}
      → Turned os Start Change c
      → (m i k : ℕ) (w v : Job × Bytes) → get_elem? c.workers i ≡ some w
      → get_elem? c.workers k ≡ some v
      → mutex_of w.0 ≡ some m
      → mutex_of v.0 ≡ some m
      → i ≡ k
  unfolding Exclusive
  Turned-alone {c} t m i k w v here there e e' =
      let x = Turned-Exclusive t m in
      holders-two m i k c.workers w v here there e e' (omega (arith, x))

  -- However the workers take turns, and whatever else happens to the state between their moves, a mutex
  -- that is locked is held by a worker that has it in its handler: none stays locked behind a handler.
  pub Turned-held :
      {c : Config os.World}
      → Turned os Start Change c
      → (m : ℕ) → is_locked m c.held ≡ true
      → HeldBy m c.workers
  unfolding Exclusive
  Turned-held {c} t m locked =
      holders-some m c.workers (omega (arith, Turned-Exclusive t m, count-locked m c.held locked))
