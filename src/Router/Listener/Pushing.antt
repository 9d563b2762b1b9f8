-- ===== src/Router/Listener/Pushing.antt =====
-- What the loop over the ready sockets does to the queue of the readers.
use isc_challenge_without_bo.Prelude.{
  ◌≡◌, refl, ◌∙◌, false, ◌⊎◌, inl, inr, true, Bool-cases, List, [], ◌∷◌, ◌++◌, ℤ, ◌==ℤ◌, ==ℤ_refl,
  ==ℤ_iff, eq_of_==ℤ, if◌then◌else◌, All, arith,
}
use isc_challenge_without_bo.Router.SignalingQueue.{SignalingQueue, push, ends_with}
use isc_challenge_without_bo.Router.SignalingQueue.Order.{notify_one-keeps}
use isc_challenge_without_bo.Router.SignalingQueue.Wakeup.{Attended, push-Attended}
use isc_challenge_without_bo.Router.SignalingQueue.Repeats.{NoRepeats, push-NoRepeats}
use isc_challenge_without_bo.Router.Sessions.{contains}
use isc_challenge_without_bo.Router.Sessions.Lists.{contains-append}
use isc_challenge_without_bo.Router.Listener.{push_ready}

ends_with-contains : (k : ℤ) (xs : List ℤ) → ends_with ◌==ℤ◌ k xs ≡ true → contains k xs ≡ true
unfolding contains
ends_with-contains k [] h = cc
ends_with-contains k (x ∷ []) h = rw h
ends_with-contains k (x ∷ y ∷ xs) h = ground (arith, ends_with-contains k (y ∷ xs) h)

-- A skipping push adds the socket to those that wait, and takes none away.
push-contains :
    (k j : ℤ) (q : SignalingQueue ℤ)
    → contains j (push ◌==ℤ◌ k true q).m_queue ≡ (if k ==ℤ j then true else contains j q.m_queue)
unfolding push
push-contains k j q = elim (Bool-cases (ends_with ◌==ℤ◌ k q.m_queue)) [
  | inl e ↦ rw e (ground (arith, ends_with-contains k q.m_queue e, ==ℤ_iff k j))
  | inr e ↦
      rw (e, notify_one-keeps (record q { m_queue = q.m_queue ++ k ∷ [] }))
        (contains-append j k q.m_queue)
]

-- The step for one ready socket.
abbrev next : ℤ → ℤ → SignalingQueue ℤ → SignalingQueue ℤ
next server k q = if k ==ℤ server then q else push ◌==ℤ◌ k true q

next-NoRepeats :
    (server k : ℤ) (q : SignalingQueue ℤ)
    → NoRepeats ◌==ℤ◌ q.m_queue
    → NoRepeats ◌==ℤ◌ (next server k q).m_queue
next-NoRepeats server k q v = elim (Bool-cases (k ==ℤ server)) [
  | inl e ↦ rw e v
  | inr e ↦ rw e (push-NoRepeats ◌==ℤ◌ k q refl v)
]

next-keeps :
    (server k j : ℤ) (q : SignalingQueue ℤ)
    → contains j q.m_queue ≡ true
    → contains j (next server k q).m_queue ≡ true
next-keeps server k j q h = elim (Bool-cases (k ==ℤ server)) [
  | inl e ↦ rw e h
  | inr e ↦ ground (arith, push-contains k j q)
]

next-contains :
    (server k : ℤ) (q : SignalingQueue ℤ)
    → (k ≡ server) ⊎ (contains k (next server k q).m_queue ≡ true)
next-contains server k q = elim (Bool-cases (k ==ℤ server)) [
  | inl e ↦ inl (eq_of_==ℤ k server e)
  | inr e ↦ inr (ground (arith, push-contains k k q, ==ℤ_refl k))
]

pub push_ready-Attended :
    (server : ℤ) (ready : List ℤ) (q : SignalingQueue ℤ)
    → Attended q
    → Attended (push_ready server ready q)
unfolding push_ready
push_ready-Attended server [] q a = a
push_ready-Attended server (k ∷ ready) q a =
    push_ready-Attended server ready (next server k q) (elim (Bool-cases (k ==ℤ server)) [
      | inl e ↦ rw e a
      | inr e ↦ rw e (push-Attended ◌==ℤ◌ k true q a)
    ])

next-others :
    (server k j : ℤ) (q : SignalingQueue ℤ)
    → (k ==ℤ j) ≡ false
    → contains j (next server k q).m_queue ≡ contains j q.m_queue
next-others server k j q h = elim (Bool-cases (k ==ℤ server)) [
  | inl e ↦ rw e refl
  | inr e ↦ rw e (push-contains k j q ∙ rw h refl)
]

-- A socket that is not ready is not pushed.
pub push_ready-others :
    (server j : ℤ) (ready : List ℤ) (q : SignalingQueue ℤ)
    → contains j ready ≡ false
    → contains j (push_ready server ready q).m_queue ≡ contains j q.m_queue
unfolding push_ready contains
push_ready-others server j [] q h = refl
push_ready-others server j (k ∷ ready) q h =
    push_ready-others server j ready (next server k q) (ground arith)
    ∙ next-others server k j q (ground arith)

pub push_ready-NoRepeats :
    (server : ℤ) (ready : List ℤ) (q : SignalingQueue ℤ)
    → NoRepeats ◌==ℤ◌ q.m_queue
    → NoRepeats ◌==ℤ◌ (push_ready server ready q).m_queue
unfolding push_ready
push_ready-NoRepeats server [] q v = v
push_ready-NoRepeats server (k ∷ ready) q v =
    push_ready-NoRepeats server ready (next server k q) (next-NoRepeats server k q v)

-- A socket that waits still waits after the loop.
push_ready-keeps :
    (server j : ℤ) (ready : List ℤ) (q : SignalingQueue ℤ)
    → contains j q.m_queue ≡ true
    → contains j (push_ready server ready q).m_queue ≡ true
unfolding push_ready
push_ready-keeps server j [] q h = h
push_ready-keeps server j (k ∷ ready) q h =
    push_ready-keeps server j ready (next server k q) (next-keeps server k j q h)

-- Each of the sockets, but for the server's, is in the queue.
pub Pushed : ℤ → List ℤ → SignalingQueue ℤ → Type 0
Pushed server ready q = All (λ j. (j ≡ server) ⊎ (contains j q.m_queue ≡ true)) ready

pub push_ready-Pushed :
    (server : ℤ) (ready : List ℤ) (q : SignalingQueue ℤ)
    → Pushed server ready (push_ready server ready q)
unfolding push_ready Pushed
push_ready-Pushed server [] q = tt
push_ready-Pushed server (k ∷ ready) q = (
  elim (next-contains server k q) [
    | inl e ↦ inl e
    | inr h ↦ inr (push_ready-keeps server k ready (next server k q) h)
  ],
  push_ready-Pushed server ready (next server k q),
)
