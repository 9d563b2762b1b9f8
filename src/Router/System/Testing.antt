-- ===== src/Router/System/Testing.antt =====
-- What a thread leaves in a queue that it takes from, and the tasks that wait for a writer.
use isc_challenge_without_bo.Prelude.{
  arith, ◌≡◌, sym, Bool, true, false, List, [], ◌∷◌, ◌++◌, ℤ, ◌==ℤ◌, length, All,
}
use mathlib.Core.Path.{subst}
use isc_challenge_without_bo.Text.{Bytes}
use isc_challenge_without_bo.Router.SignalingQueue.{SignalingQueue}
use isc_challenge_without_bo.Router.SignalingQueue.Order.{pop-splits, resume-splits}
use isc_challenge_without_bo.Router.SignalingQueue.Repeats.{
  NoRepeats, pop-NoRepeats, resume-NoRepeats,
}
use isc_challenge_without_bo.Router.SignalingQueue.Wakeup.{Attended, pop-Attended, resume-Attended}
use isc_challenge_without_bo.Router.State.{Task}
use isc_challenge_without_bo.Router.Workers.Blocks.{Blocks, finished, skipped, message}
use isc_challenge_without_bo.Router.System.{test}

test-splits {ℓ} :
    {T : Type ℓ} (woken : Bool) (q : SignalingQueue T)
    → (test woken q).1 ++ (test woken q).0.m_queue ≡ q.m_queue
unfolding test
test-splits true q = resume-splits q
test-splits false q = pop-splits q

pub test-NoRepeats :
    (woken : Bool) (q : SignalingQueue ℤ)
    → NoRepeats ◌==ℤ◌ q.m_queue
    → NoRepeats ◌==ℤ◌ (test woken q).0.m_queue
unfolding test
test-NoRepeats true q v = resume-NoRepeats ◌==ℤ◌ q v
test-NoRepeats false q v = pop-NoRepeats ◌==ℤ◌ q v

pub test-Attended {ℓ} :
    {T : Type ℓ} (woken : Bool) (q : SignalingQueue T) → Attended q → Attended (test woken q).0
unfolding test
test-Attended true q v = resume-Attended q v
test-Attended false q v = pop-Attended q λ k. omega (arith, v.attended k)

-- A task has a whole message.
abbrev pub Whole : Task → Type 0
Whole task = length task.1 ≡ 32

All-behind {ℓ κ} : {A : Type ℓ} (P : A → Type κ) (xs ys : List A) → All P (xs ++ ys) → All P ys
All-behind P [] ys h = h
All-behind P (x ∷ xs) ys h = All-behind P xs ys h.1

pub test-Whole :
    (woken : Bool) (q : SignalingQueue Task)
    → All Whole q.m_queue
    → All Whole (test woken q).0.m_queue
test-Whole woken q h =
    All-behind Whole (test woken q).1 (test woken q).0.m_queue
      (subst (All Whole) (sym (test-splits woken q)) h)

pub Blocks-Whole : {bs : Bytes} {ts : List Task} → Blocks bs ts → All Whole ts
Blocks-Whole finished = tt
Blocks-Whole (skipped fragment b) = Blocks-Whole b
Blocks-Whole (message m socket l b) = (l, Blocks-Whole b)
