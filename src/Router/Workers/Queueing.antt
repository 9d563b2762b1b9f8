-- ===== src/Router/Workers/Queueing.antt =====
-- Tasks that are pushed one after another.
use isc_challenge_without_bo.Prelude.{
  ◌≡◌, refl, sym, ap, ◌∙◌, false, List, [], ◌∷◌, ◌++◌, append-nil, append_assoc,
}
use isc_challenge_without_bo.Router.SignalingQueue.{SignalingQueue, push}
use isc_challenge_without_bo.Router.SignalingQueue.Order.{push-append}
use isc_challenge_without_bo.Router.SignalingQueue.Wakeup.{Attended, push-Attended}
use isc_challenge_without_bo.Router.State.{Task, task_eq}

abbrev pub push_all : List Task → SignalingQueue Task → SignalingQueue Task
push_all [] q = q
push_all (t ∷ ts) q = push_all ts (push task_eq t false q)

pub push_all-append :
    (ts us : List Task) (q : SignalingQueue Task)
    → push_all (ts ++ us) q ≡ push_all us (push_all ts q)
push_all-append [] us q = refl
push_all-append (t ∷ ts) us q = push_all-append ts us (push task_eq t false q)

pub push_all-queue :
    (ts : List Task) (q : SignalingQueue Task) → (push_all ts q).m_queue ≡ q.m_queue ++ ts
push_all-queue [] q = sym (append-nil q.m_queue)
push_all-queue (t ∷ ts) q =
    push_all-queue ts (push task_eq t false q)
    ∙ ap (λ xs. xs ++ ts) (push-append task_eq t q refl)
    ∙ append_assoc q.m_queue (t ∷ []) ts

pub push_all-Attended :
    (ts : List Task) (q : SignalingQueue Task) → Attended q → Attended (push_all ts q)
push_all-Attended [] q v = v
push_all-Attended (t ∷ ts) q v =
    push_all-Attended ts (push task_eq t false q) (push-Attended task_eq t false q v)
