-- ===== src/Router/Start/Staff.antt =====
-- Which threads `Router::start` starts.
use isc_challenge_without_bo.Prelude.{
  ℕ, zero, suc, ◌+◌, ◌/◌, ◌≡◌, refl, sym, ap, ◌∙◌, List, [], ◌∷◌, ◌++◌, length, length-append,
  arith,
}
use isc_challenge_without_bo.Router.Listener.{thread_roles}
use isc_challenge_without_bo.Router.Listener.Sets.{thread_roles_lem}
use isc_challenge_without_bo.Router.Start.{Thread, reader, writer, launch, start_threads}

abbrev pub thread_id : Thread → ℕ
thread_id (reader i) = i
thread_id (writer i) = i

abbrev pub readers : List Thread → ℕ
readers [] = 0
readers (reader i ∷ threads) = suc (readers threads)
readers (writer i ∷ threads) = readers threads

abbrev pub ids : List Thread → List ℕ
ids [] = []
ids (thread ∷ threads) = thread_id thread ∷ ids threads

-- `count` numbers from `first` on
abbrev pub range : ℕ → ℕ → List ℕ
range first zero = []
range first (suc count) = first ∷ range (suc first) count

ids-writers : (first count : ℕ) → ids (launch writer first count) ≡ range first count
ids-writers first zero = refl
ids-writers first (suc count) = ap (◌∷◌ first) (ids-writers (suc first) count)

-- Readers, and the writers behind them.
ids-launch :
    (first count next others : ℕ)
    → first + count ≡ next
    → ids (launch reader first count ++ launch writer next others) ≡ range first (count + others)
ids-launch first zero next others h =
    let same : next ≡ first = omega arith in
    let none : 0 + others ≡ others = omega arith in ids-writers next others ∙ cc (same, none)
ids-launch first (suc count) next others h =
    let more : suc count + others ≡ suc (count + others) = omega arith in
    ap (◌∷◌ first) (ids-launch (suc first) count next others (omega arith))
    ∙ ap (range first) (sym more)

length-launch :
    (handler : ℕ → Thread) (first count : ℕ) → length (launch handler first count) ≡ count
length-launch handler first zero = refl
length-launch handler first (suc count) = ap suc (length-launch handler (suc first) count)

readers-readers :
    (first count : ℕ) (threads : List Thread)
    → readers (launch reader first count ++ threads) ≡ count + readers threads
readers-readers first zero threads = omega arith
readers-readers first (suc count) threads = omega (arith, readers-readers (suc first) count threads)

readers-writers : (first count : ℕ) → readers (launch writer first count) ≡ 0
readers-writers first zero = refl
readers-writers first (suc count) = readers-writers (suc first) count

-- For every number of threads, `start` starts as many, numbered from 0 on with no gap and no repeat;
-- the readers among them are half of the number, rounded up.
pub start_threads-Staff :
    (thread_count : ℕ)
    → (ids (start_threads thread_count) ≡ range 0 thread_count)
      × (readers (start_threads thread_count) ≡ (thread_count + 1) / 2)
unfolding start_threads
start_threads-Staff thread_count =
    let (sum, fewer, more) = thread_roles_lem thread_count in
    let r = (thread_roles thread_count).0 in
    let w = (thread_roles thread_count).1 in
    (
      ids-launch 0 r r w (omega arith) ∙ ap (range 0) sum,
      readers-readers 0 r (launch writer r w)
          ∙ omega (arith, readers-writers r w, sum, fewer, more),
    )

pub length-start_threads : (thread_count : ℕ) → length (start_threads thread_count) ≡ thread_count
unfolding start_threads
length-start_threads thread_count =
    let r = (thread_roles thread_count).0 in
    let w = (thread_roles thread_count).1 in
    omega (
      arith,
      length-append (launch reader 0 r) (launch writer r w),
      length-launch reader 0 r,
      length-launch writer r w,
      (thread_roles_lem thread_count).0,
    )
