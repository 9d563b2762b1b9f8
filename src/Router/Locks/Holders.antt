-- ===== src/Router/Locks/Holders.antt =====
-- Counting who holds a mutex.
use isc_challenge_without_bo.Prelude.{
  ℕ, zero, suc, ◌+◌, ◌≤◌, ◌≡◌, refl, ap, ◌∙◌, true, false, Bool-cases, inl, inr, List, [], ◌∷◌,
  Option, none, some, Option-cases, ◌==◌, if◌then◌else◌, set, get_elem?, All, arith,
}
use isc_challenge_without_bo.Text.{Bytes}
use isc_challenge_without_bo.Router.Locks.{Job, idle, mutex_of, is_locked, unlock}

-- How often a mutex is among those that are held.
abbrev pub count : ℕ → List ℕ → ℕ
count m [] = 0
count m (k ∷ held) = (if k == m then 1 else 0) + count m held

abbrev pub held_by : ℕ → Option ℕ → ℕ
held_by m none = 0
held_by m (some k) = if k == m then 1 else 0

-- How many of the workers hold it.
abbrev pub holders : ℕ → List (Job × Bytes) → ℕ
holders m [] = 0
holders m ((job, buffer) ∷ workers) = held_by m (mutex_of job) + holders m workers

pub count-is_locked : (m : ℕ) (held : List ℕ) → is_locked m held ≡ false → count m held ≡ 0
count-is_locked m [] h = refl
count-is_locked m (k ∷ held) h = ground (arith, count-is_locked m held)

pub count-locked : (m : ℕ) (held : List ℕ) → is_locked m held ≡ true → 1 ≤ count m held
count-locked m [] h = absurd (cc (h))
count-locked m (k ∷ held) h = ground (arith, count-locked m held)

pub count-unlock :
    (k m : ℕ) (held : List ℕ)
    → 1 ≤ count k held
    → count m (unlock k held) + (if k == m then 1 else 0) ≡ count m held
count-unlock k m [] h = absurd (omega arith)
count-unlock k m (x ∷ held) h = ground (arith, count-unlock k m held)

pub holders-idle :
    (m : ℕ) (workers : List (Job × Bytes)) → All (λ w. w.0 ≡ idle) workers → holders m workers ≡ 0
holders-idle m [] a = refl
holders-idle m ((job, buffer) ∷ workers) a =
    let same = ap (λ j. held_by m (mutex_of j)) a.0 in
    omega (arith, same, holders-idle m workers a.1)

pub holders-set :
    (m i : ℕ) (workers : List (Job × Bytes)) (job job' : Job) (buffer buffer' : Bytes)
    → get_elem? workers i ≡ some (job, buffer)
    → holders m (set workers i (job', buffer')) + held_by m (mutex_of job)
      ≡ holders m workers + held_by m (mutex_of job')
holders-set m i [] job job' buffer buffer' h = absurd (cc (h))
holders-set m zero ((j, b) ∷ workers) job job' buffer buffer' h =
    let same : held_by m (mutex_of j) ≡ held_by m (mutex_of job) =
      ap (λ j. held_by m (mutex_of j)) (cc (h)) in
    omega (arith, same)
holders-set m (suc i) ((j, b) ∷ workers) job job' buffer buffer' h =
    omega (arith, holders-set m i workers job job' buffer buffer' h)

pub holders-get :
    (m i : ℕ) (workers : List (Job × Bytes)) (job : Job) (buffer : Bytes)
    → get_elem? workers i ≡ some (job, buffer)
    → held_by m (mutex_of job) ≤ holders m workers
holders-get m i [] job buffer h = absurd (cc (h))
holders-get m zero ((j, b) ∷ workers) job buffer h =
    let same : held_by m (mutex_of j) ≡ held_by m (mutex_of job) =
      ap (λ j. held_by m (mutex_of j)) (cc (h)) in
    omega (arith, same)
holders-get m (suc i) ((j, b) ∷ workers) job buffer h =
    omega (arith, holders-get m i workers job buffer h)

pub held_by_self : (m : ℕ) (o : Option ℕ) → o ≡ some m → held_by m o ≡ 1
held_by_self m o h = rw h (ground arith)

-- Two workers that hold one mutex.
pub holders-two :
    (m i k : ℕ) (workers : List (Job × Bytes)) (w v : Job × Bytes)
    → get_elem? workers i ≡ some w
    → get_elem? workers k ≡ some v
    → mutex_of w.0 ≡ some m
    → mutex_of v.0 ≡ some m
    → holders m workers ≤ 1
    → i ≡ k
holders-two m i k [] w v h h' e e' one = absurd (cc (h))
holders-two m zero zero (x ∷ workers) w v h h' e e' one = refl
holders-two m zero (suc k) (x ∷ workers) w v h h' e e' one =
    let same : x ≡ w = cc (h) in
    absurd (
      omega (
        arith,
        held_by_self m (mutex_of x.0) (ap (λ w. mutex_of w.0) same ∙ e),
        holders-get m k workers v.0 v.1 h',
        held_by_self m (mutex_of v.0) e',
      ))
holders-two m (suc i) zero (x ∷ workers) w v h h' e e' one =
    let same : x ≡ v = cc (h') in
    absurd (
      omega (
        arith,
        held_by_self m (mutex_of x.0) (ap (λ w. mutex_of w.0) same ∙ e'),
        holders-get m i workers w.0 w.1 h,
        held_by_self m (mutex_of w.0) e,
      ))
holders-two m (suc i) (suc k) (x ∷ workers) w v h h' e e' one =
    ap suc (holders-two m i k workers w v h h' e e' (omega arith))

abbrev pub HeldBy : ℕ → List (Job × Bytes) → Type 0
HeldBy m workers =
    (i : ℕ) × (w : Job × Bytes) × (get_elem? workers i ≡ some w) × (mutex_of w.0 ≡ some m)

-- A mutex that is held has a holder.
pub holders-some : (m : ℕ) (workers : List (Job × Bytes)) → 1 ≤ holders m workers → HeldBy m workers
holders-some m [] h = absurd (omega arith)
holders-some m (w ∷ workers) h =
    let deeper : held_by m (mutex_of w.0) ≡ 0 → HeldBy m (w ∷ workers) = λ none_here.
      let (i, v, here, e) = holders-some m workers (omega (arith, none_here)) in
      (suc i, v, here, e) in
    elim (Option-cases (mutex_of w.0)) [
      | inl e ↦ deeper (ap (held_by m) e)
      | inr (k, e) ↦ elim (Bool-cases (k == m)) [
        | inl same ↦ (0, w, refl, e ∙ ap some (ground arith))
        | inr other ↦ deeper (ap (held_by m) e ∙ rw other refl)
      ]
    ]
