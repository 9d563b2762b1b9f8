-- ===== src/Router/Workers/Blocks.antt =====
-- How the tasks that a read queues lie in the bytes that it takes.
use isc_challenge_without_bo.Prelude.{
  ◌≡◌, sym, List, [], ◌∷◌, ◌++◌, append_assoc, append-nil, ℤ, length,
}
use isc_challenge_without_bo.Text.{Bytes}
use isc_challenge_without_bo.Router.State.{Task}
use mathlib.Core.Path.{subst}

-- The messages of the tasks are stretches of 32 bytes of the text, in order and apart from one another.
pub data Blocks : Bytes → List Task → Type 0 where
  finished : Blocks [] []
  skipped :
      (fragment : Bytes) {bs : Bytes} {ts : List Task} → Blocks bs ts → Blocks (fragment ++ bs) ts
  message :
      (m : Bytes) (socket : ℤ) {bs : Bytes} {ts : List Task}
      → length m ≡ 32
      → Blocks bs ts
      → Blocks (m ++ bs) ((socket, m) ∷ ts)

pub Blocks-append :
    {bs : Bytes} {ts : List Task} (bs' : Bytes) (ts' : List Task)
    → Blocks bs ts
    → Blocks bs' ts'
    → Blocks (bs ++ bs') (ts ++ ts')
Blocks-append bs' ts' finished more = more
Blocks-append bs' ts' (skipped fragment {bs} {ts} b) more =
    subst (λ t. Blocks t (ts ++ ts')) (sym (append_assoc fragment bs bs'))
      (skipped fragment (Blocks-append bs' ts' b more))
Blocks-append bs' ts' (message m socket {bs} {ts} l b) more =
    subst (λ t. Blocks t ((socket, m) ∷ (ts ++ ts'))) (sym (append_assoc m bs bs'))
      (message m socket l (Blocks-append bs' ts' b more))

pub Blocks-nil : (bytes : Bytes) → Blocks bytes []
Blocks-nil bytes = subst (λ t. Blocks t []) (append-nil bytes) (skipped bytes finished)

pub Blocks-singleton :
    (socket : ℤ) (bytes : Bytes) → length bytes ≡ 32 → Blocks bytes ((socket, bytes) ∷ [])
Blocks-singleton socket bytes l =
    subst (λ t. Blocks t ((socket, bytes) ∷ [])) (append-nil bytes)
      (message bytes socket l finished)
