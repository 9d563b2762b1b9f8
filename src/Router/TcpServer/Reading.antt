-- ===== src/Router/TcpServer/Reading.antt =====
-- What `read_async` reads.
use isc_challenge_without_bo.Prelude.{
  ℕ, zero, suc, ◌+◌, ◌-◌, ◌≤◌, ◌<◌, ◌≡◌, refl, sym, ap, ◌∙◌, ◌⊎◌, inl, inr, Bool-cases, [], ◌∷◌,
  ◌++◌, append_assoc, Option, some, ℤ, pos, ◌==◌, length, length-append, drop, take-append, arith,
}
use mathlib.Core.Path.{subst}
use native.Mathlib.Nat.{zero-add, suc-add}
use isc_challenge_without_bo.Text.{Bytes}
use isc_challenge_without_bo.Winsock.{
  Os, Delivers, Recv, received, failed, socket_error, would_block,
}
use isc_challenge_without_bo.Router.TcpServer.{write_at, take_recv, read_loop, read_async}

drop-nil : (n : ℕ) → drop {A = ℕ} n [] ≡ []
drop-nil zero = refl
drop-nil (suc n) = refl

drop-add : (a b : ℕ) (xs : Bytes) → drop b (drop a xs) ≡ drop (a + b) xs
drop-add zero b xs = rw zero-add
drop-add (suc a) b [] = drop-nil b ∙ sym (drop-nil (suc a + b))
drop-add (suc a) b (x ∷ xs) = rw suc-add (drop-add a b xs)

drop-append_add : (xs ys : Bytes) (b : ℕ) → drop (length xs + b) (xs ++ ys) ≡ drop b ys
drop-append_add [] ys b = rw zero-add
drop-append_add (x ∷ xs) ys b = rw suc-add (drop-append_add xs ys b)

-- A write behind `done` extends what is known of the buffer.
write_at-append :
    (done bs buffer : Bytes)
    → write_at (length done) bs (done ++ drop (length done) buffer)
      ≡ (done ++ bs) ++ drop (length (done ++ bs)) buffer
write_at-append done bs buffer = rw (
  take-append done (drop (length done) buffer) (length done) refl,
  drop-append_add done (drop (length done) buffer) (length bs),
  drop-add (length done) (length bs) buffer,
  length-append done bs,
  append_assoc,
)

module _ {os : Os} (d : Delivers os) (s : ℤ) (len : ℕ) (buffer : Bytes) (w : os.World) where
  open d use {incoming, recv_received, recv_failed}

  -- The bytes read are the next ones of the connection, `len` at most; they stand at the start of the
  -- buffer, which is as it was behind them; the result counts them, or is `SOCKET_ERROR`.
  pub record Read (out : ℤ × Bytes × os.World) : Type 0 where
    pub bytes : Bytes
    pub stream : incoming w s ≡ bytes ++ incoming out.2 s
    pub fits : length bytes ≤ len
    pub kept : out.1 ≡ bytes ++ drop (length bytes) buffer
    pub counted : (out.0 ≡ pos (length bytes)) ⊎ (out.0 ≡ socket_error)

  -- The loop with `done` read.
  pub record Reading (done : Bytes) (buffer' : Bytes) (w' : os.World) : Type 0 where
    pub so_far : incoming w s ≡ done ++ incoming w' s
    pub more : length done < len
    pub placed : buffer' ≡ done ++ drop (length done) buffer

  abbrev Ends : Option (ℤ × Bytes × os.World) → Type 0
  Ends o = (out : ℤ × Bytes × os.World) × (o ≡ some out) × Read out

  module _ {done buffer' : Bytes} {w' : os.World} (now : Reading done buffer' w') where
    extend :
        (w'' : os.World) (bs : Bytes)
        → incoming w' s ≡ bs ++ incoming w'' s
        → incoming w s ≡ (done ++ bs) ++ incoming w'' s
    extend w'' bs taken =
        now.so_far ∙ ap (λ t. done ++ t) taken ∙ sym (append_assoc done bs (incoming w'' s))

    place :
        (bs : Bytes)
        → write_at (length done) bs buffer' ≡ (done ++ bs) ++ drop (length (done ++ bs)) buffer
    place bs = ap (write_at (length done) bs) now.placed ∙ write_at-append done bs buffer

    grown :
        (w'' : os.World) (bs : Bytes)
        → incoming w' s ≡ bs ++ incoming w'' s
        → length (done ++ bs) < len
        → Reading (done ++ bs) (write_at (length done) bs buffer') w''
    grown w'' bs taken more = record {
      so_far = extend w'' bs taken;
      more = more;
      placed = place bs;
    }

    stopped :
        (w'' : os.World) {result : ℤ}
        → incoming w' s ≡ incoming w'' s
        → (result ≡ pos (length done)) ⊎ (result ≡ socket_error)
        → Read (result, buffer', w'')
    stopped w'' taken counted = record {
      bytes = done;
      stream = now.so_far ∙ ap (λ t. done ++ t) taken;
      fits = omega (arith, now.more);
      kept = now.placed;
      counted = counted;
    }

  module _ (again : ℕ → Bytes → os.World → Option (ℤ × Bytes × os.World)) {done buffer' : Bytes}
      {w' : os.World} (now : Reading done buffer' w') where
    take_recv-Ends :
        (r : Recv) (w'' : os.World)
        → os.recv s (len - length done) w' ≡ (r, w'')
        → ((b : ℕ) (bs : Bytes)
            → Reading (done ++ b ∷ bs) (write_at (length done) (b ∷ bs) buffer') w''
            → Ends (
                again
                  (length done + length (b ∷ bs))
                  (write_at (length done) (b ∷ bs) buffer')
                  w''))
        → Ends (take_recv os again len (length done) buffer' (r, w''))
    unfolding take_recv
    take_recv-Ends (received []) w'' e step =
        let (short, taken) = recv_received s (len - length done) w' w'' [] e in
        ((socket_error, buffer', w''), refl, stopped now w'' taken (inr refl))
    take_recv-Ends (received (b ∷ bs)) w'' e step =
        let (short, taken) = recv_received s (len - length done) w' w'' (b ∷ bs) e in
        let next =
          λ (more : length (done ++ b ∷ bs) < len). step b bs (grown now w'' (b ∷ bs) taken more) in
        elim (Bool-cases (length done + length (b ∷ bs) == len)) [
          | inl full ↦ rw full (
            (pos (length done + length (b ∷ bs)), write_at (length done) (b ∷ bs) buffer', w''),
            refl,
            record {
              bytes = done ++ b ∷ bs;
              stream = extend now w'' (b ∷ bs) taken;
              fits = ground (arith, length-append done (b ∷ bs));
              kept = place now (b ∷ bs);
              counted = inl (ap pos (sym (length-append done (b ∷ bs))));
            },
          )
          | inr room ↦ rw room (next (ground (arith, length-append done (b ∷ bs), now.more)))
        ]
    take_recv-Ends (failed code) w'' e step =
        let taken = sym (recv_failed s (len - length done) w' w'' code e) in
        elim (Bool-cases (code == would_block)) [
          | inl blocked ↦
              rw blocked ((pos (length done), buffer', w''), refl, stopped now w'' taken (inl refl))
          | inr broken ↦
              rw broken ((socket_error, buffer', w''), refl, stopped now w'' taken (inr refl))
        ]

  loop-Ends :
      (fuel : ℕ) (done buffer' : Bytes) (w' : os.World)
      → Reading done buffer' w'
      → len ≤ fuel + length done
      → Ends (read_loop os fuel s len (length done) buffer' w')
  unfolding read_loop
  loop-Ends zero done buffer' w' now enough = absurd (omega (arith, now.more))
  loop-Ends (suc fuel) done buffer' w' now enough =
      take_recv-Ends (read_loop os fuel s len) now (os.recv s (len - length done) w').0
        (os.recv s (len - length done) w').1 refl
        λ b bs next.
          subst
            (λ n. Ends (
              read_loop os fuel s len n (write_at (length done) (b ∷ bs) buffer')
                (os.recv s (len - length done) w').1))
            (length-append done (b ∷ bs))
            (loop-Ends fuel (done ++ b ∷ bs) _ _ next (omega (arith, length-append done (b ∷ bs))))

  -- With `recv` and `send` as documented, `read_async` ends for every length but 0, its loop
  -- within that number of rounds. It has read the next bytes of the connection, no more than the
  -- length, to the start of the buffer, which is unchanged behind them, and returns their number
  -- or `SOCKET_ERROR`.
  pub read_async-Read :
      0 < len → (out : ℤ × Bytes × os.World) × (read_async os s buffer len w ≡ some out) × Read out
  unfolding read_async
  read_async-Read h =
      loop-Ends len [] buffer w (record { so_far = refl; more = h; placed = refl }) (omega arith)
