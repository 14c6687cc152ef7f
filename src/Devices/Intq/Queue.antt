-- ===== src/Devices/Intq/Queue.antt =====
-- The ring of bytes is a queue: first in, first out.
use uni_orion_os.Base.{
  ℕ, suc, ◌+◌, ◌-◌, ◌%◌, ◌<◌, ◌≡◌, ◌≢◌, refl, ◌∙◌, sym, ap, true, false, none, some, List, [], ◌∷◌,
  ◌++◌, ◌==◌, arith,
}
use uni_orion_os.Base.Slices.{tabulate, tabulate-same, tabulate-append}
use uni_orion_os.Devices.Block.{update, update_self, update_ne}
use uni_orion_os.Threads.Scheduler.{System}
use uni_orion_os.Devices.Intq.{
  Intq, intq_bufsize, next, intq_empty, intq_full, unblock_waiter, intq_getc, intq_putc,
}

-- how many bytes there are, and which, the oldest first
abbrev pub count : Intq → ℕ
count q = (q.head + intq_bufsize - q.tail) % intq_bufsize

abbrev pub nth : Intq → ℕ → ℕ
nth q k = q.buf ((q.tail + k) % intq_bufsize)

abbrev pub contents : Intq → List ℕ
contents q = tabulate (nth q) 0 (count q)

pub record IsValid (q : Intq) : Type 0 where
  pub head : q.head < intq_bufsize
  pub tail : q.tail < intq_bufsize

-- The queue is valid, and nobody waits for what has happened.
abbrev pub after_put : Intq → ℕ → Intq
after_put q byte = record q { buf = update q.buf q.head byte; head = next q.head; not_empty = none }

abbrev pub after_get : Intq → Intq
after_get q = record q { tail = next q.tail; not_full = none }

module _ (q : Intq) (valid : IsValid q) where
  put_step :
      (byte : ℕ) (s : System) {s' : System}
      → (next q.head == q.tail) ≡ false
      → unblock_waiter s q.not_empty ≡ some s'
      → intq_putc q byte s ≡ some (true, after_put q byte, s')
  unfolding intq_putc intq_full intq_empty
  put_step byte s room woken = rw (room, woken) refl

  room_for :
      (next q.head == q.tail) ≡ false
      → count q + 1 ≡ (next q.head + intq_bufsize - q.tail) % intq_bufsize
  room_for room =
      let ne : next q.head ≢ q.tail = λ e. ground (arith, e, room) in
      ground (arith, ne, valid.head, valid.tail)

  -- On a valid queue that is not full, if the thread that waits for a byte, where there is one,
  -- can be unblocked, intq_putc does not stop the kernel, puts the byte behind the bytes of the
  -- queue, and leaves it valid.
  pub intq_putc-contents :
      (byte : ℕ) (s s' : System)
      → intq_full q ≡ false
      → unblock_waiter s q.not_empty ≡ some s'
      → (q' : Intq) × (intq_putc q byte s ≡ some (true, q', s'))
        × (contents q' ≡ contents q ++ (byte ∷ []))
        × IsValid q'
  unfolding intq_full
  intq_putc-contents byte s s' room woken =
      let q' = after_put q byte in
      let n = count q in
      let h = valid.head in
      let t = valid.tail in
      let more = room_for room in
      let old = λ (k : ℕ) (l : k < n).
        update_ne q.buf q.head byte ((q.tail + k) % intq_bufsize)
          (λ e. omega (arith, e, l, h, t)) in
      let place : (q.tail + n) % intq_bufsize ≡ q.head = omega (arith, h, t) in
      let origin : 0 + n ≡ n = omega arith in
      let new : nth q' n ≡ byte =
        ap (update q.buf q.head byte) place ∙ update_self q.buf q.head byte in
      (
        q',
        put_step byte s room woken,
        ap (tabulate (nth q') 0) (sym more)
            ∙ tabulate-append (nth q') 0 n 1
            ∙ ap (λ i. tabulate (nth q') 0 n ++ tabulate (nth q') i 1) origin
            ∙ ap (λ xs. xs ++ (nth q' n ∷ []))
                (tabulate-same (nth q') (nth q) 0 0 n (λ k l. old (0 + k) (omega arith)))
            ∙ ap (λ b. contents q ++ (b ∷ [])) new,
        record { head = omega arith; tail = t },
      )

  get_step :
      (s : System) {s' : System}
      → (q.head == q.tail) ≡ false
      → (next q.head == next q.tail) ≡ false
      → unblock_waiter s q.not_full ≡ some s'
      → intq_getc q s ≡ some (some (q.buf q.tail), after_get q, s')
  unfolding intq_getc intq_empty intq_full
  get_step s some_byte room woken = rw (some_byte, room, woken) refl

  -- On a valid queue that is not empty, if the thread that waits for room, where there is one,
  -- can be unblocked, intq_getc does not stop the kernel, gives the oldest byte and takes it off
  -- the queue, and leaves it valid.
  pub intq_getc-contents :
      (s s' : System)
      → intq_empty q ≡ false
      → unblock_waiter s q.not_full ≡ some s'
      → (byte : ℕ) × (q' : Intq) × (intq_getc q s ≡ some (some byte, q', s'))
        × (contents q ≡ byte ∷ contents q')
        × IsValid q'
  unfolding intq_empty
  intq_getc-contents s s' some_byte woken =
      let q' = after_get q in
      let h = valid.head in
      let t = valid.tail in
      let ne : q.head ≢ q.tail = λ e. ground (arith, e, some_byte) in
      let room : (next q.head == next q.tail) ≡ false = ground (arith, ne, h, t) in
      let fewer : count q ≡ suc (count q') = ground (arith, ne, h, t) in
      let first : (q.tail + 0) % intq_bufsize ≡ q.tail = omega (arith, t) in
      (
        q.buf q.tail,
        q',
        get_step s some_byte room woken,
        ap (tabulate (nth q) 0) fewer
            ∙ ap (λ p. q.buf p ∷ tabulate (nth q) 1 (count q')) first
            ∙ ap (λ xs. q.buf q.tail ∷ xs)
                (tabulate-same (nth q) (nth q') 1 0 (count q')
                  (λ k l. ap q.buf (omega (arith, t)))),
        record { head = h; tail = omega arith },
      )
