-- ===== src/Strings/Copying.antt =====
-- `strlcpy` and `strlcat`: the bytes at the target.
use uni_orion_os.Base.{
  ℕ, zero, suc, ◌+◌, ◌-◌, ◌<◌, ◌≡◌, refl, ◌∙◌, ap, min, true, false, some, ◌==◌, List, [], ◌∷◌, ltb,
  if◌then◌else◌, arith, length, take,
}
use uni_orion_os.Base.Slices.{byte_of}
use uni_orion_os.Devices.Block.{update, update_self, update_ne}
use uni_orion_os.Strings.{Memory, strlen, store, strlcpy, strlcat, strlen_at}

-- The string stands at the target, and no byte outside it changed.
pub record Stored (string : List ℕ) (m m' : Memory) (dst : ℕ) : Type 0 where
  pub copied : (k : ℕ) → k < length string → m' (dst + k) ≡ byte_of string k
  pub ended : m' (dst + length string) ≡ 0
  pub before : (a : ℕ) → a < dst → m' a ≡ m a
  pub after : (a : ℕ) → dst + length string < a → m' a ≡ m a

store-Stored : (string : List ℕ) (m : Memory) (dst : ℕ) → Stored string m (store string m dst) dst
unfolding store
store-Stored [] m dst =
    let here : dst + 0 ≡ dst = omega arith in
    record {
      copied = λ k h. absurd (omega arith);
      ended = ap (update m dst 0) here ∙ update_self m dst 0;
      before = λ a h. update_ne m dst 0 a (λ e. omega (arith, e, h));
      after = λ a h. update_ne m dst 0 a (λ e. omega (arith, e, h));
    }
store-Stored (c ∷ string) m dst =
    let m1 = update m dst c in
    let r = store-Stored string m1 (dst + 1) in
    record {
      copied = copied m1 r;
      ended = ap (store string m1 (dst + 1)) (omega arith) ∙ r.ended;
      before = λ a h. r.before a (omega arith) ∙ update_ne m dst c a (λ e. omega (arith, e, h));
      after = λ a h. r.after a (omega arith) ∙ update_ne m dst c a (λ e. omega (arith, e, h));
    }
  where
    copied :
        (m1 : Memory)
        → Stored string (update m dst c) (store string (update m dst c) (dst + 1)) (dst + 1)
        → (k : ℕ) → k < suc (length string)
        → store string (update m dst c) (dst + 1) (dst + k) ≡ byte_of (c ∷ string) k
    copied m1 r zero h =
        ap (store string (update m dst c) (dst + 1)) (omega arith)
        ∙ r.before dst (omega arith)
        ∙ update_self m dst c
    copied m1 r (suc k) h =
        ap (store string (update m dst c) (dst + 1)) (omega arith) ∙ r.copied k (omega arith)

-- If the size and the target are not 0, strlcpy returns the length of the source and leaves at the
-- target its first characters, at most the size less one, with a 0 behind them, and no other byte
-- changed.
pub strlcpy-Stored :
    (m : Memory) (dst : ℕ) (src : List ℕ) (size : ℕ)
    → 0 < dst
    → 0 < size
    → (n : ℕ) × (n ≡ min (length src) (size - 1))
      × (m' : Memory) × (strlcpy m dst src size ≡ some (length src, m'))
      × Stored (take n src) m m' dst
unfolding strlcpy strlen
strlcpy-Stored m dst src size d h =
    let target_ok : (dst == 0) ≡ false = ground (arith, d) in
    let some_room : ltb 0 size ≡ true = ground (arith, h) in
    let n = if ltb (length src) (size - 1) then length src else size - 1 in
    (
      n,
      ground arith,
      store (take n src) m dst,
      rw (target_ok, some_room) refl,
      store-Stored (take n src) m dst,
    )

-- A string of `len` characters stands at the address, and the 0 that ends it.
pub record IsString (m : Memory) (string len : ℕ) : Type 0 where
  pub chars : (k : ℕ) → k < len → 0 < m (string + k)
  pub ends : m (string + len) ≡ 0

pub strlen_at-IsString :
    (fuel : ℕ) (m : Memory) (string len : ℕ)
    → IsString m string len
    → len < fuel
    → strlen_at fuel m string ≡ some len
unfolding strlen_at
strlen_at-IsString zero m string len s h = absurd (omega arith)
strlen_at-IsString (suc fuel) m string zero s h =
    let here : m string ≡ 0 = ap m (omega arith) ∙ s.ends in
    let stop : (m string == 0) ≡ true = ground (arith, here) in rw stop refl
strlen_at-IsString (suc fuel) m string (suc len) s h =
    let here : m (string + 0) ≡ m string = ap m (omega arith) in
    let first : 0 < m string = rw (← here) (s.chars 0 (omega arith)) in
    let go : (m string == 0) ≡ false = ground (arith, first) in
    let rest = strlen_at-IsString fuel m (string + 1) len later (omega arith) in rw (go, rest) refl
  where
    later : IsString m (string + 1) len
    later = record {
      chars = λ k l.
          let there : m (string + suc k) ≡ m (string + 1 + k) = ap m (omega arith) in
          rw (← there) (s.chars (suc k) (omega arith));
      ends = ap m (omega arith) ∙ s.ends;
    }

-- If the target is not NULL and a string stands there that is shorter than the size and than the
-- fuel of the search for its end, strlcat does not panic, returns the sum of the lengths and
-- leaves behind that string the first characters of the source, at most as many as leave room
-- for the terminating 0 inside the size, with that 0 behind them, and no other byte changed.
pub strlcat-Stored :
    (fuel : ℕ) (m : Memory) (dst dst_len : ℕ) (src : List ℕ) (size : ℕ)
    → 0 < dst
    → IsString m dst dst_len
    → dst_len < fuel
    → dst_len < size
    → (n : ℕ) × (n ≡ min (length src) (size - dst_len - 1))
      × (m' : Memory) × (strlcat fuel m dst src size ≡ some (length src + dst_len, m'))
      × Stored (take n src) m m' (dst + dst_len)
unfolding strlcat strlen
strlcat-Stored fuel m dst dst_len src size d s enough h =
    let target_ok : (dst == 0) ≡ false = ground (arith, d) in
    let some_room : ltb 0 size ≡ true = ground (arith, h) in
    let fits : ltb dst_len size ≡ true = ground (arith, h) in
    let n = if ltb (length src) (size - dst_len - 1) then length src else size - dst_len - 1 in
    (
      n,
      ground arith,
      store (take n src) m (dst + dst_len),
      rw (target_ok, strlen_at-IsString fuel m dst dst_len s enough, some_room, fits) refl,
      store-Stored (take n src) m (dst + dst_len),
    )
