-- ===== src/Kernel/Bitmap/Scan.antt =====
-- The search for a group of equal bits: `bitmap_scan` and `bitmap_scan_and_flip`.
use native.Mathlib.Decide.{ℕ_discrete}
use uni_orion_os.Base.{
  ℕ, zero, suc, ◌+◌, ◌-◌, ◌≤◌, ◌<◌, ◌≡◌, ◌≢◌, refl, ◌∙◌, inl, inr, Bool, true, false, not, some,
  arith, leb, ◌==◌, if◌then◌else◌, le→leb, eq→==, Bool-cases,
}
use uni_orion_os.Kernel.Bitmap.{
  Bitmap, bitmap_error, scan_loop, bitmap_scan, bitmap_scan_and_flip, bitmap_contains,
}
use uni_orion_os.Kernel.Bitmap.View.{view, IsValid, Becomes}
use uni_orion_os.Kernel.Bitmap.Ranges.{
  Search, found, absent, contains-Search, in_range, set_multiple-Yields,
}

-- all of the `cnt` bits from `start` on have the value
abbrev pub Group : Bitmap → (start cnt : ℕ) → Bool → Type 0
Group b start cnt value = (i : ℕ) → start ≤ i → i < start + cnt → view b i ≡ value

-- one of the `cnt` bits from `start` on has the other value
abbrev pub Mixed : Bitmap → (start cnt : ℕ) → Bool → Type 0
Mixed b start cnt value = (i : ℕ) × (start ≤ i) × (i < start + cnt) × (view b i ≡ not value)

-- What a scan from `start` on may return.
pub data FirstGroup (b : Bitmap) (start cnt : ℕ) (value : Bool) (r : ℕ) : Type 0 where
  first :
      start ≤ r
      → r + cnt ≤ b.bit_cnt
      → Group b r cnt value
      → ((j : ℕ) → start ≤ j → j < r → Mixed b j cnt value)
      → FirstGroup b start cnt value r
  nowhere :
      r ≡ bitmap_error
      → ((j : ℕ) → start ≤ j → j + cnt ≤ b.bit_cnt → Mixed b j cnt value)
      → FirstGroup b start cnt value r

not-not : (b : Bool) → not (not b) ≡ b
not-not true = refl
not-not false = refl

FirstGroup-step :
    {b : Bitmap} {start cnt r : ℕ} {value : Bool}
    → Mixed b start cnt value
    → FirstGroup b (start + 1) cnt value r
    → FirstGroup b start cnt value r
FirstGroup-step {b} {start} {cnt} {r} {value} here (first le fits group before) =
    first (omega arith) fits group λ j h k. elim (ℕ_discrete start j) [
      | yes e ↦ rw (← e) here
      | no ne ↦ before j (omega arith) k
    ]
FirstGroup-step {b} {start} {cnt} {r} {value} here (nowhere e none_in) =
    nowhere e λ j h k. elim (ℕ_discrete start j) [
      | yes e ↦ rw (← e) here
      | no ne ↦ none_in j (omega arith) k
    ]

scan_loop-FirstGroup :
    (rounds : ℕ) (b : Bitmap) (i cnt : ℕ) (value : Bool)
    → IsValid b
    → cnt ≤ b.bit_cnt
    → rounds ≡ b.bit_cnt - cnt + 1 - i
    → (r : ℕ) × (scan_loop rounds b i cnt value ≡ some r) × FirstGroup b i cnt value r
unfolding scan_loop
scan_loop-FirstGroup zero b i cnt value valid small e =
    (bitmap_error, refl, nowhere refl (λ j h k. absurd (omega arith)))
scan_loop-FirstGroup (suc rounds) b i cnt value valid small e =
    let (other, e₁, s) = contains-Search b i cnt valid (omega arith) (not value) in
    go other e₁ s (scan_loop-FirstGroup rounds b (i + 1) cnt value valid small (omega arith))
  where
    go :
        (other : Bool)
        → bitmap_contains b i cnt (not value) ≡ some other
        → Search b i cnt (not value) other
        → (r : ℕ) × (scan_loop rounds b (i + 1) cnt value ≡ some r)
          × FirstGroup b (i + 1) cnt value r
        → (r : ℕ) × (scan_loop (suc rounds) b i cnt value ≡ some r) × FirstGroup b i cnt value r
    go true e₁ (found j h k at) (r, e₂, rest) = (r, rw e₁ e₂, FirstGroup-step (j, h, k, at) rest)
    go false e₁ (absent none_in) rest = (
      i,
      rw e₁ refl,
      first (omega arith) (omega arith) (λ j h k. none_in j h k ∙ not-not value)
          (λ j h k. absurd (omega arith)),
    )

module _ (b : Bitmap) (start cnt : ℕ) (value : Bool) (valid : IsValid b)
    (from : start ≤ b.bit_cnt) where
  -- `bitmap_scan` returns the first group at or after `start`, or BITMAP_ERROR if there is none.
  pub scan-FirstGroup :
      (r : ℕ) × (bitmap_scan b start cnt value ≡ some r) × FirstGroup b start cnt value r
  unfolding bitmap_scan
  scan-FirstGroup = elim (Bool-cases (leb cnt b.bit_cnt)) [
    | inl fits ↦
        let (r, e, s) =
          scan_loop-FirstGroup (b.bit_cnt - cnt + 1 - start) b start cnt value valid (ground arith)
            refl in
        (r, rw (le→leb start b.bit_cnt from, fits) e, s)
    | inr too_many ↦ (
      bitmap_error,
      rw (le→leb start b.bit_cnt from, too_many) refl,
      nowhere refl (λ j h k. absurd (ground arith)),
    )
  ]

-- What `bitmap_scan_and_flip` may do.
pub data FlipOutcome (b : Bitmap) (start cnt : ℕ) (value : Bool) (r : ℕ) (b' : Bitmap)
    : Type 0 where
  taken :
      r ≢ bitmap_error
      → FirstGroup b start cnt value r
      → r + cnt ≤ b.bit_cnt
      → Group b r cnt value
      → Becomes b (λ i. if in_range r cnt i then not value else view b i) b'
      → FlipOutcome b start cnt value r b'
  failed :
      r ≡ bitmap_error
      → ((j : ℕ) → start ≤ j → j + cnt ≤ b.bit_cnt → Mixed b j cnt value)
      → b' ≡ b
      → FlipOutcome b start cnt value r b'

-- On a valid bitmap and a start inside it, bitmap_scan_and_flip does not panic. Either it
-- returns the first index at or after the start where a group of CNT bits all have VALUE, and
-- exactly the bits of that group are flipped, or it returns BITMAP_ERROR, no such group exists
-- and the bitmap is unchanged. Where CNT is 0, that index is the start.
pub scan_and_flip-FlipOutcome :
    (b : Bitmap) (start cnt : ℕ) (value : Bool)
    → IsValid b
    → start ≤ b.bit_cnt
    → (r : ℕ) × (b' : Bitmap) × (bitmap_scan_and_flip b start cnt value ≡ some (r, b'))
      × FlipOutcome b start cnt value r b'
unfolding bitmap_scan_and_flip
scan_and_flip-FlipOutcome b start cnt value valid from =
    let (r, e, s) = scan-FirstGroup b start cnt value valid from in go r e s
  where
    go :
        (r : ℕ)
        → bitmap_scan b start cnt value ≡ some r
        → FirstGroup b start cnt value r
        → (r : ℕ) × (b' : Bitmap) × (bitmap_scan_and_flip b start cnt value ≡ some (r, b'))
          × FlipOutcome b start cnt value r b'
    go r e (first le fits group before) =
        let (b', e', done) = set_multiple-Yields b r cnt valid fits (not value) in
        let ne : (r == bitmap_error) ≡ false = ground (arith, valid.small) in
        (
          r,
          b',
          rw (e, ne) (rw e' refl),
          taken (ground (arith, valid.small)) (first le fits group before) fits group done,
        )
    go r e (nowhere missing none_in) =
        (r, b, rw (e, eq→== r bitmap_error missing) refl, failed missing none_in refl)
