-- ===== src/Vm/Swap/Pages.antt =====
-- The loops that move the eight sectors of a page.
use uni_orion_os.Base.{
  ℕ, zero, suc, ◌+◌, ◌-◌, ◌^◌, ◌≤◌, ◌<◌, ◌≡◌, refl, ◌∙◌, false, some, arith, if◌then◌else◌,
}
use uni_orion_os.Kernel.Bitmap.Ranges.{in_range}
use uni_orion_os.Devices.Block.{
  Block, update, is_foreign, after_read, after_write, read-ok, write-ok,
}
use uni_orion_os.Vm.Swap.{Page, sector_at, read_loop, write_loop}

-- `b'` is the device `b` with the sectors `f`
pub record Rewritten {S : Type 0} (b : Block S) (f : ℕ → S) (b' : Block S) : Type 0 where
  pub size : b'.size ≡ b.size
  pub kind : b'.kind ≡ b.kind
  pub sectors : (k : ℕ) → b'.sectors k ≡ f k

module _ {S : Type 0} where
  write_step :
      (rounds i first : ℕ) (b : Block S) (page : Page S)
      → first + i < b.size
      → b.size < 2 ^ 32
      → is_foreign b.kind ≡ false
      → write_loop (suc rounds) i first b page
        ≡ write_loop rounds (i + 1) first (after_write b (first + i) (page i)) page
  unfolding write_loop
  write_step rounds i first b page inside small own =
      let at : sector_at first i ≡ first + i = omega arith in
      rw (at, write-ok b {sector = first + i} inside (page i) own) refl

  pub write_loop-Rewritten :
      (rounds i first : ℕ) (b : Block S) (page : Page S)
      → first + i + rounds ≤ b.size
      → b.size < 2 ^ 32
      → is_foreign b.kind ≡ false
      → (b' : Block S) × (write_loop rounds i first b page ≡ some b')
        × Rewritten b
            (λ k. if in_range (first + i) rounds k then page (k - first) else b.sectors k)
            b'
  write_loop-Rewritten zero i first b page fits small own = (
    b,
    unfold write_loop in refl,
    record { size = refl; kind = refl; sectors = λ k. ground arith },
  )
  write_loop-Rewritten (suc rounds) i first b page fits small own =
      let (b', e, rest) =
        write_loop-Rewritten rounds (i + 1) first (after_write b (first + i) (page i)) page
          (omega arith) small own in
      (
        b',
        write_step rounds i first b page (omega arith) small own ∙ e,
        record { size = rest.size; kind = rest.kind; sectors = λ k. rest.sectors k ∙ ground arith },
      )

  read_step :
      (rounds i first : ℕ) (b : Block S) (page : Page S)
      → first + i < b.size
      → b.size < 2 ^ 32
      → read_loop (suc rounds) i first b page
        ≡ read_loop rounds (i + 1) first (after_read b) (update page i (b.sectors (first + i)))
  unfolding read_loop
  read_step rounds i first b page inside small =
      let at : sector_at first i ≡ first + i = omega arith in
      rw (at, read-ok b {sector = first + i} inside) refl

  pub read_loop-Rewritten :
      (rounds i first : ℕ) (b : Block S) (page : Page S)
      → first + i + rounds ≤ b.size
      → b.size < 2 ^ 32
      → (page' : Page S) × (b' : Block S) × (read_loop rounds i first b page ≡ some (page', b'))
        × Rewritten b b.sectors b'
        × ((k : ℕ) → page' k ≡ (if in_range i rounds k then b.sectors (first + k) else page k))
  read_loop-Rewritten zero i first b page fits small = (
    page,
    b,
    unfold read_loop in refl,
    record { size = refl; kind = refl; sectors = λ k. refl },
    λ k. ground arith,
  )
  read_loop-Rewritten (suc rounds) i first b page fits small =
      let (page', b', e, rest, got) =
        read_loop-Rewritten rounds (i + 1) first (after_read b)
          (update page i (b.sectors (first + i))) (omega arith) small in
      (
        page',
        b',
        read_step rounds i first b page (omega arith) small ∙ e,
        record { size = rest.size; kind = rest.kind; sectors = rest.sectors },
        λ k. got k ∙ ground arith,
      )
