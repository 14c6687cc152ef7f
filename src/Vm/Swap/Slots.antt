-- ===== src/Vm/Swap/Slots.antt =====
-- What `swap_out` and `swap_in` do to the slots: a used slot keeps its page until it is read back.
use uni_orion_os.Base.{
  ℕ, ◌+◌, ◌*◌, ◌^◌, ◌≤◌, ◌<◌, ◌≡◌, refl, ◌∙◌, sym, ap, Bool, true, false, Option, none, some, arith,
  ltb, ◌==◌, eq→==, if◌then◌else◌,
}
use uni_orion_os.Kernel.Bitmap.{Bitmap, bitmap_error, bitmap_scan_and_flip}
use uni_orion_os.Kernel.Bitmap.View
use uni_orion_os.Kernel.Bitmap.View.{view, reset-Yields}
use uni_orion_os.Kernel.Bitmap.Scan.{FlipOutcome, taken, failed, scan_and_flip-FlipOutcome}
use uni_orion_os.Devices.Block.{is_foreign}
use uni_orion_os.Vm.Swap.{Page, Swap, slot_sector, swap_in, swap_out}
use uni_orion_os.Vm.Swap.Pages.{write_loop-Rewritten, read_loop-Rewritten}

module _ {S : Type 0} where
  abbrev pub slots : Swap S → ℕ
  slots s = s.swap_table.bit_cnt

  -- whether a slot is taken
  abbrev pub used : Swap S → ℕ → Bool
  used s = view s.swap_table

  -- sector `k` of the page in a slot
  abbrev pub content : Swap S → ℕ → ℕ → S
  content s slot k = s.swap_block.sectors (slot * 8 + k)

-- The device has room for all slots, and its sectors have 32-bit numbers.
pub record IsValid {S : Type 0} (s : Swap S) : Type 0 where
  pub table : View.IsValid s.swap_table
  pub room : slots s * 8 ≤ s.swap_block.size
  pub small : s.swap_block.size < 2 ^ 32
  pub own : is_foreign s.swap_block.kind ≡ false

-- A page went to a free slot; the other slots are as before.
pub record Stored {S : Type 0} (s : Swap S) (page : Page S) (slot : ℕ) (s' : Swap S) : Type 0 where
  pub valid : IsValid s'
  pub size : slots s' ≡ slots s
  pub inside : slot < slots s
  pub was_free : used s slot ≡ false
  pub taken : (j : ℕ) → used s' j ≡ (if slot == j then true else used s j)
  pub contents : (j k : ℕ) → k < 8 → content s' j k ≡ (if slot == j then page k else content s j k)

-- The outcomes of `swap_out`.
pub data Outcome {S : Type 0} (s : Swap S) (page : Page S) : Option ℕ → Swap S → Type 0 where
  stored : {slot : ℕ} {s' : Swap S} → Stored s page slot s' → Outcome s page (some slot) s'
  full : ((j : ℕ) → j < slots s → used s j ≡ true) → Outcome s page none s

module _ {S : Type 0} where
  -- one slot is a group of one bit
  full_lem :
      (s : Swap S)
      → ((j : ℕ) → 0 ≤ j → j + 1 ≤ slots s → (i : ℕ) × (j ≤ i) × (i < j + 1) × (used s i ≡ true))
      → (j : ℕ) → j < slots s
      → used s j ≡ true
  full_lem s mixed j h =
      let (i, le, lt, e) = mixed j (omega arith) (omega arith) in
      let same : i ≡ j = omega arith in rw (← same) e

  -- On a valid swap space, swap_out does not panic. Either it returns a slot that was free: the
  -- slot now is used and holds the page, the contents and the use of every other slot are
  -- unchanged, and the swap space is valid; or it returns -1, every slot is used and the state
  -- is unchanged.
  pub swap_out-Outcome :
      (s : Swap S) (page : Page S)
      → IsValid s
      → (r : Option ℕ) × (s' : Swap S) × (swap_out s page ≡ some (r, s')) × Outcome s page r s'
  unfolding swap_out
  swap_out-Outcome s page valid =
      let (r, table, e, f) =
        scan_and_flip-FlipOutcome s.swap_table 0 1 false valid.table (omega arith) in
      go r table e f
    where
      go :
          (r : ℕ) (table : Bitmap)
          → bitmap_scan_and_flip s.swap_table 0 1 false ≡ some (r, table)
          → FlipOutcome s.swap_table 0 1 false r table
          → (o : Option ℕ) × (s' : Swap S) × (swap_out s page ≡ some (o, s')) × Outcome s page o s'
      go r table e (failed gone mixed same) = (
        none,
        s,
        rw (e, eq→== r bitmap_error gone) (ap (λ t. some (none, record s { swap_table = t })) same),
        full (full_lem s mixed),
      )
      go r table e (taken here scan fits group done) =
          let at : slot_sector r ≡ r * 8 = omega (arith, valid.room, valid.small) in
          let apart : (r == bitmap_error) ≡ false = ground arith in
          let (block, w, rest) =
            write_loop-Rewritten 8 0 (slot_sector r) s.swap_block page (omega (arith, valid.room))
              valid.small valid.own in
          (
            some r,
            record { swap_table = table; swap_block = block },
            rw (e, apart) (rw w refl),
            stored (record {
              valid = record {
                table = done.valid;
                room = ground (arith, done.size, rest.size, valid.room);
                small = ground (arith, rest.size, valid.small);
                own = rw rest.kind valid.own;
              };
              size = done.size;
              inside = omega arith;
              was_free = group r (omega arith) (omega arith);
              taken = λ j. done.bits j ∙ ground arith;
              contents = λ j k h. rest.sectors (j * 8 + k) ∙ ground arith;
            }),
          )

-- A page was read back from a slot, which is free now; the device is as before.
pub record Restored {S : Type 0} (s : Swap S) (old : Page S) (slot : ℕ) (page : Page S)
    (s' : Swap S) : Type 0 where
  pub valid : IsValid s'
  pub size : slots s' ≡ slots s
  pub freed : (j : ℕ) → used s' j ≡ (if slot == j then false else used s j)
  pub contents : (j k : ℕ) → content s' j k ≡ content s j k
  pub read : (k : ℕ) → page k ≡ (if ltb k 8 then content s slot k else old k)

module _ {S : Type 0} where
  -- On a valid swap space and for an existing slot, swap_in does not panic, fills the first
  -- eight sectors of the page from the slot and no other, frees exactly that slot, and leaves
  -- the contents of all slots unchanged and the swap space valid.
  pub swap_in-Restored :
      (s : Swap S) (old : Page S) (slot : ℕ)
      → IsValid s
      → slot < slots s
      → (page : Page S) × (s' : Swap S) × (swap_in s old slot ≡ some (page, s'))
        × Restored s old slot page s'
  unfolding swap_in
  swap_in-Restored s old slot valid inside =
      let at : slot_sector slot ≡ slot * 8 = omega (arith, valid.room, valid.small) in
      let (page, block, e, same, got) =
        read_loop-Rewritten 8 0 (slot_sector slot) s.swap_block old (omega (arith, valid.room))
          valid.small in
      let (table, e', done) = reset-Yields {b = s.swap_table} {idx = slot} valid.table inside in
      (
        page,
        record { swap_table = table; swap_block = block },
        rw e (rw e' refl),
        record {
          valid = record {
            table = done.valid;
            room = ground (arith, done.size, same.size, valid.room);
            small = ground (arith, same.size, valid.small);
            own = rw same.kind valid.own;
          };
          size = done.size;
          freed = done.bits;
          contents = λ j k. same.sectors (j * 8 + k);
          read = λ k. got k ∙ ground arith;
        },
      )

  -- On a valid swap space, if swap_out stored a page in a slot, then swap_in of that slot does
  -- not panic, delivers the eight sectors of that page, and leaves used exactly the slots that
  -- were used before swap_out.
  pub swap_in-swap_out :
      (s : Swap S) (page old : Page S) {slot : ℕ} {s' : Swap S}
      → IsValid s
      → swap_out s page ≡ some (some slot, s')
      → (page' : Page S) × (s'' : Swap S) × (swap_in s' old slot ≡ some (page', s''))
        × ((k : ℕ) → k < 8 → page' k ≡ page k)
        × ((j : ℕ) → used s'' j ≡ used s j)
  swap_in-swap_out s page old {slot} {s'} valid e =
      let (r, t, e', o) = swap_out-Outcome s page valid in go r t (sym e' ∙ e) o
    where
      go :
          (r : Option ℕ) (t : Swap S)
          → ◌≡◌ {A = Option (Option ℕ × Swap S)} (some (r, t)) (some (some slot, s'))
          → Outcome s page r t
          → (page' : Page S) × (s'' : Swap S) × (swap_in s' old slot ≡ some (page', s''))
            × ((k : ℕ) → k < 8 → page' k ≡ page k)
            × ((j : ℕ) → used s'' j ≡ used s j)
      go r t same (full _) = cc
      go r t same (stored {slot = n} {s' = u} st) =
          let slot_eq : slot ≡ n = cc in
          let state_eq : s' ≡ u = cc in
          let (page', s'', e, back) =
            swap_in-Restored t old n st.valid (omega (arith, st.size, st.inside)) in
          (
            page',
            s'',
            (λ i. swap_in (state_eq i) old (slot_eq i)) ∙ e,
            (λ k h. back.read k ∙ ground (arith, st.contents n k h)),
            λ j. back.freed j ∙ ground (arith, st.taken j, st.was_free),
          )
