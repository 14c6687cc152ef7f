-- ===== src/Strings/Searching.antt =====
-- `strstr` finds the first occurrence.
use uni_orion_os.Base.{
  ℕ, zero, suc, ◌+◌, ◌-◌, ◌≤◌, ◌<◌, ◌≡◌, refl, ◌∙◌, sym, ap, inl, inr, Bool, true, false, Option,
  none, some, List, [], ◌∷◌, ◌&&◌, leb, ◌==◌, if◌then◌else◌, arith, Bool-cases, length, drop,
}
use mathlib.Core.Path.{subst}
use uni_orion_os.Base.Slices.{length-drop}
use uni_orion_os.Strings.{strlen, starts, search, strstr}

-- The first of the places from `i` on where the needle starts.
data NextAt (haystack needle : List ℕ) (i : ℕ) : Option ℕ → Type 0 where
  next_at :
      {k : ℕ}
      → starts needle (drop k haystack) ≡ true
      → ((j : ℕ) → i ≤ j → j < k → starts needle (drop j haystack) ≡ false)
      → NextAt haystack needle i (some k)
  no_more :
      ((j : ℕ)
        → i ≤ j
        → starts needle (drop j haystack) ≡ true
        → length haystack < j + length needle)
      → NextAt haystack needle i none

-- behind the last place where there is room
no_room :
    (haystack needle : List ℕ) (i : ℕ)
    → length haystack < i + length needle
    → NextAt haystack needle i none
no_room haystack needle i h = no_more (λ j l s. omega (arith, h, l))

search-NextAt :
    (rounds i : ℕ) (haystack needle : List ℕ)
    → length haystack < i + rounds + length needle
    → NextAt haystack needle i (search rounds i haystack needle)
unfolding search
search-NextAt zero i haystack needle h = no_room haystack needle i (omega arith)
search-NextAt (suc rounds) i haystack needle h =
    go (search rounds (i + 1) haystack needle)
      (search-NextAt rounds (i + 1) haystack needle (omega arith)) (starts needle (drop i haystack))
      refl
  where
    at_or_after : {P : ℕ → Type 0} → P i → ((j : ℕ) → i + 1 ≤ j → P j) → (j : ℕ) → i ≤ j → P j
    at_or_after {P} here later j l = elim (Bool-cases (i == j)) [
      | inl same ↦ let e : i ≡ j = ground (arith, same) in subst P e here
      | inr other ↦ later j (ground (arith, other, l))
    ]

    go :
        (o : Option ℕ)
        → NextAt haystack needle (i + 1) o
        → (b : Bool) → starts needle (drop i haystack) ≡ b
        → NextAt haystack needle i (if b then some i else o)
    go o f true e = next_at e (λ j l k. absurd (omega arith))
    go (some k) (next_at at before) false e =
        next_at at
          (at_or_after {P = λ j. j < k → starts needle (drop j haystack) ≡ false} (λ l. e) before)
    go none (no_more h) false e = no_more (
        at_or_after
          {P = λ j. starts needle (drop j haystack) ≡ true → length haystack < j + length needle}
          (λ s. let clash : false ≡ true = sym e ∙ s in ground (arith, clash)) h)

starts-le :
    (needle haystack : List ℕ) → starts needle haystack ≡ true → length needle ≤ length haystack
starts-le [] haystack h = omega arith
starts-le (n ∷ needle) [] h = absurd (ground (arith, h))
starts-le (n ∷ needle) (x ∷ haystack) h = elim (Bool-cases (n == x)) [
  | inl same ↦
      let later =
        starts-le needle haystack (sym (ap (λ b. b && starts needle haystack) same) ∙ h) in
      omega (arith, later)
  | inr other ↦
      let clash : false ≡ true = sym (ap (λ b. b && starts needle haystack) other) ∙ h in
      absurd (ground (arith, clash))
]

strstr-NextAt : (haystack needle : List ℕ) → NextAt haystack needle 0 (strstr haystack needle)
unfolding strstr strlen
strstr-NextAt haystack needle = elim (Bool-cases (leb (length needle) (length haystack))) [
  | inl fits ↦
      rw fits (
        search-NextAt (length haystack - length needle + 1) 0 haystack needle
          (ground (arith, fits)))
  | inr long ↦ rw long (no_room haystack needle 0 (ground (arith, long)))
]

-- The first place where the needle starts, if it starts anywhere.
pub data FirstAt (haystack needle : List ℕ) : Option ℕ → Type 0 where
  first_at :
      {k : ℕ}
      → starts needle (drop k haystack) ≡ true
      → ((j : ℕ) → j < k → starts needle (drop j haystack) ≡ false)
      → FirstAt haystack needle (some k)
  nowhere : ((j : ℕ) → starts needle (drop j haystack) ≡ false) → FirstAt haystack needle none

starts_nothing : (needle haystack : List ℕ) → length needle ≡ 0 → starts needle haystack ≡ true
starts_nothing [] haystack h = refl
starts_nothing (n ∷ needle) haystack h = absurd (omega arith)

all_places :
    (haystack needle : List ℕ) (o : Option ℕ)
    → NextAt haystack needle 0 o
    → FirstAt haystack needle o
all_places haystack needle o (next_at at before) = first_at at (λ j l. before j (omega arith) l)
all_places haystack needle o (no_more h) = nowhere (λ j.
    elim (Bool-cases (starts needle (drop j haystack))) [
      | inr ne ↦ ne
      | inl at ↦
          let fits = starts-le needle (drop j haystack) at in
          let room = h j (omega arith) at in
          let size = length-drop haystack j in
          let empty : length needle ≡ 0 = omega (arith, fits, room, size) in
          absurd (omega (arith, empty, h 0 (omega arith) (starts_nothing needle haystack empty)))
    ])

-- For every two strings, strstr gives the first place where the second string starts in the
-- first, or NULL, and the second string starts at no place of the first.
pub strstr-FirstAt : (haystack needle : List ℕ) → FirstAt haystack needle (strstr haystack needle)
strstr-FirstAt haystack needle =
    all_places haystack needle (strstr haystack needle) (strstr-NextAt haystack needle)
