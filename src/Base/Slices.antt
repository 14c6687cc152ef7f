-- ===== src/Base/Slices.antt =====
-- Parts of lists of numbers, as what stands at each place.
use uni_orion_os.Base.{
  ℕ, zero, suc, ◌+◌, ◌-◌, ◌≤◌, ◌<◌, ◌≡◌, refl, ◌∙◌, sym, ap, List, [], ◌∷◌, ◌++◌, arith, length,
  take, drop, get_or,
}

-- the values of `g` at `n` places from `i` on
abbrev pub tabulate : (ℕ → ℕ) → (i n : ℕ) → List ℕ
tabulate g i zero = []
tabulate g i (suc n) = g i ∷ tabulate g (i + 1) n

pub tabulate-same :
    (g h : ℕ → ℕ) (i j n : ℕ)
    → ((k : ℕ) → k < n → g (i + k) ≡ h (j + k))
    → tabulate g i n ≡ tabulate h j n
tabulate-same g h i j zero same = refl
tabulate-same g h i j (suc n) same =
    let head : g i ≡ h j = ap g (omega arith) ∙ same 0 (omega arith) ∙ ap h (omega arith) in
    let tail =
      tabulate-same g h (i + 1) (j + 1) n
        (λ k l. ap g (omega arith) ∙ same (k + 1) (omega arith) ∙ ap h (omega arith)) in
    rw (head, tail) refl

pub tabulate-append :
    (g : ℕ → ℕ) (i m n : ℕ) → tabulate g i (m + n) ≡ tabulate g i m ++ tabulate g (i + m) n
tabulate-append g i zero n =
    let same : zero + n ≡ n = omega arith in
    let here : i ≡ i + zero = omega arith in ap (tabulate g i) same ∙ ap (λ j. tabulate g j n) here
tabulate-append g i (suc m) n =
    let more : suc m + n ≡ suc (m + n) = omega arith in
    let behind : i + 1 + m ≡ i + suc m = omega arith in
    ap (tabulate g i) more
    ∙ ap (λ xs. g i ∷ xs)
        (tabulate-append g (i + 1) m n ∙ ap (λ j. tabulate g (i + 1) m ++ tabulate g j n) behind)

pub length-tabulate : (g : ℕ → ℕ) (i n : ℕ) → length (tabulate g i n) ≡ n
length-tabulate g i zero = refl
length-tabulate g i (suc n) = ap suc (length-tabulate g (i + 1) n)

-- what stands at a place, and 0 behind the end
abbrev pub byte_of : List ℕ → ℕ → ℕ
byte_of xs i = get_or xs i 0

pub behind_head : (x : ℕ) (xs : List ℕ) {j k : ℕ} → j ≡ suc k → byte_of xs k ≡ byte_of (x ∷ xs) j
behind_head x xs e = sym (ap (byte_of (x ∷ xs)) e)

take-tabulate : (xs : List ℕ) (n : ℕ) → n ≤ length xs → take n xs ≡ tabulate (byte_of xs) 0 n
take-tabulate xs zero h = refl
take-tabulate [] (suc n) h = absurd (omega arith)
take-tabulate (x ∷ xs) (suc n) h =
    ap (λ ys. x ∷ ys)
      (take-tabulate xs n (omega arith)
        ∙ tabulate-same (byte_of xs) (byte_of (x ∷ xs)) 0 1 n
            (λ k l. behind_head x xs (omega arith)))

pub slice-tabulate :
    (xs : List ℕ) (i n : ℕ) → i + n ≤ length xs → take n (drop i xs) ≡ tabulate (byte_of xs) i n
slice-tabulate xs zero n h = take-tabulate xs n (omega arith)
slice-tabulate [] (suc i) zero h = refl
slice-tabulate [] (suc i) (suc n) h = absurd (omega arith)
slice-tabulate (x ∷ xs) (suc i) n h =
    slice-tabulate xs i n (omega arith)
    ∙ tabulate-same (byte_of xs) (byte_of (x ∷ xs)) i (suc i) n
        (λ k l. behind_head x xs (omega arith))

pub length-take : (xs : List ℕ) (n : ℕ) → n ≤ length xs → length (take n xs) ≡ n
length-take xs zero h = refl
length-take [] (suc n) h = absurd (omega arith)
length-take (x ∷ xs) (suc n) h = ap suc (length-take xs n (omega arith))

pub length-drop : (xs : List ℕ) (n : ℕ) → length (drop n xs) ≡ length xs - n
length-drop xs zero = omega arith
length-drop [] (suc n) = omega arith
length-drop (x ∷ xs) (suc n) = length-drop xs n ∙ omega arith

pub byte_of-drop : (xs : List ℕ) (n i : ℕ) → byte_of (drop n xs) i ≡ byte_of xs (n + i)
byte_of-drop xs zero i = ap (byte_of xs) (omega arith)
byte_of-drop [] (suc n) i = refl
byte_of-drop (x ∷ xs) (suc n) i = byte_of-drop xs n i ∙ behind_head x xs (omega arith)

pub byte_of-take : (xs : List ℕ) (n i : ℕ) → i < n → byte_of (take n xs) i ≡ byte_of xs i
byte_of-take xs zero i h = absurd (omega arith)
byte_of-take [] (suc n) i h = refl
byte_of-take (x ∷ xs) (suc n) zero h = refl
byte_of-take (x ∷ xs) (suc n) (suc i) h = byte_of-take xs n i (omega arith)

pub byte_of-left : (xs ys : List ℕ) (i : ℕ) → i < length xs → byte_of (xs ++ ys) i ≡ byte_of xs i
byte_of-left [] ys i h = absurd (omega arith)
byte_of-left (x ∷ xs) ys zero h = refl
byte_of-left (x ∷ xs) ys (suc i) h = byte_of-left xs ys i (omega arith)

pub byte_of-right : (xs ys : List ℕ) (i : ℕ) → byte_of (xs ++ ys) (length xs + i) ≡ byte_of ys i
byte_of-right [] ys i = ap (byte_of ys) (omega arith)
byte_of-right (x ∷ xs) ys i = sym (behind_head x (xs ++ ys) (omega arith)) ∙ byte_of-right xs ys i
