-- ===== src/Strings/Tokens.antt =====
-- `strtok_r` cuts off the first token.
use uni_orion_os.Base.{
  ℕ, zero, suc, ◌+◌, ◌<◌, ◌≡◌, refl, ◌∙◌, sym, ap, inl, inr, Bool, true, false, not, Option, none,
  some, List, [], ◌∷◌, ◌++◌, ◌==◌, if◌then◌else◌, arith, Bool-cases, length, take, drop,
}
use mathlib.Core.Path.{subst}
use uni_orion_os.Strings.{contains, strcspn, strspn, strtok_r, start_of}

-- all characters are, or none is, among the delimiters
abbrev pub AllAmong : Bool → (delimiters : List ℕ) → List ℕ → Type 0
AllAmong b delimiters [] = Unit
AllAmong b delimiters (c ∷ s) = (contains delimiters c ≡ b) × AllAmong b delimiters s

-- so is the first character
abbrev pub HeadAmong : Bool → (delimiters : List ℕ) → List ℕ → Type 0
HeadAmong b delimiters [] = Unit
HeadAmong b delimiters (c ∷ s) = contains delimiters c ≡ b

-- a string cut behind its first `n` characters
record Cut (b : Bool) (delimiters s : List ℕ) (n : ℕ) : Type 0 where
  pub front : AllAmong b delimiters (take n s)
  pub behind : HeadAmong (not b) delimiters (drop n s)

strspn-Cut : (s delimiters : List ℕ) → Cut true delimiters s (strspn s delimiters)
unfolding strspn
strspn-Cut [] delimiters = record { front = tt; behind = tt }
strspn-Cut (c ∷ s) delimiters =
    let later = strspn-Cut s delimiters in
    elim (Bool-cases (contains delimiters c)) [
      | inl among ↦ rw among (record { front = (among, later.front); behind = later.behind })
      | inr other ↦ rw other (record { front = tt; behind = other })
    ]

strcspn-Cut : (s delimiters : List ℕ) → Cut false delimiters s (strcspn s delimiters)
unfolding strcspn
strcspn-Cut [] delimiters = record { front = tt; behind = tt }
strcspn-Cut (c ∷ s) delimiters =
    let later = strcspn-Cut s delimiters in
    elim (Bool-cases (contains delimiters c)) [
      | inl among ↦ rw among (record { front = tt; behind = among })
      | inr other ↦ rw other (record { front = (other, later.front); behind = later.behind })
    ]

pub take-drop : (n : ℕ) (s : List ℕ) → take n s ++ drop n s ≡ s
take-drop zero s = refl
take-drop (suc n) [] = refl
take-drop (suc n) (c ∷ s) = ap (λ t. c ∷ t) (take-drop n s)

drop-drop : (n : ℕ) (s : List ℕ) → drop (n + 1) s ≡ drop 1 (drop n s)
drop-drop zero s = refl
drop-drop (suc n) [] = nothing_left (suc n + 1)
  where
    nothing_left : (m : ℕ) → drop {A = ℕ} m [] ≡ []
    nothing_left zero = refl
    nothing_left (suc m) = refl
drop-drop (suc n) (c ∷ s) =
    let more : suc n + 1 ≡ suc (n + 1) = omega arith in
    ap (λ m. drop m (c ∷ s)) more ∙ drop-drop n s

-- What `strtok_r` makes of a string: the token, without delimiters and not empty, behind
-- delimiters only, and what is behind the delimiter that ends it.
pub data Token (s delimiters : List ℕ) : Option (List ℕ) × List ℕ → Type 0 where
  no_token : AllAmong true delimiters s → Token s delimiters (none, [])
  token :
      (skipped rest : List ℕ) {word : List ℕ}
      → s ≡ skipped ++ (word ++ rest)
      → AllAmong true delimiters skipped
      → AllAmong false delimiters word
      → 0 < length word
      → HeadAmong true delimiters rest
      → Token s delimiters (some word, drop 1 rest)

-- the rest of `strtok_r` behind the delimiters at the front
cut_word : (s delimiters : List ℕ) → Option (List ℕ) × List ℕ
cut_word s delimiters =
    if length s == 0
    then (none, [])
    else (some (take (strcspn s delimiters) s), drop (strcspn s delimiters + 1) s)

cut_word-Token :
    (s delimiters skipped rest : List ℕ)
    → s ≡ skipped ++ rest
    → AllAmong true delimiters skipped
    → HeadAmong false delimiters rest
    → Token s delimiters (cut_word rest delimiters)
unfolding cut_word strcspn
cut_word-Token s delimiters skipped [] e a h =
    no_token (subst (AllAmong true delimiters) (sym (e ∙ append_nil skipped)) a)
  where
    append_nil : (xs : List ℕ) → xs ++ [] ≡ xs
    append_nil [] = refl
    append_nil (x ∷ xs) = ap (λ ys. x ∷ ys) (append_nil xs)
cut_word-Token s delimiters skipped (c ∷ rest) e a h =
    let n = strcspn rest delimiters in
    let later = strcspn-Cut rest delimiters in
    let ending : drop (suc n + 1) (c ∷ rest) ≡ drop 1 (drop n rest) =
      drop-drop (suc n) (c ∷ rest) in
    subst (Token s delimiters) (ap (λ t. (some (c ∷ take n rest), t)) (sym ending) ∙ sym cut_here) (
      token skipped (drop n rest) (e ∙ ap (λ t. skipped ++ (c ∷ t)) (sym (take-drop n rest))) a
        (h, later.front) (omega arith) later.behind)
  where
    cut_here : cut_word (c ∷ rest) delimiters ≡ (
      some (c ∷ take (strcspn rest delimiters) rest),
      drop (suc (strcspn rest delimiters) + 1) (c ∷ rest),
    )
    cut_here = let busy : (suc (length rest) == 0) ≡ false = ground arith in rw (busy, h) refl

-- For every string, given as S or, where S is NULL, as the saved position, and every delimiters,
-- strtok_r either finds no token, and the string has only delimiters; or it finds a token that
-- is not empty, has no delimiter and stands behind delimiters only, and keeps what follows the
-- delimiter behind the token, or nothing where the string ends with the token.
pub strtok_r-Token :
    (start : Option (List ℕ)) (delimiters save : List ℕ)
    → Token (start_of start save) delimiters (strtok_r start delimiters save)
unfolding strtok_r cut_word
strtok_r-Token start delimiters save =
    let s = start_of start save in
    let cut = strspn-Cut s delimiters in
    cut_word-Token s delimiters (take (strspn s delimiters) s) (drop (strspn s delimiters) s)
      (sym (take-drop (strspn s delimiters) s)) cut.front cut.behind
