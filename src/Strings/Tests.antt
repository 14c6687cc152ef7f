-- ===== src/Strings/Tests.antt =====
-- Short strings and blocks.
use uni_orion_os.Base.{
  ◌-◌, min, arith, take, ℕ, ◌+◌, ◌≡◌, refl, some, none, List, [], ◌∷◌, ltb, if◌then◌else◌,
}
use uni_orion_os.Base.Panic.{◌>>=◌}
use uni_orion_os.Strings.{
  strlcat, Memory, negative, memmove, copy_down, strcmp, strlen, strchr, strstr, search, strtok_r,
  strspn, strcspn,
}
use uni_orion_os.Strings.Blocks.{MoveOutcome, memmove-MoveOutcome}
use uni_orion_os.Strings.Searching.{FirstAt, strstr-FirstAt}
use uni_orion_os.Strings.Copying.{Stored, IsString, strlcat-Stored}
use uni_orion_os.Strings.Tokens.{Token, strtok_r-Token}

-- the byte at an address is the address
abbrev numbers : Memory
numbers a = a

-- a block moved by one place, over itself
moved_up : (do r ← memmove numbers 11 10 3; some (r.1 13)) ≡ some 12
unfolding memmove copy_down
moved_up = refl

abbrev haystack : List ℕ
haystack = 97 ∷ 98 ∷ 97 ∷ 98 ∷ 99 ∷ []

found_second : strstr haystack (97 ∷ 98 ∷ 99 ∷ []) ≡ some 2
unfolding strstr search strlen
found_second = refl

less_than : strcmp (97 ∷ []) (98 ∷ []) ≡ negative
unfolding strcmp
less_than = refl

-- the string " a b" with blanks as delimiters
abbrev words : List ℕ
words = 32 ∷ 97 ∷ 32 ∷ 98 ∷ []

first_word : strtok_r (some words) (32 ∷ []) [] ≡ (some (97 ∷ []), 98 ∷ [])
unfolding strtok_r strspn strcspn strchr
first_word = refl

-- NULL goes on behind it
second_word : strtok_r none (32 ∷ []) (98 ∷ []) ≡ (some (98 ∷ []), [])
unfolding strtok_r strspn strcspn strchr
second_word = refl

memmove-MoveOutcome_example : MoveOutcome numbers 11 10 3 (memmove numbers 11 10 3)
memmove-MoveOutcome_example = memmove-MoveOutcome numbers 11 10 3

strstr-FirstAt_example : FirstAt haystack (97 ∷ 98 ∷ 99 ∷ []) (strstr haystack (97 ∷ 98 ∷ 99 ∷ []))
strstr-FirstAt_example = strstr-FirstAt haystack (97 ∷ 98 ∷ 99 ∷ [])

strtok_r-Token_example : Token words (32 ∷ []) (strtok_r (some words) (32 ∷ []) [])
strtok_r-Token_example = strtok_r-Token (some words) (32 ∷ []) []

-- three characters at the addresses 10 to 12
abbrev three : Memory
three a = if ltb a 13 then a else 0

three-IsString : IsString three 10 3
three-IsString = record { chars = λ k h. ground (arith, h); ends = refl }

strlcat-Stored_example :
    (n : ℕ) × (n ≡ min 5 (5 - 3 - 1))
    × (m' : Memory) × (strlcat 9 three 10 haystack 5 ≡ some (8, m'))
    × Stored (take n haystack) three m' (10 + 3)
strlcat-Stored_example =
    strlcat-Stored 9 three 10 3 haystack 5 (omega arith) three-IsString (omega arith) (omega arith)
