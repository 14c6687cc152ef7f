-- ===== src/Filesys/Fd/Numbers.antt =====
-- The numbers that `fd_create` gives, and what the lookups say after opening and closing.
use uni_orion_os.Base.{
  ℕ, ◌+◌, ◌≤◌, ◌<◌, ◌≡◌, refl, inl, inr, false, ◌||◌, none, some, List, [], ◌∷◌, ◌++◌, ◌==◌, ltb,
  if◌then◌else◌, arith, Bool-cases,
}
use uni_orion_os.Kernel.Lists.{list_push_back}
use uni_orion_os.Filesys.Fd.{FdLink, max_fd, fd_create, fd_close, fd_get_link, is_open, fd_is_valid}

module _ {P : Type 0} where
  -- no two links of the list have one number
  abbrev pub IsDistinct : List (FdLink P) → Type 0
  IsDistinct [] = Unit
  IsDistinct (link ∷ links) = (is_open links link.fd ≡ false) × IsDistinct links

  max_fd-le : (m : ℕ) (links : List (FdLink P)) → m ≤ max_fd m links
  unfolding max_fd
  max_fd-le m [] = omega arith
  max_fd-le m (link ∷ links) =
      let below = max_fd-le (if ltb m link.fd then link.fd else m) links in ground (arith, below)

  unused_above : (m n : ℕ) (links : List (FdLink P)) → max_fd m links < n → is_open links n ≡ false
  unfolding max_fd is_open
  unused_above m n [] h = refl
  unused_above m n (link ∷ links) h =
      let below = max_fd-le (if ltb m link.fd then link.fd else m) links in
      let rest = unused_above (if ltb m link.fd then link.fd else m) n links h in
      ground (arith, below, rest)

  unused-fd_create : (links : List (FdLink P)) → is_open links (fd_create links) ≡ false
  unfolding fd_create
  unused-fd_create links = unused_above 2 (max_fd 2 links + 1) links (omega arith)

  no_link : (links : List (FdLink P)) (n : ℕ) → is_open links n ≡ false → fd_get_link links n ≡ none
  unfolding is_open fd_get_link
  no_link [] n h = refl
  no_link (l ∷ links) n h = ground (arith, no_link links n (ground arith))

  above_two : (links : List (FdLink P)) → 2 < fd_create links
  unfolding fd_create
  above_two links = omega (arith, max_fd-le 2 links)

  -- The number that fd_create gives is above 2, is not valid in either direction, and
  -- fd_get_link finds nothing under it.
  pub fd_is_valid-fd_create :
      (links : List (FdLink P)) (direction : ℕ)
      → (fd_is_valid links (fd_create links) direction ≡ false)
        × (fd_get_link links (fd_create links) ≡ none)
        × 2 < fd_create links
  unfolding fd_is_valid
  fd_is_valid-fd_create links direction =
      let unused = unused-fd_create links in
      let above = above_two links in
      (ground (arith, unused, above), no_link links (fd_create links) unused, above)

  is_open-append :
      (links : List (FdLink P)) (link : FdLink P) (n : ℕ)
      → is_open (links ++ (link ∷ [])) n ≡ (is_open links n || link.fd == n)
  unfolding is_open
  is_open-append [] link n = ground arith
  is_open-append (l ∷ links) link n = ground (arith, is_open-append links link n)

  -- After a link with an unused number is put at the end of the list, fd_get_link finds it under
  -- its number and finds what it found before under every other.
  pub fd_get_link-append :
      (links : List (FdLink P)) (link : FdLink P) (n : ℕ)
      → is_open links link.fd ≡ false
      → fd_get_link (list_push_back links link) n
        ≡ (if link.fd == n then some link else fd_get_link links n)
  unfolding is_open fd_get_link list_push_back
  fd_get_link-append [] link n h = refl
  fd_get_link-append (l ∷ links) link n h =
      ground (arith, fd_get_link-append links link n (ground arith))

  pub IsDistinct-append :
      (links : List (FdLink P)) (link : FdLink P)
      → IsDistinct links
      → is_open links link.fd ≡ false
      → IsDistinct (list_push_back links link)
  unfolding is_open list_push_back
  IsDistinct-append [] link d h = (refl, tt)
  IsDistinct-append (l ∷ links) link d h = (
    ground (arith, is_open-append links link l.fd, d.0),
    IsDistinct-append links link d.1 (ground arith),
  )

  -- On a list whose numbers are distinct, after fd_close of a number fd_get_link finds nothing
  -- under it and finds what it found before under every other.
  pub fd_get_link-fd_close :
      (links : List (FdLink P)) (fd n : ℕ)
      → IsDistinct links
      → fd_get_link (fd_close links fd) n ≡ (if fd == n then none else fd_get_link links n)
  unfolding fd_get_link fd_close
  fd_get_link-fd_close [] fd n d = ground arith
  fd_get_link-fd_close (l ∷ links) fd n d =
      let none_left = no_link links l.fd d.0 in
      ground (arith, none_left, fd_get_link-fd_close links fd n d.1)

  is_open-fd_close :
      (links : List (FdLink P)) (fd n : ℕ)
      → is_open links n ≡ false
      → is_open (fd_close links fd) n ≡ false
  unfolding is_open fd_close
  is_open-fd_close [] fd n h = refl
  is_open-fd_close (l ∷ links) fd n h = ground (arith, is_open-fd_close links fd n (ground arith))

  -- fd_close keeps the numbers of the links distinct.
  pub IsDistinct-fd_close :
      (links : List (FdLink P)) (fd : ℕ) → IsDistinct links → IsDistinct (fd_close links fd)
  unfolding fd_close
  IsDistinct-fd_close [] fd d = tt
  IsDistinct-fd_close (l ∷ links) fd d = elim (Bool-cases (l.fd == fd)) [
    | inl same ↦ rw same d.1
    | inr other ↦ rw other (is_open-fd_close links fd l.fd d.0, IsDistinct-fd_close links fd d.1)
  ]
