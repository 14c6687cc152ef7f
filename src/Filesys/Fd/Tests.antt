-- ===== src/Filesys/Fd/Tests.antt =====
-- A process with two open descriptors.
use uni_orion_os.Base.{ℕ, ◌≡◌, refl, false, none, List, [], ◌∷◌, if◌then◌else◌, ◌==◌}
use uni_orion_os.Filesys.Fd.{FdLink, max_fd, fd_create, fd_close, fd_get_link, is_open}
use uni_orion_os.Filesys.Fd.Numbers.{IsDistinct, fd_get_link-fd_close}

abbrev link : ℕ → FdLink ℕ
link n = record { fd = n; is_directory = false; target = n }

abbrev two_links : List (FdLink ℕ)
two_links = link 5 ∷ link 3 ∷ []

create_test : fd_create two_links ≡ 6
unfolding fd_create max_fd
create_test = refl

two_links-IsDistinct : IsDistinct two_links
unfolding is_open
two_links-IsDistinct = (refl, (refl, tt))

fresh : is_open two_links 6 ≡ false
unfolding is_open
fresh = refl

fd_get_link-fd_close_example :
    fd_get_link (fd_close two_links 5) 3 ≡ (if 5 == 3 then none else fd_get_link two_links 3)
fd_get_link-fd_close_example = fd_get_link-fd_close two_links 5 3 two_links-IsDistinct
