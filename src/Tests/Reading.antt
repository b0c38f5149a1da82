-- ===== src/Tests/Reading.antt =====
-- The suffix of the name of a file (src/reader.h).
use shared_gapbs.Base.{done, ℕ, ◌≡◌, refl, List, ◌∷◌}
use shared_gapbs.Reader.{get_suffix}
use shared_gapbs.Reader.Formats.{dot_mtx}

-- "g.mtx"
abbrev filename : List ℕ
filename = 103 ∷ dot_mtx

suffix_of_filename : get_suffix filename ≡ done dot_mtx
unfolding get_suffix
suffix_of_filename = refl
