-- ===== src/Reader/Formats.antt =====
-- Matrix Market files and the dispatch on the suffix, ReadInMTX and ReadFile of src/reader.h.
use shared_gapbs.Base.{
  ℕ, ℤ, negsuc, ◌==ℤ◌, Bool, true, false, not, ◌||◌, Array, List, [], ◌∷◌, if◌then◌else◌, Option,
  none, some, Run, done, exited, ◌>>=◌,
}
use shared_gapbs.PVector.{PVector, null, push_back}
use shared_gapbs.Reader.{
  Edge, pred, word_eq, get_suffix, read_in_el, read_in_wel, GrLine, read_in_gr, MetisFile,
  read_in_metis,
}

-- The words that the code compares with.
-- "%%MatrixMarket"
abbrev pub banner : List ℕ
banner = 37 ∷ 37 ∷ 77 ∷ 97 ∷ 116 ∷ 114 ∷ 105 ∷ 120 ∷ 77 ∷ 97 ∷ 114 ∷ 107 ∷ 101 ∷ 116 ∷ []

-- "matrix"
abbrev pub matrix : List ℕ
matrix = 109 ∷ 97 ∷ 116 ∷ 114 ∷ 105 ∷ 120 ∷ []

-- "coordinate"
abbrev pub coordinate : List ℕ
coordinate = 99 ∷ 111 ∷ 111 ∷ 114 ∷ 100 ∷ 105 ∷ 110 ∷ 97 ∷ 116 ∷ 101 ∷ []

-- "complex"
abbrev pub complex : List ℕ
complex = 99 ∷ 111 ∷ 109 ∷ 112 ∷ 108 ∷ 101 ∷ 120 ∷ []

-- "pattern"
abbrev pub pattern : List ℕ
pattern = 112 ∷ 97 ∷ 116 ∷ 116 ∷ 101 ∷ 114 ∷ 110 ∷ []

-- "real"
abbrev pub real : List ℕ
real = 114 ∷ 101 ∷ 97 ∷ 108 ∷ []

-- "double"
abbrev pub double : List ℕ
double = 100 ∷ 111 ∷ 117 ∷ 98 ∷ 108 ∷ 101 ∷ []

-- "integer"
abbrev pub integer : List ℕ
integer = 105 ∷ 110 ∷ 116 ∷ 101 ∷ 103 ∷ 101 ∷ 114 ∷ []

-- "symmetric"
abbrev pub symmetric : List ℕ
symmetric = 115 ∷ 121 ∷ 109 ∷ 109 ∷ 101 ∷ 116 ∷ 114 ∷ 105 ∷ 99 ∷ []

-- "general"
abbrev pub general : List ℕ
general = 103 ∷ 101 ∷ 110 ∷ 101 ∷ 114 ∷ 97 ∷ 108 ∷ []

-- "skew-symmetric"
abbrev pub skew_symmetric : List ℕ
skew_symmetric =
    115 ∷ 107 ∷ 101 ∷ 119 ∷ 45 ∷ 115 ∷ 121 ∷ 109 ∷ 109 ∷ 101 ∷ 116 ∷ 114 ∷ 105 ∷ 99 ∷ []

-- ".el"
abbrev pub dot_el : List ℕ
dot_el = 46 ∷ 101 ∷ 108 ∷ []

-- ".wel"
abbrev pub dot_wel : List ℕ
dot_wel = 46 ∷ 119 ∷ 101 ∷ 108 ∷ []

-- ".gr"
abbrev pub dot_gr : List ℕ
dot_gr = 46 ∷ 103 ∷ 114 ∷ []

-- ".graph"
abbrev pub dot_graph : List ℕ
dot_graph = 46 ∷ 103 ∷ 114 ∷ 97 ∷ 112 ∷ 104 ∷ []

-- ".mtx"
abbrev pub dot_mtx : List ℕ
dot_mtx = 46 ∷ 109 ∷ 116 ∷ 120 ∷ []

-- The words of the header, its sizes, and the lines of the edges with their two numbers; `none` is
-- an empty line.
pub record MtxFile : Type 0 where
  pub start : List ℕ
  pub object : List ℕ
  pub format : List ℕ
  pub field : List ℕ
  pub symmetry : List ℕ
  pub m : ℤ
  pub n : ℤ
  pub lines : List (Option (ℤ × ℤ))

unfoldable pub push_mtx : Bool → PVector Edge → List (Option (ℤ × ℤ)) → Run (PVector Edge)
push_mtx undirected el [] = done el
push_mtx undirected el (none ∷ lines) = push_mtx undirected el lines
push_mtx undirected el (some (u, v) ∷ lines) = do
  el ← push_back el (pred u, pred v)
  el ← if undirected then push_back el (pred v, pred u) else done el
  push_mtx undirected el lines

-- Whether weights are read, from the field's word.
unfoldable pub mtx_weights : List ℕ → Run Bool
mtx_weights field =
    if word_eq field complex
    then exited (negsuc 22)
    else (if word_eq field pattern
        then done false
        else (if word_eq field real || word_eq field double || word_eq field integer
            then done true
            else exited (negsuc 23)))

unfoldable pub mtx_undirected : List ℕ → Run Bool
mtx_undirected symmetry =
    if word_eq symmetry symmetric
    then done true
    else (if word_eq symmetry general || word_eq symmetry skew_symmetric
        then done false
        else exited (negsuc 24))

unfoldable pub read_in_mtx : Array Edge → MtxFile → Run (PVector Edge × Bool)
unfolding push_mtx mtx_weights mtx_undirected
read_in_mtx junk f =
    if not (word_eq f.start banner)
    then exited (negsuc 20)
    else (if not (word_eq f.object matrix) || not (word_eq f.format coordinate)
        then exited (negsuc 21)
        else (mtx_weights f.field >>= λ read_weights. mtx_undirected f.symmetry >>= λ undirected.
            if not (f.m ==ℤ f.n)
            then exited (negsuc 25)
            else (push_mtx undirected (null junk) f.lines >>= λ el. done (el, not read_weights))))

-- What a file holds, as each of the formats reads it.
pub record Contents : Type 0 where
  pub el : List (ℤ × ℤ)
  pub wel : List (ℤ × ℤ × ℤ)
  pub gr : List GrLine
  pub metis : MetisFile
  pub mtx : MtxFile

-- `needs_weights` is the caller's variable, and `opens` tells whether the file can be opened.
unfoldable pub read_file : Array Edge → List ℕ → Bool → Contents → Bool → Run (PVector Edge × Bool)
unfolding get_suffix read_in_el read_in_wel read_in_gr read_in_metis read_in_mtx
read_file junk filename opens file needs_weights = get_suffix filename >>= λ suffix.
    if not opens
    then exited (negsuc 1)
    else (if word_eq suffix dot_el
        then (read_in_el junk file.el >>= λ el. done (el, needs_weights))
        else (if word_eq suffix dot_wel
            then (read_in_wel junk file.wel >>= λ el. done (el, false))
            else (if word_eq suffix dot_gr
                then (read_in_gr junk file.gr >>= λ el. done (el, false))
                else (if word_eq suffix dot_graph
                    then read_in_metis junk file.metis
                    else (if word_eq suffix dot_mtx
                        then read_in_mtx junk file.mtx
                        else exited (negsuc 2))))))
