-- ===== src/Reader.antt =====
-- The text formats of src/reader.h, for unweighted graphs. What the extractions from a stream yield
-- is the input, and so are the words and lines of a file; characters are numbers. A weight that is
-- read is dropped when its NodeWeight becomes a vertex.
pub mod Formats
use shared_gapbs.Base.{
  ltb, ℕ, ℤ, pos, negsuc, ◌==ℤ◌, zero, suc, Bool, true, false, not, ◌&&◌, ◌||◌, Array, List, [],
  ◌∷◌, ◌==◌, if◌then◌else◌, Option, none, some, Run, done, exited, ◌>>=◌, minus_one, map,
}
use shared_gapbs.PVector.{PVector, null, push_back}

-- EdgePair of two `int32_t`
abbrev pub Edge : Type 0
Edge = ℤ × ℤ

-- `x - 1`
abbrev pub pred : ℤ → ℤ
pred (pos zero) = negsuc 0
pred (pos (suc n)) = pos n
pred (negsuc n) = negsuc (suc n)

abbrev pub word_eq : List ℕ → List ℕ → Bool
word_eq [] [] = true
word_eq [] (y ∷ ys) = false
word_eq (x ∷ xs) [] = false
word_eq (x ∷ xs) (y ∷ ys) = x == y && word_eq xs ys

-- `'.'`
abbrev pub dot : ℕ
dot = 46

-- The name from its last dot on.
abbrev pub from_last_dot : List ℕ → Option (List ℕ)
from_last_dot [] = none
from_last_dot (c ∷ cs) = elim (from_last_dot cs) [
  | some suffix ↦ some suffix
  | none ↦ if c == dot then some (c ∷ cs) else none
]

unfoldable pub get_suffix : List ℕ → Run (List ℕ)
get_suffix filename = elim (from_last_dot filename) [
  | some suffix ↦ done suffix
  | none ↦ exited minus_one
]

-- `el.push_back` of each edge that a loop reads.
unfoldable pub push_edges : PVector Edge → List Edge → Run (PVector Edge)
push_edges el [] = done el
push_edges el (e ∷ es) = push_back el e >>= λ el. push_edges el es

-- `junk` is what a null pointer is read as, which it never is.
unfoldable pub read_in_el : Array Edge → List Edge → Run (PVector Edge)
unfolding push_edges
read_in_el junk pairs = push_edges (null junk) pairs

unfoldable pub read_in_wel : Array Edge → List (ℤ × ℤ × ℤ) → Run (PVector Edge)
unfolding push_edges
read_in_wel junk triples = push_edges (null junk) (map (λ t. (t.0, t.1)) triples)

-- A line of a .gr file: an arc with its weight, or one that is ignored.
pub data GrLine : Type 0 where
  arc : ℤ → ℤ → ℤ → GrLine
  ignored : GrLine

unfoldable pub push_gr : PVector Edge → List GrLine → Run (PVector Edge)
push_gr el [] = done el
push_gr el (arc u v w ∷ lines) = push_back el (pred u, pred v) >>= λ el. push_gr el lines
push_gr el (ignored ∷ lines) = push_gr el lines

unfoldable pub read_in_gr : Array Edge → List GrLine → Run (PVector Edge)
unfolding push_gr
read_in_gr junk lines = push_gr (null junk) lines

-- A line of a METIS file behind its header: a comment, or the neighbours that are read from it.
pub data MetisLine : Type 0 where
  comment : MetisLine
  neighbours : List ℤ → MetisLine

-- The header's number of vertices, its format where it has one, and the lines behind it.
pub record MetisFile : Type 0 where
  pub num_nodes : ℤ
  pub fmt : Option ℤ
  pub lines : List MetisLine

-- `u < num_nodes`
abbrev pub below : ℕ → ℤ → Bool
below u (pos n) = ltb u n
below u (negsuc n) = false

-- From vertex `u` on; behind the last line the remaining vertices have no neighbours.
unfoldable pub push_metis : ℕ → ℤ → PVector Edge → List MetisLine → Run (PVector Edge)
unfolding push_edges
push_metis u num_nodes el [] = done el
push_metis u num_nodes el (comment ∷ lines) = push_metis u num_nodes el lines
push_metis u num_nodes el (neighbours vs ∷ lines) =
    if below u num_nodes
    then (push_edges el (map (λ v. (pos u, pred v)) vs) >>= λ el.
        push_metis (suc u) num_nodes el lines)
    else done el

-- The second result is `needs_weights`.
unfoldable pub read_in_metis : Array Edge → MetisFile → Run (PVector Edge × Bool)
unfolding push_metis
read_in_metis junk f = do
  read_weights ← elim f.fmt [
    | none ↦ done false
    | some fmt ↦
        if fmt ==ℤ pos 1
        then done true
        else (if not (fmt ==ℤ pos 0) && not (fmt ==ℤ pos 100)
            then exited (negsuc 19)
            else done false)
  ]
  el ← push_metis 0 f.num_nodes (null junk) f.lines
  done (el, not read_weights)
