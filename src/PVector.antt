-- ===== src/PVector.antt =====
-- src/pvector.h: class pvector, a growable array whose growth is disabled in this version.
pub mod Laws
use shared_gapbs.Base.{
  ℕ, suc, ◌+◌, ◌*◌, Bool, true, false, Array, write, slice, List, ltb, ◌==◌, if◌then◌else◌, Run,
  done, exited, minus_one, ◌>>=◌, for_range, not,
}

-- `cells` are the cells from `start_`; `owned` says that `start_` is not null. Sizes are counted
-- from `start_`, and a vector that owns nothing has size and capacity 0.
pub record PVector {ℓ} (A : Type ℓ) : Type ℓ where
  pub cells : Array A
  pub owned : Bool
  pub size : ℕ
  pub capacity : ℕ

abbrev pub growth_factor : ℕ
growth_factor = 2

module _ {ℓ} {A : Type ℓ} where
  -- `v[n]` and `v[n] = x`, which test no bound
  abbrev pub get : PVector A → ℕ → A
  get v n = v.cells n

  abbrev pub put : PVector A → ℕ → A → PVector A
  put v n x = record v { cells = write v.cells n x }

  -- The default constructor and a vector that was moved from; `junk` stands for no memory at all.
  pub null : Array A → PVector A
  null junk = record { cells = junk; owned = false; size = 0; capacity = 0 }

  -- The allocation leaves what the memory held, `fresh`.
  abbrev pub new : Array A → ℕ → PVector A
  new fresh num_elements = record {
    cells = fresh;
    owned = true;
    size = num_elements;
    capacity = num_elements;
  }

  unfoldable pub fill : PVector A → A → PVector A
  fill v init_val = record v { cells = λ i. if ltb i v.size then init_val else v.cells i }

  unfoldable pub new_filled : Array A → ℕ → A → PVector A
  unfolding fill
  new_filled fresh num_elements init_val = fill (new fresh num_elements) init_val

  pub new_copy : Array A → Array A → ℕ → ℕ → PVector A
  new_copy fresh source copy_begin count =
      for_range count 0 (λ i v. put v i (source (copy_begin + i))) (new fresh count)

  -- The new vector, and what is left of the old one.
  pub move : PVector A → PVector A × PVector A
  unfolding null
  move other = (other, null other.cells)

  -- Whether ReleaseResources, and so the destructor, frees a block: it tests `start_` only.
  pub release_resources : PVector A → Bool
  release_resources v = v.owned

  -- `v = std::move(other)`: the two vectors after it, and whether a block was freed. `same` says
  -- that the two are one object.
  pub move_assign : Bool → PVector A → PVector A → PVector A × PVector A × Bool
  unfolding move release_resources
  move_assign same v other =
      if same then (v, other, false) else ((move other).0, (move other).1, release_resources v)

  -- The block is no longer freed.
  pub leak : PVector A → PVector A
  leak v = record v { owned = false }

  -- The process ends before anything is reserved.
  pub reserve : PVector A → ℕ → Run (PVector A)
  reserve v num_elements = exited minus_one

  pub resize : PVector A → ℕ → Run (PVector A)
  unfolding reserve
  resize v num_elements = do w ← reserve v num_elements; done (record w { size = num_elements })

  pub empty : PVector A → Bool
  empty v = v.size == 0

  pub clear : PVector A → PVector A
  clear v = record v { size = 0 }

  store_last : A → PVector A → PVector A
  store_last x v = record v { cells = write v.cells v.size x; size = suc v.size }

  pub push_back : PVector A → A → Run (PVector A)
  unfolding reserve store_last
  push_back v x = do
    w ←
        if v.size == v.capacity
        then reserve v (if v.capacity == 0 then 1 else v.capacity * growth_factor)
        else done v
    done (store_last x w)

  pub swap : PVector A × PVector A → PVector A × PVector A
  swap (v, w) = (w, v)

  -- What iteration from `begin()` to `end()` visits.
  abbrev pub to_list : PVector A → List A
  to_list v = slice v.cells 0 v.size
