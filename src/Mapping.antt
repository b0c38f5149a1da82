-- ===== src/Mapping.antt =====
-- src/dmalloc.h: the allocators of the memory that the hosts share, the flush of the cache, and
-- the program's cleaner. What the operating system answers is an argument; the allocators yield
-- the system calls that they make, and a pointer or an exit code. Sizes are in GiB.
pub mod Laws
pub mod Reach
use shared_gapbs.Base.{
  ℕ, zero, suc, ◌+◌, ◌*◌, ◌/◌, ◌%◌, ◌^◌, Bool, Array, write, List, [], ◌∷◌, ◌==◌, ltb,
  if◌then◌else◌, Option, none, some, Run, done, exited, ◌>>=◌, pos, for_range, map,
}

-- ONE_G
abbrev pub one_g : ℕ
one_g = 2 ^ 30

-- `size * ONE_G`, in 64 bits
abbrev pub bytes_of : ℕ → ℕ
bytes_of size = size * one_g % 2 ^ 64

-- "/dev/dax0.0", "/dev/zero" and "/my_shmem2"
pub data Device : Type 0 where
  dax : Device
  dev_zero : Device
  shmem : Device

pub data Access : Type 0 where
  read_only : Access
  read_write : Access

-- `open`, `fopen` with mode "w+", `shm_open` with O_RDWR, `ftruncate`, and `mmap` of MAP_SHARED at
-- offset 0 with its length, its protection and the file.
pub data Call : Type 0 where
  open_file : Device → Access → Call
  fopen_file : Device → Access → Call
  shm_open : Device → Access → Call
  ftruncate : ℕ → ℕ → Call
  mmap : ℕ → Access → ℕ → Call

-- What the system answers: a descriptor or a pointer, or that the call failed.
pub record System : Type 0 where
  pub opens : Call → Option ℕ
  pub truncates : ℕ → ℕ → Bool
  pub maps : ℕ → Access → ℕ → Option ℕ

-- EXIT_FAILURE
abbrev pub failure : List Call → List Call × Run ℕ
failure calls = (calls, exited (pos 1))

-- The calls of a host from an open file on: it asks for `prot`, and `ptr == MAP_FAILED` is `none`.
unfoldable pub map_shared : System → ℕ → Access → ℕ → List Call × Run ℕ
map_shared sys len prot fd = elim (sys.maps len prot fd) [
  | some ptr ↦ (mmap len prot fd ∷ [], done ptr)
  | none ↦ failure (mmap len prot fd ∷ [])
]

-- A call before others.
abbrev pub after : Call → List Call × Run ℕ → List Call × Run ℕ
after call (calls, result) = (call ∷ calls, result)

unfoldable pub dmalloc : System → ℕ → ℕ → List Call × Run ℕ
unfolding map_shared
dmalloc sys size host_id =
    let call = open_file dax (if host_id == 0 then read_write else read_only) in
    elim (sys.opens call) [
      | none ↦ failure (call ∷ [])
      | some fd ↦ after call (
          if host_id == 0
          then map_shared sys (bytes_of size) read_write fd
          else map_shared sys (bytes_of size) read_only fd)
    ]

-- Both kinds of host open the file alike.
unfoldable pub hmalloc : System → ℕ → ℕ → List Call × Run ℕ
unfolding map_shared
hmalloc sys size host_id =
    let call = fopen_file dev_zero read_write in
    elim (sys.opens call) [
      | none ↦ failure (call ∷ [])
      | some fd ↦ after call (
          if host_id == 0
          then map_shared sys (bytes_of size) read_write fd
          else map_shared sys (bytes_of size) read_only fd)
    ]

unfoldable pub shmalloc : System → ℕ → ℕ → List Call × Run ℕ
unfolding map_shared
shmalloc sys size host_id = elim (sys.opens (shm_open shmem read_write)) [
  | none ↦ failure (shm_open shmem read_write ∷ [])
  | some fd ↦ after (shm_open shmem read_write) (
      if sys.truncates fd (bytes_of size)
      then after (ftruncate fd (bytes_of size)) (
          if host_id == 0
          then map_shared sys (bytes_of size) read_write fd
          else map_shared sys (bytes_of size) read_only fd)
      else failure (ftruncate fd (bytes_of size) ∷ []))
]

-- `for (i = first; i < stop; i += 8)`: the values of `i`; 8 is sizeof(size_t).
unfoldable pub steps : ℕ → ℕ → ℕ → List ℕ
steps zero i stop = []
steps (suc fuel) i stop = let rest = steps fuel (i + 8) stop in if ltb i stop then i ∷ rest else []

-- The addresses that are flushed. `clflushopt` takes a pointer to words of 8 bytes, moved by `i`.
unfoldable pub flush_x86_cache : ℕ → ℕ → List ℕ
unfolding steps
flush_x86_cache mmap_pointer size =
    map (λ i. mmap_pointer + 8 * i) (steps (bytes_of size / 8) 0 (bytes_of size / 8))

-- The memory after `arr[i] = 0` for every byte; another host only prints a warning.
unfoldable pub munmap_memory : System → ℕ → Bool → ℕ → Array ℕ → List Call × Run (Array ℕ)
unfolding dmalloc shmalloc
munmap_memory sys size test_mode host_id memory =
    if host_id == 0
    then (let (calls, result) =
          if test_mode then shmalloc sys size host_id else dmalloc sys size host_id in
        (
          calls,
          result >>= λ start.
              done (for_range (bytes_of size) 0 (λ i memory. write memory (start + i) 0) memory),
        ))
    else ([], done memory)

-- The constructor of the shared graph chooses where it stands.
unfoldable pub map_graph : System → ℕ → ℕ → ℕ → List Call × Run ℕ
unfolding dmalloc shmalloc
map_graph sys test_mode size_of_shmem host_id =
    if test_mode == 1 then shmalloc sys size_of_shmem host_id else dmalloc sys size_of_shmem host_id
