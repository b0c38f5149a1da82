-- ===== src/Mapping/Laws.antt =====
-- What the allocators ask of the system, and what the flush and the cleaner reach (src/dmalloc.h).
use shared_gapbs.Base.{
  Option-cases, true, false, subst, sym, Bool, ℕ, ◌≡◌, refl, ◌⊎◌, inl, inr, List, [], ◌∷◌, ◌==◌,
  if◌then◌else◌, some, Run, done, exited, pos,
}
use shared_gapbs.Mapping.{
  shmem, dax, dev_zero, System, Call, Device, Access, read_only, read_write, open_file, fopen_file,
  shm_open, ftruncate, mmap, bytes_of, map_shared, after, failure, dmalloc, hmalloc, shmalloc,
  map_graph,
}

-- Only the master may write to the mapping.
abbrev pub access_of : ℕ → Access
access_of host_id = if host_id == 0 then read_write else read_only

-- The device of a host is opened for its access, and the two other files for writing by every host.
abbrev pub file_access : Device → ℕ → Access
file_access dax host_id = access_of host_id
file_access dev_zero host_id = read_write
file_access shmem host_id = read_write

-- What the calls of a host open its file and its mapping for.
abbrev pub Asks : ℕ → List Call → Type 0
Asks host_id [] = Unit
Asks host_id (open_file device a ∷ calls) = (a ≡ file_access device host_id) × Asks host_id calls
Asks host_id (fopen_file device a ∷ calls) = (a ≡ file_access device host_id) × Asks host_id calls
Asks host_id (shm_open device a ∷ calls) = (a ≡ file_access device host_id) × Asks host_id calls
Asks host_id (ftruncate fd len ∷ calls) = Asks host_id calls
Asks host_id (mmap len a fd ∷ calls) = (a ≡ access_of host_id) × Asks host_id calls

-- The calls ask for that access, and the call yields the pointer of a mapping of the whole size with
-- the host's access, or ends with EXIT_FAILURE.
pub record IsMapped (sys : System) (size host_id : ℕ) (r : List Call × Run ℕ) : Type 0 where
  pub asks : Asks host_id r.0
  pub result :
      ((ptr fd : ℕ) × (r.1 ≡ done ptr)
        × (sys.maps (bytes_of size) (access_of host_id) fd ≡ some ptr))
      ⊎ (r.1 ≡ exited (pos 1))

map_shared-IsMapped :
    (sys : System) (size host_id fd : ℕ)
    → IsMapped sys size host_id (map_shared sys (bytes_of size) (access_of host_id) fd)
unfolding map_shared
map_shared-IsMapped sys size host_id fd =
    elim (Option-cases (sys.maps (bytes_of size) (access_of host_id) fd)) [
      | inl e ↦ rw (e, map_shared) (record { asks = (refl, tt); result = inr refl })
      | inr (ptr, e) ↦
          rw (e, map_shared) (record { asks = (refl, tt); result = inl (ptr, fd, refl, e) })
    ]

-- Both branches of an allocator ask for the host's access.
chosen :
    (sys : System) (size host_id fd : ℕ)
    → IsMapped sys size host_id (
        if host_id == 0
        then map_shared sys (bytes_of size) read_write fd
        else map_shared sys (bytes_of size) read_only fd)
chosen sys size host_id fd =
    subst (IsMapped sys size host_id) (sym (either (host_id == 0)))
      (map_shared-IsMapped sys size host_id fd)
  where
    either :
        (master : Bool)
        → (if master
            then map_shared sys (bytes_of size) read_write fd
            else map_shared sys (bytes_of size) read_only fd)
          ≡ map_shared sys (bytes_of size) (if master then read_write else read_only) fd
    either true = refl
    either false = refl

-- A file that cannot be opened, or made large enough, ends the run.
failure-IsMapped :
    (sys : System) (size host_id : ℕ) (call : Call)
    → Asks host_id (call ∷ [])
    → IsMapped sys size host_id (failure (call ∷ []))
failure-IsMapped sys size host_id call h = record { asks = h; result = inr refl }

after-IsMapped :
    (sys : System) (size host_id : ℕ) (call : Call) (r : List Call × Run ℕ)
    → Asks host_id (call ∷ r.0)
    → IsMapped sys size host_id r
    → IsMapped sys size host_id (after call r)
after-IsMapped sys size host_id call r h m = record { asks = h; result = m.result }

pub dmalloc-IsMapped :
    (sys : System) (size host_id : ℕ) → IsMapped sys size host_id (dmalloc sys size host_id)
unfolding dmalloc
dmalloc-IsMapped sys size host_id =
    let call = open_file dax (access_of host_id) in
    elim (Option-cases (sys.opens call)) [
      | inl e ↦ rw (e, dmalloc) (failure-IsMapped sys size host_id call (refl, tt))
      | inr (fd, e) ↦
          let m = chosen sys size host_id fd in
          rw (e, dmalloc) (after-IsMapped sys size host_id call _ (refl, m.asks) m)
    ]

hmalloc-IsMapped :
    (sys : System) (size host_id : ℕ) → IsMapped sys size host_id (hmalloc sys size host_id)
unfolding hmalloc
hmalloc-IsMapped sys size host_id =
    let call = fopen_file dev_zero read_write in
    elim (Option-cases (sys.opens call)) [
      | inl e ↦ rw (e, hmalloc) (failure-IsMapped sys size host_id call (refl, tt))
      | inr (fd, e) ↦
          let m = chosen sys size host_id fd in
          rw (e, hmalloc) (after-IsMapped sys size host_id call _ (refl, m.asks) m)
    ]

truncated :
    (sys : System) (size host_id fd : ℕ) (enough : Bool)
    → IsMapped sys size host_id (
        if enough
        then after (ftruncate fd (bytes_of size)) (
            if host_id == 0
            then map_shared sys (bytes_of size) read_write fd
            else map_shared sys (bytes_of size) read_only fd)
        else failure (ftruncate fd (bytes_of size) ∷ []))
truncated sys size host_id fd false =
    failure-IsMapped sys size host_id (ftruncate fd (bytes_of size)) tt
truncated sys size host_id fd true =
    let m = chosen sys size host_id fd in
    after-IsMapped sys size host_id (ftruncate fd (bytes_of size)) _ m.asks m

pub shmalloc-IsMapped :
    (sys : System) (size host_id : ℕ) → IsMapped sys size host_id (shmalloc sys size host_id)
unfolding shmalloc
shmalloc-IsMapped sys size host_id =
    let call = shm_open shmem read_write in
    elim (Option-cases (sys.opens call)) [
      | inl e ↦ rw (e, shmalloc) (failure-IsMapped sys size host_id call (refl, tt))
      | inr (fd, e) ↦
          let m = truncated sys size host_id fd (sys.truncates fd (bytes_of size)) in
          rw (e, shmalloc) (after-IsMapped sys size host_id call _ (refl, m.asks) m)
    ]

-- Whatever the system answers, wherever the graph is placed, and for hmalloc too: the master opens
-- its file and its mapping for reading and writing; every other host opens its mapping and the
-- device of dmalloc for reading only, but the files of shmalloc and hmalloc for reading and
-- writing; and the allocation yields the pointer of a mapping of the whole size with the right of
-- the host, or ends with EXIT_FAILURE.
pub map_graph-IsMapped :
    (sys : System) (test_mode size host_id : ℕ)
    → IsMapped sys size host_id (map_graph sys test_mode size host_id)
      × IsMapped sys size host_id (hmalloc sys size host_id)
unfolding map_graph
map_graph-IsMapped sys test_mode size host_id =
    (placed (test_mode == 1), hmalloc-IsMapped sys size host_id)
  where
    placed :
        (test : Bool)
        → IsMapped sys size host_id
            (if test then shmalloc sys size host_id else dmalloc sys size host_id)
    placed true = shmalloc-IsMapped sys size host_id
    placed false = dmalloc-IsMapped sys size host_id
