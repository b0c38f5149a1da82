-- ===== src/Tests/Regions.antt =====
-- The allocators of the shared memory with a system that answers every call (src/dmalloc.h).
use shared_gapbs.Base.{ℕ, ◌+◌, ◌*◌, ◌≤◌, ◌<◌, ◌≡◌, arith, Array, true, [], some, done}
use shared_gapbs.Stl.{contains}
use shared_gapbs.Mapping.{System, one_g, map_graph, hmalloc, flush_x86_cache, munmap_memory}
use shared_gapbs.Mapping.Laws.{IsMapped, map_graph-IsMapped}
use shared_gapbs.Mapping.Reach.{flush_x86_cache-covers, IsCleaned, munmap_memory-IsCleaned}

abbrev sys : System
sys = record {
  opens = λ call. some 3;
  truncates = λ fd len. true;
  maps = λ len access fd. some 4096;
}

map_graph-IsMapped_example :
    IsMapped sys 2 1 (map_graph sys 1 2 1) × IsMapped sys 2 1 (hmalloc sys 2 1)
map_graph-IsMapped_example = map_graph-IsMapped sys 1 2 1

flush_x86_cache-covers_example :
    ((j : ℕ)
      → j < 2 * one_g
      → (m : ℕ) × (64 * m ≤ j)
        × (j < 64 * m + 64)
        × (contains (4096 + 64 * m) (flush_x86_cache 4096 2) ≡ true))
    × ((a : ℕ) → contains a (flush_x86_cache 4096 2) ≡ true → (4096 ≤ a) × (a < 4096 + 2 * one_g))
flush_x86_cache-covers_example = flush_x86_cache-covers 4096 2 (omega arith)

abbrev memory : Array ℕ
memory i = 9

munmap_memory-IsCleaned_example :
    IsCleaned sys 2 memory (munmap_memory sys 2 true 0 memory).1
    × (munmap_memory sys 2 true 1 memory ≡ ([], done memory))
munmap_memory-IsCleaned_example = munmap_memory-IsCleaned sys 2 true 0 memory
