-- ===== src/Lib.antt =====
-- A model of a graph benchmark suite whose graph lives in memory shared by several hosts.
--
-- One host, the master, reads or generates an edge list, builds a graph in compressed sparse row
-- form and writes it into a mapping that all hosts share. The other hosts, the workers, wait for a
-- synchronization variable in the mapping and attach to it. The kernels then run on the graph.
--
-- The parts, with paths from the repository's root:
--   * Bitmap: class Bitmap of src/bitmap.h. Words are an array of numbers below 2 ^ 64.
--   * SlidingQueue: classes SlidingQueue and QueueBuffer of src/sliding_queue.h. The queue is
--     seen as two lists: the window that readers iterate over and what waits for slide_window.
--   * PVector: class pvector of src/pvector.h. In this repository reserve ends the process.
--   * Atomics: fetch_and_add and compare_and_swap of src/platform_atomics.h.
--   * Stl: std::sort, std::unique and std::remove on ranges of vertices and of pairs, as lists.
--   * Graph: EdgePair, Neighborhood and CSRGraph of src/graph.h.
--   * SharedGraph: the constructor of CSRGraph for shared memory with assign_sizes and
--     assign_data. Writing and Stored show what the master leaves in the mapping, Reading and
--     RoundTrip what a worker makes of it, Stores and Publication the order of the stores.
--   * Builder: FindMaxNodeID and CountDegrees (Degrees), PrefixSum and ParallelPrefixSum
--     (PrefixSum), MakeCSR (Csr), SquishCSR (Squish), RelabelByDegree (Relabel), and
--     MakeGraphFromEL, SquishGraph and MakeGraph (Make) of src/builder.h. Make composes the others
--     into the run of a host, the allocation of the mapping included.
--   * Generator: class Generator of src/generator.h. The points that are drawn, by what their
--     comparisons say, and std::shuffle are arguments. Correct ties it to MakeGraph.
--   * Benchmark: SourcePicker and TopK of src/benchmark.h. What is drawn is an argument, and the
--     fuel is the number of draws that PickNext is given.
--   * Triangles: OrderedCount, WorthRelabelling, Hybrid and TCVerifier of src/tc.cc. Scan is the
--     inner loop, Adjacency and Triples count the triangles of a relation once and six times, and
--     EdgeList and Total tie the counts to the edge list that the graph was made of. The
--     comparison in floating-point numbers is an argument.
--   * Components: Link, Compress and Afforest of src/cc.cc and ShiloachVishkin of src/cc_sv.cc
--     (Hooking), as one thread runs them. Closure is connectedness, and EdgeList ties the labels to
--     the edge list that the graph was made of. Threads is calls of Link that run at once: a step is
--     one access to the labels, and a schedule says whose turn it is; every access sees the last
--     store. The loops of Link and Compress are given one round more than the larger of the parents,
--     which get smaller in every round, and the rounds of ShiloachVishkin one more than the sum of
--     the labels, which a round with a change makes smaller. Verifier is CCVerifier, which both
--     files have: the order in which an unordered_map yields its labels is an argument, and a
--     search is given two rounds more than there are vertices, since a round visits a vertex for
--     each that it puts into the frontier.
--   * Bfs: the breadth-first search of src/bfs.cc, as one thread runs it. Discovery says what a
--     step does to the parents, Outward and Inward that TDStep and BUStep do so, Walks and
--     Unreached what a round adds to the search, Fronts the change of direction. The loop is
--     given two rounds more than there are vertices and the rounds of BUStep one more: all but the
--     last find a parent for some vertex. Verifier is BFSVerifier: Filling is a round of its search,
--     Distances the depths that it ends with, Parents what it sees in a parent, Correct the verdict.
--     It is given two rounds more than there are vertices, since a round reaches a vertex for each
--     that it puts behind the others.
--   * Reader: the text formats and ReadFile of src/reader.h (the dispatch in Formats). What the
--     extractions from the stream yield is the input.
--   * Serialized: WriteEL, WriteSerializedGraph and WriteGraph of src/writer.h and
--     ReadSerializedGraph of src/reader.h. Bytes is the round trip of numbers, Directions of one
--     direction of a graph, RoundTrip of a graph.
--   * Mapping: the allocators of src/dmalloc.h and the choice between them in src/graph.h, as the
--     system calls they make, the flush of the cache and the cleaner (Reach).
--   * CommandLine: the option classes of src/command_line.h (the derived ones in Apps). The input
--     is what getopt returns; atoi, atol, atof and stod, which may throw, are arguments.
--   * Tests: the operations run on small inputs.
-- Base holds arrays, lists, loops and bits that the parts share.
--
-- Memory is a function from positions to values, and allocation leaves what the memory held: the
-- arguments named `fresh` stand for that. Allocations other than that of the mapping are taken to
-- succeed. A pointer is a position. The type Run has the ways in
-- which a call ends: a value, an exit code, or a failed assertion. A counting loop is `for_range`
-- with its number of rounds, so only PickNext, the loops of Components and Bfs and the flush of
-- Mapping need fuel; that of the flush is its bound. The parallel loops that are modelled are run
-- in order of their index, except that Threads has the calls of Link in any order of steps. The
-- rounds of the prefix sums, of SquishCSR and of assign_data write cells that no other round
-- touches; in MakeCSR the order of the rounds decides the order in a neighbourhood. Vertex numbers
-- and offsets are natural numbers; the fields of the mapping are written in 32-bit halves, reduced
-- to 32 bits. Workers see the stores of the master in program order, as the platform's memory
-- ordering and the cache flush after the constructor intend.
--
-- Degrees are counted in 32 bits and wrap around; from 2 ^ 31 on their bits stand for negative
-- numbers, which the prefix sums of the model do not add. A mapping has the size that is asked for,
-- and an access behind it, which the code does not test for, is taken to end the process.
--
-- The verifiers reserve room for every vertex before they search; their iterators are taken to stay
-- valid.
--
-- Not modelled:
--   * Weighted edges, and with them the delta-stepping of src/sssp.cc and InsertWeights: a mapping
--     holds the vertices that a NodeID_ numbers, and the rows of a weighted graph have another size.
--   * src/pr.cc and src/bc.cc, whose results are sums of floating-point numbers in
--     the order in which threads add them.
--   * The in-place construction (MakeCSRInPlace of src/builder.h): MakeGraph fails an assertion
--     after it, whatever it has built.
--   * The C++ streams, printing, timing, the entry points and the simulator's instructions. What a
--     reader yields is an argument of MakeGraph, the input.
pub mod Base
pub mod Bitmap
pub mod SlidingQueue
pub mod Mapping
pub mod PVector
pub mod Atomics
pub mod Stl
pub mod Graph
pub mod SharedGraph
pub mod Builder
pub mod Triangles
pub mod Bfs
pub mod CommandLine
pub mod Components
pub mod Reader
pub mod Serialized
pub mod Generator
pub mod Benchmark
pub mod Tests
