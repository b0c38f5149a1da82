-- ===== src/Tests/Verifying.antt =====
-- CCVerifier on the graph of the labelling tests, which has two components.
use shared_gapbs.Base.{
  inr, inl, lt_suc_cases, ℕ, ◌≡◌, ◌<◌, ◌↔◌, arith, Array, Bool, true, List, [], ◌∷◌, some, ltb,
  if◌then◌else◌, Bool-cases, zero, suc,
}
use shared_gapbs.Stl.{contains}
use shared_gapbs.Components.Afforest.{afforest}
use shared_gapbs.Components.Hooking.{shiloach_vishkin}
use shared_gapbs.Components.Verifier.{cc_verifier}
use shared_gapbs.Components.Verifier.Correct.{
  Labels, cc_verifier-Labels, cc_verifier-afforest-shiloach_vishkin,
}
use shared_gapbs.Tests.Counting.{garbage}
use shared_gapbs.Tests.Labels.{made, made-IsMirrored, sample}

-- The labels of the two components.
abbrev halves : Array ℕ
halves v = if ltb v 2 then 0 else 2

halves-contains : (v : ℕ) → v < made.num_nodes → contains (halves v) (2 ∷ 0 ∷ []) ≡ true
unfolding contains
halves-contains v lt = elim (Bool-cases (ltb v 2)) [ inl e ↦ ground arith | inr e ↦ ground arith ]

cc_verifier-Labels_example :
    (verdict : Bool) × (cc_verifier garbage (2 ∷ 0 ∷ []) made halves ≡ some verdict)
    × ((verdict ≡ true) ↔ Labels made halves)
cc_verifier-Labels_example =
    cc_verifier-Labels made (2 ∷ 0 ∷ []) halves garbage made-IsMirrored halves-contains

-- The labels of the vertices below `n`, one after another.
abbrev each_label : ℕ → Array ℕ → List ℕ
each_label zero comp = []
each_label (suc n) comp = comp n ∷ each_label n comp

each_label-contains :
    (comp : Array ℕ) (n v : ℕ) → v < n → contains (comp v) (each_label n comp) ≡ true
unfolding contains
each_label-contains comp zero v lt = absurd (omega (arith, lt))
each_label-contains comp (suc n) v lt = elim (lt_suc_cases v n lt) [
  | inl below ↦ ground (arith, each_label-contains comp n v below)
  | inr at ↦ rw at (ground arith)
]

cc_verifier-afforest-shiloach_vishkin_example :
    (a b : Array ℕ) × (afforest garbage sample made 2 ≡ some a)
    × (shiloach_vishkin garbage made ≡ some b)
    × (cc_verifier garbage (each_label made.num_nodes a) made a ≡ some true)
    × (cc_verifier garbage (each_label made.num_nodes b) made b ≡ some true)
cc_verifier-afforest-shiloach_vishkin_example =
    cc_verifier-afforest-shiloach_vishkin made (each_label made.num_nodes) garbage garbage sample 2
      made-IsMirrored (λ comp. each_label-contains comp made.num_nodes)
