-- ===== src/Blocks/KeepTopN/Examples.antt =====
-- KeepTopN on a few structures.
use structure_pipe.Base.{ℕ, ◌≡◌, refl, List, [], ◌∷◌, ◌++◌, take, Perm, true, is_empty}
use structure_pipe.Pipe.{dropped, handled}
use structure_pipe.Pipe.Barrier.{Call, takes, releases, arrivals, run}
use structure_pipe.Pipe.Samples.{positive, positive-IsOrdered, number_keys, pair_view}
use structure_pipe.Containers.Map.{find_or, assign, same}
use structure_pipe.Containers.Multimap.{IsSorted, insert}
use structure_pipe.Blocks.KeepTopN.{
  KeepTopN, StructureOrder, order_of, feed, release, has_data, take_in, keep, trim, local_value,
}
use structure_pipe.Blocks.KeepTopN.Selection.{entries, feed-selects}
use structure_pipe.Blocks.KeepTopN.Conservation.{
  held-no_data, keep_top_n_barrier, keep_top_n-conserves,
}

abbrev two_best : KeepTopN ℕ (ℕ × ℕ) ℕ ℕ
two_best = record { keep_top_n = 2; structure_property = 0; use_per_atom = true; structures = [] }

abbrev arriving : List (ℕ × ℕ)
arriving = (1, 30) ∷ (2, 5) ∷ (1, 10) ∷ (1, 20) ∷ []

feed_test : (feed positive number_keys pair_view two_best arriving).1 ≡ dropped (1, 30) ∷ []
unfolding feed take_in keep order_of trim local_value find_or assign insert same
feed_test = refl

feed-selects_example :
    (all : StructureOrder (ℕ × ℕ) ℕ) × IsSorted positive all
    × Perm all (entries positive number_keys pair_view two_best 1 arriving)
    × (order_of positive number_keys pair_view 1
          (feed positive number_keys pair_view two_best arriving).0
        ≡ take 2 all)
feed-selects_example =
    feed-selects positive number_keys pair_view positive-IsOrdered two_best 1 arriving refl

abbrev calls : List (Call (ℕ × ℕ))
calls = takes (1, 30) ∷ takes (1, 10) ∷ releases ∷ takes (2, 5) ∷ []

keep_top_n-conserves_example :
    let after = run (keep_top_n_barrier positive number_keys pair_view) two_best calls in
    Perm (handled after.1 ++ handled (release after.0).1) (arrivals calls)
keep_top_n-conserves_example =
    keep_top_n-conserves positive number_keys pair_view two_best calls
      (held-no_data two_best (unfold has_data is_empty in refl))
