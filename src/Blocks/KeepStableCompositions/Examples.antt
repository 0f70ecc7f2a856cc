-- ===== src/Blocks/KeepStableCompositions/Examples.antt =====
-- Three structures, of which those with an even address are stable.
use structure_pipe.Base.{
  ℕ, ◌%◌, ◌≡◌, refl, true, is_empty, List, [], ◌∷◌, if◌then◌else◌, ltb, ◌==◌, length, keep_if,
  arith, Perm,
}
use structure_pipe.Pipe.{handled, sent_of}
use structure_pipe.Blocks.RemoveDuplicates.{Distinct}
use structure_pipe.Blocks.KeepStableCompositions.{
  Hulls, KeepStableCompositions, new_keep_stable, pipeline_initialised, take_in, release, has_data,
}
use structure_pipe.Blocks.KeepStableCompositions.Protocol.{feed, release-has_data}

-- A hull is the structures that it is made of.
abbrev hulls : Hulls (List ℕ)
hulls = record {
  num_endpoints = λ ss. length ss;
  new_hull = λ ss. ss;
  num_stable = λ ss. length (keep_if (λ s. s % 2 == 0) ss);
  is_stable = λ ss s. s % 2 == 0;
}

abbrev fed : KeepStableCompositions (List ℕ)
fed = feed (6 ∷ 2 ∷ 3 ∷ []) (pipeline_initialised (new_keep_stable true))

fed-Distinct : Distinct (6 ∷ 2 ∷ 3 ∷ [])
fed-Distinct = omega arith

has_data-fed : (has_data hulls fed).1 ≡ true
unfolding has_data is_empty feed take_in pipeline_initialised new_keep_stable
has_data-fed = refl

release-has_data_example :
    let ss = fed.structure_store in
    let kept = if ltb (length ss) 2 then ss else keep_if (λ s. s % 2 == 0) ss in
    let (b', events, n) = release hulls (has_data hulls fed).0 in
    Perm (handled events) (6 ∷ 2 ∷ 3 ∷ [])
    × (handled events ≡ ss)
    × (sent_of events ≡ kept)
    × (n ≡ length kept)
    × (b'.structure_store ≡ [])
release-has_data_example = release-has_data hulls true (6 ∷ 2 ∷ 3 ∷ []) fed-Distinct has_data-fed
