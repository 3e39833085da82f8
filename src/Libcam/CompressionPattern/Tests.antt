-- ===== src/Libcam/CompressionPattern/Tests.antt =====
-- Comparisons of short patterns, and the count of a symbol.
use cam_alias_checker.Prelude.{◌%◌, ◌≡◌, refl, true, false}
use cam_alias_checker.Libcam.Machine.{word}
use cam_alias_checker.Libcam.CompressionPattern.{
  CompressionPattern, leaf, parent, child, no_more, more, eq_compression,
  get_number_of_instances_map,
}
use cam_alias_checker.Libcam.CompressionPattern.Count.{occurrences, expand}
use cam_alias_checker.Libcam.CompressionPattern.Ordered.{
  count_at, count_at-get_number_of_instances_map,
}

abbrev thrice : CompressionPattern
thrice = parent 0 (child (more (leaf 8) (more (leaf 9) no_more)) 3)

-- The symbol 0 compares equal to a pattern with a child, though not the other way round.
zero_equals_parent : eq_compression (leaf 0) thrice ≡ true
unfolding eq_compression
zero_equals_parent = refl

parent_differs : eq_compression thrice (leaf 0) ≡ false
unfolding eq_compression
parent_differs = refl

count_at-get_number_of_instances_map_example :
    count_at 8 (get_number_of_instances_map thrice) ≡ occurrences 8 (expand thrice) % word
count_at-get_number_of_instances_map_example = count_at-get_number_of_instances_map 8 thrice
