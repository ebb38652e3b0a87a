-- ===== src/Tests/PatchTests.antt =====
-- The patch tool at concrete inputs.
use perry_hermes.Prelude.{◌≡◌, refl, none, some, [], ◌∷◌, codes, map, ok}
use perry_hermes.Patch.Parse.{Hunk, update, parse_patch, parse_v4a}
use perry_hermes.Patch.Hunks.{apply_hunks_to_text}
use perry_hermes.Patch.Printing.{
  Section, update_file, move_file, keep, drop, put, print_patch, op_of,
}
use perry_hermes.Patch.RoundTrip.{parse_patch-print_patch}

abbrev change : Section
change =
    update_file (codes "a.txt")
      ((keep (codes "one") ∷ drop (codes "two") ∷ put (codes "2") ∷ []) ∷ [])

abbrev moving : Section
moving = move_file (codes "b.txt") (codes "c.txt")

parse_patch-print_patch_example :
    parse_patch (print_patch (change ∷ moving ∷ [])) ≡ ok (map op_of (change ∷ moving ∷ []))
unfolding perry_hermes.Patch.Parse.directive
parse_patch-print_patch_example =
    parse_patch-print_patch change (moving ∷ [])
      ((refl, (((refl, refl), (tt, (tt, tt))), tt)), ((refl, refl), tt))

abbrev two_lines : Hunk
two_lines = record { search = codes "a" ∷ codes "a" ∷ []; replace = codes "b" ∷ [] }

-- The search lines stand at two places that overlap, and no ambiguity is reported.
overlapping :
    apply_hunks_to_text (codes "a\na\na") (two_lines ∷ []) (codes "f") ≡ some (ok (codes "b\na"))
unfolding apply_hunks_to_text perry_hermes.Patch.Hunks.apply_hunk
    perry_hermes.Patch.Hunks.count_subsequence perry_hermes.Patch.Hunks.find_subsequence
    perry_hermes.Patch.Hunks.lines_start
overlapping = refl

-- A kept line "@@" starts a new hunk.
kept_marker :
    parse_v4a (codes "*** Begin Patch\n*** Update File: f\n@@\n-x\n @@\n+y\n*** End Patch")
    ≡ ok (
        record {
          kind = update;
          path = codes "f";
          body = [];
          hunks =
              record { search = codes "x" ∷ []; replace = [] }
              ∷ record { search = []; replace = codes "y" ∷ [] }
              ∷ [];
          move_to = none;
        }
        ∷ [])
unfolding parse_v4a
kept_marker = refl
