-- ===== src/Tests/SearchTests.antt =====
-- The search tool on a small directory, and on what ripgrep prints for two files.
use perry_hermes.Prelude.{
  Member, ℕ, ◌+◌, ◌*◌, ◌^◌, ◌≤◌, ◌<◌, ◌≡◌, refl, ◌↔◌, true, none, some, [], ◌∷◌, Text, codes, map,
  length, All, ok,
}
use perry_hermes.Core.Json.{JsonReader}
use perry_hermes.Utf8.{len_utf8}
use perry_hermes.Files.Glob.{glob_match, Matches}
use perry_hermes.Files.Globbing.{glob_match-Matches}
use perry_hermes.Files.Walk.{File, Listing, file, directory, other, done, entry, FileAt, Reaches}
use perry_hermes.Files.Search.{Found, payload, content_mode_walk}
use perry_hermes.Files.Names.{Hit, matched_files, files_mode, modified_le, matches, files}
use perry_hermes.Files.Searching.{IsCounted, content_mode_walk-IsCounted}
use perry_hermes.Files.Sorting.{Descending, pages}
use perry_hermes.Files.Paging.{
  number, matched_files-Reaches, files_mode-pages, file_list, truncated_flag,
}
use perry_hermes.Files.Ripgrep.{RgState, on_context, on_match, exited, rg_content_search}
use perry_hermes.Files.Context.{IsBounded, shown, rg_content_search-bounds}

abbrev lib : File
lib = record {
  name = codes "lib.rs";
  modified = some 5;
  text = some (codes "use a;\nlet aa = a;\n");
}

abbrev main : File
main = record { name = codes "main.rs"; modified = some 9; text = some (codes "fn main() {}") }

abbrev built : File
built = record { name = codes "old.rs"; modified = some 7; text = some (codes "a") }

-- /p with lib.rs, a directory target with old.rs, a directory src with main.rs, and a link
abbrev tree : Listing
tree = entry (file lib) (
    entry (directory (codes "target") (entry (file built) done))
      (entry (directory (codes "src") (entry (file main) done)) (entry other done)))

listed :
    files_mode (codes "/p") (codes "*.rs") none 1 0 tree
    ≡ files (codes "/p/src/main.rs" ∷ []) 2 true
unfolding files_mode
listed = refl

walked :
    content_mode_walk (codes "/p") (codes "a") (some (codes "l*")) (codes "content") 2 1 tree
    ≡ some (
        matches
          (record { path = codes "/p/lib.rs"; line = 2; column = 5; content = codes "let aa = a;" }
            ∷ record {
              path = codes "/p/lib.rs";
              line = 2;
              column = 6;
              content = codes "let aa = a;";
            }
            ∷ [])
          4
          true)
unfolding content_mode_walk len_utf8
walked = refl

glob_match-Matches_example :
    (glob_match (codes "*.rs") (codes "lib.rs") ≡ true) ↔ Matches (codes "*.rs") (codes "lib.rs")
glob_match-Matches_example = glob_match-Matches (codes "*.rs") (codes "lib.rs")

matched_files-Reaches_example :
    ((x : FileAt)
      → Member x (matched_files (codes "/p") (codes "*.rs") none tree)
        ↔ (Reaches (codes "/p") none tree x × Matches (codes "*.rs") x.1.name))
    × Descending modified_le (matched_files (codes "/p") (codes "*.rs") none tree)
matched_files-Reaches_example = matched_files-Reaches (codes "/p") (codes "*.rs") none tree

files_mode-pages_example :
    ((k : ℕ)
      → length (matched_files (codes "/p") (codes "*.rs") none tree) ≤ k * 1
      → pages (λ offset. file_list (files_mode (codes "/p") (codes "*.rs") none 1 offset tree)) 1 k
        ≡ map (λ x. x.0) (matched_files (codes "/p") (codes "*.rs") none tree))
    × ((offset : ℕ)
        → offset + 1 < 2 ^ 64
        → (truncated_flag (files_mode (codes "/p") (codes "*.rs") none 1 offset tree) ≡ true)
          ↔ (offset + 1 < length (matched_files (codes "/p") (codes "*.rs") none tree)))
    × (length (matched_files (codes "/p") (codes "*.rs") none tree)
        ≡ number (codes "*.rs") none tree)
files_mode-pages_example = files_mode-pages (codes "/p") (codes "*.rs") none 1 tree

content_mode_walk-IsCounted_example :
    (w : Found) × (content_mode_walk (codes "/p") (codes "a") none (codes "count") 50 0 tree
      ≡ some (payload (codes "count") 50 0 w))
    × IsCounted (codes "a") w
content_mode_walk-IsCounted_example =
    content_mode_walk-IsCounted (codes "/p") (codes "a") none (codes "count") 50 0 tree

abbrev pub reader : JsonReader
reader = record {
  Value = Text;
  from_str = λ s. ok s;
  get = λ v k. some v;
  get_index = λ v n. some v;
  as_str = λ v. some v;
  as_u64 = λ v. some (length v);
}

rg_content_search-bounds_example :
    All (IsBounded 1) (
      shown (
        rg_content_search reader
          (codes "content")
          1
          2
          0
          (exited (some 0) (codes "match\ncontext\ncontext\nmatch\n") [])))
    × (length (
          shown (
            rg_content_search reader
              (codes "content")
              1
              2
              0
              (exited (some 0) (codes "match\ncontext\ncontext\nmatch\n") [])))
        ≤ 2)
rg_content_search-bounds_example =
    rg_content_search-bounds reader (codes "content") 1 2 0
      (exited (some 0) (codes "match\ncontext\ncontext\nmatch\n") [])

abbrev last_line : Hit
last_line = record { path = codes "a.rs"; line = 9; column = 1; content = codes "last of a" }

abbrev empty_state : RgState
empty_state = record { all_matches = []; pending_before = []; after_remaining = 0 }

-- A match on the last line of a file takes the first line shown of the next file as its own context.
mixed_files :
    (on_context 1 (codes "first of b") (on_match 1 last_line empty_state)).all_matches
    ≡ record { hit = last_line; before = []; after = codes "first of b" ∷ [] } ∷ []
unfolding on_context on_match
mixed_files = refl
