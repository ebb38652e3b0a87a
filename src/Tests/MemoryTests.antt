-- ===== src/Tests/MemoryTests.antt =====
-- The memory store on a file system held as a function.
use perry_hermes.Prelude.{
  ◌≡◌, refl, Option, none, some, List, [], ◌∷◌, Text, codes, text_eq, text_eq_refl, if◌then◌else◌,
}
use perry_hermes.Memory.Entries.{read_entries, parse_entries, content_of_entries, dedup_in_place}
use perry_hermes.Memory.RoundTrip.{IsStorable, parse_entries-content}
use perry_hermes.Memory.Store.{
  TextFiles, LiveState, memory, success_result, read_file, add, replace, remove,
}
use perry_hermes.Memory.Adding.{Added, add-reads}
use perry_hermes.Memory.Editing.{Edited, replace-reads, remove-reads}

abbrev Fs : Type 0
Fs = Text → Option Text

abbrev text_files : TextFiles
text_files = record {
  Fs = Fs;
  read_to_string = λ p fs. fs p;
  create_dir_all = λ d fs. (none, fs);
  replace_file = λ p content fs. (none, λ q. if text_eq q p then some content else fs q);
  parent = λ p. some [];
  join_path = λ d p. p;
  read-replace_file = λ p content fs h. rw (text_eq_refl p) refl;
}

-- both files hold two entries
abbrev files : Fs
files p = some (codes "tea\n§\ncoffee")

abbrev live : LiveState
live = record { memory_entries = []; user_entries = [] }

abbrev found : List Text
found = codes "tea" ∷ codes "coffee" ∷ []

tea-IsStorable : IsStorable (codes "tea")
tea-IsStorable = record { trimmed = refl; not_blank = refl; undivided = refl }

coffee-IsStorable : IsStorable (codes "coffee")
coffee-IsStorable = record { trimmed = refl; not_blank = refl; undivided = refl }

milk-IsStorable : IsStorable (codes "milk")
milk-IsStorable = record { trimmed = refl; not_blank = refl; undivided = refl }

parse_entries-content_example : parse_entries (content_of_entries found) ≡ found
parse_entries-content_example =
    parse_entries-content found (tea-IsStorable, (coffee-IsStorable, tt))

abbrev added : List Text
added = codes "tea" ∷ codes "coffee" ∷ codes "milk" ∷ []

add-reads_example :
    Added text_files [] memory
      (codes "milk")
      found
      live
      files
      (add text_files [] memory (codes " milk") live files).1
unfolding read_file read_entries add dedup_in_place
add-reads_example =
    add-reads text_files [] memory (codes " milk") live files
      (success_result memory added (some (codes "Entry added.")))
      (tea-IsStorable, (coffee-IsStorable, (milk-IsStorable, tt))) refl

replace-reads_example :
    Edited text_files [] memory
      (codes "tea")
      (codes "milk" ∷ [])
      found
      live
      (replace text_files [] memory (codes "tea") (codes "milk") live files).1
unfolding read_file read_entries replace dedup_in_place
replace-reads_example =
    replace-reads text_files [] memory (codes "tea") (codes "milk") live files
      (success_result memory (codes "milk" ∷ codes "coffee" ∷ []) (some (codes "Entry replaced.")))
      (tea-IsStorable, (coffee-IsStorable, tt)) milk-IsStorable refl

remove-reads_example :
    Edited text_files [] memory
      (codes "off")
      []
      found
      live
      (remove text_files [] memory (codes "off") live files).1
unfolding read_file read_entries remove dedup_in_place
remove-reads_example =
    remove-reads text_files [] memory (codes "off") live files
      (success_result memory (codes "tea" ∷ []) (some (codes "Entry removed.")))
      (tea-IsStorable, (coffee-IsStorable, tt)) refl

parse_test : parse_entries (codes "a\n§\n b \n§\n\n§\nc") ≡ codes "a" ∷ codes "b" ∷ codes "c" ∷ []
unfolding parse_entries
parse_test = refl

-- The entry `a` and a line with a section sign satisfies all but the last condition, and the
-- file with it and another entry reads back differently.
divided_test :
    parse_entries (content_of_entries ((97 ∷ 10 ∷ 167 ∷ []) ∷ (98 ∷ []) ∷ []))
    ≡ (97 ∷ []) ∷ (167 ∷ 10 ∷ 98 ∷ []) ∷ []
unfolding parse_entries
divided_test = refl
