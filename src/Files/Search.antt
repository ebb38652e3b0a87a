-- ===== src/Files/Search.antt =====
-- The walk of crates/hermes-skill-tools/src/tools/files/search.rs that looks for a text when ripgrep is
-- not installed.
use perry_hermes.Prelude.{
  ℕ, zero, suc, ◌+◌, Bool, true, false, Option, none, some, List, [], ◌∷◌, ◌++◌, Text, codes,
  text_eq, map, take, drop, length, lines, ltb, leb, ◌==◌, ◌&&◌, ◌||◌, if◌then◌else◌, any, not,
  is_empty,
}
use perry_hermes.Utf8.{len}
use perry_hermes.Providers.ThinkTags.{find_tag}
use perry_hermes.Files.Walk.{Listing, FileAt, collect_files}
use perry_hermes.Files.Names.{
  Hit, Payload, is_truncated, text_lt, bump, insert_key, files, counts, matches, sort_by,
}

-- the variables of the walk
pub record Found : Type 0 where
  pub all_matches : List Hit
  pub per_file : List (Text × ℕ)
  pub files_with_matches : List Text

abbrev pub nothing_found : Found
nothing_found = record { all_matches = []; per_file = []; files_with_matches = [] }

unfoldable pub add_hit : Hit → Found → Found
unfolding bump insert_key
add_hit h w = record {
  all_matches = w.all_matches ++ (h ∷ []);
  per_file = bump h.path w.per_file;
  files_with_matches = insert_key h.path w.files_with_matches;
}

-- `str::find` of the pattern: the text before it and after it
abbrev pub find_pattern : Text → Text → Option (Text × Text)
find_pattern [] s = some ([], s)
find_pattern (c ∷ p) s = find_tag (c ∷ p) s

-- The loop over one line, whose rest begins at the byte `start`; `none` means that the fuel has run
-- out.
abbrev pub hit_at : Text → ℕ → Text → ℕ → Text → Hit
hit_at path number line start before = record {
  path = path;
  line = number;
  column = start + len before + 1;
  content = line;
}

unfoldable pub find_in_line : ℕ → Text → Text → ℕ → Text → ℕ → Text → Found → Option Found
unfolding add_hit
find_in_line zero pattern path number line start rest w = elim (find_pattern pattern rest) [
  | none ↦ some w
  | some (before, after) ↦ none
]
find_in_line (suc fuel) pattern path number line start rest w = elim (find_pattern pattern rest) [
  | none ↦ some w
  | some (before, after) ↦ elim (is_empty pattern) [
    | true ↦ some (add_hit (hit_at path number line start before) w)
    | false ↦
        find_in_line fuel pattern path number line (start + len before + len pattern) after
          (add_hit (hit_at path number line start before) w)
  ]
]

-- The lines of a file, from a number on. A round of the loop over a line takes a character at
-- least or is the last, so the length of the line and one more is fuel enough.
unfoldable pub find_in_lines : Text → Text → ℕ → List Text → Found → Option Found
unfolding find_in_line
find_in_lines pattern path number [] w = some w
find_in_lines pattern path number (line ∷ ls) w =
    elim (find_in_line (suc (length line)) pattern path number line 0 line w) [
      | none ↦ none
      | some w' ↦ find_in_lines pattern path (number + 1) ls w'
    ]

-- `Path::extension`: what follows the last dot that does not begin the name
abbrev pub after_dot : Text → Option Text
after_dot [] = none
after_dot (c ∷ s) = elim (after_dot s) [ some e ↦ some e | none ↦ if c == 46 then some s else none ]

abbrev pub extension : Text → Option Text
extension [] = none
extension (c ∷ s) = after_dot s

abbrev pub to_ascii_lowercase : Text → Text
to_ascii_lowercase s = map (λ c. if leb 65 c && leb c 90 then c + 32 else c) s

abbrev pub binary_extensions : List Text
binary_extensions =
    codes "png"
    ∷ codes "jpg"
    ∷ codes "jpeg"
    ∷ codes "gif"
    ∷ codes "webp"
    ∷ codes "heic"
    ∷ codes "avif"
    ∷ codes "ico"
    ∷ codes "pdf"
    ∷ codes "zip"
    ∷ codes "tar"
    ∷ codes "gz"
    ∷ codes "tgz"
    ∷ codes "bz2"
    ∷ codes "xz"
    ∷ codes "7z"
    ∷ codes "rar"
    ∷ codes "exe"
    ∷ codes "dll"
    ∷ codes "so"
    ∷ codes "dylib"
    ∷ codes "class"
    ∷ codes "pyc"
    ∷ codes "wasm"
    ∷ codes "mp4"
    ∷ codes "mp3"
    ∷ codes "wav"
    ∷ codes "flac"
    ∷ codes "ogg"
    ∷ codes "m4a"
    ∷ codes "ttf"
    ∷ codes "otf"
    ∷ codes "woff"
    ∷ codes "woff2"
    ∷ codes "eot"
    ∷ codes "psd"
    ∷ codes "ai"
    ∷ codes "sketch"
    ∷ codes "fig"
    ∷ codes "blend"
    ∷ codes "glb"
    ∷ codes "gltf"
    ∷ codes "obj"
    ∷ codes "fbx"
    ∷ codes "stl"
    ∷ codes "3ds"
    ∷ codes "dae"
    ∷ codes "db"
    ∷ codes "sqlite"
    ∷ codes "sqlite3"
    ∷ codes "bin"
    ∷ codes "dat"
    ∷ codes "iso"
    ∷ codes "dmg"
    ∷ codes "deb"
    ∷ codes "rpm"
    ∷ codes "svg"
    ∷ []

unfoldable pub is_binary_extension : Text → Bool
is_binary_extension ext = any (text_eq (to_ascii_lowercase ext)) binary_extensions

abbrev pub is_binary : Text → Bool
unfolding is_binary_extension
is_binary name = elim (extension name) [ none ↦ false | some ext ↦ is_binary_extension ext ]

unfoldable pub find_in_files : Text → List FileAt → Found → Option Found
unfolding find_in_lines is_binary_extension
find_in_files pattern [] w = some w
find_in_files pattern ((path, f) ∷ fs) w = elim (is_binary f.name) [
  | true ↦ find_in_files pattern fs w
  | false ↦ elim f.text [
    | none ↦ find_in_files pattern fs w
    | some raw ↦ elim (find_in_lines pattern path 1 (lines raw) w) [
      | none ↦ none
      | some w' ↦ find_in_files pattern fs w'
    ]
  ]
]

-- more matches first, then by path
abbrev pub count_le : Text × ℕ → Text × ℕ → Bool
unfolding text_lt
count_le (p, m) (q, n) = ltb n m || (m == n && not (text_lt q p))

unfoldable pub payload : Text → ℕ → ℕ → Found → Payload
unfolding text_lt
payload output_mode limit offset w =
    let total = length w.all_matches in
    if text_eq output_mode (codes "files_only")
    then files w.files_with_matches total (ltb limit total)
    else if text_eq output_mode (codes "count")
    then counts (take limit (drop offset (sort_by count_le w.per_file))) total
        (is_truncated (length (sort_by count_le w.per_file)) offset limit)
    else matches (take limit (drop offset w.all_matches)) total (is_truncated total offset limit)

unfoldable pub content_mode_walk :
    Text → Text → Option Text → Text → ℕ → ℕ → Listing → Option Payload
unfolding find_in_files collect_files payload
content_mode_walk root pattern file_glob output_mode limit offset es =
    elim (find_in_files pattern (collect_files root file_glob es) nothing_found) [
      | none ↦ none
      | some w ↦ some (payload output_mode limit offset w)
    ]
