-- ===== src/Memory/Store.antt =====
-- The operations of crates/hermes-skill-tools/src/tools/memory/store.rs. A store's live entries and
-- the state of the file system are passed on from one operation to the next; other processes may
-- change the files between two operations, but not during one, which holds the file's lock.
use perry_hermes.Prelude.{
  ℕ, zero, suc, ◌≡◌, true, false, Option, none, some, List, [], ◌∷◌, ◌++◌, Text, codes, text_eq,
  any, length, is_empty, trim, if◌then◌else◌, Result, ok, err,
}
use perry_hermes.Memory.Entries.{contains, read_entries, content_of_entries, dedup_in_place}

pub data MemoryTarget : Type 0 where
  memory user : MemoryTarget

abbrev file_name : MemoryTarget → Text
file_name memory = codes "MEMORY.md"
file_name user = codes "USER.md"

pub data MemoryError : Type 0 where
  invalid_target missing_content : MemoryError
  no_match ambiguous_match io : Text → MemoryError

pub record MemoryOpResult : Type 0 where
  pub target : MemoryTarget
  pub entries : List Text
  pub entry_count : ℕ
  pub message : Option Text

-- `LiveState`
pub record LiveState : Type 0 where
  pub memory_entries : List Text
  pub user_entries : List Text

-- What the store uses of the file system: reading a text (`none` for any failure), creating a
-- directory, and a temporary file that is renamed over the target. A result `some` is an error's
-- text.
pub record TextFiles : Type 1 where
  pub Fs : Type 0
  pub read_to_string : Text → Fs → Option Text
  pub create_dir_all : Text → Fs → Option Text × Fs
  pub replace_file : Text → Text → Fs → Option Text × Fs
  pub parent : Text → Option Text
  pub join_path : Text → Text → Text
  pub read-replace_file :
      (p content : Text) (fs : Fs)
      → (replace_file p content fs).0 ≡ none
      → read_to_string p (replace_file p content fs).1 ≡ some content

abbrev pub entries : MemoryTarget → LiveState → List Text
entries memory live = live.memory_entries
entries user live = live.user_entries

abbrev pub set_entries : MemoryTarget → List Text → LiveState → LiveState
set_entries memory es live = record live { memory_entries = es }
set_entries user es live = record live { user_entries = es }

abbrev pub success_result : MemoryTarget → List Text → Option Text → MemoryOpResult
success_result target es message = record {
  target = target;
  entries = es;
  entry_count = length es;
  message = message;
}

-- the entries that contain a text, with their places
unfoldable pub matches_from : ℕ → Text → List Text → List (ℕ × Text)
matches_from i old [] = []
matches_from i old (e ∷ es) =
    let rest = matches_from (suc i) old es in if contains old e then (i, e) ∷ rest else rest

-- the place that `replace` and `remove` work at: that of the only match, or of the first of equal
-- matches
unfoldable pub pick : Text → List (ℕ × Text) → Result ℕ MemoryError
pick old [] = err (no_match old)
pick old (m ∷ []) = ok m.0
pick old (m ∷ n ∷ ms) =
    if any (λ x. if text_eq x.1 m.1 then false else true) (n ∷ ms)
    then err (ambiguous_match old)
    else ok m.0

-- `entries[idx] = new` and `entries.remove(idx)`, for a place in the list
abbrev pub set_at : ℕ → Text → List Text → List Text
set_at i new [] = []
set_at zero new (e ∷ es) = new ∷ es
set_at (suc i) new (e ∷ es) = e ∷ set_at i new es

abbrev pub remove_at : ℕ → List Text → List Text
remove_at i [] = []
remove_at zero (e ∷ es) = es
remove_at (suc i) (e ∷ es) = e ∷ remove_at i es

module _ (F : TextFiles) (memories_dir : Text) where
  open F use {Fs, read_to_string, create_dir_all, replace_file, parent, join_path}

  abbrev pub path_for : MemoryTarget → Text
  path_for target = join_path memories_dir (file_name target)

  unfoldable pub read_file : MemoryTarget → Fs → List Text
  read_file target fs = read_entries (read_to_string (path_for target) fs)

  -- `write_file`
  unfoldable pub write_file : MemoryTarget → List Text → Fs → Option Text × Fs
  write_file target es fs = elim (parent (path_for target)) [
    | none ↦ (some (codes "memory file has no parent directory"), fs)
    | some dir ↦
        let (failure, fs1) = create_dir_all dir fs in
        elim failure [
          | none ↦ replace_file (path_for target) (content_of_entries es) fs1
          | some text ↦ (some text, fs1)
        ]
  ]

  -- the end of an operation that writes: the file, then the live entries
  unfoldable pub store_entries :
      MemoryTarget
      → List Text
      → Text
      → LiveState
      → Option Text × Fs
      → Result MemoryOpResult MemoryError × (LiveState × Fs)
  store_entries target es message live (some text, fs) = (err (io text), (live, fs))
  store_entries target es message live (none, fs) =
      (ok (success_result target es (some message)), (set_entries target es live, fs))

  -- `MemoryStore::load`; `none` is an error.
  unfoldable pub load : Fs → Option LiveState × Fs
  unfolding read_file
  load fs =
      let (failure, fs1) = create_dir_all memories_dir fs in
      elim failure [
        | none ↦ (
          some
              (record { memory_entries = read_file memory fs1; user_entries = read_file user fs1 }),
          fs1,
        )
        | some text ↦ (none, fs1)
      ]

  -- `add` of a content that is trimmed and not empty
  unfoldable pub add_trimmed :
      MemoryTarget → Text → LiveState → Fs → Result MemoryOpResult MemoryError × (LiveState × Fs)
  unfolding read_file write_file store_entries
  add_trimmed target content live fs =
      let fresh = dedup_in_place (read_file target fs) in
      let es = fresh ++ content ∷ [] in
      let written = write_file target es fs in
      if any (text_eq content) fresh
      then (
        ok (
            success_result target (entries target live)
              (some (codes "Entry already exists (no duplicate added)."))),
        (live, fs),
      )
      else store_entries target es (codes "Entry added.") live written

  unfoldable pub add :
      MemoryTarget → Text → LiveState → Fs → Result MemoryOpResult MemoryError × (LiveState × Fs)
  unfolding add_trimmed
  add target content live fs =
      if is_empty (trim content)
      then (err missing_content, (live, fs))
      else add_trimmed target (trim content) live fs

  -- the end of `replace` and of `remove`, at the place that was picked
  unfoldable pub edit_at :
      MemoryTarget
      → (ℕ → List Text)
      → Text
      → LiveState
      → Fs
      → Result ℕ MemoryError
      → Result MemoryOpResult MemoryError × (LiveState × Fs)
  unfolding write_file store_entries
  edit_at target edit message live fs (err e) = (err e, (live, fs))
  edit_at target edit message live fs (ok i) =
      store_entries target (edit i) message live (write_file target (edit i) fs)

  unfoldable pub replace :
      MemoryTarget
      → Text
      → Text
      → LiveState
      → Fs
      → Result MemoryOpResult MemoryError × (LiveState × Fs)
  unfolding read_file matches_from pick edit_at
  replace target old new live fs =
      let es = dedup_in_place (read_file target fs) in
      let picked = pick (trim old) (matches_from 0 (trim old) es) in
      if is_empty (trim old)
      then (err (no_match (codes "(empty old_text)")), (live, fs))
      else if is_empty (trim new)
      then (err missing_content, (live, fs))
      else edit_at target (λ i. set_at i (trim new) es) (codes "Entry replaced.") live fs picked

  unfoldable pub remove :
      MemoryTarget → Text → LiveState → Fs → Result MemoryOpResult MemoryError × (LiveState × Fs)
  unfolding read_file matches_from pick edit_at
  remove target old live fs =
      let es = dedup_in_place (read_file target fs) in
      let picked = pick (trim old) (matches_from 0 (trim old) es) in
      if is_empty (trim old)
      then (err (no_match (codes "(empty old_text)")), (live, fs))
      else edit_at target (λ i. remove_at i es) (codes "Entry removed.") live fs picked
