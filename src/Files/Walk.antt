-- ===== src/Files/Walk.antt =====
-- `collect_files` of crates/hermes-skill-tools/src/tools/files/search.rs on a tree of directories, as
-- `read_dir` lists them. Names are UTF-8; what is neither a file nor a directory, a symbolic link
-- among them, is `other`, and so is an entry whose type cannot be read.
use perry_hermes.Prelude.{
  Member, Member-left, Member-right, Member-split, ℕ, Bool, true, false, Option, none, some, List,
  [], ◌∷◌, ◌++◌, Text, codes, text_eq, ◌||◌, ◌≡◌, ◌↔◌, inl, inr, refl, sym, Bool-cases,
  if◌then◌else◌,
}
use mathlib.Core.Path.{subst}
use perry_hermes.Files.Policy.{path_join}
use perry_hermes.Files.Glob.{glob_match, Matches}
use perry_hermes.Files.Globbing.{glob_match-Matches}

-- A file: its name, when it was modified and its text, `none` if reading them fails.
pub record File : Type 0 where
  pub name : Text
  pub modified : Option ℕ
  pub text : Option Text

mutual
  pub data Entry : Type 0 where
    file : File → Entry
    directory : Text → Listing → Entry
    other : Entry

  -- the entries of a directory; `unreadable` if it cannot be listed
  pub data Listing : Type 0 where
    unreadable : Listing
    done : Listing
    entry : Entry → Listing → Listing

-- A file with its path.
abbrev pub FileAt : Type 0
FileAt = Text × File

unfoldable pub is_skipped : Text → Bool
is_skipped name =
    text_eq name (codes ".git")
    || text_eq name (codes "target")
    || text_eq name (codes "node_modules")
    || text_eq name (codes ".venv")
    || text_eq name (codes "__pycache__")

unfoldable pub is_globbed : Option Text → Text → Bool
unfolding glob_match
is_globbed none name = true
is_globbed (some glob) name = glob_match glob name

unfoldable mutual
  unfolding is_skipped is_globbed

  pub collect_files : Text → Option Text → Listing → List FileAt
  collect_files root glob unreadable = []
  collect_files root glob done = []
  collect_files root glob (entry e es) = collect_entry root glob e ++ collect_files root glob es

  pub collect_entry : Text → Option Text → Entry → List FileAt
  collect_entry root glob (file f) =
      if is_globbed glob f.name then (path_join root f.name, f) ∷ [] else []
  collect_entry root glob (directory name es) =
      let below = collect_files (path_join root name) glob es in
      if is_skipped name then [] else below
  collect_entry root glob other = []

-- A pattern for names, `none` for all names.
abbrev pub IsNamed : Option Text → Text → Type 0
IsNamed none name = Unit
IsNamed (some glob) name = Matches glob name

-- A file that a walk from a directory reaches: by directories that are not skipped.
pub data Reaches : Text → Option Text → Listing → FileAt → Type 0 where
  here :
      {root : Text} {glob : Option Text} {f : File} {es : Listing}
      → IsNamed glob f.name
      → Reaches root glob (entry (file f) es) (path_join root f.name, f)
  below :
      {root name : Text} {glob : Option Text} {inner es : Listing} {x : FileAt}
      → is_skipped name ≡ false
      → Reaches (path_join root name) glob inner x
      → Reaches root glob (entry (directory name inner) es) x
  later :
      {root : Text} {glob : Option Text} {e : Entry} {es : Listing} {x : FileAt}
      → Reaches root glob es x
      → Reaches root glob (entry e es) x

is_globbed_iff :
    (glob : Option Text) (name : Text) → (is_globbed glob name ≡ true) ↔ IsNamed glob name
unfolding is_globbed
is_globbed_iff none name = (λ h. tt, λ h. refl)
is_globbed_iff (some glob) name = glob_match-Matches glob name

mutual
  unfolding collect_files

  Member-Reaches :
      (root : Text) (glob : Option Text) (es : Listing) (x : FileAt)
      → Member x (collect_files root glob es)
      → Reaches root glob es x
  Member-Reaches root glob unreadable x m = absurd m
  Member-Reaches root glob done x m = absurd m
  Member-Reaches root glob (entry e es) x m =
      elim (Member-split x (collect_entry root glob e) (collect_files root glob es) m) [
        | inl l ↦ entry-Reaches root glob e es x l
        | inr r ↦ later (Member-Reaches root glob es x r)
      ]

  entry-Reaches :
      (root : Text) (glob : Option Text) (e : Entry) (es : Listing) (x : FileAt)
      → Member x (collect_entry root glob e)
      → Reaches root glob (entry e es) x
  entry-Reaches root glob other es x m = absurd m
  entry-Reaches root glob (file f) es x m = elim (Bool-cases (is_globbed glob f.name)) [
    | inl h ↦ elim (rw h at m) [
      | inl e ↦
          subst (Reaches root glob (entry (file f) es)) (sym e)
            (here ((is_globbed_iff glob f.name).0 h))
      | inr n ↦ absurd n
    ]
    | inr h ↦ absurd (rw h at m)
  ]
  entry-Reaches root glob (directory name inner) es x m = elim (Bool-cases (is_skipped name)) [
    | inl h ↦ absurd (rw h at m)
    | inr h ↦ below h (Member-Reaches (path_join root name) glob inner x (rw h at m))
  ]

Reaches-Member :
    {root : Text} {glob : Option Text} {es : Listing} {x : FileAt}
    → Reaches root glob es x
    → Member x (collect_files root glob es)
unfolding collect_files
Reaches-Member (here {root} {glob} {f} {es} n) =
    let h : is_globbed glob f.name ≡ true = (is_globbed_iff glob f.name).1 n in
    Member-left _ (collect_entry root glob (file f)) (collect_files root glob es) (rw h (inl refl))
Reaches-Member (below {root} {name} {glob} {inner} {es} {x} h d) =
    Member-left x (collect_entry root glob (directory name inner)) (collect_files root glob es)
      (rw h (Reaches-Member d))
Reaches-Member (later {root} {glob} {e} {es} {x} d) =
    Member-right x (collect_entry root glob e) (collect_files root glob es) (Reaches-Member d)

-- A walk collects exactly the files that lie below the root outside the skipped directories and
-- whose names match the pattern, if there is one.
pub collect_files-Reaches :
    (root : Text) (glob : Option Text) (es : Listing) (x : FileAt)
    → Member x (collect_files root glob es) ↔ Reaches root glob es x
collect_files-Reaches root glob es x = (Member-Reaches root glob es x, Reaches-Member)
