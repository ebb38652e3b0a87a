-- ===== src/Files/SearchTool.antt =====
-- `execute` and `content_mode` of crates/hermes-skill-tools/src/tools/files/search.rs: the arguments, as
-- `as_str` and `as_u64` read them, and what is outside: the directories and ripgrep.
use perry_hermes.Prelude.{
  unwrap_or, ℕ, Bool, true, false, Option, none, some, [], ◌∷◌, ◌++◌, Text, codes, text_eq, max,
  if◌then◌else◌, Result, ok, err,
}
use perry_hermes.Core.Json.{JsonReader}
use perry_hermes.Files.Policy.{Env, resolve_user_path}
use perry_hermes.Files.Walk.{Listing}
use perry_hermes.Files.Search.{content_mode_walk}
use perry_hermes.Files.Names.{Payload, failed, files_mode}
use perry_hermes.Files.Ripgrep.{RgPayload, plain, RgRun, rg_content_search}

pub record SearchArgs : Type 0 where
  pub pattern : Option Text
  pub target : Option Text
  pub path : Option Text
  pub file_glob : Option Text
  pub limit : Option ℕ
  pub offset : Option ℕ
  pub output_mode : Option Text
  pub context : Option ℕ

pub record Outside : Type 1 where
  pub J : JsonReader
  -- `Path::is_dir` with `read_dir`; `none` if the path is not a directory
  pub list_dir : Text → Option Listing
  pub rg_available : Bool
  -- root, pattern, glob and context to the end of the run
  pub run_rg : Text → Text → Option Text → ℕ → RgRun

module _ (env : Env) (out : Outside) (args : SearchArgs) where
  abbrev limit_arg : ℕ
  limit_arg = max (unwrap_or args.limit 50) 1

  abbrev offset_arg : ℕ
  offset_arg = unwrap_or args.offset 0

  abbrev mode_arg : Text
  mode_arg = unwrap_or args.output_mode (codes "content")

  abbrev plain_or_none : Option Payload → Option RgPayload
  plain_or_none none = none
  plain_or_none (some p) = some (plain p)

  unfoldable pub content_mode : Text → Text → Listing → Option RgPayload
  unfolding rg_content_search content_mode_walk
  content_mode root pattern es = elim out.rg_available [
    | true ↦ some (
        rg_content_search out.J mode_arg (unwrap_or args.context 0) limit_arg offset_arg
          (out.run_rg root pattern args.file_glob (unwrap_or args.context 0)))
    | false ↦
        plain_or_none
          (content_mode_walk root pattern args.file_glob mode_arg limit_arg offset_arg es)
  ]

  abbrev pub search_dir : Text → Text → Listing → Option RgPayload
  unfolding content_mode files_mode
  search_dir pattern root es =
      let target = unwrap_or args.target (codes "content") in
      if text_eq target (codes "files")
      then some (plain (files_mode root pattern args.file_glob limit_arg offset_arg es))
      else if text_eq target (codes "content")
      then content_mode root pattern es
      else some (
          plain (
            failed
              (codes "Unknown target '" ++ (target ++ codes "'. Expected 'content' or 'files'."))))

  abbrev pub search_root : Text → Text → Option RgPayload
  unfolding content_mode files_mode
  search_root pattern root = elim (out.list_dir root) [
    | none ↦ some (plain (failed (codes "search path is not a directory: " ++ root)))
    | some es ↦ search_dir pattern root es
  ]

  abbrev pub root_arg : Result Text Text
  unfolding resolve_user_path
  root_arg = elim args.path [ none ↦ ok env.working_dir | some p ↦ resolve_user_path env p ]

  unfoldable pub search_execute : Option RgPayload
  unfolding content_mode files_mode resolve_user_path
  search_execute = elim args.pattern [
    | none ↦ some (plain (failed (codes "missing 'pattern'")))
    | some pattern ↦ elim pattern [
      | [] ↦ some (plain (failed (codes "missing 'pattern'")))
      | c ∷ s ↦ elim root_arg [
        | err msg ↦ some (plain (failed msg))
        | ok root ↦ search_root (c ∷ s) root
      ]
    ]
  ]
