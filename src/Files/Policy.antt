-- ===== src/Files/Policy.antt =====
-- crates/hermes-skill-tools/src/tools/files/policy.rs, its checks on a path that is to be written, and
-- resolve_user_path of crates/hermes-core/src/util.rs, on Unix. What the environment gives is an
-- argument: the home directory, the path of the configuration and the active profile.
use perry_hermes.Prelude.{
  ◌*◌, Bool, true, false, not, ◌&&◌, ◌||◌, Option, none, some, List, [], ◌∷◌, ◌++◌, Text, codes,
  text_eq, strip_prefix, trim, is_empty, leb, ◌==◌, if◌then◌else◌, Result, ok, err,
}
use perry_hermes.Utf8.{len}
use perry_hermes.Patch.Hunks.{cons_piece}
use perry_hermes.Patch.Replace.{find_text}

pub record Env : Type 0 where
  pub home : Option Text
  pub working_dir : Text
  pub config_path : Text
  pub active_profile : Option Text

abbrev pub is_absolute : Text → Bool
is_absolute [] = false
is_absolute (c ∷ s) = c == 47

abbrev ends_with_slash : Text → Bool
ends_with_slash [] = true
ends_with_slash (c ∷ []) = c == 47
ends_with_slash (c ∷ d ∷ s) = ends_with_slash (d ∷ s)

-- `Path::join`
abbrev pub path_join : Text → Text → Text
path_join dir p =
    if is_absolute p then p else dir ++ ((if ends_with_slash dir then [] else codes "/") ++ p)

abbrev pub made_absolute : Text → Text → Text
made_absolute working_dir p = if is_absolute p then p else path_join working_dir p

unfoldable pub resolve_user_path : Env → Text → Result Text Text
resolve_user_path env input = elim (strip_prefix (codes "~/") input) as (λ x. Result Text Text) [
  | none ↦ ok (made_absolute env.working_dir input)
  | some rest ↦ elim env.home as (λ x. Result Text Text) [
    | some home ↦ ok (made_absolute env.working_dir (path_join home rest))
    | none ↦ err (codes "~ expansion requested but $HOME/$USERPROFILE is not set")
  ]
]

unfoldable pub normalize_path_string : Env → Text → Text
normalize_path_string env input = elim (strip_prefix (codes "~/") input) as (λ x. Text) [
  | none ↦ input
  | some rest ↦ elim env.home as (λ x. Text) [ none ↦ input | some home ↦ path_join home rest ]
]

abbrev pub starts_with_slash : Text → Bool
starts_with_slash [] = false
starts_with_slash (c ∷ s) = c == 47

unfoldable pub has_path_prefix : Text → Text → Bool
has_path_prefix path prefix =
    text_eq path prefix || elim (strip_prefix prefix path) as (λ x. Bool) [
      | none ↦ false
      | some rest ↦ starts_with_slash rest
    ]

abbrev pub exact_blocked : List Text
exact_blocked = codes "/etc/passwd" ∷ codes "/etc/shadow" ∷ []

abbrev pub prefix_blocked : List Text
prefix_blocked =
    codes "/bin" ∷ codes "/sbin" ∷ codes "/usr/bin" ∷ codes "/usr/sbin" ∷ codes "/var/run" ∷ []

abbrev pub any_equal : Text → Text → List Text → Bool
any_equal a b [] = false
any_equal a b (e ∷ es) = (text_eq a e || text_eq b e) || any_equal a b es

unfoldable pub any_prefix : Text → Text → List Text → Bool
unfolding has_path_prefix
any_prefix a b [] = false
any_prefix a b (p ∷ ps) = (has_path_prefix a p || has_path_prefix b p) || any_prefix a b ps

unfoldable pub sensitive_write_path_message : Env → Text → Text → Option Text
unfolding normalize_path_string any_prefix
sensitive_write_path_message env original resolved =
    let normalized = normalize_path_string env original in
    if any_equal normalized resolved exact_blocked || any_prefix normalized resolved prefix_blocked
    then some (
        codes "Refusing to write to sensitive system path: "
        ++ (original
            ++ codes "\nUse the terminal tool with sudo if you need to modify system files."))
    else if text_eq normalized env.config_path || text_eq resolved env.config_path
    then some (
        codes "Refusing to write to Perry Hermes config file: "
        ++ (original
            ++ codes
                "\nAgent cannot modify security-sensitive configuration. Edit ~/.perry_hermes/config.toml directly."))
    else none

-- `split('/')`
abbrev pub split_slashes : Text → List Text
split_slashes [] = [] ∷ []
split_slashes (c ∷ s) =
    let rest = split_slashes s in if c == 47 then [] ∷ rest else cons_piece c rest

abbrev pub is_scoped : Text → Bool
is_scoped dir =
    text_eq dir (codes "skills")
    || (text_eq dir (codes "plugins")
        || (text_eq dir (codes "cron") || text_eq dir (codes "memories")))

abbrev pub is_active : Text → Option Text → Bool
is_active profile none = false
is_active profile (some active) = text_eq active profile

abbrev pub cross_profile_parts : Option Text → List Text → Option Text
cross_profile_parts active (profile ∷ dir ∷ file ∷ more) =
    if is_scoped dir && not (is_active profile active)
    then some (
        codes "Refusing cross-profile write to Perry Hermes "
        ++ (dir
            ++ (codes " for profile '"
                ++ (profile
                    ++ codes "'. Pass cross_profile=true only after explicit user direction."))))
    else none
cross_profile_parts active _ = none

unfoldable pub cross_profile_write_message : Env → Text → Option Text
unfolding find_text
cross_profile_write_message env resolved =
    elim (find_text (codes "/profiles/") resolved) as (λ x. Option Text) [
      | none ↦ none
      | some (b, rest) ↦ cross_profile_parts env.active_profile (split_slashes rest)
    ]

abbrev pub read_dedup_status_message : Text
read_dedup_status_message =
    codes
      "File unchanged since last read. The content from the earlier read_file result in this conversation is still current — refer to that instead of re-reading."

abbrev pub is_some : Option (Text × Text) → Bool
is_some none = false
is_some (some x) = true

unfoldable pub is_internal_file_status_text : Text → Bool
unfolding find_text
is_internal_file_status_text content =
    let stripped = trim content in
    not (is_empty stripped)
    && (text_eq stripped read_dedup_status_message
        || (is_some (find_text read_dedup_status_message stripped)
            && leb (len stripped) (2 * len read_dedup_status_message)))
