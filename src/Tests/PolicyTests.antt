-- ===== src/Tests/PolicyTests.antt =====
-- The policy of the file tools at concrete paths.
use perry_hermes.Prelude.{◌≡◌, refl, true, none, some, Text, codes, err}
use perry_hermes.Patch.Parse.{V4aOp}
use perry_hermes.Patch.Ops.{apply_v4a_op}
use perry_hermes.Files.Policy.{
  Env, resolve_user_path, sensitive_write_path_message, cross_profile_write_message,
}
use perry_hermes.Files.Refusals.{guarded, here, there, apply_v4a_op-blocked}
use perry_hermes.Tests.PatchToolTests.{disk, files, deletion}

abbrev env : Env
env = record {
  home = some (codes "/home/u");
  working_dir = codes "/usr";
  config_path = codes "/home/u/.perry_hermes/config.toml";
  active_profile = some (codes "work");
}

-- a relative path below a blocked directory
abbrev removal : V4aOp
removal = record deletion { path = codes "bin/env" }

apply_v4a_op-blocked_example :
    (msg : Text) × (apply_v4a_op (guarded env disk) removal true files ≡ some (err msg, files))
unfolding resolve_user_path
apply_v4a_op-blocked_example =
    apply_v4a_op-blocked env disk removal true files (codes "/usr/bin") (codes "env")
      (there _ _ (there _ _ (here _))) refl

-- Another spelling of a blocked path is not refused.
detour :
    sensitive_write_path_message env (codes "/tmp/../etc/passwd") (codes "/tmp/../etc/passwd")
    ≡ none
unfolding sensitive_write_path_message
detour = refl

-- The other profile's skills are refused, the active one's are not.
profiles :
    (cross_profile_write_message env (codes "/h/profiles/work/skills/a.md") ≡ none)
    × ((m : Text) × (cross_profile_write_message env (codes "/h/profiles/home/skills/a.md")
          ≡ some m))
unfolding cross_profile_write_message
profiles = (refl, (_, refl))
