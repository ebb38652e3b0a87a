-- ===== src/Agent/Files.antt =====
-- What sessions rely on of the file system and of the JSON encoding of a snapshot. `Fs` is the state
-- of the file system; a Boolean result says whether the operation succeeded.
use perry_hermes.Prelude.{Text, Bool, true, false, Option, some, ◌≡◌, ◌≢◌}

pub record Files : Type 1 where
  pub Fs : Type 0
  pub Bytes : Type 0
  -- `tokio::fs::read`, `Path::exists`, `tokio::fs::write`, `tokio::fs::rename` and
  -- `tokio::fs::create_dir_all`
  pub read : Text → Fs → Option Bytes
  pub exists : Text → Fs → Bool
  pub write : Text → Bytes → Fs → Bool × Fs
  pub rename : Text → Text → Fs → Bool × Fs
  pub create_dir_all : Text → Fs → Bool × Fs
  -- `Path::parent` and `Path::join`
  pub parent : Text → Option Text
  pub join_path : Text → Text → Text
  pub read-write :
      (p : Text) (b : Bytes) (fs : Fs) → (write p b fs).0 ≡ true → read p (write p b fs).1 ≡ some b
  pub read-rename :
      (p q : Text) (fs : Fs) → (rename p q fs).0 ≡ true → read q (rename p q fs).1 ≡ read p fs
  pub exists-rename :
      (p q : Text) (fs : Fs) → p ≢ q → (rename p q fs).0 ≡ true → exists p (rename p q fs).1 ≡ false
  pub exists-read : (p : Text) (b : Bytes) (fs : Fs) → read p fs ≡ some b → exists p fs ≡ true
  pub read-create_dir_all : (d p : Text) (fs : Fs) → read p (create_dir_all d fs).1 ≡ read p fs
  pub exists-create_dir_all :
      (d p : Text) (fs : Fs) → exists p (create_dir_all d fs).1 ≡ exists p fs
