-- ===== src/Agent/Session/Storage.antt =====
-- Snapshots of a session on disk: persisting, loading and archiving.
use perry_hermes.Prelude.{
  ◌≡◌, refl, sym, ap, ◌∙◌, Bool, true, false, Option, none, some, [], Text, codes, ◌++◌, arith,
  if◌then◌else◌, Bool-cases, inl, inr,
}
use perry_hermes.Core.Message.{Message}
use perry_hermes.Agent.Files.{Files}
use perry_hermes.Agent.Session.{
  Session, Snapshot, Codec, or_else, snapshot, write_snapshot, save, persist, load_json_file,
  archive_file, archive_to, archive_stored, archive_name, clear_in_memory_only,
}

module _ {V : Type 0} (F : Files) (C : Codec V F.Bytes) where
  open F use {Fs, Bytes, read, exists, write, rename, create_dir_all, parent, join_path}

  read-write_snapshot :
      (path : Text) (snap : Snapshot V) (fs : Fs)
      → (write_snapshot F C path snap fs).0 ≡ true
      → (b : Bytes) × (read path (write_snapshot F C path snap fs).1 ≡ some b)
        × (C.decode b ≡ some snap)
  unfolding write_snapshot
  read-write_snapshot path snap fs h = go (C.encode snap) refl h
    where
      go :
          (o : Option Bytes)
          → C.encode snap ≡ o
          → (elim o as (λ x. Bool × Fs) [ none ↦ (false, fs) | some b ↦ write path b fs ]).0 ≡ true
          → (b : Bytes) × (read path
                (elim o as (λ x. Bool × Fs) [ none ↦ (false, fs) | some b ↦ write path b fs ]).1
              ≡ some b)
            × (C.decode b ≡ some snap)
      go none e k = cc
      go (some b) e k = (b, F.read-write path b fs k, C.decode-encode snap b e)

  pub read-save :
      (path : Text) (snap : Snapshot V) (fs : Fs)
      → (save F C path snap fs).0 ≡ true
      → (b : Bytes) × (read path (save F C path snap fs).1 ≡ some b) × (C.decode b ≡ some snap)
  unfolding save
  read-save path snap fs h = go (parent path) h
    where
      saved : Option Text → Bool × Fs
      saved o = elim o [
        | none ↦ write_snapshot F C path snap fs
        | some dir ↦
            let (made, fs') = create_dir_all dir fs in
            if made then write_snapshot F C path snap fs' else (false, fs')
      ]

      go :
          (o : Option Text)
          → (saved o).0 ≡ true
          → (b : Bytes) × (read path (saved o).1 ≡ some b) × (C.decode b ≡ some snap)
      go none k = read-write_snapshot path snap fs k
      go (some dir) k = branch (create_dir_all dir fs) k
        where
          branch :
              (r : Bool × Fs)
              → (if r.0 then write_snapshot F C path snap r.1 else (false, r.1)).0 ≡ true
              → (b : Bytes) × (read path
                    (if r.0 then write_snapshot F C path snap r.1 else (false, r.1)).1
                  ≡ some b)
                × (C.decode b ≡ some snap)
          branch (true, fs') j = read-write_snapshot path snap fs' j
          branch (false, fs') j = cc

  load_of_read :
      (path : Text) (wd : Option Text) (sys : Option (Message V)) (snap : Snapshot V) (b : Bytes)
      (fs : Fs)
      → read path fs ≡ some b
      → C.decode b ≡ some snap
      → load_json_file F C path wd sys fs
        ≡ some (record {
          session_id = snap.session_id;
          working_dir = elim wd [ none ↦ snap.working_dir | some d ↦ d ];
          system_message = or_else sys snap.system_message;
          parent_session_id = snap.parent_session_id;
          role = snap.role;
          messages = snap.messages;
          pending_messages = [];
          context_usage_baseline_tokens = snap.context_usage_baseline_tokens;
          store = some path;
        })
  unfolding load_json_file
  load_of_read path wd sys snap b fs r d = rw (r, load_json_file) (rw (d, load_json_file))

  -- A session that was persisted with no error and is loaded again from its path has its whole
  -- state, but for the queue of pending messages, which is not saved, and for the working directory
  -- and the system message that the loader supplies in place of the saved ones.
  pub load-persist :
      (path : Text) (wd : Option Text) (sys : Option (Message V)) (s : Session V) (fs : Fs)
      → s.store ≡ some path
      → (save F C path (snapshot s) fs).0 ≡ true
      → load_json_file F C path wd sys (persist F C s fs)
        ≡ some (record s {
          working_dir = elim wd [ none ↦ s.working_dir | some d ↦ d ];
          system_message = or_else sys s.system_message;
          pending_messages = [];
        })
  unfolding persist snapshot
  load-persist path wd sys s fs h k =
      let (b, r, d) = read-save path (snapshot s) fs k in
      rw (h, persist)
        (load_of_read path wd sys (snapshot s) b (save F C path (snapshot s) fs).1 r d)

  encode-write_snapshot :
      (path : Text) (snap : Snapshot V) (fs : Fs)
      → (write_snapshot F C path snap fs).0 ≡ true
      → read path (write_snapshot F C path snap fs).1 ≡ C.encode snap
  unfolding write_snapshot
  encode-write_snapshot path snap fs h = go (C.encode snap) h
    where
      go :
          (o : Option Bytes)
          → (elim o as (λ x. Bool × Fs) [ none ↦ (false, fs) | some b ↦ write path b fs ]).0 ≡ true
          → read path
              (elim o as (λ x. Bool × Fs) [ none ↦ (false, fs) | some b ↦ write path b fs ]).1
            ≡ o
      go none k = cc
      go (some b) k = F.read-write path b fs k

  -- The file under `target` afterwards, for a file system that may hold the active snapshot.
  abbrev pub archived : Text → Session V → Fs → Option Bytes
  archived path s fs = if exists path fs then read path fs else C.encode (snapshot s)

  read-archive_file :
      (path target : Text) (s : Session V) (fs : Fs)
      → (archive_file F C path target s fs).0 ≡ true
      → read target (archive_file F C path target s fs).1 ≡ archived path s fs
  unfolding archive_file
  read-archive_file path target s fs h = elim (Bool-cases (exists path fs)) [
    | inl e ↦ rw (e, archive_file) (F.read-rename path target fs (rw (e, archive_file) at h))
    | inr e ↦
        rw (e, archive_file)
          (encode-write_snapshot target (snapshot s) fs (rw (e, archive_file) at h))
  ]

  archive_stored-kept :
      (path dir ts : Text) (s : Session V) (fs : Fs) (target : Text)
      → (archive_stored F C path dir ts s fs).0 ≡ some target
      → (target ≡ join_path dir (archive_name ts s))
        × ((archive_stored F C path dir ts s fs).1.0 ≡ clear_in_memory_only s)
        × (read target (archive_stored F C path dir ts s fs).1.1
            ≡ archived path s (create_dir_all dir fs).1)
  unfolding archive_stored
  archive_stored-kept path dir ts s fs target h = ground (
    arith,
    read-archive_file path (join_path dir (archive_name ts s)) s (create_dir_all dir fs).1,
  )

  archive_to-stored :
      (path dir ts : Text) (s : Session V) (fs : Fs)
      → s.store ≡ some path
      → archive_to F C dir ts s fs ≡ archive_stored F C path dir ts s fs
  unfolding archive_to
  archive_to-stored path dir ts s fs stored =
      ap
        (λ o. elim o as (λ x. Option Text × (Session V × Fs)) [
          | none ↦ (some (join_path dir (s.session_id ++ codes "_no-store.json")), (s, fs))
          | some p ↦ archive_stored F C p dir ts s fs
        ])
        stored

  archived-create_dir_all :
      (path dir : Text) (s : Session V) (fs : Fs)
      → archived path s (create_dir_all dir fs).1 ≡ archived path s fs
  archived-create_dir_all path dir s fs =
      rw (F.exists-create_dir_all dir path fs, F.read-create_dir_all dir path fs)

  -- If archiving a stored session succeeds, the reported path is the session's id and the time
  -- stamp in the archive directory, the file there holds what the active snapshot file held (or,
  -- without such a file, the encoded session), and the session has lost its log, its queue and its
  -- baseline and nothing else.
  pub archive_to-kept :
      (path dir ts : Text) (s : Session V) (fs : Fs) (target : Text)
      → s.store ≡ some path
      → (archive_to F C dir ts s fs).0 ≡ some target
      → (target ≡ join_path dir (archive_name ts s))
        × ((archive_to F C dir ts s fs).1.0 ≡ record s {
          messages = [];
          pending_messages = [];
          context_usage_baseline_tokens = none;
        })
        × (read target (archive_to F C dir ts s fs).1.1 ≡ archived path s fs)
  unfolding archive_to clear_in_memory_only
  archive_to-kept path dir ts s fs target stored h =
      let e = archive_to-stored path dir ts s fs stored in
      let (named, cleared, kept) =
        archive_stored-kept path dir ts s fs target (ap (λ r. r.0) (sym e) ∙ h) in
      (
        named,
        ap (λ r. r.1.0) e ∙ cleared,
        ap (λ r. read target r.1.1) e ∙ kept ∙ archived-create_dir_all path dir s fs,
      )

  -- If archiving fails, the session keeps its whole state.
  pub archive_to-failed :
      (dir ts : Text) (s : Session V) (fs : Fs)
      → (archive_to F C dir ts s fs).0 ≡ none
      → (archive_to F C dir ts s fs).1.0 ≡ s
  unfolding archive_to
  archive_to-failed dir ts s fs h = ground arith
