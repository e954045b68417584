-- ===== src/Committer.antt =====
-- src/orchestration/multi_agent.cpp, `WorkspaceCommitter::commit`: a batch of patches is staged
-- beside its targets and then installed by renames, or rolled back.
pub mod Names
pub mod Files
pub mod Rollback
pub mod Stage
pub mod Atomicity
use runi.Prelude.{
  ℕ, suc, ◌+◌, Bool, true, false, ◌||◌, not, Option, none, some, List, [], ◌∷◌, ◌++◌, Bytes, bytes,
  to_string, if◌then◌else◌, is_empty, eq_bytes, mem,
}
use runi.Error.{
  Error, Result, success, failure, make_error, validation, resume_mismatch, persistence,
}

-- The regular files by path.
abbrev pub Files : Type 0
Files = Bytes → Option Bytes

-- What the operating system does. `write_error` is what a failed write leaves in the file, and the
-- error of `write_text_file`; `rename_error` is the message of a failed rename, by its source. The
-- errors of the cleanup and of the roll-back are ignored by the source: `undo_fails` says at which
-- paths they leave the files as they are.
pub record Disk : Type 0 where
  pub write_error : Bytes → Option (Option Bytes × Error)
  pub rename_error : Bytes → Option Bytes
  pub unreadable : Bytes → Bool
  pub undo_fails : Bytes → Bool

pub record PatchProposal : Type 0 where
  pub path : Bytes
  pub expected_sha256 : Bytes
  pub new_content : Bytes

pub record StagedPatch : Type 0 where
  pub relative : Bytes
  pub target : Bytes
  pub temporary : Bytes
  pub backup : Bytes
  pub existed : Bool
  pub target_replaced : Bool
  pub backup_created : Bool

unfoldable pub update : Bytes → Option Bytes → Files → Files
update path content files p = if eq_bytes path p then content else files p

-- `rename` of an existing file, over its target.
unfoldable pub move : Bytes → Bytes → Files → Files
unfolding update
move from to files = update from none (update to (files from) files)

pub data Renamed : Type 0 where
  renamed : Files → Renamed
  not_renamed : Bytes → Renamed

unfoldable pub exists : Option Bytes → Bool
exists none = false
exists (some content) = true

unfoldable pub rename : Disk → Bytes → Bytes → Files → Renamed
unfolding exists move
rename disk from to files = elim (disk.rename_error from) [
  | some message ↦ not_renamed message
  | none ↦
      if exists (files from)
      then renamed (move from to files)
      else not_renamed (bytes "No such file or directory")
]

-- `remove` and `rename` with their errors ignored.
unfoldable pub remove_quietly : Disk → Bytes → Files → Files
unfolding update
remove_quietly disk path files = if disk.undo_fails path then files else update path none files

unfoldable pub restore_quietly : Disk → Bytes → Bytes → Files → Files
unfolding exists move
restore_quietly disk from to files =
    if disk.undo_fails from || not (exists (files from)) then files else move from to files

-- `cleanup_staged`.
unfoldable pub cleanup_staged : Disk → List StagedPatch → Files → Files
cleanup_staged disk [] files = files
cleanup_staged disk (patch ∷ staged) files =
    cleanup_staged disk staged
      (remove_quietly disk patch.backup (remove_quietly disk patch.temporary files))

-- The body of the loop of `rollback_staged`.
unfoldable pub undo : Disk → StagedPatch → Files → Files
undo disk patch files =
    let cleared = if patch.target_replaced then remove_quietly disk patch.target files else files in
    let restored =
      if patch.backup_created
      then restore_quietly disk patch.backup patch.target cleared
      else cleared in
    remove_quietly disk patch.temporary restored

-- `rollback_staged`, from the last patch to the first.
unfoldable pub rollback_staged : Disk → List StagedPatch → Files → Files
rollback_staged disk [] files = files
rollback_staged disk (patch ∷ staged) files = undo disk patch (rollback_staged disk staged files)

-- Beside the target: `suffix` is `".runi-" + sequence + "-" + index`.
unfoldable pub suffix : ℕ → ℕ → Bytes
suffix sequence index = bytes ".runi-" ++ (to_string sequence ++ (bytes "-" ++ to_string index))

unfoldable pub temporary_name : ℕ → ℕ → Bytes → Bytes
temporary_name sequence index target = target ++ (suffix sequence index ++ bytes ".tmp")

unfoldable pub backup_name : ℕ → ℕ → Bytes → Bytes
backup_name sequence index target = target ++ (suffix sequence index ++ bytes ".bak")

abbrev pub duplicate_target : Error
duplicate_target =
    make_error validation (bytes "duplicate_patch_target")
      (bytes "Patch batch contains the same target more than once")

abbrev pub base_mismatch : Error
base_mismatch =
    make_error resume_mismatch (bytes "workspace_conflict")
      (bytes "Patch target does not match its expected base version")

abbrev pub changed_since : Error
changed_since =
    make_error resume_mismatch (bytes "workspace_conflict")
      (bytes "Patch target changed after the proposal was created")

pub data Staging : Type 0 where
  staged_all : List StagedPatch → Files → Staging
  aborted : Files → Error → Staging

unfoldable pub make_item : ℕ → ℕ → PatchProposal → Bytes → StagedPatch
make_item sequence index proposal target = record {
  relative = proposal.path;
  target = target;
  temporary = temporary_name sequence index target;
  backup = backup_name sequence index target;
  existed = true;
  target_replaced = false;
  backup_created = false;
}

-- What the checks of the staging loop say of one proposal: the target to stage, or the error.
-- `resolve` is `WorkspaceGuard::resolve`, and `hash` the digest that `sha256_file` reads.
unfoldable pub check :
    (Bytes → Result Bytes)
    → (Bytes → Bytes)
    → Disk
    → Files
    → List Bytes
    → PatchProposal
    → Result Bytes
unfolding mem exists
check resolve hash disk files targets proposal = elim (resolve proposal.path) [
  | failure error ↦ failure error
  | success target ↦
      if mem target targets
      then failure duplicate_target
      else if is_empty proposal.expected_sha256
      then failure base_mismatch
      else elim (files target) [
        | none ↦ failure base_mismatch
        | some content ↦
            if disk.unreadable target || not (eq_bytes (hash content) proposal.expected_sha256)
            then failure changed_since
            else success target
      ]
]

-- The staging loop, with the targets and the patches that are staged so far.
unfoldable pub stage :
    (Bytes → Result Bytes)
    → (Bytes → Bytes)
    → Disk
    → ℕ
    → ℕ
    → List Bytes
    → List StagedPatch
    → List PatchProposal
    → Files
    → Staging
unfolding make_item
stage resolve hash disk sequence index targets staged [] files = staged_all staged files
stage resolve hash disk sequence index targets staged (proposal ∷ proposals) files =
    elim (check resolve hash disk files targets proposal) [
      | failure error ↦ aborted (cleanup_staged disk staged files) error
      | success target ↦
          let item = make_item sequence index proposal target in
          elim (disk.write_error item.temporary) [
            | some (left, error) ↦
                aborted
                  (cleanup_staged disk (staged ++ item ∷ []) (update item.temporary left files))
                  error
            | none ↦
                stage resolve hash disk sequence (index + 1) (targets ++ target ∷ [])
                  (staged ++ item ∷ []) proposals
                  (update item.temporary (some proposal.new_content) files)
          ]
    ]

unfoldable pub commit_failed : Bytes → Bytes → Error
commit_failed text message =
    make_error persistence (bytes "workspace_commit_failed") (text ++ message)

-- The installing loop: the patches with the flags that it has set, the files, and its error.
unfoldable pub install : Disk → List StagedPatch → Files → List StagedPatch × Files × Option Error
install disk [] files = ([], files, none)
install disk (patch ∷ staged) files = elim (rename disk patch.target patch.backup files) [
  | not_renamed message ↦ (
    patch ∷ staged,
    files,
    some (commit_failed (bytes "Could not stage original file: ") message),
  )
  | renamed moved ↦ elim (rename disk patch.temporary patch.target moved) [
    | not_renamed message ↦ (
      record patch { backup_created = true } ∷ staged,
      moved,
      some (commit_failed (bytes "Could not install staged patch: ") message),
    )
    | renamed installed ↦
        let (rest, final, error) = install disk staged installed in
        (record patch { backup_created = true; target_replaced = true } ∷ rest, final, error)
  ]
]

-- The last loop: the backups go, and the relative paths are returned.
unfoldable pub drop_backups : Disk → List StagedPatch → Files → Files
drop_backups disk [] files = files
drop_backups disk (patch ∷ staged) files =
    drop_backups disk staged (remove_quietly disk patch.backup files)

unfoldable pub relatives : List StagedPatch → List Bytes
relatives [] = []
relatives (patch ∷ staged) = patch.relative ∷ relatives staged

unfoldable pub installed_or_not :
    Disk → List StagedPatch × Files × Option Error → Files × Result (List Bytes)
unfolding drop_backups relatives
installed_or_not disk (staged, files, some error) =
    (rollback_staged disk staged files, failure error)
installed_or_not disk (staged, files, none) =
    (drop_backups disk staged files, success (relatives staged))

unfoldable pub staged_or_not : Disk → Staging → Files × Result (List Bytes)
unfolding installed_or_not install
staged_or_not disk (aborted files error) = (files, failure error)
staged_or_not disk (staged_all staged files) = installed_or_not disk (install disk staged files)

-- `commit`, with the number that `patch_sequence` gave.
unfoldable pub commit :
    (Bytes → Result Bytes)
    → (Bytes → Bytes)
    → Disk
    → ℕ
    → List PatchProposal
    → Files
    → Files × Result (List Bytes)
unfolding stage staged_or_not
commit resolve hash disk sequence [] files = (files, success [])
commit resolve hash disk sequence (p ∷ ps) files =
    staged_or_not disk (stage resolve hash disk sequence 0 [] [] (p ∷ ps) files)
