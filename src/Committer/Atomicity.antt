-- ===== src/Committer/Atomicity.antt =====
-- src/orchestration/multi_agent.cpp, `WorkspaceCommitter::commit`: the files after a call that
-- fails.
use runi.Prelude.{ℕ, ◌≡◌, refl, ◌∙◌, false, Option, none, some, List, [], ◌∷◌, Bytes}
use runi.Error.{Error, Result, failure}
use runi.Committer.{
  Files, Disk, PatchProposal, StagedPatch, commit, stage, staged_or_not, installed_or_not, install,
  Staging, staged_all, aborted,
}
use runi.Committer.Rollback.{clear, rollback-install, Distinct, IsFresh}
use runi.Committer.Stage.{Unused, Outcome, StageInv, stage-Outcome}

module _ (resolve : Bytes → Result Bytes) (hash : Bytes → Bytes) (disk : Disk)
    (works : (p : Bytes) → disk.undo_fails p ≡ false) (sequence : ℕ) (files : Files)
    (unused : Unused resolve sequence files) where
  start : StageInv resolve hash disk works sequence files unused 0 [] [] files
  unfolding clear
  start = record {
    cleared = refl;
    items = refl;
    distinct = tt;
    later = λ t i le. unused.temporaries t i;
    no_backups = unused.backups;
  }

  installed-failure :
      (ps : List StagedPatch) (now : Files) (error : Error)
      → clear ps now ≡ files
      → Distinct ps
      → IsFresh ps now
      → (installed_or_not disk (install disk ps now)).1 ≡ failure error
      → (installed_or_not disk (install disk ps now)).0 ≡ files
  unfolding installed_or_not
  installed-failure ps now error c d f h = of_error (install disk ps now).2 refl
    where
      of_error :
          (r : Option Error)
          → (install disk ps now).2 ≡ r
          → (installed_or_not disk (install disk ps now)).0 ≡ files
      of_error none e = absurd (cc (rw (e, installed_or_not) at h))
      of_error (some error') e =
          rw (e, installed_or_not) (rollback-install disk works ps now error' d f e ∙ c)

  staged-failure :
      (r : Staging) (error : Error)
      → Outcome resolve hash disk works sequence files unused r
      → (staged_or_not disk r).1 ≡ failure error
      → (staged_or_not disk r).0 ≡ files
  unfolding staged_or_not
  staged-failure (aborted now e) error o h = o
  staged-failure (staged_all ps now) error o h = installed-failure ps now error o.0 o.1 o.2 h

  -- When `commit` fails, at whatever check, write or rename, every file is as it was before, and no
  -- temporary file or backup is left, provided that no file or resolved target has a name that the
  -- batch makes up, and that the removals and renames of the cleanup succeed.
  pub commit_atomic :
      (proposals : List PatchProposal) (error : Error)
      → (commit resolve hash disk sequence proposals files).1 ≡ failure error
      → (commit resolve hash disk sequence proposals files).0 ≡ files
  unfolding commit
  commit_atomic [] error h = refl
  commit_atomic (p ∷ ps) error h =
      staged-failure (stage resolve hash disk sequence 0 [] [] (p ∷ ps) files) error
        (stage-Outcome resolve hash disk works sequence files unused 0 [] [] (p ∷ ps) files start) h
