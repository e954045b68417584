-- ===== src/Committer/Rollback.antt =====
-- src/orchestration/multi_agent.cpp: `rollback_staged` after the installing loop of `commit`.
use runi.Prelude.{
  ◌≡◌, ◌≢◌, refl, sym, ap, ◌∙◌, fun_ext, true, false, Option, none, some, List, [], ◌∷◌, ◌⊎◌, inl,
  inr, Bytes, bytes, eq_bytes_iff, arith, Option-cases,
}
use runi.Error.{Error}
use runi.Committer.{
  Files, Disk, StagedPatch, update, move, rename, renamed, not_renamed, undo, rollback_staged,
  install,
}
use runi.Committer.Files.{
  update_ne, update_twice, update_swap, remove_quietly_lem, restore_quietly_lem,
}

-- The files without the temporary files of a batch.
unfoldable pub clear : List StagedPatch → Files → Files
clear [] files = files
clear (p ∷ ps) files = update p.temporary none (clear ps files)

-- A path is none of the temporary files.
abbrev pub AllNe : Bytes → List StagedPatch → Type 0
AllNe a [] = Unit {0}
AllNe a (p ∷ ps) = (a ≢ p.temporary) × AllNe a ps

-- The paths of one patch differ, and so do those of two.
pub record Own (p : StagedPatch) : Type 0 where
  pub target_temporary : p.target ≢ p.temporary
  pub target_backup : p.target ≢ p.backup
  pub temporary_backup : p.temporary ≢ p.backup

pub record Apart (p q : StagedPatch) : Type 0 where
  pub targets : p.target ≢ q.target
  pub target_temporary : p.target ≢ q.temporary
  pub target_backup : p.target ≢ q.backup
  pub temporary_target : p.temporary ≢ q.target
  pub temporaries : p.temporary ≢ q.temporary
  pub temporary_backup : p.temporary ≢ q.backup
  pub backup_target : p.backup ≢ q.target
  pub backup_temporary : p.backup ≢ q.temporary
  pub backups : p.backup ≢ q.backup

abbrev pub AllApart : StagedPatch → List StagedPatch → Type 0
AllApart p [] = Unit {0}
AllApart p (q ∷ ps) = Apart p q × AllApart p ps

abbrev pub Distinct : List StagedPatch → Type 0
Distinct [] = Unit {0}
Distinct (p ∷ ps) = Own p × AllApart p ps × Distinct ps

-- No patch is installed yet, and no backup is there.
abbrev pub IsFresh : List StagedPatch → Files → Type 0
IsFresh [] files = Unit {0}
IsFresh (p ∷ ps) files =
    (p.target_replaced ≡ false)
    × (p.backup_created ≡ false)
    × (files p.backup ≡ none)
    × IsFresh ps files

AllApart-target : (p : StagedPatch) (ps : List StagedPatch) → AllApart p ps → AllNe p.target ps
AllApart-target p [] h = tt
AllApart-target p (q ∷ ps) h = (h.0.target_temporary, AllApart-target p ps h.1)

AllApart-temporary :
    (p : StagedPatch) (ps : List StagedPatch) → AllApart p ps → AllNe p.temporary ps
AllApart-temporary p [] h = tt
AllApart-temporary p (q ∷ ps) h = (h.0.temporaries, AllApart-temporary p ps h.1)

AllApart-backup : (p : StagedPatch) (ps : List StagedPatch) → AllApart p ps → AllNe p.backup ps
AllApart-backup p [] h = tt
AllApart-backup p (q ∷ ps) h = (h.0.backup_temporary, AllApart-backup p ps h.1)

pub clear_at :
    (a : Bytes) (ps : List StagedPatch) (files : Files) → AllNe a ps → clear ps files a ≡ files a
unfolding clear
clear_at a [] files n = refl
clear_at a (p ∷ ps) files n =
    update_ne (clear ps files) p.temporary a none (λ e. n.0 (sym e)) ∙ clear_at a ps files n.1

pub clear-update :
    (a : Bytes) (v : Option Bytes) (ps : List StagedPatch) (files : Files)
    → AllNe a ps
    → clear ps (update a v files) ≡ update a v (clear ps files)
unfolding clear
clear-update a v [] files n = refl
clear-update a v (p ∷ ps) files n =
    ap (update p.temporary none) (clear-update a v ps files n.1)
    ∙ update_swap (clear ps files) p.temporary a none v (λ e. n.0 (sym e))

clear-move :
    (a b : Bytes) (ps : List StagedPatch) (files : Files)
    → AllNe a ps
    → AllNe b ps
    → clear ps (move a b files) ≡ move a b (clear ps files)
unfolding move
clear-move a b ps files na nb =
    clear-update a none ps (update b (files a) files) na
    ∙ ap (update a none) (
        clear-update b (files a) ps files nb
        ∙ ap (λ v. update b v (clear ps files)) (sym (clear_at a ps files na)))

-- A move between the paths of one patch leaves the backups of the others away.
move-IsFresh :
    (a b : Bytes) (p : StagedPatch) (ps : List StagedPatch) (files : Files)
    → (a ≡ p.target) × (b ≡ p.backup) ⊎ (a ≡ p.temporary) × (b ≡ p.target)
    → AllApart p ps
    → IsFresh ps files
    → IsFresh ps (move a b files)
unfolding move update
move-IsFresh a b p [] files which h f = tt
move-IsFresh a b p (q ∷ ps) files which h f = (
  f.0,
  f.1,
  ground (
    arith,
    eq_bytes_iff a q.backup,
    eq_bytes_iff b q.backup,
    h.0.target_backup,
    h.0.backups,
    h.0.temporary_backup,
  ),
  move-IsFresh a b p ps files which h.1 f.3,
)

rename-cases :
    (disk : Disk) (a b : Bytes) (files : Files)
    → ((message : Bytes) × (rename disk a b files ≡ not_renamed message))
      ⊎ ((content : Bytes) × (files a ≡ some content)
          × (rename disk a b files ≡ renamed (move a b files)))
unfolding rename
rename-cases disk a b files = elim (Option-cases (disk.rename_error a)) [
  | inr (message, e) ↦ inl (message, rw (e, rename))
  | inl works ↦ elim (Option-cases (files a)) [
    | inl missing ↦ inl (bytes "No such file or directory", rw (works, missing, rename))
    | inr (content, there) ↦ inr (content, there, rw (works, there, rename))
  ]
]

module _ (disk : Disk) (works : (p : Bytes) → disk.undo_fails p ≡ false) where
  -- The roll-back of one patch, from each state in which the installation can stop.
  undo_fresh :
      (p : StagedPatch) (files : Files)
      → p.target_replaced ≡ false
      → p.backup_created ≡ false
      → undo disk p files ≡ update p.temporary none files
  unfolding undo
  undo_fresh p files r b = rw (r, b) (remove_quietly_lem disk works files p.temporary)

  restored :
      (p : StagedPatch) (files : Files) (old : Bytes)
      → Own p
      → files p.target ≡ some old
      → files p.backup ≡ none
      → move p.backup p.target (move p.target p.backup files) ≡ files
  unfolding move update
  restored p files old own at_target at_backup = fun_ext λ x. ground (
    arith,
    own.target_backup,
    eq_bytes_iff p.target x,
    eq_bytes_iff p.backup x,
    eq_bytes_iff p.target p.backup,
    eq_bytes_iff p.backup p.backup,
    eq_bytes_iff p.backup p.target,
  )

  at_backup_moved :
      (p : StagedPatch) (files : Files)
      → Own p
      → move p.target p.backup files p.backup ≡ files p.target
  unfolding move update
  at_backup_moved p files own =
      ground
        (arith, own.target_backup, eq_bytes_iff p.target p.backup, eq_bytes_iff p.backup p.backup)

  undo_moved :
      (p : StagedPatch) (files : Files) (old : Bytes)
      → Own p
      → p.target_replaced ≡ false
      → files p.target ≡ some old
      → files p.backup ≡ none
      → undo disk (record p { backup_created = true }) (move p.target p.backup files)
        ≡ update p.temporary none files
  unfolding undo
  undo_moved p files old own r at_target at_backup =
      rw
        (
          r,
          restore_quietly_lem disk works (move p.target p.backup files) p.backup p.target old
              (at_backup_moved p files own ∙ at_target),
          restored p files old own at_target at_backup,
        )
        (remove_quietly_lem disk works files p.temporary)

  -- Taking the installed content away leaves the state after the first rename.
  uninstalled :
      (p : StagedPatch) (files : Files)
      → Own p
      → update p.target none (move p.temporary p.target (move p.target p.backup files))
        ≡ update p.temporary none (move p.target p.backup files)
  unfolding move update
  uninstalled p files own =
      fun_ext λ x.
        ground (arith, own.target_temporary, eq_bytes_iff p.target x, eq_bytes_iff p.temporary x)

  move_aside :
      (p : StagedPatch) (files : Files)
      → Own p
      → move p.backup p.target (update p.temporary none files)
        ≡ update p.temporary none (move p.backup p.target files)
  unfolding move update
  move_aside p files own = fun_ext λ x. ground (
    arith,
    own.target_temporary,
    own.temporary_backup,
    eq_bytes_iff p.target x,
    eq_bytes_iff p.backup x,
    eq_bytes_iff p.temporary x,
    eq_bytes_iff p.temporary p.backup,
  )

  undo_installed :
      (p : StagedPatch) (files : Files) (old : Bytes)
      → Own p
      → files p.target ≡ some old
      → files p.backup ≡ none
      → undo disk
          (record p { backup_created = true; target_replaced = true })
          (move p.temporary p.target (move p.target p.backup files))
        ≡ update p.temporary none files
  unfolding undo
  undo_installed p files old own at_target at_backup =
      rw
        (
          remove_quietly_lem disk works (move p.temporary p.target (move p.target p.backup files))
              p.target,
          uninstalled p files own,
          restore_quietly_lem disk works (update p.temporary none (move p.target p.backup files))
              p.backup p.target old
              (update_ne (move p.target p.backup files) p.temporary p.backup none
                  own.temporary_backup
                ∙ (at_backup_moved p files own ∙ at_target)),
          move_aside p (move p.target p.backup files) own,
          restored p files old own at_target at_backup,
          remove_quietly_lem disk works (update p.temporary none files) p.temporary,
        )
        (update_twice files p.temporary none none)

  rollback_fresh :
      (ps : List StagedPatch) (files there : Files)
      → IsFresh ps there
      → rollback_staged disk ps files ≡ clear ps files
  unfolding rollback_staged clear
  rollback_fresh [] files there f = refl
  rollback_fresh (p ∷ ps) files there f =
      ap (undo disk p) (rollback_fresh ps files there f.3) ∙ undo_fresh p (clear ps files) f.0 f.1

  undo_rest :
      (p : StagedPatch) (ps : List StagedPatch) (files : Files) (old : Bytes)
      → Own p
      → AllApart p ps
      → files p.target ≡ some old
      → files p.backup ≡ none
      → undo disk
          (record p { backup_created = true; target_replaced = true })
          (clear ps (move p.temporary p.target (move p.target p.backup files)))
        ≡ update p.temporary none (clear ps files)
  undo_rest p ps files old own apart at_target at_backup =
      ap (undo disk (record p { backup_created = true; target_replaced = true })) (
        clear-move p.temporary p.target ps (move p.target p.backup files)
          (AllApart-temporary p ps apart) (AllApart-target p ps apart)
        ∙ ap (move p.temporary p.target) (
            clear-move p.target p.backup ps files (AllApart-target p ps apart)
              (AllApart-backup p ps apart)))
      ∙ undo_installed p (clear ps files) old own
          (clear_at p.target ps files (AllApart-target p ps apart) ∙ at_target)
          (clear_at p.backup ps files (AllApart-backup p ps apart) ∙ at_backup)

  undo_first :
      (p : StagedPatch) (ps : List StagedPatch) (files : Files) (old : Bytes)
      → Own p
      → AllApart p ps
      → p.target_replaced ≡ false
      → files p.target ≡ some old
      → files p.backup ≡ none
      → undo disk (record p { backup_created = true }) (clear ps (move p.target p.backup files))
        ≡ update p.temporary none (clear ps files)
  undo_first p ps files old own apart r at_target at_backup =
      ap (undo disk (record p { backup_created = true })) (
        clear-move p.target p.backup ps files (AllApart-target p ps apart)
          (AllApart-backup p ps apart))
      ∙ undo_moved p (clear ps files) old own r
          (clear_at p.target ps files (AllApart-target p ps apart) ∙ at_target)
          (clear_at p.backup ps files (AllApart-backup p ps apart) ∙ at_backup)

  -- Whenever the installation fails, the roll-back undoes all of it.
  pub rollback-install :
      (ps : List StagedPatch) (files : Files) (error : Error)
      → Distinct ps
      → IsFresh ps files
      → (install disk ps files).2 ≡ some error
      → rollback_staged disk (install disk ps files).0 (install disk ps files).1 ≡ clear ps files
  unfolding install rollback_staged clear
  rollback-install [] files error d f h = absurd (cc)
  rollback-install (p ∷ ps) files error d f h = elim (rename-cases disk p.target p.backup files) [
    | inl (message, failed) ↦ rw (failed, install) (rollback_fresh (p ∷ ps) files files f)
    | inr (old, at_target, moved) ↦
        let aside : Files = move p.target p.backup files in
        elim (rename-cases disk p.temporary p.target aside) [
          | inl (message, failed) ↦
              rw (moved, failed, install)
                (ap (undo disk (record p { backup_created = true }))
                    (rollback_fresh ps aside files f.3)
                  ∙ undo_first p ps files old d.0 d.1 f.0 at_target f.2)
          | inr (new, at_temporary, installed) ↦
              rw (moved, installed, install)
                (ap (undo disk (record p { backup_created = true; target_replaced = true })) (
                    rollback-install ps (move p.temporary p.target aside) error d.2
                      (move-IsFresh p.temporary p.target p ps aside (inr (refl, refl)) d.1
                        (move-IsFresh p.target p.backup p ps files (inl (refl, refl)) d.1 f.3))
                      (rw (moved, installed, install) at h))
                  ∙ undo_rest p ps files old d.0 d.1 at_target f.2)
        ]
  ]
