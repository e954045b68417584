-- ===== src/Examples/Commits.antt =====
-- A batch of one patch, whose installing rename is denied.
use runi.Prelude.{
  ℕ, ◌≡◌, ◌≢◌, refl, ap, false, none, some, [], ◌∷◌, ◌++◌, Bytes, bytes, eq_bytes, eq_bytes_iff,
  if◌then◌else◌, arith, length, length-append, to_string, mem, is_empty, Bool-cases, inl, inr,
}
use runi.Error.{Error, Result, success, failure, make_error, path_violation}
use runi.Committer.{
  Files, Disk, PatchProposal, update, move, exists, rename, remove_quietly, restore_quietly,
  cleanup_staged, undo, rollback_staged, suffix, temporary_name, backup_name, make_item, check,
  stage, commit_failed, install, drop_backups, relatives, installed_or_not, staged_or_not, commit,
}
use runi.Committer.Stage.{Unused}
use runi.Committer.Atomicity.{commit_atomic}

abbrev a_md : Bytes
a_md = bytes "a.md"

abbrev files : Files
files p = if eq_bytes a_md p then some (bytes "old") else none

abbrev outside : Error
outside = make_error path_violation (bytes "path_violation") (bytes "outside")

abbrev resolve : Bytes → Result Bytes
resolve p = if eq_bytes a_md p then success a_md else failure outside

abbrev disk : Disk
disk = record {
  write_error = λ p. none;
  rename_error = λ p. if eq_bytes p (temporary_name 7 0 a_md) then some (bytes "denied") else none;
  unreadable = λ p. false;
  undo_fails = λ p. false;
}

abbrev patch : PatchProposal
patch = record { path = a_md; expected_sha256 = bytes "old"; new_content = bytes "new" }

too_long : (target a b : Bytes) → a_md ≢ target ++ ((bytes ".runi-" ++ a) ++ b)
unfolding bytes
too_long target a b e = omega (
  arith,
  ap length e,
  length-append target ((bytes ".runi-" ++ a) ++ b),
  length-append (bytes ".runi-" ++ a) b,
  length-append (bytes ".runi-") a,
)

unequal : (p : Bytes) → a_md ≢ p → files p ≡ none
unequal p n = elim (Bool-cases (eq_bytes a_md p)) [
  | inl e ↦ absurd (n ((eq_bytes_iff a_md p).0 e))
  | inr e ↦ rw e refl
]

not_temporary : (i : ℕ) (t : Bytes) → a_md ≢ temporary_name 7 i t
unfolding temporary_name suffix
not_temporary i t = too_long t _ _

files-Unused : Unused resolve 7 files
unfolding temporary_name backup_name
files-Unused = record {
  temporaries = λ t i. unequal (temporary_name 7 i t) (not_temporary i t);
  backups = λ t i. unequal (backup_name 7 i t) (unfold suffix in too_long t _ _);
  not_proposed = λ path target t i h e. elim (Bool-cases (eq_bytes a_md path)) [
    | inl found ↦ not_temporary i t (cc)
    | inr lost ↦ absurd (cc)
  ];
}

commit_atomic_example : (commit resolve (λ content. content) disk 7 (patch ∷ []) files).0 ≡ files
unfolding update move exists rename remove_quietly restore_quietly cleanup_staged undo
    rollback_staged suffix temporary_name backup_name make_item check stage commit_failed install
    drop_backups relatives installed_or_not staged_or_not commit mem bytes eq_bytes is_empty
    to_string
commit_atomic_example =
    commit_atomic resolve (λ content. content) disk (λ p. refl) 7 files files-Unused (patch ∷ [])
      (commit_failed (bytes "Could not install staged patch: ") (bytes "denied")) refl
