-- ===== src/Committer/Stage.antt =====
-- src/orchestration/multi_agent.cpp: the staging loop of `commit` and `cleanup_staged`.
use runi.Prelude.{
  ℕ, suc, ◌+◌, ◌≤◌, ◌≡◌, ◌≢◌, refl, sym, ap, ◌∙◌, subst, false, Option, none, some, List, [], ◌∷◌,
  ◌++◌, inl, inr, Bytes, eq_bytes_iff, arith, Option-cases, mem,
}
use runi.Error.{Result, success, Result-cases}
use runi.Committer.{
  Files, Disk, PatchProposal, StagedPatch, update, remove_quietly, cleanup_staged, temporary_name,
  backup_name, check, make_item, stage, Staging, staged_all, aborted,
}
use runi.Committer.Names.{temporary_ne_temporary, backup_ne_backup, temporary_ne_backup}
use runi.Committer.Files.{update_ne, update_same, update_twice, remove_swap, remove_quietly_lem}
use runi.Committer.Rollback.{clear, AllNe, Own, Apart, AllApart, Distinct, IsFresh}

-- Removing one more file commutes with the clearing.
clear_remove :
    (a : Bytes) (ps : List StagedPatch) (files : Files)
    → clear ps (update a none files) ≡ update a none (clear ps files)
unfolding clear
clear_remove a [] files = refl
clear_remove a (p ∷ ps) files =
    ap (update p.temporary none) (clear_remove a ps files)
    ∙ remove_swap (clear ps files) p.temporary a

clear-append :
    (ps : List StagedPatch) (item : StagedPatch) (files : Files)
    → clear (ps ++ item ∷ []) files ≡ clear ps (update item.temporary none files)
unfolding clear
clear-append [] item files = refl
clear-append (p ∷ ps) item files = ap (update p.temporary none) (clear-append ps item files)

module _ (sequence : ℕ) where
  -- Not a name that the batch makes up.
  pub record Plain (path : Bytes) : Type 0 where
    pub not_temporary : (target : Bytes) (i : ℕ) → path ≢ temporary_name sequence i target
    pub not_backup : (target : Bytes) (i : ℕ) → path ≢ backup_name sequence i target

  pub record IsItem (k : ℕ) (p : StagedPatch) : Type 0 where
    pub temporary : p.temporary ≡ temporary_name sequence k p.target
    pub backup : p.backup ≡ backup_name sequence k p.target
    pub not_replaced : p.target_replaced ≡ false
    pub no_backup : p.backup_created ≡ false
    pub plain : Plain p.target

  -- The staged patches have the indices from `k` up to `n`, and their targets are `targets`.
  abbrev pub Items : ℕ → ℕ → List Bytes → List StagedPatch → Type 0
  Items k n [] [] = k ≡ n
  Items k n (t ∷ ts) (p ∷ ps) = IsItem k p × (p.target ≡ t) × Items (suc k) n ts ps
  Items k n [] (p ∷ ps) = ⊥
  Items k n (t ∷ ts) [] = ⊥

  Items-le : (k n : ℕ) (ts : List Bytes) (ps : List StagedPatch) → Items k n ts ps → k ≤ n
  Items-le k n [] [] h = omega arith
  Items-le k n (t ∷ ts) (p ∷ ps) h = omega (arith, Items-le (suc k) n ts ps h.2)
  Items-le k n [] (p ∷ ps) h = absurd h
  Items-le k n (t ∷ ts) [] h = absurd h

  Own-item : (k : ℕ) (p : StagedPatch) → IsItem k p → Own p
  Own-item k p i = record {
    target_temporary = λ e. i.plain.not_temporary p.target k (e ∙ i.temporary);
    target_backup = λ e. i.plain.not_backup p.target k (e ∙ i.backup);
    temporary_backup =
        λ e. temporary_ne_backup sequence p.target p.target k k (sym i.temporary ∙ (e ∙ i.backup));
  }

  Apart-items :
      (k n : ℕ) (p q : StagedPatch)
      → k ≢ n
      → IsItem k p
      → IsItem n q
      → p.target ≢ q.target
      → Apart p q
  Apart-items k n p q ne i j targets = record {
    targets = targets;
    target_temporary = λ e. i.plain.not_temporary q.target n (e ∙ j.temporary);
    target_backup = λ e. i.plain.not_backup q.target n (e ∙ j.backup);
    temporary_target = λ e. j.plain.not_temporary p.target k (sym e ∙ i.temporary);
    temporaries = λ e.
        temporary_ne_temporary sequence p.target q.target k n ne
          (sym i.temporary ∙ (e ∙ j.temporary));
    temporary_backup =
        λ e. temporary_ne_backup sequence p.target q.target k n (sym i.temporary ∙ (e ∙ j.backup));
    backup_target = λ e. j.plain.not_backup p.target k (sym e ∙ i.backup);
    backup_temporary = λ e.
        temporary_ne_backup sequence q.target p.target n k (sym j.temporary ∙ (sym e ∙ i.backup));
    backups =
        λ e. backup_ne_backup sequence p.target q.target k n ne (sym i.backup ∙ (e ∙ j.backup));
  }

  -- One more patch at the end.
  Items-append :
      (k n : ℕ) (ts : List Bytes) (ps : List StagedPatch) (item : StagedPatch)
      → Items k n ts ps
      → IsItem n item
      → Items k (suc n) (ts ++ item.target ∷ []) (ps ++ item ∷ [])
  Items-append k n [] [] item h i = (subst (λ m. IsItem m item) (sym h) i, refl, ap suc h)
  Items-append k n (t ∷ ts) (p ∷ ps) item h i = (h.0, h.1, Items-append (suc k) n ts ps item h.2 i)
  Items-append k n [] (p ∷ ps) item h i = absurd h
  Items-append k n (t ∷ ts) [] item h i = absurd h

  AllApart-append :
      (p : StagedPatch) (ps : List StagedPatch) (item : StagedPatch)
      → AllApart p ps
      → Apart p item
      → AllApart p (ps ++ item ∷ [])
  AllApart-append p [] item h a = (a, tt)
  AllApart-append p (q ∷ ps) item h a = (h.0, AllApart-append p ps item h.1 a)

  Distinct-append :
      (k n : ℕ) (ts : List Bytes) (ps : List StagedPatch) (item : StagedPatch)
      → Items k n ts ps
      → IsItem n item
      → mem item.target ts ≡ false
      → Distinct ps
      → Distinct (ps ++ item ∷ [])
  unfolding mem
  Distinct-append k n [] [] item h i new d = (Own-item n item i, tt, tt)
  Distinct-append k n (t ∷ ts) (p ∷ ps) item h i new d = (
    d.0,
    AllApart-append p ps item d.1 (
        Apart-items k n p item (omega (arith, Items-le (suc k) n ts ps h.2)) h.0 i
          (λ e. ground (arith, eq_bytes_iff t item.target, h.1, e))),
    Distinct-append (suc k) n ts ps item h.2 i (ground (arith, eq_bytes_iff t item.target)) d.2,
  )
  Distinct-append k n [] (p ∷ ps) item h i new d = absurd h
  Distinct-append k n (t ∷ ts) [] item h i new d = absurd h

  Items-AllNe :
      (a : Bytes) (k n : ℕ) (ts : List Bytes) (ps : List StagedPatch)
      → ((target : Bytes) (i : ℕ) → a ≢ temporary_name sequence i target)
      → Items k n ts ps
      → AllNe a ps
  Items-AllNe a k n [] [] plain h = tt
  Items-AllNe a k n (t ∷ ts) (p ∷ ps) plain h =
      (λ e. plain p.target k (e ∙ h.0.temporary), Items-AllNe a (suc k) n ts ps plain h.2)
  Items-AllNe a k n [] (p ∷ ps) plain h = absurd h
  Items-AllNe a k n (t ∷ ts) [] plain h = absurd h

  Items-IsFresh :
      (k n : ℕ) (ts : List Bytes) (ps : List StagedPatch) (files : Files)
      → ((target : Bytes) (i : ℕ) → files (backup_name sequence i target) ≡ none)
      → Items k n ts ps
      → IsFresh ps files
  Items-IsFresh k n [] [] files absent h = tt
  Items-IsFresh k n (t ∷ ts) (p ∷ ps) files absent h = (
    h.0.not_replaced,
    h.0.no_backup,
    ap files h.0.backup ∙ absent p.target k,
    Items-IsFresh (suc k) n ts ps files absent h.2,
  )
  Items-IsFresh k n [] (p ∷ ps) files absent h = absurd h
  Items-IsFresh k n (t ∷ ts) [] files absent h = absurd h

some≢none : {A : Type 0} {a : A} → ◌≡◌ {A = Option A} (some a) none → ⊥
some≢none e = absurd (cc)

suc_lem : (n : ℕ) → suc n ≡ n + 1
suc_lem n = omega arith

-- No patch has its backup in the files: the cleanup then only clears the temporary files.
cleanup-clear :
    (disk : Disk)
    → ((p : Bytes) → disk.undo_fails p ≡ false)
    → (ps : List StagedPatch) (files : Files) → IsFresh ps files
    → cleanup_staged disk ps files ≡ clear ps files
unfolding cleanup_staged clear
cleanup-clear disk works [] files f = refl
cleanup-clear disk works (p ∷ ps) files f =
    ap (cleanup_staged disk ps) (
      ap (remove_quietly disk p.backup) (remove_quietly_lem disk works files p.temporary)
      ∙ (remove_quietly_lem disk works (update p.temporary none files) p.backup
          ∙ update_same (update p.temporary none files) p.backup none gone))
    ∙ (cleanup-clear disk works ps (update p.temporary none files) (removed ps f.3)
        ∙ clear_remove p.temporary ps files)
  where
    at_removed : (a b : Bytes) → files b ≡ none → update a none files b ≡ none
    at_removed a b h = unfold update in ground arith

    gone : update p.temporary none files p.backup ≡ none
    gone = at_removed p.temporary p.backup f.2

    removed :
        (qs : List StagedPatch) → IsFresh qs files → IsFresh qs (update p.temporary none files)
    removed [] g = tt
    removed (q ∷ qs) g = (g.0, g.1, at_removed p.temporary q.backup g.2, removed qs g.3)

-- No file has a name that the batch makes up, and no proposal names one.
pub record Unused (resolve : Bytes → Result Bytes) (sequence : ℕ) (files : Files) : Type 0 where
  pub temporaries : (target : Bytes) (i : ℕ) → files (temporary_name sequence i target) ≡ none
  pub backups : (target : Bytes) (i : ℕ) → files (backup_name sequence i target) ≡ none
  pub not_proposed :
      (path target t : Bytes) (i : ℕ)
      → resolve path ≡ success target
      → target ≢ temporary_name sequence i t

module _ (resolve : Bytes → Result Bytes) (hash : Bytes → Bytes) (disk : Disk)
    (works : (p : Bytes) → disk.undo_fails p ≡ false) (sequence : ℕ) (original : Files)
    (unused : Unused resolve sequence original) where
  -- The loop's state before the proposal with number `index`.
  pub record StageInv (index : ℕ) (targets : List Bytes) (staged : List StagedPatch) (files : Files)
      : Type 0 where
    pub cleared : clear staged files ≡ original
    pub items : Items sequence 0 index targets staged
    pub distinct : Distinct staged
    pub later :
        (target : Bytes) (i : ℕ) → index ≤ i → files (temporary_name sequence i target) ≡ none
    pub no_backups : (target : Bytes) (i : ℕ) → files (backup_name sequence i target) ≡ none

  -- What `check` has seen of a target that it lets through.
  check_target :
      (files : Files) (targets : List Bytes) (proposal : PatchProposal) (target : Bytes)
      → check resolve hash disk files targets proposal ≡ success target
      → (resolve proposal.path ≡ success target)
        × (mem target targets ≡ false)
        × ((content : Bytes) × (files target ≡ some content))
  unfolding check
  check_target files targets proposal target h =
      (ground arith, ground arith, content (files target) refl)
    where
      content : (c : Option Bytes) → files target ≡ c → (x : Bytes) × (files target ≡ some x)
      content none e = absurd (ground arith)
      content (some c) e = (c, e)

  item_of : ℕ → PatchProposal → Bytes → StagedPatch
  item_of index proposal target = make_item sequence index proposal target

  module _ (index : ℕ) (targets : List Bytes) (staged : List StagedPatch) (files : Files)
      (proposal : PatchProposal) (target : Bytes) (inv : StageInv index targets staged files)
      (checked : check resolve hash disk files targets proposal ≡ success target) where
    abbrev item : StagedPatch
    item = make_item sequence index proposal target

    target-Plain : Plain sequence target
    target-Plain = record {
      not_temporary = λ t i.
          unused.not_proposed proposal.path target t i
            (check_target files targets proposal target checked).0;
      not_backup = λ t i e. some≢none (
          sym (check_target files targets proposal target checked).2.1
          ∙ (ap files e ∙ inv.no_backups t i));
    }

    item-IsItem : IsItem sequence index item
    unfolding make_item
    item-IsItem = record {
      temporary = refl;
      backup = refl;
      not_replaced = refl;
      no_backup = refl;
      plain = target-Plain;
    }

    -- Staging one more patch, whatever the write leaves in its temporary file.
    written-StageInv :
        (content : Option Bytes)
        → StageInv
            (index + 1)
            (targets ++ target ∷ [])
            (staged ++ item ∷ [])
            (update item.temporary content files)
    unfolding make_item
    written-StageInv content = record {
      cleared =
          clear-append staged item (update item.temporary content files)
          ∙ (ap (clear staged) (
                update_twice files item.temporary content none
                ∙ update_same files item.temporary none (inv.later target index (omega arith)))
              ∙ inv.cleared);
      items =
          subst (λ n. Items sequence 0 n (targets ++ target ∷ []) (staged ++ item ∷ []))
            (suc_lem index)
            (Items-append sequence 0 index targets staged item inv.items item-IsItem);
      distinct =
          Distinct-append sequence 0 index targets staged item inv.items item-IsItem
            (check_target files targets proposal target checked).1 inv.distinct;
      later = λ t i le.
          update_ne files item.temporary (temporary_name sequence i t) content
            (temporary_ne_temporary sequence target t index i (omega arith))
          ∙ inv.later t i (omega arith);
      no_backups = λ t i.
          update_ne files item.temporary (backup_name sequence i t) content
            (temporary_ne_backup sequence target t index i)
          ∙ inv.no_backups t i;
    }

  -- The loop either stages the whole batch, or leaves the files as they were.
  abbrev pub Outcome : Staging → Type 0
  Outcome (staged_all staged files) =
      (clear staged files ≡ original) × Distinct staged × IsFresh staged files
  Outcome (aborted files error) = files ≡ original

  cleaned :
      (index : ℕ) (targets : List Bytes) (staged : List StagedPatch) (files : Files)
      → StageInv index targets staged files
      → cleanup_staged disk staged files ≡ original
  cleaned index targets staged files inv =
      cleanup-clear disk works staged files
        (Items-IsFresh sequence 0 index targets staged files inv.no_backups inv.items)
      ∙ inv.cleared

  pub stage-Outcome :
      (index : ℕ) (targets : List Bytes) (staged : List StagedPatch)
      (proposals : List PatchProposal) (files : Files)
      → StageInv index targets staged files
      → Outcome (stage resolve hash disk sequence index targets staged proposals files)
  unfolding stage
  stage-Outcome index targets staged [] files inv = (
    inv.cleared,
    inv.distinct,
    Items-IsFresh sequence 0 index targets staged files inv.no_backups inv.items,
  )
  stage-Outcome index targets staged (proposal ∷ proposals) files inv =
      elim (Result-cases (check resolve hash disk files targets proposal)) [
        | inr (error, refused) ↦ rw (refused, stage) (cleaned index targets staged files inv)
        | inl (target, checked) ↦
            let i : StagedPatch = make_item sequence index proposal target in
            elim (Option-cases (disk.write_error i.temporary)) [
              | inr ((left, error), failed) ↦
                  rw (checked, failed, stage)
                    (cleaned (index + 1) (targets ++ target ∷ []) (staged ++ i ∷ [])
                      (update i.temporary left files)
                      (written-StageInv index targets staged files proposal target inv checked
                        left))
              | inl written ↦
                  rw (checked, written, stage)
                    (stage-Outcome (index + 1) (targets ++ target ∷ []) (staged ++ i ∷ []) proposals
                      (update i.temporary (some proposal.new_content) files)
                      (written-StageInv index targets staged files proposal target inv checked
                        (some proposal.new_content)))
            ]
      ]
