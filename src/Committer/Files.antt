-- ===== src/Committer/Files.antt =====
-- Equations between whole file systems for `update` and `move`.
use runi.Prelude.{◌≡◌, ◌≢◌, fun_ext, false, Option, none, some, Bytes, eq_bytes_iff, arith}
use runi.Committer.{Files, Disk, update, move, remove_quietly, restore_quietly}

module _ (files : Files) where
  pub update_at : (a b : Bytes) (v : Option Bytes) → a ≡ b → update a v files b ≡ v
  unfolding update
  update_at a b v e = ground (arith, eq_bytes_iff a b)

  pub update_ne : (a b : Bytes) (v : Option Bytes) → a ≢ b → update a v files b ≡ files b
  unfolding update
  update_ne a b v n = ground (arith, eq_bytes_iff a b)

  pub update_same : (a : Bytes) (v : Option Bytes) → files a ≡ v → update a v files ≡ files
  unfolding update
  update_same a v e = fun_ext λ p. ground (arith, eq_bytes_iff a p)

  pub update_twice :
      (a : Bytes) (v w : Option Bytes) → update a w (update a v files) ≡ update a w files
  unfolding update
  update_twice a v w = fun_ext λ p. ground (arith, eq_bytes_iff a p)

  pub update_swap :
      (a b : Bytes) (v w : Option Bytes)
      → a ≢ b
      → update a v (update b w files) ≡ update b w (update a v files)
  unfolding update
  update_swap a b v w n = fun_ext λ p. ground (arith, eq_bytes_iff a p, eq_bytes_iff b p)

  -- Removals may be done in any order.
  pub remove_swap :
      (a b : Bytes) → update a none (update b none files) ≡ update b none (update a none files)
  unfolding update
  remove_swap a b = fun_ext λ p. ground (arith, eq_bytes_iff a p, eq_bytes_iff b p)

-- With no failures, the quiet operations are the plain ones.
module _ (disk : Disk) (works : (p : Bytes) → disk.undo_fails p ≡ false) (files : Files) where
  pub remove_quietly_lem : (p : Bytes) → remove_quietly disk p files ≡ update p none files
  unfolding remove_quietly
  remove_quietly_lem p = ground (arith, works p)

  pub restore_quietly_lem :
      (from to content : Bytes)
      → files from ≡ some content
      → restore_quietly disk from to files ≡ move from to files
  unfolding restore_quietly
  restore_quietly_lem from to content h = ground (arith, works from)
