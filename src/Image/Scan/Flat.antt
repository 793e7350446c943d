-- ===== src/Image/Scan/Flat.antt =====
-- The walk of ckpt_vm_mark_regions of xnd/vm_restore.c where it meets no submap.
use ckpt.Prelude.{[], ℕ, suc, ◌+◌, ◌≡◌, inl, inr, refl, Bool, true, false, Option, none, some, List}
use ckpt.Image.Base.{Machine}
use ckpt.Image.Scan.{Entry, keep, walk, is_over, mark_round, ckpt_vm_mark_regions}
use ckpt.Image.Scan.Walk.{leaf_round}

-- From an address and a depth on the kernel tells of finitely many regions and of no submap.
pub data Flat (recurse : ℕ → ℕ → Option Entry) : ℕ → ℕ → Type 0 where
  end : (addr depth : ℕ) → recurse addr depth ≡ none → Flat recurse addr depth
  leaf :
      (addr depth : ℕ) (e : Entry)
      → recurse addr depth ≡ some e
      → e.info.is_submap ≡ false
      → Flat recurse (e.addr + e.size) e.depth
      → Flat recurse addr depth

module _ (k : Machine) (inherit behavior : ℕ → ℕ → Bool) (recurse : ℕ → ℕ → Option Entry) where
  -- The walk is over after some rounds, whether or not the kernel grants the marks.
  abbrev IsOver : ℕ → ℕ → List (ℕ × ℕ) → Type 0
  IsOver addr depth l =
      (fuel : ℕ) × (is_over (walk none recurse (mark_round k inherit behavior) fuel addr depth l)
        ≡ true)

  Flat-walk : (addr depth : ℕ) (l : List (ℕ × ℕ)) → Flat recurse addr depth → IsOver addr depth l
  unfolding walk
  Flat-walk addr depth l (end _ _ told) = (1, rw told refl)
  Flat-walk addr depth l (leaf _ _ e told single rest) =
      elim (leaf_round k inherit behavior recurse e single) [
        | inl failed ↦ (1, rw told (rw failed refl))
        | inr (a, next) ↦
            let (fuel, over) = Flat-walk (e.addr + e.size) e.depth (keep l a) rest in
            (suc fuel, rw told (rw next over))
      ]

  pub mark_regions_over :
      Flat recurse 0 0
      → (fuel : ℕ) × (is_over (ckpt_vm_mark_regions k inherit behavior recurse fuel) ≡ true)
  unfolding ckpt_vm_mark_regions
  mark_regions_over flat = Flat-walk 0 0 [] flat
