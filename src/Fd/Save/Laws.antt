-- ===== src/Fd/Save/Laws.antt =====
-- What `fd_table_save` of ckpt.Fd.Save leaves.
use ckpt.Prelude.{
  ℕ, ◌≡◌, ◌≢◌, ◌⊎◌, refl, sym, ap, subst, ◌∙◌, Bool, true, false, Option, none, some, List, inl,
  inr, arith,
}
use native.Mathlib.Decide.{ℕ_discrete}
use ckpt.Fd.Base.{
  FdType, FdSource, slot, put, saved, is_null, fd_null, fd_inherited, fd_file, fd_directory,
}
use ckpt.Fd.Save.{Answers, file_save, dir_save, save_by, settled, save_source, save_slot}

abbrev pub Heap : Type 0
Heap = ℕ → Option FdSource

-- The calls of the system that a save makes do not fail.
pub record Answering (k : Answers) : Type 0 where
  pub seeks : (fd : ℕ) → (o : ℕ) × (k.lseek_cur fd ≡ some o)
  pub flags : (fd : ℕ) → (o : ℕ) × (k.getfl fd ≡ some o)
  pub descriptor : (fd : ℕ) → (o : ℕ) × (k.getfd fd ≡ some o)
  pub tells : (dirp : ℕ) → (o : ℕ) × (k.telldir dirp ≡ some o)

-- Every slot leads to a source of a known type.
abbrev pub IsLive : List (Option ℕ) → Heap → Type 0
IsLive vs heap =
    (i a : ℕ) → slot vs i ≡ some a → (s : FdSource) × (heap a ≡ some s) × (is_null s.type ≡ false)

-- What a save at `fd` makes of an unsettled source.
abbrev pub SavedAs : Answers → ℕ → FdSource → FdSource → Type 0
SavedAs k fd s s' =
    (save_by s.type k fd s ≡ some (s', true)) × (s'.state ≡ saved) × (s'.type ≡ s.type)

-- The result of a save that succeeds.
abbrev IsSaved : FdSource → FdSource × Bool → Type 0
IsSaved s (s', ok) = (ok ≡ true) × (s'.state ≡ saved) × (s'.type ≡ s.type)

module _ (k : Answers) (fd : ℕ) (s : FdSource) (w : Answering k) where
  file_save-IsSaved : IsSaved s (file_save k fd s)
  unfolding file_save
  file_save-IsSaved = simp ((w.seeks fd).1, (w.flags fd).1, (w.descriptor fd).1) (refl, refl, refl)

  dir_save-IsSaved : IsSaved s (dir_save k fd s)
  unfolding dir_save
  dir_save-IsSaved = simp ((w.tells s.dirp).1, (w.descriptor fd).1) (refl, refl, refl)

  saved_pair : (r : FdSource × Bool) → IsSaved s r → some r ≡ some (r.0, true)
  saved_pair (s', ok) h = cc (h.0)

  by_type-SavedAs :
      (type : FdType)
      → s.type ≡ type
      → is_null type ≡ false
      → settled s ≡ false
      → (s' : FdSource) × SavedAs k fd s s'
  unfolding save_by
  by_type-SavedAs fd_file e known new =
      let h = file_save-IsSaved in
      (
        (file_save k fd s).0,
        (ap (λ T. save_by T k fd s) e ∙ saved_pair (file_save k fd s) h, h.1, h.2),
      )
  by_type-SavedAs fd_directory e known new =
      let h = dir_save-IsSaved in
      (
        (dir_save k fd s).0,
        (ap (λ T. save_by T k fd s) e ∙ saved_pair (dir_save k fd s) h, h.1, h.2),
      )
  by_type-SavedAs fd_inherited e known new = absurd (ground arith)
  by_type-SavedAs fd_null e known new = cc

-- What one slot `v` of the loop does to the heap: settled sources stay, and an unsettled one is saved
-- if the slot holds it.
abbrev pub Kept : Heap → Heap → Type 0
Kept heap heap' = (a : ℕ) (s : FdSource) → heap a ≡ some s → settled s ≡ true → heap' a ≡ some s

abbrev pub Saves : Answers → ℕ → Option ℕ → Heap → Heap → Type 0
Saves k fd v heap heap' =
    (a : ℕ) (s : FdSource)
    → heap a ≡ some s
    → settled s ≡ false
    → ((heap' a ≡ some s) × (v ≢ some a))
      ⊎ ((s' : FdSource) × (v ≡ some a) × SavedAs k fd s s' × (heap' a ≡ some s'))

put_same : (heap : Heap) (a : ℕ) (o : Option FdSource) → put heap a o a ≡ o
put_same heap a o = ground arith

put_other : (heap : Heap) (a b : ℕ) (o : Option FdSource) → a ≢ b → put heap a o b ≡ heap b
put_other heap a b o n = ground arith

settled_same : (b : Bool) {s u : FdSource} → s ≡ u → settled s ≡ b → settled u ≡ b
settled_same b e h = subst (λ x. settled x ≡ b) e h

module _ (k : Answers) (w : Answering k) (fd : ℕ) (heap : Heap) where
  put-Kept :
      (a : ℕ) (s s' : FdSource)
      → heap a ≡ some s
      → settled s ≡ false
      → Kept heap (put heap a (some s'))
  put-Kept a s s' at new b u q done =
      put_other heap a b (some s')
        (λ e. let same : s ≡ u = cc in let old = settled_same false same new in cc (old, done))
      ∙ q

  put-Saves :
      (a : ℕ) (s s' : FdSource)
      → heap a ≡ some s
      → SavedAs k fd s s'
      → Saves k fd (some a) heap (put heap a (some s'))
  put-Saves a s s' at h b u q new = elim (ℕ_discrete a b) [
    | yes e ↦
        let same : s ≡ u = cc in
        inr (
          s',
          ap some e,
          subst (λ x. SavedAs k fd x s') same h,
          ap (put heap a (some s')) (sym e) ∙ put_same heap a (some s'),
        )
    | no n ↦ inl (put_other heap a b (some s') n ∙ q, λ e. n (cc))
  ]

  source_lem :
      (a : ℕ) (s : FdSource) (b : Bool)
      → heap a ≡ some s
      → is_null s.type ≡ false
      → settled s ≡ b
      → (heap' : Heap) × (save_source k fd a heap (some s) ≡ some heap')
        × Kept heap heap'
        × Saves k fd (some a) heap heap'
  source_lem a s true at known done = (
    heap,
    simp done refl,
    λ b u q d. q,
    λ b u q new.
        inl
          (q, λ e. let same : s ≡ u = cc in let old = settled_same true same done in cc (old, new)),
  )
  source_lem a s false at known new =
      let (s', h) = by_type-SavedAs k fd s w s.type refl known new in
      (put heap a (some s'), simp (new, h.0) refl, put-Kept a s s' at new, put-Saves a s s' at h)

  pub slot_lem :
      (v : Option ℕ)
      → ((a : ℕ) → v ≡ some a → (s : FdSource) × (heap a ≡ some s) × (is_null s.type ≡ false))
      → (heap' : Heap) × (save_slot k fd v heap ≡ some heap')
        × Kept heap heap'
        × Saves k fd v heap heap'
  slot_lem none live = (heap, refl, λ b u q d. q, λ b u q new. inl (q, λ e. cc))
  slot_lem (some a) live =
      let (s, at, known) = live a refl in
      let (heap', e, kept, saves) = source_lem a s (settled s) at known refl in
      (heap', ap (save_source k fd a heap) at ∙ e, kept, saves)
