-- ===== src/Fd/Save/Loop.antt =====
-- The whole loop of `fd_table_save` of ckpt.Fd.Save.
use ckpt.Prelude.{
  ℕ, zero, suc, ◌+◌, ◌≡◌, ◌≢◌, ◌⊎◌, refl, sym, ap, subst, ◌∙◌, true, false, Option, some, List, [],
  ◌∷◌, inl, inr, arith, Bool-cases,
}
use ckpt.Fd.Base.{FdSource, FdTable, slot, is_null}
use ckpt.Fd.Save.{Answers, settled, and_next, save_from, fd_table_save}
use ckpt.Fd.Save.Laws.{Heap, Answering, IsLive, SavedAs, Kept, Saves, slot_lem}

-- What becomes of the source `s` at `a`, with `fd` the descriptor of the first of the slots `vs`.
abbrev pub Result : Answers → ℕ → List (Option ℕ) → ℕ → FdSource → Heap → Type 0
Result k fd vs a s heap' =
    ((settled s ≡ true) × (heap' a ≡ some s))
    ⊎ ((j : ℕ) × (s' : FdSource) × (settled s ≡ false)
        × (slot vs j ≡ some a)
        × SavedAs k (fd + j) s s'
        × (heap' a ≡ some s'))

saved-settled : (k : Answers) (fd : ℕ) (s s' : FdSource) → SavedAs k fd s s' → settled s' ≡ true
saved-settled k fd s s' h = ground (arith, h.1)

known-type :
    (k : Answers) (fd : ℕ) (s s' : FdSource)
    → SavedAs k fd s s'
    → is_null s.type ≡ false
    → is_null s'.type ≡ false
known-type k fd s s' h e = ap is_null (h.2) ∙ e

module _ (k : Answers) (w : Answering k) where
  step-IsLive :
      (fd : ℕ) (v : Option ℕ) (vs : List (Option ℕ)) (heap heap' : Heap)
      → Kept heap heap'
      → Saves k fd v heap heap'
      → IsLive (v ∷ vs) heap
      → IsLive vs heap'
  step-IsLive fd v vs heap heap' kept saves live i a e =
      let (s, at, known) = live (suc i) a e in
      elim (Bool-cases (settled s)) [
        | inl done ↦ (s, kept a s at done, known)
        | inr new ↦ elim (saves a s at new) [
          | inl (same, _) ↦ (s, same, known)
          | inr (s', _, h, at') ↦ (s', at', known-type k fd s s' h known)
        ]
      ]

  Result-shift :
      (fd a : ℕ) (v : Option ℕ) (vs : List (Option ℕ)) (s : FdSource) (heap : Heap)
      → Result k (suc fd) vs a s heap
      → Result k fd (v ∷ vs) a s heap
  Result-shift fd a v vs s heap (inl h) = inl h
  Result-shift fd a v vs s heap (inr (j, s', new, e, h, at)) =
      let index : suc fd + j ≡ fd + suc j = omega arith in
      inr (suc j, s', new, e, subst (λ n. SavedAs k n s s') index h, at)

  Result-step :
      (fd : ℕ) (v : Option ℕ) (vs : List (Option ℕ)) (heap heap1 heap2 : Heap)
      → Kept heap heap1
      → Saves k fd v heap heap1
      → Kept heap1 heap2
      → ((i a : ℕ) (s : FdSource)
          → slot vs i ≡ some a
          → heap1 a ≡ some s
          → Result k (suc fd) vs a s heap2)
      → (i a : ℕ) (s : FdSource) → slot (v ∷ vs) i ≡ some a
      → heap a ≡ some s
      → Result k fd (v ∷ vs) a s heap2
  Result-step fd v vs heap heap1 heap2 kept1 saves1 kept2 all2 i a s e at =
      elim (Bool-cases (settled s)) [
        | inl done ↦ inl (done, kept2 a s (kept1 a s at done) done)
        | inr new ↦ elim (saves1 a s at new) [
          | inl (same, other) ↦ behind i e same other
          | inr (s', eq, h, at') ↦
              let index : fd ≡ fd + 0 = omega arith in
              inr (
                0,
                s',
                new,
                eq,
                subst (λ n. SavedAs k n s s') index h,
                kept2 a s' at' (saved-settled k fd s s' h),
              )
        ]
      ]
    where
      behind :
          (i : ℕ)
          → slot (v ∷ vs) i ≡ some a
          → heap1 a ≡ some s
          → v ≢ some a
          → Result k fd (v ∷ vs) a s heap2
      behind zero e same other = absurd (other e)
      behind (suc i) e same other = Result-shift fd a v vs s heap2 (all2 i a s e same)

  loop_lem :
      (vs : List (Option ℕ)) (fd : ℕ) (heap : Heap)
      → IsLive vs heap
      → (heap' : Heap) × (save_from k fd vs heap ≡ some heap')
        × Kept heap heap'
        × ((i a : ℕ) (s : FdSource)
            → slot vs i ≡ some a
            → heap a ≡ some s
            → Result k fd vs a s heap')
  unfolding save_from
  loop_lem [] fd heap live = (heap, refl, λ a s at done. at, λ i a s e at. cc)
  loop_lem (v ∷ vs) fd heap live =
      let (heap1, e1, kept1, saves1) = slot_lem k w fd heap v (live zero) in
      let live1 = step-IsLive fd v vs heap heap1 kept1 saves1 live in
      let (heap2, e2, kept2, all2) = loop_lem vs (suc fd) heap1 live1 in
      (
        heap2,
        ap (λ o. and_next o (save_from k (suc fd) vs)) e1 ∙ e2,
        λ a s at done. kept2 a s (kept1 a s at done) done,
        Result-step fd v vs heap heap1 heap2 kept1 saves1 kept2 all2,
      )

-- If every slot leads to a source of a known type and the calls of the system do not fail,
-- `fd_table_save` runs to its end and afterwards each source that a slot holds is as it was, if it was
-- inherited or saved before, and otherwise what its save makes of it at a descriptor that holds it.
pub fd_table_save_lem :
    (k : Answers) (t : FdTable)
    → Answering k
    → IsLive t.slots t.heap
    → (heap' : Heap) × (fd_table_save k t ≡ some heap')
      × ((fd a : ℕ) (s : FdSource)
          → slot t.slots fd ≡ some a
          → t.heap a ≡ some s
          → Result k 0 t.slots a s heap')
unfolding fd_table_save
fd_table_save_lem k t w live =
    let (heap', e, _, all) = loop_lem k w t.slots 0 t.heap live in (heap', e, all)

pub Result-settled :
    (k : Answers) (fd a : ℕ) (vs : List (Option ℕ)) (s : FdSource) (heap : Heap)
    → is_null s.type ≡ false
    → Result k fd vs a s heap
    → (s' : FdSource) × (heap a ≡ some s') × (is_null s'.type ≡ false) × (settled s' ≡ true)
Result-settled k fd a vs s heap known (inl (done, at)) = (s, at, known, done)
Result-settled k fd a vs s heap known (inr (j, s', new, e, h, at)) =
    (s', at, known-type k (fd + j) s s' h known, saved-settled k (fd + j) s s' h)

Result-same :
    (k : Answers) (fd a : ℕ) (vs : List (Option ℕ)) (s : FdSource) (heap : Heap)
    → settled s ≡ true
    → Result k fd vs a s heap
    → heap a ≡ some s
Result-same k fd a vs s heap done (inl (_, at)) = at
Result-same k fd a vs s heap done (inr (j, s', new, _, _, _)) = cc

-- Under the same conditions for both, a second `fd_table_save` on what the first has left changes no
-- source that a slot holds, whatever the system answers then: the offsets stay those of the first.
pub second_save_stale :
    (k k2 : Answers) (t : FdTable)
    → Answering k
    → Answering k2
    → IsLive t.slots t.heap
    → (heap1 : Heap) × (heap2 : Heap) × (fd_table_save k t ≡ some heap1)
      × (fd_table_save k2 (record t { heap = heap1 }) ≡ some heap2)
      × ((fd a : ℕ) → slot t.slots fd ≡ some a → heap2 a ≡ heap1 a)
second_save_stale k k2 t w w2 live =
    let (heap1, e1, all1) = fd_table_save_lem k t w live in
    let found : (fd a : ℕ)
        → slot t.slots fd ≡ some a
        → (s : FdSource) × (heap1 a ≡ some s) × (is_null s.type ≡ false) × (settled s ≡ true) =
      λ fd a e.
        let (s, at, known) = live fd a e in
        Result-settled k 0 a t.slots s heap1 known (all1 fd a s e at) in
    let again : IsLive t.slots heap1 =
      λ fd a e. let (s, at, known, _) = found fd a e in (s, at, known) in
    let (heap2, e2, all2) = fd_table_save_lem k2 (record t { heap = heap1 }) w2 again in
    (
      heap1,
      heap2,
      e1,
      e2,
      λ fd a e.
          let (s, at, _, done) = found fd a e in
          Result-same k2 0 a t.slots s heap2 done (all2 fd a s e at) ∙ sym at,
    )
