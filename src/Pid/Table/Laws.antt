-- ===== src/Pid/Table/Laws.antt =====
-- The laws of the virtual id table of xnd/virtual_id_table.h.
use ckpt.Prelude.{
  ℕ, ◌≡◌, refl, ◌≢◌, ◌⊎◌, ◌↔◌, inl, inr, true, false, ◌||◌, none, some, [], ◌∷◌, arith, ◌==◌,
  if◌then◌else◌, Bool-cases,
}
use ckpt.Pid.Table.{
  Entries, update, erase, virtual_id_exists, real_id_exists, virtual_to_real, real_to_virtual,
}

-- Each virtual id has at most one entry, which a hash map guarantees.
abbrev pub UniqueIds : Entries → Type 0
UniqueIds [] = Unit
UniqueIds ((v, r) ∷ table) = (virtual_id_exists table v ≡ false) × UniqueIds table

pub virtual_to_real-update :
    (table : Entries) (virt real k : ℕ)
    → virtual_to_real (update table virt real) k
      ≡ (if virt == k then some real else virtual_to_real table k)
unfolding virtual_to_real update
virtual_to_real-update [] virt real k = refl
virtual_to_real-update ((v, r) ∷ table) virt real k =
    ground (arith, virtual_to_real-update table virt real k)

pub virtual_to_real-erase :
    (table : Entries) (virt k : ℕ)
    → virtual_to_real (erase table virt) k ≡ (if virt == k then none else virtual_to_real table k)
unfolding virtual_to_real erase
virtual_to_real-erase [] virt k = ground arith
virtual_to_real-erase ((v, r) ∷ table) virt k = ground (arith, virtual_to_real-erase table virt k)

pub exists-update :
    (table : Entries) (virt real k : ℕ)
    → virtual_id_exists (update table virt real) k ≡ (virt == k || virtual_id_exists table k)
unfolding virtual_id_exists update
exists-update [] virt real k = refl
exists-update ((v, r) ∷ table) virt real k = ground (arith, exists-update table virt real k)

pub exists-erase :
    (table : Entries) (virt k : ℕ)
    → virtual_id_exists (erase table virt) k
      ≡ (if virt == k then false else virtual_id_exists table k)
unfolding virtual_id_exists erase
exists-erase [] virt k = ground arith
exists-erase ((v, r) ∷ table) virt k = ground (arith, exists-erase table virt k)

pub UniqueIds-update :
    (table : Entries) (virt real : ℕ) → UniqueIds table → UniqueIds (update table virt real)
unfolding update
UniqueIds-update [] virt real u = (unfold virtual_id_exists in refl, tt)
UniqueIds-update ((v, r) ∷ table) virt real u = elim (Bool-cases (v == virt)) [
  | inl same ↦ rw same (ground arith)
  | inr other ↦
      rw other
        (ground (arith, exists-update table virt real v), UniqueIds-update table virt real u.1)
]

pub UniqueIds-erase : (table : Entries) (virt : ℕ) → UniqueIds table → UniqueIds (erase table virt)
unfolding erase
UniqueIds-erase [] virt u = tt
UniqueIds-erase ((v, r) ∷ table) virt u = elim (Bool-cases (v == virt)) [
  | inl same ↦ rw same (UniqueIds-erase table virt u.1)
  | inr other ↦ rw other (ground (arith, exists-erase table virt v), UniqueIds-erase table virt u.1)
]

pub exists_of_virtual_to_real :
    (table : Entries) (v r : ℕ)
    → virtual_to_real table v ≡ some r
    → virtual_id_exists table v ≡ true
unfolding virtual_to_real virtual_id_exists
exists_of_virtual_to_real [] v r e = cc
exists_of_virtual_to_real ((w, s) ∷ table) v r e =
    ground (arith, exists_of_virtual_to_real table v r)

pub virtual_to_real-none :
    (table : Entries) (v : ℕ) → virtual_id_exists table v ≡ false → virtual_to_real table v ≡ none
unfolding virtual_to_real virtual_id_exists
virtual_to_real-none [] v e = refl
virtual_to_real-none ((w, s) ∷ table) v e = ground (arith, virtual_to_real-none table v)

-- In a table with at most one entry for each virtual id, a real pid that is in the table is
-- translated to a virtual pid which translates back to it, and one that is not in the table is not
-- translated.
pub real_to_virtual_roundtrip :
    (table : Entries) (real : ℕ)
    → UniqueIds table
    → ((v : ℕ) × (real_to_virtual table real ≡ some v) × (virtual_to_real table v ≡ some real))
      ⊎ ((real_to_virtual table real ≡ none) × ((v : ℕ) → virtual_to_real table v ≢ some real))
unfolding real_to_virtual virtual_to_real
real_to_virtual_roundtrip [] real u = inr (refl, λ v e. cc)
real_to_virtual_roundtrip ((w, s) ∷ table) real u = elim (Bool-cases (s == real)) [
  | inl hit ↦ inl (w, ground arith, ground arith)
  | inr miss ↦ elim (real_to_virtual_roundtrip table real u.1) [
    | inl (v, there, back) ↦
        inl (v, ground arith, ground (arith, exists_of_virtual_to_real table v real back))
    | inr (absent, nowhere) ↦ inr (ground arith, λ v e. ground (arith, nowhere v))
  ]
]

pub real_id_exists_iff :
    (table : Entries) (real : ℕ)
    → (real_id_exists table real ≡ false) ↔ (real_to_virtual table real ≡ none)
unfolding real_id_exists real_to_virtual
real_id_exists_iff [] real = (λ e. refl, λ e. refl)
real_id_exists_iff ((v, r) ∷ table) real =
    let (there, back) = real_id_exists_iff table real in
    (λ e. ground (arith, there), λ e. ground (arith, back))
