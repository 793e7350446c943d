-- ===== src/Fd/Restore/Inherit.antt =====
-- The first loop of `fd_table_restore`, over the descriptors that the process was started with.
use ckpt.Prelude.{
  ℕ, suc, ◌+◌, ◌-◌, ◌≤◌, ◌<◌, ◌≡◌, ◌≢◌, inl, inr, refl, sym, ap, ◌∙◌, true, false, Option, none,
  some, List, [], ◌∷◌, ◌==◌, Bool-cases, ==_iff, ==_false, ==_refl, arith,
}
use mathlib.Core.Option.{some-injective}
use ckpt.Fd.Base.{fd_directory, FdSource, slot, is_null}
use ckpt.Fd.Save.{is_inherited}
use ckpt.Fd.Restore.{
  Kernel, returned, is_restored, inherit_source, inherit_slot, lead, and_then, inherit_from,
}
use ckpt.Fd.Restore.Laws.{Holds, Leads, IsLawful, Granting}

abbrev pub IsInherited : FdSource → Type 0
IsInherited s = is_inherited s.type ≡ true

abbrev pub IsOwn : FdSource → Type 0
IsOwn s = is_inherited s.type ≡ false

-- What fd_table_restore relies on: the slots hold sources of a known type, saved but not restored;
-- the roots of inherited ones are open, and are not given another inherited descriptor; and the
-- descriptor of a directory stream is the first that holds its source.
pub record Restorable (K : Kernel) (slots : List (Option ℕ)) (heap : ℕ → Option FdSource)
    (os : K.State) : Type 0 where
  pub live :
      (x a : ℕ)
      → slot slots x ≡ some a
      → (s : FdSource) × (heap a ≡ some s) × (is_null s.type ≡ false)
  pub saved :
      (x a : ℕ) (s : FdSource) → Holds slots heap x a s → IsOwn s → is_restored K s.state ≡ false
  pub open_root :
      (x a : ℕ) (s : FdSource)
      → Holds slots heap x a s
      → IsInherited s
      → (d : ℕ) × (K.description os s.root ≡ some d)
  pub straight :
      (x y a b : ℕ) (s s' : FdSource)
      → Holds slots heap x a s
      → IsInherited s
      → y ≡ s.root
      → Holds slots heap y b s'
      → IsInherited s'
      → s'.root ≡ y
  pub streams :
      (x a : ℕ) (s : FdSource)
      → Holds slots heap x a s
      → s.type ≡ fd_directory
      → (slot slots (K.dirfd s.dirp) ≡ some a)
        × ((y : ℕ) → slot slots y ≡ some a → K.dirfd s.dirp ≤ y)

pub same_source :
    (slots : List (Option ℕ)) (heap : ℕ → Option FdSource) (x a b : ℕ) (s s' : FdSource)
    → Holds slots heap x a s
    → Holds slots heap x b s'
    → (a ≡ b) × (s ≡ s')
same_source slots heap x a b s s' h h' =
    let e = some-injective _ _ (sym (h.0) ∙ h'.0) in
    (e, some-injective _ _ (sym (h.1) ∙ ap heap e ∙ h'.1))

pub earlier : (x fd : ℕ) → x < suc fd → x ≢ fd → x < fd
earlier x fd h far = ground arith

-- The slots from `fd` on, of which `v` is the first.
pub first :
    (slots : List (Option ℕ)) (v : Option ℕ) (vs : List (Option ℕ)) (fd : ℕ)
    → ((i : ℕ) → slot slots (fd + i) ≡ slot (v ∷ vs) i)
    → slot slots fd ≡ v
first slots v vs fd tail =
    let index : fd + 0 ≡ fd = omega arith in ap (slot slots) (sym index) ∙ tail 0

pub further :
    (slots : List (Option ℕ)) (v : Option ℕ) (vs : List (Option ℕ)) (fd : ℕ)
    → ((i : ℕ) → slot slots (fd + i) ≡ slot (v ∷ vs) i)
    → (i : ℕ) → slot slots (suc fd + i) ≡ slot vs i
further slots v vs fd tail i =
    let index : suc fd + i ≡ fd + suc i = omega arith in ap (slot slots) index ∙ tail (suc i)

pub behind :
    (slots vs : List (Option ℕ)) (fd x : ℕ)
    → ((i : ℕ) → slot slots (fd + i) ≡ slot vs i)
    → fd ≤ x
    → slot slots x ≡ slot vs (x - fd)
behind slots vs fd x tail h =
    let index : x ≡ fd + (x - fd) = omega (arith, h) in ap (slot slots) index ∙ tail (x - fd)

module _ (K : Kernel) (laws : IsLawful K) (slots : List (Option ℕ)) (heap : ℕ → Option FdSource)
    (grant : Granting K slots heap) (os0 : K.State) (can : Restorable K slots heap os0) where
  -- The loop has come to the descriptor `fd`.
  pub record Inherited (fd : ℕ) (os : K.State) : Type 0 where
    pub given :
        (x a : ℕ) (s : FdSource)
        → x < fd
        → Holds slots heap x a s
        → IsInherited s
        → K.description os x ≡ K.description os0 s.root
    pub kept :
        (x : ℕ)
        → ((a : ℕ) (s : FdSource) → x < fd → Holds slots heap x a s → IsInherited s → s.root ≡ x)
        → K.description os x ≡ K.description os0 x

  stay :
      (fd : ℕ) (os : K.State)
      → ((a : ℕ) (s : FdSource) → Holds slots heap fd a s → IsInherited s → s.root ≡ fd)
      → Inherited fd os
      → Inherited (suc fd) os
  stay fd os own p = record {
    given = λ x a s h holds inherited. elim (Bool-cases (x == fd)) [
      | inl is ↦
          let e = (==_iff x fd).0 is in
          ap (K.description os) e
          ∙ p.kept fd (λ b s' lt _ _. absurd (omega (arith, lt)))
          ∙ ap (K.description os0)
              (sym (own a s (ap (slot slots) (sym e) ∙ holds.0, holds.1) inherited))
      | inr far ↦ p.given x a s (earlier x fd h (==_false x fd far)) holds inherited
    ];
    kept = λ x f. p.kept x (λ a s h. f a s (omega (arith, h)));
  }

  give :
      (fd a d : ℕ) (s : FdSource) (os os' : K.State)
      → Holds slots heap fd a s
      → IsInherited s
      → fd ≢ s.root
      → K.description os0 s.root ≡ some d
      → Leads K fd d os os'
      → Inherited fd os
      → Inherited (suc fd) os'
  give fd a d s os os' holds inherited apart root leads p = record {
    given = λ x b s' h holds' inherited'. elim (Bool-cases (x == fd)) [
      | inl is ↦
          let e = (==_iff x fd).0 is in
          let same =
            same_source slots heap fd a b s s' holds
              (ap (slot slots) (sym e) ∙ holds'.0, holds'.1) in
          ap (K.description os') e
          ∙ leads.here
          ∙ sym root
          ∙ ap (λ (q : FdSource). K.description os0 q.root) (same.1)
      | inr far ↦
          let other = ==_false x fd far in
          leads.others x other ∙ p.given x b s' (earlier x fd h other) holds' inherited'
    ];
    kept = λ x f. elim (Bool-cases (x == fd)) [
      | inl is ↦
          let e = (==_iff x fd).0 is in
          absurd (
            apart
              (sym (f a s (omega (arith, e)) (ap (slot slots) e ∙ holds.0, holds.1) inherited ∙ e)))
      | inr far ↦
          leads.others x (==_false x fd far) ∙ p.kept x (λ b s' h. f b s' (omega (arith, h)))
    ];
  }

  source_lem :
      (fd a : ℕ) (s : FdSource) (os : K.State)
      → Holds slots heap fd a s
      → Inherited fd os
      → (os' : K.State) × (inherit_source K fd s heap os ≡ returned heap os')
        × Inherited (suc fd) os'
  source_lem fd a s os holds p = elim (Bool-cases (is_inherited s.type)) [
    | inl inherited ↦ elim (Bool-cases (fd == s.root)) [
      | inl own ↦ (
        os,
        rw (inherited, own) refl,
        stay fd os
            (λ b s' holds' _.
              let same = same_source slots heap fd a b s s' holds holds' in
              sym ((==_iff fd s.root).0 own ∙ ap (λ (q : FdSource). q.root) (same.1)))
            p,
      )
      | inr other ↦
          let (d, root) = can.open_root fd a s holds inherited in
          let now =
            p.kept s.root (λ b s' lt holds' inherited'.
              can.straight fd s.root a b s s' holds inherited refl holds' inherited')
            ∙ root in
          let (os', e) = grant.dups s.root fd a d os (holds.0) now in
          let leads = (laws.dup2_lem s.root fd d fd os os' now e).0 in
          (
            os',
            rw (inherited, other, e, ==_refl fd) refl,
            give fd a d s os os' holds inherited (==_false fd s.root other) root leads p,
          )
    ]
    | inr own ↦ (
      os,
      rw own refl,
      stay fd os
          (λ b s' holds' inherited.
            let same = same_source slots heap fd a b s s' holds holds' in
            let never : false ≡ true =
              sym own ∙ ap (λ (q : FdSource). is_inherited q.type) (same.1) ∙ inherited in
            cc)
          p,
    )
  ]

  slot_lem :
      (fd : ℕ) (v : Option ℕ) (os : K.State)
      → slot slots fd ≡ v
      → Inherited fd os
      → (os' : K.State) × (inherit_slot K fd v heap os ≡ returned heap os') × Inherited (suc fd) os'
  slot_lem fd none os e p =
      (os, refl, stay fd os (λ a s holds _. let bad : none ≡ some a = sym e ∙ holds.0 in cc) p)
  slot_lem fd (some a) os e p =
      let (s, at, _) = can.live fd a e in
      let (os', returns, q) = source_lem fd a s os (e, at) p in
      (os', ap (lead K (λ s. inherit_source K fd s heap os)) at ∙ returns, q)

  -- The loop returns; then each inherited descriptor leads where its root did, and the others lead
  -- where they did.
  pub inherit_lem :
      (vs : List (Option ℕ)) (fd : ℕ) (os : K.State)
      → ((i : ℕ) → slot slots (fd + i) ≡ slot vs i)
      → Inherited fd os
      → (os' : K.State) × (n : ℕ) × (inherit_from K fd vs heap os ≡ returned heap os')
        × Inherited n os'
        × ((x : ℕ) → n ≤ x → slot slots x ≡ none)
  unfolding inherit_from
  inherit_lem [] fd os tail p = (os, fd, refl, p, λ x h. behind slots [] fd x tail h)
  inherit_lem (v ∷ vs) fd os tail p =
      let (os1, e1, p1) = slot_lem fd v os (first slots v vs fd tail) p in
      let (os2, n, e2, p2, end) = inherit_lem vs (suc fd) os1 (further slots v vs fd tail) p1 in
      (os2, n, ap (λ o. and_then K o (inherit_from K (suc fd) vs)) e1 ∙ e2, p2, end)

  pub start : Inherited 0 os0
  start = record { given = λ x a s h. absurd (omega (arith, h)); kept = λ x f. refl }
