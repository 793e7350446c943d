-- ===== src/Image/Scan/Walk.antt =====
-- The walks of ckpt.Image.Scan against the sequence of regions that the kernel tells of.
use ckpt.Prelude.{
  ℕ, zero, suc, ◌+◌, ◌≤◌, ◌≡◌, ◌≢◌, refl, sym, subst, ap, ◌∙◌, Bool, true, false, ◌||◌, Option,
  none, some, List, [], ◌∷◌, ◌++◌, length, length-append, leb, All, arith, inl, inr, Bool-cases,
  Option-cases, ◌⊎◌,
}
use mathlib.Core.List.{append_assoc, append-nil}
use ckpt.Image.Base.{Region, Machine, in_shared_cache}
use ckpt.Image.Scan.{
  Entry, Kernel, abort, go, ended, aborted, keep, walk, region_max, pagezero, ckpt_vm_mark,
  found_region, ckpt_vm_valid_region, save_round, ckpt_vm_save_regions, mark_round,
  ckpt_vm_mark_regions,
}

-- From an address and a depth on the kernel tells of these regions, submaps entered and left out.
pub data Tells (recurse : ℕ → ℕ → Option Entry) : ℕ → ℕ → List Entry → Type 0 where
  nothing : (addr depth : ℕ) → recurse addr depth ≡ none → Tells recurse addr depth []
  submap :
      (addr depth : ℕ) (e : Entry) (es : List Entry)
      → recurse addr depth ≡ some e
      → e.info.is_submap ≡ true
      → Tells recurse e.addr (e.depth + 1) es
      → Tells recurse addr depth es
  region :
      (addr depth : ℕ) (e : Entry) (es : List Entry)
      → recurse addr depth ≡ some e
      → e.info.is_submap ≡ false
      → Tells recurse (e.addr + e.size) e.depth es
      → Tells recurse addr depth (e ∷ es)

module _ (k : Machine) (c : Kernel) (raw : Bool) where
  abbrev pub IsDecided : Entry → Type 0
  IsDecided e = ckpt_vm_valid_region k c e.info e.addr e.size ≢ none

  -- The attributes that the kernel tells of, in the region that is saved.
  pub record Describes (e : Entry) (r : Region) : Type 0 where
    pub start : r.start ≡ e.addr
    pub size : r.size ≡ e.size
    pub inherit : r.inherit ≡ e.info.inheritance
    pub prot : r.prot ≡ e.info.protection
    pub max_prot : r.max_prot ≡ e.info.max_protection
    pub mode : r.mode ≡ e.info.share_mode
    pub tag : r.tag ≡ e.info.user_tag
    pub pages_dirtied : r.pages_dirtied ≡ e.info.pages_dirtied

  -- Of the regions that the kernel tells of, those that are to be saved.
  abbrev pub chosen : Entry → Option Bool → List Entry
  chosen e (some true) = e ∷ []
  chosen e _ = []

  unfoldable pub valid_entries : List Entry → List Entry
  valid_entries [] = []
  valid_entries (e ∷ es) =
      chosen e (ckpt_vm_valid_region k c e.info e.addr e.size) ++ valid_entries es

  abbrev pub AllDescribe : List Entry → List Region → Type 0
  AllDescribe [] [] = Unit {0}
  AllDescribe (e ∷ es) (r ∷ rs) = Describes e r × AllDescribe es rs
  AllDescribe _ _ = ⊥

  found-Describes : (e : Entry) → Describes e (found_region k c e raw)
  found-Describes e = record {
    start = refl;
    size = refl;
    inherit = refl;
    prot = refl;
    max_prot = refl;
    mode = refl;
    tag = refl;
    pages_dirtied = refl;
  }

  -- The walk from an address and a depth on saves the valid ones of `es` behind `l`.
  abbrev Saves : (ℕ → ℕ → Option Entry) → ℕ → ℕ → List Entry → List Region → Type 0
  Saves recurse addr depth es l =
      (fuel : ℕ) × (rs : List Region) × (walk (some region_max) recurse (save_round k c raw) fuel
          addr depth l
        ≡ ended (l ++ rs))
      × AllDescribe (valid_entries es) rs

  fits_with :
      (e : Entry) (es : List Entry) (l : List Region) (o : Option Bool)
      → ckpt_vm_valid_region k c e.info e.addr e.size ≡ o
      → length l + length (valid_entries (e ∷ es)) ≤ region_max
      → length l + length (chosen e o ++ valid_entries es) ≤ region_max
  unfolding valid_entries
  fits_with e es l o valid fits =
      subst (λ o. length l + length (chosen e o ++ valid_entries es) ≤ region_max) valid fits

  saved_step :
      (recurse : ℕ → ℕ → Option Entry) (addr depth : ℕ) (e : Entry) (es : List Entry)
      (l : List Region)
      → recurse addr depth ≡ some e
      → e.info.is_submap ≡ false
      → ckpt_vm_valid_region k c e.info e.addr e.size ≡ some true
      → leb region_max (length l) ≡ false
      → Saves recurse (e.addr + e.size) e.depth es (l ++ found_region k c e raw ∷ [])
      → Saves recurse addr depth (e ∷ es) l
  unfolding walk valid_entries save_round
  saved_step recurse addr depth e es l told leaf valid room (fuel, rs, p, d) = (
    suc fuel,
    found_region k c e raw ∷ rs,
    rw told (
        rw valid
          (rw leaf (rw room (p ∙ ap ended (append_assoc l (found_region k c e raw ∷ []) rs))))),
    rw valid (found-Describes e, d),
  )

  passed_step :
      (recurse : ℕ → ℕ → Option Entry) (addr depth : ℕ) (e : Entry) (es : List Entry)
      (l : List Region)
      → recurse addr depth ≡ some e
      → e.info.is_submap ≡ false
      → ckpt_vm_valid_region k c e.info e.addr e.size ≡ some false
      → Saves recurse (e.addr + e.size) e.depth es l
      → Saves recurse addr depth (e ∷ es) l
  unfolding walk valid_entries save_round
  passed_step recurse addr depth e es l told leaf valid (fuel, rs, p, d) =
      (suc fuel, rs, rw told (rw valid (rw leaf p)), rw valid d)

  walk_lem :
      (recurse : ℕ → ℕ → Option Entry) (addr depth : ℕ) (es : List Entry) (l : List Region)
      → Tells recurse addr depth es
      → All IsDecided es
      → length l + length (valid_entries es) ≤ region_max
      → (fuel : ℕ) × (rs : List Region) × (walk
            (some region_max)
            recurse
            (save_round k c raw)
            fuel
            addr
            depth
            l
          ≡ ended (l ++ rs))
        × AllDescribe (valid_entries es) rs
  unfolding walk valid_entries save_round
  walk_lem recurse addr depth [] l (nothing _ _ e) decided fits =
      (1, [], rw e (ground (arith, append-nil l)), tt)
  walk_lem recurse addr depth es l (submap _ _ e _ told sub rest) decided fits =
      let (fuel, rs, p, d) = walk_lem recurse e.addr (e.depth + 1) es l rest decided fits in
      (suc fuel, rs, rw told (rw sub p), d)
  walk_lem recurse addr depth (e ∷ es) l (region _ _ _ _ told leaf rest) decided fits =
      elim (Option-cases (ckpt_vm_valid_region k c e.info e.addr e.size)) [
        | inl failed ↦ absurd (decided.0 failed)
        | inr (true, valid) ↦
            let more = l ++ found_region k c e raw ∷ [] in
            let split = fits_with e es l (some true) valid fits in
            let longer : length more ≡ length l + 1 =
              length-append l (found_region k c e raw ∷ []) in
            saved_step recurse addr depth e es l told leaf valid (ground (arith, split)) (
              walk_lem recurse (e.addr + e.size) e.depth es more rest decided.1
                (omega (arith, longer, split)))
        | inr (false, valid) ↦ passed_step recurse addr depth e es l told leaf valid (
            walk_lem recurse (e.addr + e.size) e.depth es l rest decided.1
              (fits_with e es l (some false) valid fits))
      ]

  -- A checkpoint saves exactly the valid ones of the regions that the kernel tells of, in their
  -- order, each with its address, size, inheritance, both protections, mode, tag and number of dirty
  -- pages; submaps are entered. The kernel tells of finitely many regions, at most 1023 of them are
  -- valid, and no assertion of `ckpt_vm_valid_region` fails on them. The walk ends.
  pub save_regions-eq :
      (recurse : ℕ → ℕ → Option Entry) (es : List Entry)
      → Tells recurse 0 0 es
      → All IsDecided es
      → length (valid_entries es) ≤ region_max
      → (fuel : ℕ) × (rs : List Region) × (ckpt_vm_save_regions k c raw recurse fuel ≡ ended rs)
        × AllDescribe (valid_entries es) rs
  unfolding ckpt_vm_save_regions
  save_regions-eq recurse es told decided fits =
      walk_lem recurse 0 0 es [] told decided (omega (arith, fits))

-- The kernel is documented to tell of the region that has the address, or else of the next: asked
-- for the address and the depth of a region that it has told of, it tells of that region.
abbrev pub IsSteady : (ℕ → ℕ → Option Entry) → Type 0
IsSteady recurse =
    (addr depth : ℕ) (e : Entry) → recurse addr depth ≡ some e → recurse e.addr e.depth ≡ some e

-- From an address and a depth on, the kernel comes to tell of a submap, at that address or behind it.
pub data Meets (recurse : ℕ → ℕ → Option Entry) : ℕ → ℕ → Type 0 where
  here :
      (addr depth : ℕ) (e : Entry)
      → recurse addr depth ≡ some e
      → e.info.is_submap ≡ true
      → Meets recurse addr depth
  later :
      (addr depth : ℕ) (e : Entry)
      → recurse addr depth ≡ some e
      → e.info.is_submap ≡ false
      → Meets recurse (e.addr + e.size) e.depth
      → Meets recurse addr depth

module _ (k : Machine) (inherit behavior : ℕ → ℕ → Bool) (recurse : ℕ → ℕ → Option Entry) where
  -- A region that is no submap: the walk goes on behind it, or ends with an error.
  pub leaf_round :
      (e : Entry)
      → e.info.is_submap ≡ false
      → (mark_round k inherit behavior e ≡ abort)
        ⊎ ((a : Option (ℕ × ℕ)) × (mark_round k inherit behavior e
              ≡ go (e.addr + e.size) e.depth a))
  unfolding mark_round
  leaf_round e leaf =
      elim (Bool-cases (pagezero e.addr e.size || in_shared_cache k e.addr e.size)) [
        | inl passed ↦ inr (none, rw passed (rw leaf refl))
        | inr other ↦ elim (Bool-cases (ckpt_vm_mark k inherit behavior e.addr e.size)) [
          | inl marked ↦ inr (some (e.addr, e.size), rw other (rw marked (rw leaf refl)))
          | inr failed ↦ inl (rw other (rw failed (rw leaf refl)))
        ]
      ]

  submap_round :
      (e : Entry)
      → e.info.is_submap ≡ true
      → mark_round k inherit behavior e ≡ go e.addr e.depth none
  unfolding mark_round
  submap_round e sub = rw sub refl

  walk_spins :
      (addr depth : ℕ)
      → IsSteady recurse
      → Meets recurse addr depth
      → (fuel : ℕ) (l r : List (ℕ × ℕ))
      → walk none recurse (mark_round k inherit behavior) fuel addr depth l ≢ ended r
  unfolding walk
  walk_spins addr depth steady meets zero l r p = cc
  walk_spins addr depth steady (here _ _ e told sub) (suc fuel) l r p =
      let step : walk none recurse (mark_round k inherit behavior) (suc fuel) addr depth l
          ≡ walk none recurse (mark_round k inherit behavior) fuel e.addr e.depth l =
        rw told (rw (submap_round e sub) refl) in
      walk_spins e.addr e.depth steady (here e.addr e.depth e (steady addr depth e told) sub) fuel l
        r (sym step ∙ p)
  walk_spins addr depth steady (later _ _ e told leaf meets) (suc fuel) l r p =
      elim (leaf_round e leaf) [
        | inl failed ↦
            let step : walk none recurse (mark_round k inherit behavior) (suc fuel) addr depth l
                ≡ aborted =
              rw told (rw failed refl) in
            cc
        | inr (a, next) ↦
            let step : walk none recurse (mark_round k inherit behavior) (suc fuel) addr depth l
                ≡ walk none recurse (mark_round k inherit behavior) fuel (e.addr + e.size) e.depth
                    (keep l a) =
              rw told (rw next refl) in
            walk_spins (e.addr + e.size) e.depth steady meets fuel (keep l a) r (sym step ∙ p)
      ]

  -- However long it runs, `ckpt_vm_mark_regions` does not return 0 where the kernel tells it of a
  -- submap, at the address that it has come to or behind a gap: it does not go past the submap or into
  -- it. Asked for the address and the depth of a region that it has told of, the kernel tells of that
  -- region.
  pub mark_regions_spins :
      IsSteady recurse
      → Meets recurse 0 0
      → (fuel : ℕ) (r : List (ℕ × ℕ))
      → ckpt_vm_mark_regions k inherit behavior recurse fuel ≢ ended r
  unfolding ckpt_vm_mark_regions
  mark_regions_spins steady meets fuel r = walk_spins 0 0 steady meets fuel [] r
