-- ===== src/Image/Vm.antt =====
-- The calls of the Mach kernel on an address space, as an interface: what xnd/vm_restore.c and
-- xnd/vm_common.c call, and what the calls are documented to do.
pub mod Ranges
use ckpt.Prelude.{
  ℕ, zero, suc, ◌-◌, [], ◌∷◌, subst, ◌==◌, if◌then◌else◌, ◌+◌, ◌≤◌, ◌<◌, ◌%◌, ◌≡◌, ◌≢◌, ◌⊎◌, refl,
  ap, ◌∙◌, inl, inr, Bool, true, false, Option, some, List, length, get_elem?, arith,
}
use Prim.Native.Nat.{bit_and, bit_or}
use native.Mathlib.Decide.{dec_le, dec_lt}
use ckpt.Image.Base.{prot_default, prot_all, inherit_default}

-- What an address space holds at one address.
pub record Cell : Type 0 where
  pub byte : ℕ
  pub prot : ℕ
  pub max_prot : ℕ
  pub inherit : ℕ

-- `mach_vm_map` with a fixed address (its address, size and tag, and whether it overwrites),
-- `mach_vm_protect` (whether the maximum is set), `mach_vm_inherit`, and a store of bytes. `none` is
-- an error.
pub record Vm : Type 1 where
  pub Space : Type 0
  pub view : Space → ℕ → Cell
  pub map : ℕ → ℕ → ℕ → Bool → Space → Option (ℕ × Space)
  pub protect : ℕ → ℕ → Bool → ℕ → Space → Option Space
  pub inherit : ℕ → ℕ → ℕ → Space → Option Space
  pub store : ℕ → List ℕ → Space → Option Space

-- A fresh page: zeros with the attributes that are asked for.
abbrev pub fresh : Cell
fresh = record { byte = 0; prot = prot_default; max_prot = prot_all; inherit = inherit_default }

abbrev pub Outside : ℕ → ℕ → ℕ → Type 0
Outside a n x = (x < a) ⊎ (a + n ≤ x)

-- Between two spaces only the cells from `a` on, `n` of them, change, and by `f`.
pub record Changes (V : Vm) (a n : ℕ) (f : ℕ → Cell → Cell) (s t : V.Space) : Type 0 where
  pub inside : (x : ℕ) → a ≤ x → x < a + n → V.view t x ≡ f x (V.view s x)
  pub outside : (x : ℕ) → Outside a n x → V.view t x ≡ V.view s x

-- VM_PROT_COPY adds the right to write to the maximum.
abbrev pub copied : ℕ → ℕ → ℕ
copied p max = if bit_and p 16 == 0 then max else bit_or max 2

-- What `mach_vm_protect` makes of a cell: a new maximum limits the protection too.
abbrev pub protected : Bool → ℕ → Cell → Cell
protected false p c = record c { prot = p % 8; max_prot = copied p c.max_prot }
protected true p c = record c { prot = bit_and c.prot p; max_prot = p % 8 }

-- What `mach_vm_protect` asks of a cell: the new protection, or the new maximum, is within the
-- maximum that the cell has.
abbrev pub Permits : Bool → ℕ → Cell → Type 0
Permits false p c = bit_and (p % 8) (copied p c.max_prot) ≡ p % 8
Permits true p c = bit_and (p % 8) c.max_prot ≡ p % 8

-- The kernel grants a protection of the cells from `a` on that each of them permits.
abbrev pub Protects : (V : Vm) → ℕ → ℕ → Type 0
Protects V a n =
    (max : Bool) (p : ℕ) (s : V.Space)
    → ((x : ℕ) → a ≤ x → x < a + n → Permits max p (V.view s x))
    → (t : V.Space) × (V.protect a n max p s ≡ some t)

-- The bits of a protection without VM_PROT_COPY.
pub small-bits : (p : ℕ) → p < 8 → (bit_or p 1 < 8) × (bit_and p 16 ≡ 0) × (bit_and p 7 ≡ p)
small-bits zero h = (omega arith, refl, refl)
small-bits (suc zero) h = (omega arith, refl, refl)
small-bits (suc (suc zero)) h = (omega arith, refl, refl)
small-bits (suc (suc (suc zero))) h = (omega arith, refl, refl)
small-bits (suc (suc (suc (suc zero)))) h = (omega arith, refl, refl)
small-bits (suc (suc (suc (suc (suc zero))))) h = (omega arith, refl, refl)
small-bits (suc (suc (suc (suc (suc (suc zero)))))) h = (omega arith, refl, refl)
small-bits (suc (suc (suc (suc (suc (suc (suc zero))))))) h = (omega arith, refl, refl)
small-bits (suc (suc (suc (suc (suc (suc (suc (suc p)))))))) h = absurd (omega arith)

pub copied_lem : (p max : ℕ) → p < 8 → copied p max ≡ max
copied_lem p max h = let bits = (small-bits p h).1 in rw bits refl

pub small_mod : (p : ℕ) → p < 8 → p % 8 ≡ p
small_mod p h = omega (arith, h)

pub Permits-small : (p : ℕ) (c : Cell) → p < 8 → bit_and p c.max_prot ≡ p → Permits false p c
Permits-small p c h e = rw (small_mod p h, copied_lem p c.max_prot h) e

abbrev pub with_inherit : ℕ → Cell → Cell
with_inherit i c = record c { inherit = i }

pub record IsLawful (V : Vm) : Type 0 where
  pub map_lem :
      (a n tag : ℕ) (over : Bool) (s : V.Space) (b : ℕ) (t : V.Space)
      → V.map a n tag over s ≡ some (b, t)
      → (b ≡ a) × Changes V a n (λ x c. fresh) s t
  pub protect_lem :
      (a n : ℕ) (max : Bool) (p : ℕ) (s t : V.Space)
      → V.protect a n max p s ≡ some t
      → Changes V a n (λ x c. protected max p c) s t
  pub inherit_lem :
      (a n i : ℕ) (s t : V.Space)
      → V.inherit a n i s ≡ some t
      → Changes V a n (λ x c. with_inherit i c) s t
  pub store_lem :
      (a : ℕ) (bs : List ℕ) (s t : V.Space)
      → V.store a bs s ≡ some t
      → ((i v : ℕ)
          → get_elem? bs i ≡ some v
          → V.view t (a + i) ≡ record (V.view s (a + i)) { byte = v })
        × ((x : ℕ) → Outside a (length bs) x → V.view t x ≡ V.view s x)

pub range-cases : (a n x : ℕ) → ((a ≤ x) × (x < a + n)) ⊎ Outside a n x
range-cases a n x = elim (dec_le a x) [
  | yes p ↦ elim (dec_lt x (a + n)) [ yes q ↦ inl (p, q) | no q ↦ inr (inr (omega arith)) ]
  | no p ↦ inr (inl (omega arith))
]

protected-byte : (max : Bool) (p : ℕ) (c : Cell) → (protected max p c).byte ≡ c.byte
protected-byte true p c = refl
protected-byte false p c = refl

pub protect-byte :
    (V : Vm)
    → IsLawful V
    → (a n : ℕ) (max : Bool) (p : ℕ) (s t : V.Space) → V.protect a n max p s ≡ some t
    → (x : ℕ) → (V.view t x).byte ≡ (V.view s x).byte
protect-byte V laws a n max p s t e x =
    let changes = laws.protect_lem a n max p s t e in
    elim (range-cases a n x) [
      | inl h ↦
          ap (λ (c : Cell). c.byte) (changes.inside x h.0 h.1) ∙ protected-byte max p (V.view s x)
      | inr h ↦ ap (λ (c : Cell). c.byte) (changes.outside x h)
    ]

-- A store changes bytes only.
stored_at : (bs : List ℕ) (i : ℕ) → i < length bs → (v : ℕ) × (get_elem? bs i ≡ some v)
stored_at [] i h = absurd (omega arith)
stored_at (b ∷ bs) zero h = (b, refl)
stored_at (b ∷ bs) (suc i) h = stored_at bs i (omega arith)

pub store-limits :
    (V : Vm)
    → IsLawful V
    → (a : ℕ) (bs : List ℕ) (s t : V.Space) → V.store a bs s ≡ some t
    → (x : ℕ) → (V.view t x).max_prot ≡ (V.view s x).max_prot
store-limits V laws a bs s t e x =
    let law = laws.store_lem a bs s t e in
    elim (range-cases a (length bs) x) [
      | inl h ↦
          let at : a + (x - a) ≡ x = omega (arith, h.0) in
          let (v, there) = stored_at bs (x - a) (omega (arith, h.0, h.1)) in
          subst (λ y. (V.view t y).max_prot ≡ (V.view s y).max_prot) at
            (ap (λ (c : Cell). c.max_prot) (law.0 (x - a) v there))
      | inr h ↦ ap (λ (c : Cell). c.max_prot) (law.1 x h)
    ]
