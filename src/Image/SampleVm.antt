-- ===== src/Image/SampleVm.antt =====
-- An address space that is a function, on which the kernel grants everything but a protection beyond
-- the maximum.
use mathlib.Core.Option.{some-injective}
use ckpt.Prelude.{
  ◌%◌, Bool, ◌==◌, ==_iff, ℕ, zero, suc, ◌+◌, ◌-◌, ◌≤◌, ◌<◌, ◌≡◌, refl, sym, ap, ◌∙◌, subst, inl,
  inr, true, false, ◌&&◌, Option, none, some, List, [], ◌∷◌, length, get_elem?, leb, ltb, arith,
  if◌then◌else◌,
}
use ckpt.Image.Vm.{
  Cell, Vm, IsLawful, Changes, Outside, fresh, protected, with_inherit, copied, Permits, Protects,
}
use Prim.Native.Nat.{bit_and}

abbrev Cells : Type 0
Cells = ℕ → Cell

abbrev change : ℕ → ℕ → (Cell → Cell) → Cells → Cells
change a n f s x = if leb a x && ltb x (a + n) then f (s x) else s x

-- The byte of a store at an address, if it has one.
abbrev byte_at : ℕ → List ℕ → ℕ → Option ℕ
byte_at a bs x = if leb a x then get_elem? bs (x - a) else none

abbrev set_byte : Cell → Option ℕ → Cell
set_byte c none = c
set_byte c (some b) = record c { byte = b }

abbrev permits_test : Bool → ℕ → Cell → Bool
permits_test false p c = bit_and (p % 8) (copied p c.max_prot) == p % 8
permits_test true p c = bit_and (p % 8) c.max_prot == p % 8

-- All of the cells from `a` on pass a test.
abbrev all_cells : (Cell → Bool) → ℕ → ℕ → Cells → Bool
all_cells test a zero s = true
all_cells test a (suc n) s = test (s a) && all_cells test (suc a) n s

abbrev protect_all : Bool → ℕ → ℕ → ℕ → Bool → Cells → Option Cells
protect_all max p a n permitted s =
    if permitted then some (change a n (protected max p) s) else none

abbrev pub sample_vm : Vm
sample_vm = record {
  Space = Cells;
  view = λ s x. s x;
  map = λ a n tag over s. some (a, change a n (λ c. fresh) s);
  protect = λ a n max p s. protect_all max p a n (all_cells (permits_test max p) a n s) s;
  inherit = λ a n i s. some (change a n (with_inherit i) s);
  store = λ a bs s. some (λ x. set_byte (s x) (byte_at a bs x));
}

inside_test : (a n x : ℕ) → a ≤ x → x < a + n → (leb a x && ltb x (a + n)) ≡ true
inside_test a n x p q = ground arith

Outside-test : (a n x : ℕ) → Outside a n x → (leb a x && ltb x (a + n)) ≡ false
Outside-test a n x (inl p) = ground arith
Outside-test a n x (inr p) = ground arith

change_lem :
    (a n : ℕ) (f : Cell → Cell) (s : Cells) → Changes sample_vm a n (λ x c. f c) s (change a n f s)
change_lem a n f s = record {
  inside = λ x p q. rw (inside_test a n x p q) refl;
  outside = λ x o. rw (Outside-test a n x o) refl;
}

changed :
    (a n : ℕ) (f : Cell → Cell) (s t : Cells)
    → some (change a n f s) ≡ some t
    → Changes sample_vm a n (λ x c. f c) s t
changed a n f s t e =
    subst (λ u. Changes sample_vm a n (λ x c. f c) s u) (some-injective _ _ e) (change_lem a n f s)

no_byte : (bs : List ℕ) (i : ℕ) → length bs ≤ i → get_elem? bs i ≡ none
no_byte [] i h = refl
no_byte (b ∷ bs) zero h = elim h [ ]
no_byte (b ∷ bs) (suc i) h = no_byte bs i (omega arith)

byte_within : (a : ℕ) (bs : List ℕ) (i : ℕ) → byte_at a bs (a + i) ≡ get_elem? bs i
byte_within a bs i =
    let low : leb a (a + i) ≡ true = ground arith in
    let back : a + i - a ≡ i = omega arith in rw low (ap (get_elem? bs) back)

byte_beyond : (a : ℕ) (bs : List ℕ) (x : ℕ) → Outside a (length bs) x → byte_at a bs x ≡ none
byte_beyond a bs x (inl p) = let low : leb a x ≡ false = ground arith in rw low refl
byte_beyond a bs x (inr p) =
    let low : leb a x ≡ true = ground arith in rw low (no_byte bs (x - a) (omega arith))

granted_lem :
    (max : Bool) (p a n : ℕ) (permitted : Bool) (s t : Cells)
    → protect_all max p a n permitted s ≡ some t
    → Changes sample_vm a n (λ x c. protected max p c) s t
granted_lem max p a n true s t e = changed a n (protected max p) s t e
granted_lem max p a n false s t e = cc

passes : (max : Bool) (p : ℕ) (c : Cell) → Permits max p c → permits_test max p c ≡ true
passes false p c h = (==_iff _ _).1 h
passes true p c h = (==_iff _ _).1 h

all_pass :
    (test : Cell → Bool) (a n : ℕ) (s : Cells)
    → ((x : ℕ) → a ≤ x → x < a + n → test (s x) ≡ true)
    → all_cells test a n s ≡ true
all_pass test a zero s h = refl
all_pass test a (suc n) s h =
    let here = h a (omega arith) (omega arith) in
    rw here
      (all_pass test (suc a) n s (λ x low high. h x (omega (arith, low)) (omega (arith, high))))

pub sample_vm-Protects : (a n : ℕ) → Protects sample_vm a n
sample_vm-Protects a n max p s permits = (
  _,
  ap (λ b. protect_all max p a n b s)
      (all_pass (permits_test max p) a n s (λ x low high. passes max p (s x) (permits x low high))),
)

pub sample_vm-IsLawful : IsLawful sample_vm
sample_vm-IsLawful = record {
  map_lem = λ a n tag over s b t e.
      let both = some-injective _ _ e in
      (
        sym (ap (λ (p : ℕ × Cells). p.0) both),
        changed a n (λ c. fresh) s t (ap (λ (p : ℕ × Cells). some p.1) both),
      );
  protect_lem =
      λ a n max p s t e. granted_lem max p a n (all_cells (permits_test max p) a n s) s t e;
  inherit_lem = λ a n i s t e. changed a n (with_inherit i) s t e;
  store_lem = λ a bs s t e.
      let view : (λ x. set_byte (s x) (byte_at a bs x)) ≡ t = some-injective _ _ e in
      (
        λ i v g.
            sym (ap (λ (u : Cells). u (a + i)) view)
            ∙ ap (set_byte (s (a + i))) (byte_within a bs i ∙ g),
        λ x o. sym (ap (λ (u : Cells). u x) view) ∙ ap (set_byte (s x)) (byte_beyond a bs x o),
      );
}
