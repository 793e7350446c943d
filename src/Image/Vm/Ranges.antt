-- ===== src/Image/Vm/Ranges.antt =====
-- How the changes of address spaces compose, and what a store of the contents of a memory changes.
use native.Mathlib.Decide.{dec_lt}
use ckpt.Prelude.{
  ℕ, zero, suc, ◌+◌, ◌-◌, ◌≤◌, ◌<◌, ◌≡◌, inl, inr, refl, sym, ap, ap₂, ◌∙◌, subst, some, List, [],
  ◌∷◌, ◌++◌, length, get_elem?, arith,
}
use ckpt.Image.Base.{contents}
use ckpt.Image.Vm.{Vm, Cell, Changes, Outside, IsLawful}

-- The byte at an address becomes that of the memory `m`.
abbrev pub restored_byte : (ℕ → ℕ) → ℕ → Cell → Cell
restored_byte m x c = record c { byte = m x }

pub Outside-lower : (a i j x : ℕ) → Outside a (i + j) x → Outside a i x
Outside-lower a i j x (inl p) = inl p
Outside-lower a i j x (inr p) = inr (omega arith)

pub Outside-upper : (a i j x : ℕ) → Outside a (i + j) x → Outside (a + i) j x
Outside-upper a i j x (inl p) = inl (omega arith)
Outside-upper a i j x (inr p) = inr (omega arith)

module _ (V : Vm) where
  pub Changes-none : (a : ℕ) (f : ℕ → Cell → Cell) (s : V.Space) → Changes V a 0 f s s
  Changes-none a f s = record { inside = λ x p q. absurd (omega arith); outside = λ x h. refl }

  pub Changes-append :
      (a i j : ℕ) (f : ℕ → Cell → Cell) (s t u : V.Space)
      → Changes V a i f s t
      → Changes V (a + i) j f t u
      → Changes V a (i + j) f s u
  Changes-append a i j f s t u g h = record {
    inside = λ x p q. elim (dec_lt x (a + i)) [
      | yes low ↦ h.outside x (inl low) ∙ g.inside x p low
      | no high ↦
          h.inside x (omega arith) (omega arith) ∙ ap (f x) (g.outside x (inr (omega arith)))
    ];
    outside = λ x p. h.outside x (Outside-upper a i j x p) ∙ g.outside x (Outside-lower a i j x p);
  }

  pub Changes-then :
      (a n : ℕ) (f g : ℕ → Cell → Cell) (s t u : V.Space)
      → Changes V a n f s t
      → Changes V a n g t u
      → Changes V a n (λ x c. g x (f x c)) s u
  Changes-then a n f g s t u h h' = record {
    inside = λ x p q. h'.inside x p q ∙ ap (g x) (h.inside x p q);
    outside = λ x p. h'.outside x p ∙ h.outside x p;
  }

get_elem?-contents :
    (m : ℕ → ℕ) (a n i : ℕ) → i < n → get_elem? (contents m a n) i ≡ some (m (a + i))
get_elem?-contents m a zero i h = elim h [ ]
get_elem?-contents m a (suc n) zero h = let e : a ≡ a + 0 = omega arith in ap (λ b. some (m b)) e
get_elem?-contents m a (suc n) (suc i) h =
    let e : suc a + i ≡ a + suc i = omega arith in
    get_elem?-contents m (suc a) n i (omega arith) ∙ ap (λ b. some (m b)) e

pub contents-split :
    (m : ℕ → ℕ) (xs ys : List ℕ) (a n : ℕ)
    → xs ++ ys ≡ contents m a n
    → (xs ≡ contents m a (length xs))
      × (ys ≡ contents m (a + length xs) (n - length xs))
      × (length xs ≤ n)
contents-split m [] ys a n h =
    let e : a ≡ a + 0 = omega arith in
    let e' : n ≡ n - 0 = omega arith in
    (refl, h ∙ ap (λ b. contents m b n) e ∙ ap (contents m (a + 0)) e', omega arith)
contents-split m (x ∷ xs) ys a zero h = absurd (cc)
contents-split m (x ∷ xs) ys a (suc n) h =
    let head : x ≡ m a = cc in
    let (first, rest, few) = contents-split m xs ys (suc a) n (cc) in
    let e : suc a + length xs ≡ a + suc (length xs) = omega arith in
    let e' : n - length xs ≡ suc n - suc (length xs) = omega arith in
    (
      ap₂ (λ y l. y ∷ l) head first,
      rest ∙ ap (λ b. contents m b (n - length xs)) e ∙ ap (contents m (a + suc (length xs))) e',
      omega arith,
    )

module _ (V : Vm) (laws : IsLawful V) where
  pub store-Changes :
      (m : ℕ → ℕ) (a n : ℕ) (bs : List ℕ) (s t : V.Space)
      → V.store a bs s ≡ some t
      → bs ≡ contents m a n
      → length bs ≡ n
      → Changes V a n (restored_byte m) s t
  store-Changes m a n bs s t stored e sized =
      let law = laws.store_lem a bs s t stored in
      record {
        inside = λ x p q.
            let at : a + (x - a) ≡ x = omega arith in
            let byte : get_elem? bs (x - a) ≡ some (m (a + (x - a))) =
              ap (λ l. get_elem? l (x - a)) e ∙ get_elem?-contents m a n (x - a) (omega arith) in
            subst (λ y. V.view t y ≡ record (V.view s y) { byte = m y }) at
              (law.0 (x - a) (m (a + (x - a))) byte);
        outside = λ x h. law.1 x (subst (λ i. Outside a i x) (sym sized) h);
      }
