-- ===== src/Image/Read/Steps.antt =====
-- What the calls of the kernel in ckpt.Image.Read change, where the kernel grants them.
use Prim.Native.Nat.{bit_and}
use ckpt.Prelude.{
  ℕ, ◌+◌, ◌≤◌, ◌<◌, ◌≡◌, refl, ap, ◌∙◌, Bool, true, false, not, some, List, length, ◌==◌, ==_refl,
  arith, if◌then◌else◌,
}
use ckpt.Image.Base.{
  Region, Machine, End, M, returned, and_then, when, prot_default, prot_all, inherit_default,
}
use ckpt.Image.Vm.{
  Vm, Cell, Changes, IsLawful, Permits, Protects, protected, with_inherit, fresh, copied_lem,
  Permits-small, small_mod, small-bits,
}
use ckpt.Image.Vm.Ranges.{Changes-then}
use ckpt.Image.Read.{Restart, vm_map, vm_protect, vm_inherit, refresh_attributes}

if_set : Bool → (Cell → Cell) → ℕ → Cell → Cell
if_set b f x c = if b then f c else c

-- What the three calls of `refresh_attributes` make of a cell.
unfoldable pub refreshed : Region → ℕ → Cell → Cell
unfolding if_set
refreshed r x c = if_set (not (r.inherit == inherit_default)) (with_inherit r.inherit) x (
    if_set (not (r.max_prot == prot_all)) (protected true r.max_prot) x
      (if_set (not (r.prot == prot_default)) (protected false r.prot) x c))

-- The attributes of the region are those that the kernel knows, and the protection is within the
-- maximum.
pub record HasAttributes (r : Region) : Type 0 where
  pub prot : r.prot < 8
  pub max_prot : r.max_prot < 8
  pub within : bit_and r.prot r.max_prot ≡ r.prot

-- The attributes of a region with the byte of a cell.
abbrev pub attributed : Region → ℕ → Cell → Cell
attributed r x c = record {
  byte = c.byte;
  prot = r.prot;
  max_prot = r.max_prot;
  inherit = r.inherit;
}

pub refreshed_lem :
    (r : Region) (x b : ℕ)
    → HasAttributes r
    → refreshed r x (record fresh { byte = b }) ≡ attributed r x (record fresh { byte = b })
unfolding refreshed if_set
refreshed_lem r x b h = let copy = copied_lem r.prot 7 h.prot in ground (arith, h.within, copy)

Permits-full : (p : ℕ) (c : Cell) → p < 8 → c.max_prot ≡ prot_all → Permits false p c
Permits-full p c small full = Permits-small p c small (ap (bit_and p) full ∙ (small-bits p small).2)

Permits-full_max : (p : ℕ) (c : Cell) → p < 8 → c.max_prot ≡ prot_all → Permits true p c
Permits-full_max p c small full =
    rw (small_mod p small) (ap (bit_and p) full ∙ (small-bits p small).2)

if_set-max :
    (b : Bool) (p x : ℕ) (c : Cell)
    → p < 8
    → (if_set b (protected false p) x c).max_prot ≡ c.max_prot
unfolding if_set
if_set-max true p x c small = copied_lem p c.max_prot small
if_set-max false p x c small = refl

module _ (V : Vm) (k : Machine) (chunk : ℕ → ℕ) where
  -- The call returns `x`, leaves `more` of the file, and changes the cells from `a` on by `f`.
  pub record Did {A : Type 0} (a n : ℕ) (f : ℕ → Cell → Cell) (more : List ℕ) (x : A) (s : V.Space)
      (e : End (Restart V k chunk) A) : Type 0 where
    pub after : Restart V k chunk
    pub returns : e ≡ returned x after
    pub rest : after.rest ≡ more
    pub changes : Changes V a n f s after.space

  pub Did-bind :
      {A B : Type 0} (a n : ℕ) (f g : ℕ → Cell → Cell) (more more' : List ℕ) (x : A) (y : B)
      (s : V.Space) (e : End (Restart V k chunk) A) (h : A → M (Restart V k chunk) B)
      (p : Did a n f more x s e)
      → Did a n g more' y p.after.space (h x p.after)
      → Did a n (λ z c. g z (f z c)) more' y s (and_then e h)
  Did-bind a n f g more more' x y s e h p q = record {
    after = q.after;
    returns = ap (λ r. and_then r h) p.returns ∙ q.returns;
    rest = q.rest;
    changes = Changes-then V a n f g s p.after.space q.after.space p.changes q.changes;
  }

  -- The cells from `a` on can be written to.
  abbrev pub Open : ℕ → ℕ → V.Space → Type 0
  Open a n s = (x : ℕ) → a ≤ x → x < a + n → (V.view s x).prot ≡ prot_default

  -- The maximal protections of the cells from `a` on are those of fresh ones.
  abbrev pub Full : ℕ → ℕ → V.Space → Type 0
  Full a n s = (x : ℕ) → a ≤ x → x < a + n → (V.view s x).max_prot ≡ prot_all

  -- The kernel grants what a restore asks for on the cells from `a` on: to map them, to protect them
  -- within their maximal protections, to set their inheritance, and to write to them while they are
  -- open.
  pub record Grants (a n : ℕ) (r : Region) : Type 0 where
    pub maps : (s : V.Space) → (t : V.Space) × (V.map a n r.tag true s ≡ some (a, t))
    pub protects : Protects V a n
    pub inherits : (s : V.Space) → (t : V.Space) × (V.inherit a n r.inherit s ≡ some t)
    pub stores :
        (s : V.Space) (b : ℕ) (bs : List ℕ)
        → a ≤ b
        → b + length bs ≤ a + n
        → Open a n s
        → (t : V.Space) × (V.store b bs s ≡ some t)

  module _ (laws : IsLawful V) (a n : ℕ) (r : Region) (grants : Grants a n r) where
    pub map-Did :
        (w : Restart V k chunk)
        → Did a n (λ x c. fresh) w.rest tt w.space (vm_map V k chunk a n r.tag true w)
    unfolding vm_map
    map-Did w =
        let (t, e) = grants.maps w.space in
        record {
          after = record w { space = t };
          returns = rw e (rw (==_refl a) refl);
          rest = refl;
          changes = (laws.map_lem a n r.tag true w.space a t e).1;
        }

    pub protect-Did :
        (max : Bool) (p : ℕ) (w : Restart V k chunk)
        → ((x : ℕ) → a ≤ x → x < a + n → Permits max p (V.view w.space x))
        → Did a n (λ x c. protected max p c) w.rest tt w.space (vm_protect V k chunk a n max p w)
    unfolding vm_protect
    protect-Did max p w permits =
        let (t, e) = grants.protects max p w.space permits in
        record {
          after = record w { space = t };
          returns = rw e refl;
          rest = refl;
          changes = laws.protect_lem a n max p w.space t e;
        }

    inherit-Did :
        (w : Restart V k chunk)
        → Did a n
            (λ x c. with_inherit r.inherit c)
            w.rest
            tt
            w.space
            (vm_inherit V k chunk a n r.inherit w)
    unfolding vm_inherit
    inherit-Did w =
        let (t, e) = grants.inherits w.space in
        record {
          after = record w { space = t };
          returns = rw e refl;
          rest = refl;
          changes = laws.inherit_lem a n r.inherit w.space t e;
        }

    when-Did :
        (b : Bool) (f : Cell → Cell) (m : M (Restart V k chunk) (Unit {0})) (w : Restart V k chunk)
        → Did a n (λ x c. f c) w.rest tt w.space (m w)
        → Did a n (if_set b f) w.rest tt w.space (when b m w)
    unfolding if_set
    when-Did true f m w h = h
    when-Did false f m w h = record {
      after = w;
      returns = refl;
      rest = refl;
      changes = record { inside = λ x p q. refl; outside = λ x p. refl };
    }

    pub refresh_attributes-Did :
        (w : Restart V k chunk)
        → HasAttributes r
        → Full a n w.space
        → Did a n (refreshed r) w.rest tt w.space (refresh_attributes V k chunk a n r w)
    unfolding refresh_attributes refreshed
    refresh_attributes-Did w attributes full =
        let p =
          when-Did (not (r.prot == prot_default)) (protected false r.prot)
            (vm_protect V k chunk a n false r.prot) w
            (protect-Did false r.prot w (λ x low high.
              Permits-full r.prot (V.view w.space x) (attributes.prot) (full x low high))) in
        let full1 : Full a n p.after.space = λ x low high.
          ap (λ (c : Cell). c.max_prot) (p.changes.inside x low high)
          ∙ if_set-max _ r.prot x _ (attributes.prot)
          ∙ full x low high in
        let q =
          when-Did (not (r.max_prot == prot_all)) (protected true r.max_prot)
            (vm_protect V k chunk a n true r.max_prot) p.after
            (protect-Did true r.max_prot p.after (λ x low high.
              Permits-full_max r.max_prot (V.view p.after.space x) (attributes.max_prot)
                (full1 x low high))) in
        let i =
          when-Did (not (r.inherit == inherit_default)) (with_inherit r.inherit)
            (vm_inherit V k chunk a n r.inherit) q.after (inherit-Did q.after) in
        record {
          after = i.after;
          returns = rw (p.returns) (rw (q.returns) i.returns);
          rest = i.rest ∙ q.rest ∙ p.rest;
          changes =
              Changes-then V a n _ _ w.space q.after.space i.after.space
                (Changes-then V a n _ _ w.space p.after.space q.after.space p.changes q.changes)
                i.changes;
        }
