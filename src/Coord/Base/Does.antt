-- ===== src/Coord/Base/Does.antt =====
-- Total postconditions of runs of the coordinator of xnd/coordinator/xnd_coord.c.
use ckpt.Prelude.{◌≡◌, refl}
use ckpt.Coord.Base.{Coord, Run, returned, M, and_then}

-- The run returns, with a result and a state of which `Post` holds.
pub data Does {A : Type 0} (Post : A → Coord → Type 0) : Run A → Type 0 where
  does : {a : A} {c : Coord} → Post a c → Does Post (returned a c)

module _ {A B : Type 0} {Post : A → Coord → Type 0} {Post' : B → Coord → Type 0} where
  pub bind :
      {r : Run A} {k : A → M B}
      → Does Post r
      → ((a : A) (c : Coord) → Post a c → Does Post' (k a c))
      → Does Post' (and_then r k)
  bind (does h) next = next _ _ h

-- The result and the state of a run that returns.
pub returned_of :
    {A : Type 0} {Post : A → Coord → Type 0} {r : Run A}
    → Does Post r
    → (a : A) × (c : Coord) × (r ≡ returned a c) × Post a c
returned_of (does {a = a} {c = c} h) = (a, c, refl, h)
