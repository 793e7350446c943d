-- ===== src/Coord/Base/Ends.antt =====
-- Postconditions of runs of the coordinator of xnd/coordinator/xnd_coord.c.
use ckpt.Prelude.{ℕ}
use ckpt.Coord.Base.{Coord, Run, returned, exited, aborted, unfinished, M, and_then}

-- If the run returns, `P` holds of the result and the state. The other ends are no returns.
pub data Ends {A : Type 0} (P : A → Coord → Type 0) : Run A → Type 0 where
  returns : {a : A} {c : Coord} → P a c → Ends P (returned a c)
  exits : {s : ℕ} {c : Coord} → Ends P (exited s c)
  aborts : Ends P aborted
  waits : Ends P unfinished

module _ {A B : Type 0} {P : A → Coord → Type 0} {Q : B → Coord → Type 0} where
  pub bind :
      {r : Run A} {k : A → M B}
      → Ends P r
      → ((a : A) (c : Coord) → P a c → Ends Q (k a c))
      → Ends Q (and_then r k)
  bind (returns p) next = next _ _ p
  bind exits next = exits
  bind aborts next = aborts
  bind waits next = waits

-- What a run that is known to return proves.
pub of_returned :
    {A : Type 0} {P : A → Coord → Type 0} {a : A} {c : Coord} → Ends P (returned a c) → P a c
of_returned (returns p) = p

module _ {A : Type 0} {P Q : A → Coord → Type 0} where
  pub mono : {r : Run A} → Ends P r → ((a : A) (c : Coord) → P a c → Q a c) → Ends Q r
  mono (returns p) weaken = returns (weaken _ _ p)
  mono exits weaken = exits
  mono aborts weaken = aborts
  mono waits weaken = waits
