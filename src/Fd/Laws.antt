-- ===== src/Fd/Laws.antt =====
-- What the functions of ckpt.Fd.Base keep: no slot holds a freed source.
use ckpt.Prelude.{
  ℕ, zero, suc, ◌+◌, ◌≤◌, ◌<◌, ◌≡◌, ◌≢◌, refl, Bool, true, false, Option, none, some, List, [], ◌∷◌,
  length, set, leb, ap, length-set, ◌==◌, if◌then◌else◌, arith,
}
use ckpt.Fd.Base.{
  lead, is_null, FdSource, FdTable, max_files, slot, put, alloc, End, returns, waits, aborts,
  undefined, with_lock, fd_table_open, fd_table_dup, fd_table_close, unlock, new_file, share,
  dup_slot, release, close_slot, dropped,
}

abbrev hit : ℕ → Option ℕ → ℕ
hit a none = 0
hit a (some b) = if a == b then 1 else 0

-- The number of slots that hold `a`.
abbrev pub holders : ℕ → List (Option ℕ) → ℕ
holders a [] = 0
holders a (v ∷ vs) = hit a v + holders a vs

abbrev count : Option FdSource → ℕ
count none = 0
count (some s) = s.ref

-- `n` bounds the counts.
pub record IsSafe (n : ℕ) (t : FdTable) : Type 0 where
  pub size : length t.slots ≡ max_files
  pub held : (a : ℕ) → holders a t.slots ≤ count (t.heap a)
  pub few : (a : ℕ) → count (t.heap a) ≤ n
  pub fresh : (a : ℕ) → t.next ≤ a → count (t.heap a) ≡ 0

holders-set :
    (a : ℕ) (slots : List (Option ℕ)) (fd : ℕ) (v : Option ℕ)
    → fd < length slots
    → holders a (set slots fd v) + hit a (slot slots fd) ≡ holders a slots + hit a v
holders-set a [] fd v h = absurd (omega arith)
holders-set a (x ∷ xs) zero v h = omega arith
holders-set a (x ∷ xs) (suc fd) v h = omega (arith, holders-set a xs fd v (omega arith))

-- How the part of a call under the lock may end.
abbrev pub Fine : ℕ → End → Type 0
Fine n (returns t) = IsSafe n t
Fine n waits = ⊥
Fine n aborts = Unit
Fine n undefined = ⊥

-- How a call may end: it does not wait, what it does is defined, and the table it leaves is safe, with
-- counts up to `n`, and not locked.
abbrev pub Sound : ℕ → End → Type 0
Sound n (returns t) = IsSafe n t × (t.locked ≡ false)
Sound n waits = ⊥
Sound n aborts = Unit
Sound n undefined = ⊥

pub alloc-IsSafe :
    (n fd : ℕ) (s : FdSource) (t : FdTable)
    → fd < max_files
    → s.ref ≡ 1
    → 1 ≤ n
    → IsSafe n t
    → IsSafe n (alloc fd s t)
alloc-IsSafe n fd s t lt one pos h = record {
  size = rw length-set h.size;
  held = λ a.
      let moved = holders-set a t.slots fd (some t.next) (omega (arith, h.size)) in
      ground (arith, moved, h.held a, h.fresh t.next (omega arith));
  few = λ a. ground (arith, h.few a);
  fresh = λ a le. ground (arith, h.fresh a (omega arith));
}

pub slot-holders :
    (slots : List (Option ℕ)) (fd a : ℕ) → slot slots fd ≡ some a → 1 ≤ holders a slots
slot-holders [] fd a e = cc
slot-holders (x ∷ xs) zero a e = ground arith
slot-holders (x ∷ xs) (suc fd) a e = omega (arith, slot-holders xs fd a e)

-- A slot takes `v`, and the source at `a` becomes `o`.
write-IsSafe :
    (n m fd a : ℕ) (v : Option ℕ) (s : FdSource) (o : Option FdSource) (t : FdTable)
    → n ≤ m
    → fd < max_files
    → t.heap a ≡ some s
    → 1 ≤ s.ref
    → s.ref + hit a v ≤ count o + hit a (slot t.slots fd)
    → ((b : ℕ) → a ≢ b → hit b v ≡ 0)
    → count o ≤ m
    → IsSafe n t
    → IsSafe m (record t { heap = put t.heap a o; slots = set t.slots fd v })
write-IsSafe n m fd a v s o t grows lt at pos covers other le h = record {
  size = rw length-set h.size;
  held = λ b.
      let moved = holders-set b t.slots fd v (omega (arith, h.size)) in
      ground (arith, moved, h.held b, h.held a, other b);
  few = λ b. ground (arith, h.few b);
  fresh = λ b q. ground (arith, h.fresh b q);
}

relock :
    {n m : ℕ} {t : FdTable} (b : Bool) → n ≤ m → IsSafe n t → IsSafe m (record t { locked = b })
relock b le h = record {
  size = h.size;
  held = h.held;
  few = λ a. omega (arith, h.few a);
  fresh = h.fresh;
}

unlock-Sound : (n : ℕ) (e : End) → Fine n e → Sound n (unlock e)
unlock-Sound n (returns t) h = (relock false (omega arith) h, refl)
unlock-Sound n waits h = absurd h
unlock-Sound n aborts h = tt
unlock-Sound n undefined h = absurd h

pub grow : {n m : ℕ} {t : FdTable} → n ≤ m → IsSafe n t → IsSafe m t
grow le h = record {
  size = h.size;
  held = h.held;
  few = λ a. omega (arith, h.few a);
  fresh = h.fresh;
}

pub if_lem :
    (P : End → Type 0) (b : Bool) (x y : End)
    → (b ≡ true → P x)
    → (b ≡ false → P y)
    → P (if b then x else y)
if_lem P true x y hx hy = hx refl
if_lem P false x y hx hy = hy refl

pub with_lock-Sound :
    (n fd : ℕ) (f : FdTable → End) (t : FdTable)
    → fd < max_files
    → ((u : FdTable) → IsSafe n u → Fine (suc n) (f u))
    → IsSafe n t
    → t.locked ≡ false
    → Sound (suc n) (with_lock fd f t)
unfolding with_lock
with_lock-Sound n fd f t lt each h free =
    if_lem (Sound (suc n)) t.init _ _
      (λ _.
        if_lem (Sound (suc n)) t.locked _ _ (λ busy. absurd (ground arith))
          (λ _.
            if_lem (Sound (suc n)) (leb max_files fd) _ _ (λ out. absurd (ground arith))
              (λ _. unlock-Sound (suc n) _ (each _ (relock true (omega arith) h)))))
      (λ _. (grow (omega arith) h, free))

pub follow-Fine :
    (n m a : ℕ) (k : FdSource → End) (t : FdTable) (o : Option FdSource)
    → t.heap a ≡ o
    → 1 ≤ holders a t.slots
    → IsSafe n t
    → ((s : FdSource) → t.heap a ≡ some s → 1 ≤ s.ref → Fine m (k s))
    → Fine m (lead o k)
follow-Fine n m a k t none e held h each = absurd (omega (arith, h.held a, ap count e))
follow-Fine n m a k t (some s) e held h each = each s e (omega (arith, h.held a, ap count e))

module _ (n : ℕ) (small : n < 2147483647) where
  pub open-Sound :
      (ok : Bool) (raw : FdSource) (fd : ℕ) (path : List ℕ) (flags mode : ℕ) (t : FdTable)
      → fd < max_files
      → IsSafe n t
      → t.locked ≡ false
      → Sound (suc n) (fd_table_open ok raw fd path flags mode t)
  unfolding fd_table_open
  open-Sound true raw fd path flags mode t lt h free =
      with_lock-Sound n fd _ t lt
        (λ u g.
          alloc-IsSafe (suc n) fd (new_file raw path flags mode) u lt refl (omega arith)
            (grow (omega arith) g))
        h free
  open-Sound false raw fd path flags mode t lt h free =
      with_lock-Sound n fd _ t lt (λ u g. tt) h free

  close_slot-Fine :
      (fd : ℕ) (v : Option ℕ) (u : FdTable)
      → fd < max_files
      → slot u.slots fd ≡ v
      → IsSafe n u
      → Fine (suc n) (close_slot fd v u)
  close_slot-Fine fd none u lt e h = grow (omega arith) h
  close_slot-Fine fd (some a) u lt e h =
      follow-Fine n (suc n) a (release fd a u) u _ refl (slot-holders u.slots fd a e) h (λ s at pos.
        if_lem (Fine (suc n)) (is_null s.type) _ _ (λ _. grow (omega arith) h)
          (λ _.
            let le = h.few a in
            let eq = ap count at in
            write-IsSafe n (suc n) fd a none s (dropped s) u (omega arith) lt at pos
              (ground (arith, e)) (λ b q. refl) (ground arith) h))

  pub close-Sound :
      (fd : ℕ) (t : FdTable)
      → fd < max_files
      → IsSafe n t
      → t.locked ≡ false
      → Sound (suc n) (fd_table_close fd t)
  unfolding fd_table_close
  close-Sound fd t lt h free =
      with_lock-Sound n fd _ t lt (λ u g. close_slot-Fine fd (slot u.slots fd) u lt refl g) h free

  dup_slot-Fine :
      (old new : ℕ) (v : Option ℕ) (u : FdTable)
      → new < max_files
      → slot u.slots old ≡ v
      → IsSafe n u
      → Fine (suc n) (dup_slot new v u)
  dup_slot-Fine old new none u lt e h = grow (omega arith) h
  dup_slot-Fine old new (some a) u lt e h =
      follow-Fine n (suc n) a (share new a u) u _ refl (slot-holders u.slots old a e) h (λ s at pos.
        let le = h.few a in
        let eq = ap count at in
        if_lem (Fine (suc n)) (is_null s.type) _ _ (λ _. grow (omega arith) h)
          (λ _.
            if_lem (Fine (suc n)) (leb max_files new) _ _ (λ out. absurd (ground arith))
              (λ _.
                if_lem (Fine (suc n)) (leb 2147483647 s.ref) _ _ (λ over. absurd (ground arith))
                  (λ _.
                    write-IsSafe n (suc n) new a (some a) s (some (record s { ref = s.ref + 1 })) u
                      (omega arith) lt at pos (grind arith) (λ b q. ground arith) (omega arith)
                      h))))

  pub dup-Sound :
      (old new : ℕ) (t : FdTable)
      → old < max_files
      → new < max_files
      → IsSafe n t
      → t.locked ≡ false
      → Sound (suc n) (fd_table_dup old new t)
  unfolding fd_table_dup
  dup-Sound old new t lt lt' h free =
      with_lock-Sound n old _ t lt (λ u g. dup_slot-Fine old new (slot u.slots old) u lt' refl g) h
        free
