-- ===== src/Image/Read/Loop.antt =====
-- The loop of reads of ckpt.Image.Read: whatever the kernel transfers at a time, it reads all that is
-- asked for, where the file holds as much and the bytes can be put where they belong.
use ckpt.Prelude.{
  ℕ, zero, suc, ◌+◌, ◌-◌, ◌≤◌, ◌<◌, ◌≡◌, inl, inr, refl, sym, ap, ◌∙◌, subst, true, false, Option,
  some, List, [], ◌∷◌, ◌++◌, length, take, drop, ltb, ◌==◌, ==_refl, arith, Bool-cases, take-drop,
  length-take, length-drop, drop_all, length-append, take-append_le, drop-append_le,
}
use mathlib.Core.List.{append_assoc, append-nil}
use ckpt.Image.Base.{Codec, IsCodec, Machine, returned}
use ckpt.Image.Read.{Reading, transferred, read_once, read_loop, Restart, append_bytes, read_struct}
use ckpt.Image.Vm.{Vm}

module _ {T : Type 0} (store : ℕ → List ℕ → T → Option T) (chunk : ℕ → ℕ)
    (Q : ℕ → List ℕ → T → Type 0) (a n : ℕ) where
  -- `Q c bs t`: after `c` bytes the bytes `bs` are to come, and the target is `t`.
  abbrev pub Steps : Type 0
  Steps =
      (c : ℕ) (xs ys : List ℕ) (t : T)
      → Q c (xs ++ ys) t
      → (t' : T) × (store (a + c) xs t ≡ some t') × Q (c + length xs) ys t'

  -- What is left to read, and what follows it.
  pub record Left (bs more : List ℕ) (r : Reading T) : Type 0 where
    pub rest : r.rest ≡ bs ++ more
    pub total : r.count + length bs ≡ n
    pub holds : Q r.count bs r.target

  record Next (bs more : List ℕ) (r : Reading T) : Type 0 where
    amount : ℕ
    target : T
    some_read : 0 < amount
    not_more : amount ≤ length bs
    reads : read_once store chunk a n r ≡ (
      record {
        count = r.count + amount;
        rest = drop amount bs ++ more;
        target = target;
        faulted = r.faulted;
      },
      ltb (r.count + amount) n,
    )
    holds : Q (r.count + amount) (drop amount bs) target

  once_end :
      (more : List ℕ) (r : Reading T) → Left [] more r → read_once store chunk a n r ≡ (r, false)
  once_end more r h =
      let none_left : (transferred chunk (n - r.count) r.rest == 0) ≡ true =
        ground (arith, h.total) in
      rw none_left refl

  once_lem :
      (bs more : List ℕ) (r : Reading T) → Steps → 0 < length bs → Left bs more r → Next bs more r
  once_lem bs more r step some_left h =
      let j : ℕ = transferred chunk (n - r.count) r.rest in
      let total : length r.rest ≡ length bs + length more =
        ap length h.rest ∙ length-append bs more in
      let to_read : n - r.count ≡ length bs = omega (arith, h.total) in
      let positive : 0 < j = ground (arith, total, to_read) in
      let within : j ≤ length bs = ground (arith, total, to_read) in
      let nonzero : (j == 0) ≡ false = ground arith in
      let taken : take j r.rest ≡ take j bs =
        ap (take j) h.rest ∙ take-append_le j bs more within in
      let dropped : drop j r.rest ≡ drop j bs ++ more =
        ap (drop j) h.rest ∙ drop-append_le j bs more within in
      let (t, stored, next) =
        step r.count (take j bs) (drop j bs) r.target
          (subst (λ l. Q r.count l r.target) (sym (take-drop j bs)) h.holds) in
      record {
        amount = j;
        target = t;
        some_read = positive;
        not_more = within;
        reads = rw nonzero (rw taken (rw stored (rw dropped refl)));
        holds = subst (λ i. Q (r.count + i) (drop j bs) t) (length-take j bs within) next;
      }

  -- What the loop ends with.
  pub record Ended (more : List ℕ) (r : Reading T) (e : Reading T) : Type 0 where
    pub target : T
    pub ends : e ≡ record { count = n; rest = more; target = target; faulted = r.faulted }
    pub holds : Q n [] target

  end_here : (more : List ℕ) (r : Reading T) → Left [] more r → Ended more r r
  end_here more r h =
      let total : r.count ≡ n = omega (arith, h.total) in
      record {
        target = r.target;
        ends = ground (arith, total, h.rest);
        holds = subst (λ c. Q c [] r.target) total h.holds;
      }

  pub loop_lem :
      (fuel : ℕ) (bs more : List ℕ) (r : Reading T)
      → Steps
      → length bs < fuel
      → Left bs more r
      → Ended more r (read_loop store chunk fuel a n r)
  unfolding read_loop
  loop_lem zero bs more r step enough h = elim enough [ ]
  loop_lem (suc fuel) [] more r step enough h = rw (once_end more r h) (end_here more r h)
  loop_lem (suc fuel) (b ∷ bs) more r step enough h =
      let next = once_lem (b ∷ bs) more r step (omega arith) h in
      let r' : Reading T = record {
        count = r.count + next.amount;
        rest = drop next.amount (b ∷ bs) ++ more;
        target = next.target;
        faulted = r.faulted;
      } in
      let few : length (drop next.amount (b ∷ bs)) ≡ length (b ∷ bs) - next.amount =
        length-drop next.amount (b ∷ bs) in
      let left : Left (drop next.amount (b ∷ bs)) more r' = record {
        rest = refl;
        total = omega (arith, h.total, few, next.not_more);
        holds = next.holds;
      } in
      elim (Bool-cases (ltb (r.count + next.amount) n)) [
        | inl on ↦
            let e =
              loop_lem fuel (drop next.amount (b ∷ bs)) more r' step
                (omega (arith, few, next.some_read)) left in
            record { target = e.target; ends = rw (next.reads) (rw on e.ends); holds = e.holds }
        | inr done ↦
            let none_left : drop next.amount (b ∷ bs) ≡ [] =
              drop_all next.amount (b ∷ bs) (ground (arith, h.total)) in
            let e = end_here more r' (subst (λ l. Left l more r') none_left left) in
            record { target = e.target; ends = rw (next.reads) (rw done e.ends); holds = e.holds }
      ]

module _ (V : Vm) (k : Machine) (chunk : ℕ → ℕ) where
  -- A structure is read as it was written.
  pub read_struct_lem :
      {A : Type 0} (c : Codec A) (x : A) (more : List ℕ) (w : Restart V k chunk)
      → IsCodec c
      → w.rest ≡ c.bytes x ++ more
      → read_struct V k chunk c w ≡ returned x (record w { rest = more })
  unfolding read_struct
  read_struct_lem {A} c x more w lawful e =
      let Q : ℕ → List ℕ → List ℕ → Type 0 = λ i bs t. t ++ bs ≡ c.bytes x in
      let start : Reading (List ℕ) = record {
        count = 0;
        rest = w.rest;
        target = [];
        faulted = w.faulted;
      } in
      let sized : length (c.bytes x) ≡ c.size = lawful.sized x in
      let r =
        loop_lem (append_bytes V k chunk) chunk Q 0 c.size (suc c.size) (c.bytes x) more start
          (λ i xs ys t h. (t ++ xs, refl, append_assoc t xs ys ∙ h)) (omega arith)
          (record { rest = e; total = omega arith; holds = refl }) in
      let value : c.value r.target ≡ x =
        ap c.value (sym (append-nil r.target) ∙ r.holds) ∙ lawful.value-bytes x in
      rw (r.ends)
        (rw (==_refl c.size) (ap (λ (y : A). returned y (record w { rest = more })) value))
