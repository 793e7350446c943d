-- ===== src/Fd/Restore/Whole.antt =====
-- The whole of `fd_table_restore` of ckpt.Fd.Restore.
use ckpt.Prelude.{
  ℕ, suc, ◌+◌, ◌≤◌, ◌<◌, ◌≡◌, ◌≢◌, ◌⊎◌, inl, inr, refl, sym, ap, subst, ◌∙◌, false, Option, none,
  some, List, [], ◌∷◌, Bool-cases, ◌==◌, ==_iff, ==_false, ==_refl, arith, ltb,
}
use ckpt.Fd.Base.{FdSource, FdTable, slot, is_null, put}
use ckpt.Fd.Save.{is_inherited}
use ckpt.Fd.Restore.{
  Kernel, End, returned, restored_at, restore_slot, and_then, restore_from, close_unused,
  fd_table_restore,
}
use ckpt.Fd.Restore.Laws.{Holds, IsLawful, Granting, Back, Back-kept}
use ckpt.Fd.Restore.Reopen.{restore_by_lem}
use ckpt.Fd.Restore.Inherit.{
  earlier, IsInherited, IsOwn, Restorable, same_source, first, further, behind, inherit_lem, start,
}
use ckpt.Fd.Restore.Close.{close_lem}
use ckpt.Fd.Restore.Reopened.{Placed, Waiting, Reopened, pass_lem, share_lem, renew_lem}

module _ (K : Kernel) (laws : IsLawful K) (slots : List (Option ℕ)) (heap0 : ℕ → Option FdSource)
    (grant : Granting K slots heap0) (before : K.State) (can : Restorable K slots heap0 before)
    (os0 : K.State) where
  -- What one slot leaves.
  pub record Next (fd : ℕ) (e : End K) : Type 0 where
    pub heap : ℕ → Option FdSource
    pub os : K.State
    pub returns : e ≡ returned heap os
    pub reopened : Reopened K slots heap0 os0 fd heap os

  -- A source that no slot before `fd` holds is not held by an earlier one.
  at_once :
      (fd a : ℕ) (s : FdSource) (heap : ℕ → Option FdSource)
      → Waiting K slots heap0 os0 fd a s heap
      → {stream : ℕ} → slot slots stream ≡ some a
      → stream ≤ fd
      → stream ≡ fd
  at_once fd a s heap w {stream} at low = elim (Bool-cases (stream == fd)) [
    | inl is ↦ (==_iff stream fd).0 is
    | inr far ↦
        absurd
          (w.before stream (earlier stream fd (omega (arith, low)) (==_false stream fd far)) at)
  ]

  own_lem :
      (fd a : ℕ) (s : FdSource) (heap : ℕ → Option FdSource) (os : K.State)
      → Holds slots heap0 fd a s
      → is_null s.type ≡ false
      → IsOwn s
      → Reopened K slots heap0 os0 fd heap os
      → Waiting K slots heap0 os0 fd a s heap ⊎ Placed K slots heap0 os0 fd a s heap os
      → Next (suc fd) (restore_slot K fd (some a) heap os)
  own_lem fd a s heap os holds known own p (inl w) =
      let (os', e, r) =
        restore_by_lem K laws slots heap0 grant fd a s holds s.type heap os known own (λ dir.
          let (first_slot, least) = can.streams fd a s holds dir in
          at_once fd a s heap w first_slot (least fd (holds.0))) in
      record {
        heap = put heap a (some (restored_at K fd s));
        os = os';
        returns = rw (w.at, own, can.saved fd a s holds own) e;
        reopened = renew_lem K slots heap0 os0 fd a s heap os os' holds own w r can.streams p;
      }
  own_lem fd a s heap os holds known own p (inr q) =
      let there = q.leads q.root (q.passed) (q.holds) in
      let (os', e) = grant.dups q.root fd a q.number os (holds.0) there in
      let (leads, files) = laws.dup2_lem q.root fd q.number fd os os' there e in
      record {
        heap = heap;
        os = os';
        returns = rw (q.at, own, e, ==_refl fd) refl;
        reopened =
            share_lem K slots heap0 os0 fd a s heap os os' holds own q leads files
              (laws.dup2_position q.root fd fd os os' e) p;
      }

  slot_lem :
      (fd : ℕ) (v : Option ℕ) (heap : ℕ → Option FdSource) (os : K.State)
      → slot slots fd ≡ v
      → Reopened K slots heap0 os0 fd heap os
      → Next (suc fd) (restore_slot K fd v heap os)
  slot_lem fd none heap os e p = record {
    heap = heap;
    os = os;
    returns = refl;
    reopened =
        pass_lem K slots heap0 os0 fd heap os
          (λ a s holds. let bad : none ≡ some a = sym e ∙ holds.0 in cc) p;
  }
  slot_lem fd (some a) heap os e p =
      let (s, at, known) = can.live fd a e in
      elim (Bool-cases (is_inherited s.type)) [
        | inl i ↦ record {
          heap = heap;
          os = os;
          returns = rw ((p.inherited fd a s (e, at) i).0, i) refl;
          reopened =
              pass_lem K slots heap0 os0 fd heap os
                (λ b s' holds.
                  let (_, same) = same_source slots heap0 fd a b s s' (e, at) holds in
                  subst (λ (z : FdSource). IsInherited z) same i)
                p;
        }
        | inr own ↦ own_lem fd a s heap os (e, at) known own p (p.own fd a s (e, at) own)
      ]

  restore_lem :
      (vs : List (Option ℕ)) (fd : ℕ) (heap : ℕ → Option FdSource) (os : K.State)
      → ((i : ℕ) → slot slots (fd + i) ≡ slot vs i)
      → Reopened K slots heap0 os0 fd heap os
      → (n : ℕ) × Next n (restore_from K fd vs heap os) × ((x : ℕ) → n ≤ x → slot slots x ≡ none)
  unfolding restore_from
  restore_lem [] fd heap os tail p = (
    fd,
    record { heap = heap; os = os; returns = refl; reopened = p },
    λ x h. behind slots [] fd x tail h,
  )
  restore_lem (v ∷ vs) fd heap os tail p =
      let q = slot_lem fd v heap os (first slots v vs fd tail) p in
      let (n, r, end) =
        restore_lem vs (suc fd) q.heap q.os (further slots v vs fd tail) q.reopened in
      (
        n,
        record {
          heap = r.heap;
          os = r.os;
          returns = ap (λ o. and_then K o (restore_from K (suc fd) vs)) (q.returns) ∙ r.returns;
          reopened = r.reopened;
        },
        end,
      )

-- The descriptors as they were saved: each that holds a file or a directory leads to it, opened with
-- its path and its flags, a file at its offset, and the stream of a directory is at the offset; two
-- of them lead to one open file if and only if they hold one source; the inherited ones lead where
-- their roots led, and those of the first three that hold nothing are closed.
pub record Restored (K : Kernel) (slots : List (Option ℕ)) (heap : ℕ → Option FdSource)
    (os os' : K.State) : Type 0 where
  pub opened :
      (x a : ℕ) (s : FdSource)
      → Holds slots heap x a s
      → IsOwn s
      → (d : ℕ) × (K.description os' x ≡ some d) × Back K s.type s os' d
  pub together :
      (x y a : ℕ) (s : FdSource)
      → Holds slots heap x a s
      → slot slots y ≡ some a
      → K.description os' x ≡ K.description os' y
  pub apart :
      (x y a b : ℕ) (s s' : FdSource)
      → Holds slots heap x a s
      → IsOwn s
      → Holds slots heap y b s'
      → IsOwn s'
      → a ≢ b
      → K.description os' x ≢ K.description os' y
  pub inherited :
      (x a : ℕ) (s : FdSource)
      → Holds slots heap x a s
      → IsInherited s
      → K.description os' x ≡ K.description os s.root
  pub closed : (x : ℕ) → x < 3 → slot slots x ≡ none → K.description os' x ≡ none

module _ (K : Kernel) (slots : List (Option ℕ)) (heap0 : ℕ → Option FdSource) (os0 : K.State)
    (n : ℕ) (end : (x : ℕ) → n ≤ x → slot slots x ≡ none) where
  in_range : (x a : ℕ) → slot slots x ≡ some a → x < n
  in_range x a at = elim (Bool-cases (ltb x n)) [
    | inl h ↦ ground arith
    | inr h ↦ let bad : none ≡ some a = sym (end x (ground arith)) ∙ at in ground arith
  ]

  -- At the end of the second loop every source is restored.
  all_placed :
      (heap : ℕ → Option FdSource) (os : K.State)
      → Reopened K slots heap0 os0 n heap os
      → (x a : ℕ) (s : FdSource) → Holds slots heap0 x a s
      → IsOwn s
      → Placed K slots heap0 os0 n a s heap os
  all_placed heap os p x a s holds own = elim (p.own x a s holds own) [
    | inl w ↦ absurd (w.before x (in_range x a (holds.0)) (holds.0))
    | inr q ↦ q
  ]

tail_from : (slots : List (Option ℕ)) (i : ℕ) → slot slots (0 + i) ≡ slot slots i
tail_from slots i = let index : 0 + i ≡ i = omega arith in ap (slot slots) index

nothing-Reopened :
    (K : Kernel) (slots : List (Option ℕ)) (heap : ℕ → Option FdSource) (os : K.State)
    → Reopened K slots heap os 0 heap os
nothing-Reopened K slots heap os = record {
  own = λ x a s holds own. inl (record { at = holds.1; before = λ y h. absurd (omega (arith, h)) });
  apart = λ x y a b d s s' h. absurd (omega (arith, h));
  inherited = λ x a s holds i. (holds.1, refl);
}

-- `fd_table_restore` returns, and every descriptor is as it was saved, as `Restored` says. The slots
-- hold sources of a known type, saved but not restored yet; the roots of inherited descriptors are
-- open and none of them is given another inherited descriptor; the descriptor of a directory stream
-- is the first that holds its source; the paths of the sources can be opened, and the system grants
-- the other calls.
pub fd_table_restore_lem :
    (K : Kernel) (t : FdTable) (os : K.State)
    → IsLawful K
    → Granting K t.slots t.heap
    → Restorable K t.slots t.heap os
    → (heap' : ℕ → Option FdSource) × (os' : K.State) × (fd_table_restore K t os
        ≡ returned heap' os')
      × Restored K t.slots t.heap os os'
unfolding fd_table_restore
fd_table_restore_lem K t os laws grant can =
    let (os1, n, e1, p1, end1) =
      inherit_lem K laws t.slots t.heap grant os can t.slots 0 os (tail_from t.slots)
        (start K laws t.slots t.heap grant os can) in
    let (m, next, end) =
      restore_lem K laws t.slots t.heap grant os can os1 t.slots 0 t.heap os1 (tail_from t.slots)
        (nothing-Reopened K t.slots t.heap os1) in
    let c = close_lem K t.slots next.os laws in
    let p = next.reopened in
    let range = in_range K t.slots t.heap os1 m end in
    let place = all_placed K t.slots t.heap os1 m end next.heap next.os p in
    let old : (x a : ℕ) (s : FdSource)
        → Holds t.slots t.heap x a s
        → IsInherited s
        → K.description (close_unused K t.slots next.os) x ≡ K.description os s.root =
      λ x a s holds i.
        (c.used x a (holds.0)).0
        ∙ (p.inherited x a s holds i).1
        ∙ p1.given x a s (in_range K t.slots t.heap os1 n end1 x a (holds.0)) holds i in
    (
      next.heap,
      close_unused K t.slots next.os,
      rw (e1, next.returns) refl,
      record {
        opened = λ x a s holds own.
            let q = place x a s holds own in
            let there = q.leads x (range x a (holds.0)) (holds.0) in
            let (same, file) = c.used x a (holds.0) in
            (
              q.number,
              same ∙ there,
              Back-kept K s.type s next.os (close_unused K t.slots next.os) q.number
                  (file q.number there) (λ _. c.places s.dirp) q.contents,
            );
        together = λ x y a s holds at. elim (Bool-cases (is_inherited s.type)) [
          | inl i ↦ old x a s holds i ∙ sym (old y a s (at, holds.1) i)
          | inr own ↦
              let q = place x a s holds own in
              (c.used x a (holds.0)).0
              ∙ q.leads x (range x a (holds.0)) (holds.0)
              ∙ sym (q.leads y (range y a at) at)
              ∙ sym ((c.used y a at).0)
        ];
        apart = λ x y a b s s' holds own holds' own' ne e.
            let q = place x a s holds own in
            let there = q.leads x (range x a (holds.0)) (holds.0) in
            p.apart x y a b q.number s s' (range x a (holds.0)) (range y b (holds'.0)) holds own
              holds' own' ne there
              (sym ((c.used y b (holds'.0)).0) ∙ sym e ∙ (c.used x a (holds.0)).0 ∙ there);
        inherited = old;
        closed = c.unused;
      },
    )
