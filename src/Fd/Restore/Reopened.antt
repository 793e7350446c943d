-- ===== src/Fd/Restore/Reopened.antt =====
-- The second loop of `fd_table_restore`, over the files and directories of the process itself.
use ckpt.Prelude.{
  ◌≤◌, ℕ, suc, ◌<◌, ◌≡◌, ◌≢◌, ◌⊎◌, inl, inr, refl, sym, ap, subst, ◌∙◌, true, false, Option, some,
  List, ◌==◌, Bool-cases, ==_iff, ==_false, ==_refl, arith,
}
use mathlib.Core.Option.{some-injective}
use ckpt.Fd.Base.{fd_directory, FdSource, slot, put}
use ckpt.Fd.Save.{is_inherited}
use ckpt.Fd.Restore.{Kernel, restored_at}
use ckpt.Fd.Restore.Laws.{Holds, Leads, RenewedAs, Back, Back-kept}
use ckpt.Fd.Restore.Inherit.{IsInherited, IsOwn, same_source, earlier}

put-here : (heap : ℕ → Option FdSource) (a : ℕ) (v : Option FdSource) → put heap a v a ≡ v
put-here heap a v = rw (==_refl a) refl

put-other :
    (heap : ℕ → Option FdSource) (a b : ℕ) (v : Option FdSource)
    → (a == b) ≡ false
    → put heap a v b ≡ heap b
put-other heap a b v e = rw e refl

other_test : (a b : ℕ) → a ≢ b → (a == b) ≡ false
other_test a b ne = ground arith

module _ (K : Kernel) (slots : List (Option ℕ)) (heap0 : ℕ → Option FdSource) (os0 : K.State) where
  -- The source `s` at `a` is restored, at its root, and the slots before `fd` lead there.
  pub record Placed (fd a : ℕ) (s : FdSource) (heap : ℕ → Option FdSource) (os : K.State)
      : Type 0 where
    pub root : ℕ
    pub number : ℕ
    pub at : heap a ≡ some (restored_at K root s)
    pub passed : root < fd
    pub holds : slot slots root ≡ some a
    pub leads : (x : ℕ) → x < fd → slot slots x ≡ some a → K.description os x ≡ some number
    pub contents : Back K s.type s os number

  -- No slot before `fd` holds the source, which is as it was.
  pub record Waiting (fd a : ℕ) (s : FdSource) (heap : ℕ → Option FdSource) : Type 0 where
    pub at : heap a ≡ some s
    pub before : (x : ℕ) → x < fd → slot slots x ≢ some a

  pub record Reopened (fd : ℕ) (heap : ℕ → Option FdSource) (os : K.State) : Type 0 where
    pub own :
        (x a : ℕ) (s : FdSource)
        → Holds slots heap0 x a s
        → IsOwn s
        → Waiting fd a s heap ⊎ Placed fd a s heap os
    pub apart :
        (x y a b d : ℕ) (s s' : FdSource)
        → x < fd
        → y < fd
        → Holds slots heap0 x a s
        → IsOwn s
        → Holds slots heap0 y b s'
        → IsOwn s'
        → a ≢ b
        → K.description os x ≡ some d
        → K.description os y ≢ some d
    pub inherited :
        (x a : ℕ) (s : FdSource)
        → Holds slots heap0 x a s
        → IsInherited s
        → (heap a ≡ some s) × (K.description os x ≡ K.description os0 x)

  -- The descriptor of a directory stream is the first that holds its source.
  abbrev pub AllStreams : Type 0
  AllStreams =
      (x a : ℕ) (s : FdSource)
      → Holds slots heap0 x a s
      → s.type ≡ fd_directory
      → (slot slots (K.dirfd s.dirp) ≡ some a)
        × ((y : ℕ) → slot slots y ≡ some a → K.dirfd s.dirp ≤ y)

  pub never : {A : Type 0} → (s : FdSource) → IsOwn s → IsInherited s → A
  never s own inherited = let bad : false ≡ true = sym own ∙ inherited in ground arith

  -- At the slot `fd` there is nothing to restore.
  pub pass_lem :
      (fd : ℕ) (heap : ℕ → Option FdSource) (os : K.State)
      → ((a : ℕ) (s : FdSource) → Holds slots heap0 fd a s → IsInherited s)
      → Reopened fd heap os
      → Reopened (suc fd) heap os
  pass_lem fd heap os nothing p = record {
    own = λ x a s holds own.
        let elsewhere : (y : ℕ) → slot slots y ≡ some a → y ≢ fd =
          λ y at is. never s own (nothing a s (ap (slot slots) (sym is) ∙ at, holds.1)) in
        elim (p.own x a s holds own) [
          | inl w ↦ inl (record {
            at = w.at;
            before = λ y h at. w.before y (earlier y fd h (elsewhere y at)) at;
          })
          | inr q ↦ inr (record {
            root = q.root;
            number = q.number;
            at = q.at;
            passed = omega (arith, q.passed);
            holds = q.holds;
            leads = λ y h at. q.leads y (earlier y fd h (elsewhere y at)) at;
            contents = q.contents;
          })
        ];
    apart = λ x y a b d s s' h h' holds own holds' own'.
        let elsewhere : (y a : ℕ) (s : FdSource) → Holds slots heap0 y a s → IsOwn s → y ≢ fd =
          λ y a s at o is. never s o (nothing a s (ap (slot slots) (sym is) ∙ at.0, at.1)) in
        p.apart x y a b d s s' (earlier x fd h (elsewhere x a s holds own))
          (earlier y fd h' (elsewhere y b s' holds' own')) holds own holds' own';
    inherited = p.inherited;
  }

  -- The descriptor `fd` leads where an earlier one of the same source does.
  pub share_lem :
      (fd a : ℕ) (s : FdSource) (heap : ℕ → Option FdSource) (os os' : K.State)
      → Holds slots heap0 fd a s
      → IsOwn s
      → (q : Placed fd a s heap os) → Leads K fd q.number os os'
      → ((e : ℕ) → K.file os' e ≡ K.file os e)
      → ((d : ℕ) → K.position os' d ≡ K.position os d)
      → Reopened fd heap os
      → Reopened (suc fd) heap os'
  share_lem fd a s heap os os' holds own q leads files places p = record {
    own = λ x b s' at o. elim (p.own x b s' at o) [
      | inl w ↦ inl (record {
        at = w.at;
        before = λ y h e. elim (Bool-cases (y == fd)) [
          | inl is ↦
              w.before q.root (q.passed)
                (q.holds ∙ sym (holds.0) ∙ ap (slot slots) (sym ((==_iff y fd).0 is)) ∙ e)
          | inr far ↦ w.before y (earlier y fd h (==_false y fd far)) e
        ];
      })
      | inr r ↦ inr (record {
        root = r.root;
        number = r.number;
        at = r.at;
        passed = omega (arith, r.passed);
        holds = r.holds;
        leads = λ y h e. elim (Bool-cases (y == fd)) [
          | inl is ↦
              let eq = (==_iff y fd).0 is in
              ap (K.description os') eq
              ∙ leads.here
              ∙ sym (q.leads q.root (q.passed) (q.holds))
              ∙ r.leads q.root (q.passed) (q.holds ∙ sym (holds.0) ∙ ap (slot slots) (sym eq) ∙ e)
          | inr far ↦
              let other = ==_false y fd far in
              leads.others y other ∙ r.leads y (earlier y fd h other) e
        ];
        contents =
            Back-kept K s'.type s' os os' r.number (files r.number) (λ _. places s'.dirp)
              r.contents;
      })
    ];
    apart = λ x y b c d s1 s2 h h' at o at' o' ne found also.
        let (x', lt, same, held) = origin x h in
        let (y', lt', same', held') = origin y h' in
        p.apart x' y' b c d s1 s2 lt lt' (held ∙ at.0, at.1) o (held' ∙ at'.0, at'.1) o' ne
          (sym same ∙ found) (sym same' ∙ also);
    inherited = λ x b s' at i.
        let (kept, same) = p.inherited x b s' at i in
        (
          kept,
          leads.others x (λ is.
                let (_, eq) =
                  same_source slots heap0 fd b a s' s (ap (slot slots) (sym is) ∙ at.0, at.1)
                    holds in
                never s own (sym (ap (λ (z : FdSource). is_inherited z.type) eq) ∙ i))
              ∙ same,
        );
  }
    where
      origin :
          (x : ℕ)
          → x < suc fd
          → (x' : ℕ) × (x' < fd)
            × (K.description os' x ≡ K.description os x')
            × (slot slots x' ≡ slot slots x)
      origin x h = elim (Bool-cases (x == fd)) [
        | inl is ↦
            let eq = (==_iff x fd).0 is in
            (
              q.root,
              q.passed,
              ap (K.description os') eq ∙ leads.here ∙ sym (q.leads q.root (q.passed) (q.holds)),
              q.holds ∙ sym (holds.0) ∙ ap (slot slots) (sym eq),
            )
        | inr far ↦
            let other = ==_false x fd far in (x, earlier x fd h other, leads.others x other, refl)
      ]

  -- The source at the descriptor `fd` is opened again.
  pub renew_lem :
      (fd a : ℕ) (s : FdSource) (heap : ℕ → Option FdSource) (os os' : K.State)
      → Holds slots heap0 fd a s
      → IsOwn s
      → Waiting fd a s heap
      → RenewedAs K fd s.type s os os'
      → AllStreams
      → Reopened fd heap os
      → Reopened (suc fd) (put heap a (some (restored_at K fd s))) os'
  renew_lem fd a s heap os os' holds own w r streams p = record {
    own = λ x b s' at o. elim (Bool-cases (a == b)) [
      | inl is ↦
          let eq = (==_iff a b).0 is in
          let same = some-injective _ _ (sym (holds.1) ∙ ap heap0 eq ∙ at.1) in
          inr (record {
            root = fd;
            number = r.number;
            at =
                subst (λ c. put heap a (some (restored_at K fd s)) c ≡ some (restored_at K fd s)) eq
                  (put-here heap a (some (restored_at K fd s)))
                ∙ ap (λ z. some (restored_at K fd z)) same;
            passed = omega arith;
            holds = holds.0 ∙ ap (λ n. some n) eq;
            leads = λ y h e. elim (Bool-cases (y == fd)) [
              | inl last ↦ ap (K.description os') ((==_iff y fd).0 last) ∙ r.leads.here
              | inr far ↦
                  absurd (
                    w.before y (earlier y fd h (==_false y fd far)) (e ∙ ap (λ n. some n) (sym eq)))
            ];
            contents = subst (λ (z : FdSource). Back K z.type z os' r.number) same r.contents;
          })
      | inr away ↦
          let ne = ==_false a b away in
          let elsewhere : (y : ℕ) → slot slots y ≡ some b → y ≢ fd =
            λ y e last. ne (some-injective _ _ (sym (holds.0) ∙ ap (slot slots) (sym last) ∙ e)) in
          let kept = put-other heap a b (some (restored_at K fd s)) away in
          elim (p.own x b s' at o) [
            | inl v ↦ inl (record {
              at = kept ∙ v.at;
              before = λ y h e. v.before y (earlier y fd h (elsewhere y e)) e;
            })
            | inr q ↦ inr (record {
              root = q.root;
              number = q.number;
              at = kept ∙ q.at;
              passed = omega (arith, q.passed);
              holds = q.holds;
              leads = λ y h e.
                  let other = elsewhere y e in
                  r.leads.others y other ∙ q.leads y (earlier y fd h other) e;
              contents =
                  Back-kept K s'.type s' os os' q.number
                    (r.kept q.root q.number (q.leads q.root (q.passed) (q.holds))
                      (elsewhere q.root (q.holds)))
                    (λ dir. r.positions s'.dirp (λ dir' is. ne (
                      some-injective _ _ (
                        sym ((streams fd a s holds dir').0)
                        ∙ ap (λ d. slot slots (K.dirfd d)) (sym is)
                        ∙ (streams x b s' at dir).0))))
                    q.contents;
            })
          ]
    ];
    apart = λ x y b c d s1 s2 h h' at o at' o' ne found also. elim (Bool-cases (x == fd)) [
      | inl is ↦ elim (Bool-cases (y == fd)) [
        | inl is' ↦
            let eq = (==_iff x fd).0 is ∙ sym ((==_iff y fd).0 is') in
            ne (some-injective _ _ (sym (at.0) ∙ ap (slot slots) eq ∙ at'.0))
        | inr far' ↦
            let other = ==_false y fd far' in
            r.new y (
              sym (r.leads.others y other)
              ∙ also
              ∙ sym found
              ∙ ap (K.description os') ((==_iff x fd).0 is)
              ∙ r.leads.here)
      ]
      | inr far ↦
          let other = ==_false x fd far in
          elim (Bool-cases (y == fd)) [
            | inl is' ↦ r.new x (
                sym (r.leads.others x other)
                ∙ found
                ∙ sym also
                ∙ ap (K.description os') ((==_iff y fd).0 is')
                ∙ r.leads.here)
            | inr far' ↦
                let other' = ==_false y fd far' in
                p.apart x y b c d s1 s2 (earlier x fd h other) (earlier y fd h' other') at o at' o'
                  ne (sym (r.leads.others x other) ∙ found) (sym (r.leads.others y other') ∙ also)
          ]
    ];
    inherited = λ x b s' at i.
        let (kept, same) = p.inherited x b s' at i in
        let ne : a ≢ b = λ e. never s own (
          subst (λ (z : FdSource). IsInherited z)
            (some-injective _ _ (sym (at.1) ∙ ap heap0 (sym e) ∙ holds.1)) i) in
        (
          put-other heap a b (some (restored_at K fd s)) (other_test a b ne) ∙ kept,
          r.leads.others x
                (λ is. ne (some-injective _ _ (sym (holds.0) ∙ ap (slot slots) (sym is) ∙ at.0)))
              ∙ same,
        );
  }
