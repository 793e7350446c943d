-- ===== src/Fd/Restore/Reopen.antt =====
-- One file or directory opened again, of ckpt.Fd.Restore.
use ckpt.Prelude.{
  ℕ, ◌≡◌, ◌≢◌, inl, inr, refl, sym, ap, subst, ◌∙◌, false, Option, none, some, List, ◌==◌,
  Bool-cases, ==_iff, ==_false, ==_refl,
}
use mathlib.Core.Option.{some-injective}
use ckpt.Fd.Base.{FdSource, FdType, fd_null, fd_inherited, fd_file, fd_directory, is_null, put}
use ckpt.Fd.Save.{is_inherited}
use ckpt.Fd.Restore.{
  Opened, Kernel, returned, reopen, restored_at, file_restore, dir_restore, store_restored,
  restore_by,
}
use ckpt.Fd.Restore.Laws.{Leads, IsLawful, Granting, Renewed, RenewedAs, Holds}

module _ (K : Kernel) (laws : IsLawful K) (slots : List (Option ℕ)) (heap0 : ℕ → Option FdSource)
    (grant : Granting K slots heap0) (fd a : ℕ) (s : FdSource)
    (holds : Holds slots heap0 fd a s) where
  used :
      (x ret e : ℕ) (os : K.State)
      → K.description os x ≡ some e
      → K.description os ret ≡ none
      → x ≢ ret
  used x ret e os at free same =
      let absent : none ≡ some e = sym free ∙ ap (K.description os) (sym same) ∙ at in cc

  reopen_lem :
      (os : K.State)
      → (os' : K.State) × (reopen K fd s os ≡ some os')
        × Renewed K fd (record { path = s.path; flags = s.flags; offset = 0 }) os os'
  unfolding reopen
  reopen_lem os =
      let (ret, t, e) = grant.opens fd a s os holds in
      let (free, (d, leads, new, contents, kept)) =
        laws.open_lem s.path s.flags s.mode os t ret e in
      elim (Bool-cases (ret == fd)) [
        | inl h ↦
            let at = (==_iff ret fd).0 h in
            (
              t,
              rw (e, h) refl,
              record {
                number = d;
                leads = subst (λ n. Leads K n d os t) at leads;
                new = new;
                contents = contents;
                kept = λ x e h other. kept x e h;
                positions = laws.open_position s.path s.flags s.mode os t ret e;
              },
            )
        | inr h ↦
            let (t2, e2) = grant.dups ret fd a d t (holds.0) (leads.here) in
            let (leads2, files2) = laws.dup2_lem ret fd d fd t t2 (leads.here) e2 in
            let (closed, others, files) = laws.close_lem ret t2 in
            let other : fd ≢ ret = λ same. ==_false ret fd h (sym same) in
            (
              K.close ret t2,
              rw (e, h, e2, ==_refl fd) refl,
              record {
                number = d;
                leads = record {
                  here = others fd other ∙ leads2.here;
                  others = λ x far. elim (Bool-cases (x == ret)) [
                    | inl same ↦
                        let eq = (==_iff x ret).0 same in
                        subst (λ n. K.description (K.close ret t2) n ≡ K.description os n) (sym eq)
                          (closed ∙ sym free)
                    | inr away ↦
                        let apart : x ≢ ret = ==_false x ret away in
                        others x apart ∙ leads2.others x far ∙ leads.others x apart
                  ];
                };
                new = new;
                contents = files fd d other (leads2.here) ∙ files2 d ∙ contents;
                kept = λ x e h far.
                    let apart = used x ret e os h free in
                    files x e apart (leads2.others x far ∙ leads.others x apart ∙ h)
                    ∙ files2 e
                    ∙ kept x e h;
                positions = λ q.
                    laws.close_position ret t2 q
                    ∙ laws.dup2_position ret fd fd t t2 e2 q
                    ∙ laws.open_position s.path s.flags s.mode os t ret e q;
              },
            )
      ]

  file_lem :
      (os : K.State)
      → (os' : K.State) × (file_restore K fd s os ≡ some (restored_at K fd s, os'))
        × RenewedAs K fd fd_file s os os'
  unfolding file_restore
  file_lem os =
      let (t, e, r) = reopen_lem os in
      let (u, sought) = grant.seeks fd a fd r.number s t holds (r.leads.here) in
      let (same, moved, others) =
        laws.lseek_lem fd r.number s.offset s.offset t u (r.leads.here) sought in
      (
        u,
        rw (e, sought, ==_refl (s.offset)) refl,
        record {
          number = r.number;
          leads = record {
            here = same fd ∙ r.leads.here;
            others = λ x far. same x ∙ r.leads.others x far;
          };
          new = r.new;
          contents = moved ∙ ap (λ (f : Opened). record f { offset = s.offset }) (r.contents);
          kept =
              λ x e at far. others e (λ is. r.new x (at ∙ ap (λ n. some n) is)) ∙ r.kept x e at far;
          positions = λ d _. laws.lseek_position fd s.offset s.offset t u sought d ∙ r.positions d;
        },
      )

  dir_lem :
      (os : K.State)
      → K.dirfd s.dirp ≡ fd
      → (os' : K.State) × (dir_restore K fd s os ≡ some (restored_at K fd s, os'))
        × RenewedAs K fd fd_directory s os os'
  unfolding dir_restore
  dir_lem os stream =
      let (t, e, r) = reopen_lem os in
      let (same, files, names, place, places) = laws.seekdir_lem s.dirp s.offset t in
      let leads_to : K.description t (K.dirfd s.dirp) ≡ some r.number =
        ap (K.description t) stream ∙ r.leads.here in
      (
        K.seekdir s.dirp s.offset t,
        rw e refl,
        record {
          number = r.number;
          leads = record {
            here = same fd ∙ r.leads.here;
            others = λ x far. same x ∙ r.leads.others x far;
          };
          new = r.new;
          contents = (
            (names r.number).0 ∙ ap (λ (f : Opened). f.path) (r.contents),
            (names r.number).1 ∙ ap (λ (f : Opened). f.flags) (r.contents),
            place,
          );
          kept = λ x e at far.
              files e
                (λ is. r.new x (at ∙ ap (λ n. some n) (some-injective _ _ (sym is ∙ leads_to))))
              ∙ r.kept x e at far;
          positions = λ d other. places d (other refl) ∙ r.positions d;
        },
      )

  -- A file or a directory is restored, at an open file of its own; a directory at the descriptor of
  -- its stream.
  pub restore_by_lem :
      (type : FdType) (heap : ℕ → Option FdSource) (os : K.State)
      → is_null type ≡ false
      → is_inherited type ≡ false
      → (type ≡ fd_directory → K.dirfd s.dirp ≡ fd)
      → (os' : K.State) × (restore_by K type fd a s heap os
          ≡ returned (put heap a (some (restored_at K fd s))) os')
        × RenewedAs K fd type s os os'
  unfolding restore_by
  restore_by_lem fd_null heap os known other stream = cc
  restore_by_lem fd_inherited heap os known other stream = cc
  restore_by_lem fd_file heap os known other stream =
      let (t, e, r) = file_lem os in (t, ap (store_restored K heap a) e, r)
  restore_by_lem fd_directory heap os known other stream =
      let (t, e, r) = dir_lem os (stream refl) in (t, ap (store_restored K heap a) e, r)
