-- ===== src/Fd/SampleKernel.antt =====
-- Descriptors as POSIX has them, where every path can be opened and the stream of a directory is named
-- by its descriptor: a system for the tests of
-- fd_table_restore.
use ckpt.Prelude.{
  ℕ, zero, suc, ◌<◌, ◌≡◌, ◌≢◌, refl, sym, ap, subst, ◌∙◌, false, Option, none, some, List, [], ◌∷◌,
  ◌==◌, max, if◌then◌else◌, ==_refl, arith,
}
use mathlib.Core.Option.{some-injective}
use ckpt.Fd.Base.{FdSource, slot}
use ckpt.Fd.Restore.{Opened, Kernel}
use ckpt.Fd.Restore.Laws.{Leads, IsLawful, Granting}

pub record Files : Type 0 where
  pub table : List (Option ℕ)
  pub file : ℕ → Opened
  pub positions : ℕ → ℕ

-- The first free descriptor.
abbrev lowest : List (Option ℕ) → ℕ
lowest [] = 0
lowest (none ∷ vs) = 0
lowest (some d ∷ vs) = suc (lowest vs)

abbrev above : Option ℕ → ℕ → ℕ
above none n = n
above (some d) n = max (suc d) n

-- A number above those of the open files.
abbrev fresh : List (Option ℕ) → ℕ
fresh [] = 0
fresh (v ∷ vs) = above v (fresh vs)

abbrev at_fd : List (Option ℕ) → ℕ → Option ℕ → List (Option ℕ)
at_fd [] zero v = v ∷ []
at_fd [] (suc x) v = none ∷ at_fd [] x v
at_fd (w ∷ vs) zero v = v ∷ vs
at_fd (w ∷ vs) (suc x) v = w ∷ at_fd vs x v

abbrev write_file : (ℕ → Opened) → ℕ → Opened → ℕ → Opened
write_file file d o = λ e. if e == d then o else file e

abbrev set_position : (ℕ → ℕ) → ℕ → ℕ → ℕ → ℕ
set_position positions dirp o = λ d. if d == dirp then o else positions d

abbrev opens_at : ℕ → ℕ → Opened → Files → ℕ × Files
opens_at fd d o s =
    (fd, record s { table = at_fd s.table fd (some d); file = write_file s.file d o })

abbrev dup_to : ℕ → Files → Option ℕ → Option (ℕ × Files)
dup_to b s none = none
dup_to b s (some d) = some (b, record s { table = at_fd s.table b (some d) })

abbrev seek_to : ℕ → Files → Option ℕ → Option (ℕ × Files)
seek_to o s none = none
seek_to o s (some d) =
    some (o, record s { file = write_file s.file d (record (s.file d) { offset = o }) })

abbrev pub sample_kernel : Kernel
sample_kernel = record {
  State = Files;
  open_path = λ path flags mode s. some (
      opens_at (lowest (s.table)) (fresh (s.table))
        (record { path = path; flags = flags; offset = 0 }) s);
  dup2 = λ a b s. dup_to b s (slot s.table a);
  close = λ fd s. record s { table = at_fd s.table fd none };
  lseek_set = λ fd o s. seek_to o s (slot s.table fd);
  dirfd = λ dirp. dirp;
  position = λ s d. s.positions d;
  seekdir = λ dirp o s. record s { positions = set_position s.positions dirp o };
  description = λ s x. slot s.table x;
  file = λ s e. s.file e;
}

at_fd-same : (vs : List (Option ℕ)) (x : ℕ) (v : Option ℕ) → slot (at_fd vs x v) x ≡ v
at_fd-same [] zero v = refl
at_fd-same [] (suc x) v = at_fd-same [] x v
at_fd-same (w ∷ vs) zero v = refl
at_fd-same (w ∷ vs) (suc x) v = at_fd-same vs x v

at_fd-other :
    (vs : List (Option ℕ)) (x y : ℕ) (v : Option ℕ) → y ≢ x → slot (at_fd vs x v) y ≡ slot vs y
at_fd-other [] zero zero v ne = absurd (ne refl)
at_fd-other [] zero (suc y) v ne = refl
at_fd-other [] (suc x) zero v ne = refl
at_fd-other [] (suc x) (suc y) v ne = at_fd-other [] x y v (λ e. ne (ap suc e))
at_fd-other (w ∷ vs) zero zero v ne = absurd (ne refl)
at_fd-other (w ∷ vs) zero (suc y) v ne = refl
at_fd-other (w ∷ vs) (suc x) zero v ne = refl
at_fd-other (w ∷ vs) (suc x) (suc y) v ne = at_fd-other vs x y v (λ e. ne (ap suc e))

lowest_free : (vs : List (Option ℕ)) → slot vs (lowest vs) ≡ none
lowest_free [] = refl
lowest_free (none ∷ vs) = refl
lowest_free (some d ∷ vs) = lowest_free vs

above_bound : (v : Option ℕ) (n d : ℕ) → d < n → d < above v n
above_bound none n d h = h
above_bound (some e) n d h = omega (arith, h)

fresh_bound : (vs : List (Option ℕ)) (x d : ℕ) → slot vs x ≡ some d → d < fresh vs
fresh_bound [] x d e = let bad : none ≡ some d = e in ground arith
fresh_bound (none ∷ vs) zero d e = let bad : none ≡ some d = e in ground arith
fresh_bound (some c ∷ vs) zero d e = let same : c ≡ d = some-injective _ _ e in omega (arith, same)
fresh_bound (v ∷ vs) (suc x) d e = above_bound v (fresh vs) d (fresh_bound vs x d e)

fresh_new : (vs : List (Option ℕ)) (x : ℕ) → slot vs x ≢ some (fresh vs)
fresh_new vs x e = let h = fresh_bound vs x (fresh vs) e in absurd (omega (arith, h))

write_file-same : (file : ℕ → Opened) (d : ℕ) (o : Opened) → write_file file d o d ≡ o
write_file-same file d o = rw (==_refl d) refl

write_file-other :
    (file : ℕ → Opened) (d e : ℕ) (o : Opened) → (e == d) ≡ false → write_file file d o e ≡ file e
write_file-other file d e o h = rw h refl

differs : (a b : ℕ) → a ≢ b → (a == b) ≡ false
differs a b ne = ground arith

at_fd-Leads :
    (s : Files) (file : ℕ → Opened) (fd d : ℕ)
    → Leads sample_kernel fd d s (record s { table = at_fd s.table fd (some d); file = file })
at_fd-Leads s file fd d = record {
  here = at_fd-same (s.table) fd (some d);
  others = λ x far. at_fd-other (s.table) fd x (some d) far;
}

pub sample_kernel-Granting :
    (slots : List (Option ℕ)) (heap : ℕ → Option FdSource) → Granting sample_kernel slots heap
sample_kernel-Granting slots heap = record {
  opens = λ x a s os holds. (_, _, refl);
  dups = λ old new a d os at e. (_, ap (dup_to new os) e);
  seeks = λ x a fd d s os holds e. (_, ap (seek_to s.offset os) e);
}

dup_to-positions :
    (b : ℕ) (s : Files) (at : Option ℕ) (n : ℕ) (t : Files)
    → dup_to b s at ≡ some (n, t)
    → (d : ℕ) → t.positions d ≡ s.positions d
dup_to-positions b s none n t e d = cc
dup_to-positions b s (some c) n t e d =
    ap (λ (p : ℕ × Files). (p.1).positions d) (sym (some-injective _ _ e))

seek_to-positions :
    (o : ℕ) (s : Files) (at : Option ℕ) (n : ℕ) (t : Files)
    → seek_to o s at ≡ some (n, t)
    → (d : ℕ) → t.positions d ≡ s.positions d
seek_to-positions o s none n t e d = cc
seek_to-positions o s (some c) n t e d =
    ap (λ (p : ℕ × Files). (p.1).positions d) (sym (some-injective _ _ e))

pub sample_kernel-IsLawful : IsLawful sample_kernel
sample_kernel-IsLawful = record {
  open_lem = λ path flags mode s t fd e.
      let both = some-injective _ _ e in
      let at = lowest (s.table) in
      let d = fresh (s.table) in
      let o : Opened = record { path = path; flags = flags; offset = 0 } in
      let index : at ≡ fd = ap (λ p. p.0) both in
      let state : (opens_at at d o s).1 ≡ t = ap (λ p. p.1) both in
      (
        ap (slot (s.table)) (sym index) ∙ lowest_free (s.table),
        (
          d,
          subst (λ n. Leads sample_kernel n d s t) index
              (subst (λ (u : Files). Leads sample_kernel at d s u) state
                (at_fd-Leads s (write_file (s.file) d o) at d)),
          fresh_new (s.table),
          ap (λ (u : Files). u.file d) (sym state) ∙ write_file-same (s.file) d o,
          λ x e used.
              ap (λ (u : Files). u.file e) (sym state)
              ∙ write_file-other (s.file) d e o
                  (differs e d (λ is. fresh_new (s.table) x (used ∙ ap (λ n. some n) is))),
        ),
      );
  dup2_lem = λ a b d n s t at e.
      let both = some-injective _ _ (sym (ap (dup_to b s) at) ∙ e) in
      let state : record s { table = at_fd (s.table) b (some d) } ≡ t = ap (λ p. p.1) both in
      (
        subst (λ (u : Files). Leads sample_kernel b d s u) state (at_fd-Leads s (s.file) b d),
        λ e. ap (λ (u : Files). u.file e) (sym state),
      );
  close_lem = λ fd s. (
    at_fd-same (s.table) fd none,
    λ x far. at_fd-other (s.table) fd x none far,
    λ x e far at. refl,
  );
  lseek_lem = λ fd d o n s t at e.
      let both = some-injective _ _ (sym (ap (seek_to o s) at) ∙ e) in
      let f = record (s.file d) { offset = o } in
      let state : record s { file = write_file (s.file) d f } ≡ t = ap (λ p. p.1) both in
      (
        λ x. ap (λ (u : Files). slot (u.table) x) (sym state),
        ap (λ (u : Files). u.file d) (sym state) ∙ write_file-same (s.file) d f,
        λ e far.
            ap (λ (u : Files). u.file e) (sym state)
            ∙ write_file-other (s.file) d e f (differs e d far),
      );
  seekdir_lem = λ dirp o s. (
    λ x. refl,
    λ e out. refl,
    λ e. (refl, refl),
    rw (==_refl dirp) refl,
    λ d far. rw (differs d dirp far) refl,
  );
  open_position = λ path flags mode s t fd e d.
      ap (λ (p : ℕ × Files). (p.1).positions d) (sym (some-injective _ _ e));
  dup2_position = λ a b n s t e d. dup_to-positions b s (slot s.table a) n t e d;
  close_position = λ fd s d. refl;
  lseek_position = λ fd o n s t e d. seek_to-positions o s (slot s.table fd) n t e d;
}
