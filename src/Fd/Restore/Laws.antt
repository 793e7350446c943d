-- ===== src/Fd/Restore/Laws.antt =====
-- What the system's calls on descriptors are documented to do, and what the restore of one file makes
-- of them.
use ckpt.Prelude.{ℕ, ◌≡◌, ◌≢◌, ◌∙◌, ap, refl, Option, none, some, List}
use ckpt.Fd.Base.{FdSource, FdType, fd_null, fd_inherited, fd_file, fd_directory, slot}
use ckpt.Fd.Restore.{Opened, Kernel}

-- Between two states only the descriptor `fd` changes; it leads to `d`.
pub record Leads (K : Kernel) (fd d : ℕ) (s t : K.State) : Type 0 where
  pub here : K.description t fd ≡ some d
  pub others : (x : ℕ) → x ≢ fd → K.description t x ≡ K.description s x

pub record IsLawful (K : Kernel) : Type 0 where
  -- A free descriptor, and an open file that no descriptor leads to.
  pub open_lem :
      (path : List ℕ) (flags mode : ℕ) (s t : K.State) (fd : ℕ)
      → K.open_path path flags mode s ≡ some (fd, t)
      → (K.description s fd ≡ none)
        × ((d : ℕ) × Leads K fd d s t
            × ((x : ℕ) → K.description s x ≢ some d)
            × (K.file t d ≡ record { path = path; flags = flags; offset = 0 })
            × ((x e : ℕ) → K.description s x ≡ some e → K.file t e ≡ K.file s e))
  pub dup2_lem :
      (a b d n : ℕ) (s t : K.State)
      → K.description s a ≡ some d
      → K.dup2 a b s ≡ some (n, t)
      → Leads K b d s t × ((e : ℕ) → K.file t e ≡ K.file s e)
  pub close_lem :
      (fd : ℕ) (s : K.State)
      → (K.description (K.close fd s) fd ≡ none)
        × ((x : ℕ) → x ≢ fd → K.description (K.close fd s) x ≡ K.description s x)
        × ((x e : ℕ) → x ≢ fd → K.description s x ≡ some e → K.file (K.close fd s) e ≡ K.file s e)
  pub lseek_lem :
      (fd d o n : ℕ) (s t : K.State)
      → K.description s fd ≡ some d
      → K.lseek_set fd o s ≡ some (n, t)
      → ((x : ℕ) → K.description t x ≡ K.description s x)
        × (K.file t d ≡ record (K.file s d) { offset = o })
        × ((e : ℕ) → e ≢ d → K.file t e ≡ K.file s e)
  -- The position of a stream is kept, and that of the file behind it may change.
  pub seekdir_lem :
      (dirp o : ℕ) (s : K.State)
      → ((x : ℕ) → K.description (K.seekdir dirp o s) x ≡ K.description s x)
        × ((e : ℕ)
            → K.description s (K.dirfd dirp) ≢ some e
            → K.file (K.seekdir dirp o s) e ≡ K.file s e)
        × ((e : ℕ)
            → ((K.file (K.seekdir dirp o s) e).path ≡ (K.file s e).path)
              × ((K.file (K.seekdir dirp o s) e).flags ≡ (K.file s e).flags))
        × (K.position (K.seekdir dirp o s) dirp ≡ o)
        × ((d : ℕ) → d ≢ dirp → K.position (K.seekdir dirp o s) d ≡ K.position s d)
  -- The other calls leave the streams as they are.
  pub open_position :
      (path : List ℕ) (flags mode : ℕ) (s t : K.State) (fd : ℕ)
      → K.open_path path flags mode s ≡ some (fd, t)
      → (d : ℕ) → K.position t d ≡ K.position s d
  pub dup2_position :
      (a b n : ℕ) (s t : K.State)
      → K.dup2 a b s ≡ some (n, t)
      → (d : ℕ) → K.position t d ≡ K.position s d
  pub close_position : (fd : ℕ) (s : K.State) (d : ℕ) → K.position (K.close fd s) d ≡ K.position s d
  pub lseek_position :
      (fd o n : ℕ) (s t : K.State)
      → K.lseek_set fd o s ≡ some (n, t)
      → (d : ℕ) → K.position t d ≡ K.position s d

-- The slot `x` holds the source `s`, at `a`.
abbrev pub Holds : List (Option ℕ) → (ℕ → Option FdSource) → ℕ → ℕ → FdSource → Type 0
Holds slots heap x a s = (slot slots x ≡ some a) × (heap a ≡ some s)

-- The calls that fd_table_restore makes do not fail, whatever else is open: the paths of the sources
-- can be opened, with their flags; an open descriptor can be duplicated to one that holds a source;
-- and an open file can be set to the offset of a source.
pub record Granting (K : Kernel) (slots : List (Option ℕ)) (heap : ℕ → Option FdSource)
    : Type 0 where
  pub opens :
      (x a : ℕ) (s : FdSource) (os : K.State)
      → Holds slots heap x a s
      → (fd : ℕ) × (t : K.State) × (K.open_path s.path s.flags s.mode os ≡ some (fd, t))
  pub dups :
      (old new a d : ℕ) (os : K.State)
      → slot slots new ≡ some a
      → K.description os old ≡ some d
      → (t : K.State) × (K.dup2 old new os ≡ some (new, t))
  pub seeks :
      (x a fd d : ℕ) (s : FdSource) (os : K.State)
      → Holds slots heap x a s
      → K.description os fd ≡ some d
      → (t : K.State) × (K.lseek_set fd s.offset os ≡ some (s.offset, t))

-- The descriptor `fd` alone changes, and leads to an open file of its own.
pub record Renewed (K : Kernel) (fd : ℕ) (o : Opened) (s t : K.State) : Type 0 where
  pub number : ℕ
  pub leads : Leads K fd number s t
  pub new : (x : ℕ) → K.description s x ≢ some number
  pub contents : K.file t number ≡ o
  pub kept : (x e : ℕ) → K.description s x ≡ some e → x ≢ fd → K.file t e ≡ K.file s e
  pub positions : (d : ℕ) → K.position t d ≡ K.position s d

-- The open file of a source that is restored: a file with its path, flags and offset, a directory
-- with its path and flags, and its stream at the offset.
abbrev pub Back : (K : Kernel) → FdType → FdSource → K.State → ℕ → Type 0
Back K fd_directory s os n =
    ((K.file os n).path ≡ s.path)
    × ((K.file os n).flags ≡ s.flags)
    × (K.position os s.dirp ≡ s.offset)
Back K _ s os n = K.file os n ≡ record { path = s.path; flags = s.flags; offset = s.offset }

pub Back-kept :
    (K : Kernel) (type : FdType) (s : FdSource) (os os' : K.State) (n : ℕ)
    → K.file os' n ≡ K.file os n
    → (type ≡ fd_directory → K.position os' s.dirp ≡ K.position os s.dirp)
    → Back K type s os n
    → Back K type s os' n
Back-kept K fd_directory s os os' n same place (path, flags, at) = (
  ap (λ (f : Opened). f.path) same ∙ path,
  ap (λ (f : Opened). f.flags) same ∙ flags,
  place refl ∙ at,
)
Back-kept K fd_file s os os' n same place back = same ∙ back
Back-kept K fd_null s os os' n same place back = same ∙ back
Back-kept K fd_inherited s os os' n same place back = same ∙ back

-- The restore of a source of this type: the descriptor `fd` alone changes, and of the streams that of
-- a directory.
pub record RenewedAs (K : Kernel) (fd : ℕ) (type : FdType) (src : FdSource) (s t : K.State)
    : Type 0 where
  pub number : ℕ
  pub leads : Leads K fd number s t
  pub new : (x : ℕ) → K.description s x ≢ some number
  pub contents : Back K type src t number
  pub kept : (x e : ℕ) → K.description s x ≡ some e → x ≢ fd → K.file t e ≡ K.file s e
  pub positions : (d : ℕ) → (type ≡ fd_directory → d ≢ src.dirp) → K.position t d ≡ K.position s d
