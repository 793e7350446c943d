-- ===== src/Image/Write/Laws.antt =====
-- What the functions of ckpt.Image.Write write at the end of a file, while every call of write takes
-- some bytes.
use ckpt.Prelude.{
  ℕ, zero, suc, ◌+◌, ◌-◌, ◌≤◌, ◌<◌, ◌≡◌, refl, sym, ap, ap₂, ◌∙◌, subst, Bool, false, Option, none,
  some, List, [], ◌∷◌, ◌++◌, All, length, take, drop, min, ltb, ==_refl, arith, inl, inr,
  Bool-cases, length-append, length-drop, take-drop, drop_all,
}
use mathlib.Core.List.{append_assoc, append-nil}
use ckpt.Image.Base.{Machine, Codec, IsCodec, End, M, returned, and_then, ◌>>=◌, contents}
use ckpt.Image.Vm.{Vm}
use ckpt.Image.Write.{
  Writer, overwrite, wrote, memory, write_loop, writeall, write_struct, write_memory,
}

pub take-length_self : (xs : List ℕ) → take (length xs) xs ≡ xs
take-length_self [] = refl
take-length_self (x ∷ xs) = ap (λ l. x ∷ l) (take-length_self xs)

pub overwrite_end : (file bs : List ℕ) → overwrite file (length file) bs ≡ file ++ bs
unfolding overwrite
overwrite_end file bs =
    let none_missing : length file - length file ≡ 0 = omega arith in
    rw (take-length_self file, none_missing, drop_all (length file + length bs) file (omega arith))
      (simp append-nil)

min_whole :
    (n : ℕ) (bs : List ℕ)
    → ltb (min n (length bs)) (length bs) ≡ false
    → min n (length bs) ≡ length bs
min_whole n bs h = ground arith

pub length-contents : (m : ℕ → ℕ) (a n : ℕ) → length (contents m a n) ≡ n
length-contents m a zero = refl
length-contents m a (suc n) = ap suc (length-contents m (suc a) n)

pub contents-eq : (l m : ℕ → ℕ) (a n : ℕ) → ((x : ℕ) → l x ≡ m x) → contents l a n ≡ contents m a n
contents-eq l m a zero h = refl
contents-eq l m a (suc n) h = ap₂ (λ x xs. x ∷ xs) (h a) (contents-eq l m (suc a) n h)

abbrev pub Takes : Option ℕ → Type 0
Takes none = ⊥
Takes (some n) = 0 < n

module _ (V : Vm) (k : Machine) (query : ℕ → ℕ → Option (List Bool)) (tops : ℕ → ℕ) where
  -- The position is at the end, at least `more` calls of write take some bytes, and the memory holds
  -- `m`, with the maximal protections `tops`.
  pub record At (m : ℕ → ℕ) (more : ℕ) (w : Writer V k query) : Type 0 where
    pub end : w.pos ≡ length w.file
    pub willing : All Takes w.answers
    pub enough : more ≤ length w.answers
    pub bytes : (x : ℕ) → memory V k query w x ≡ m x
    pub limits : (x : ℕ) → (V.view w.space x).max_prot ≡ tops x

  -- The call returns `a`, has added `bs` to the file, and leaves `more` answers.
  pub record Wrote {A : Type 0} (m : ℕ → ℕ) (more : ℕ) (bs : List ℕ) (a : A) (w : Writer V k query)
      (e : End (Writer V k query) A) : Type 0 where
    pub after : Writer V k query
    pub returns : e ≡ returned a after
    pub file : after.file ≡ w.file ++ bs
    pub at : At m more after

  abbrev pub Writes : {A : Type 0} → (ℕ → ℕ) → List ℕ → M (Writer V k query) A → A → Type 0
  Writes m bs f a =
      (w : Writer V k query) (more : ℕ) → At m (length bs + more) w → Wrote m more bs a w (f w)

  pub At-weaken :
      (m : ℕ → ℕ) (n more : ℕ) (w : Writer V k query) → more ≤ n → At m n w → At m more w
  At-weaken m n more w h at = record {
    end = at.end;
    willing = at.willing;
    enough = omega arith;
    bytes = at.bytes;
    limits = at.limits;
  }

  pub write-bind :
      {A B : Type 0} (m : ℕ → ℕ) (bs cs : List ℕ) (f : M (Writer V k query) A) (a : A)
      (g : A → M (Writer V k query) B) (b : B)
      → Writes m bs f a
      → Writes m cs (g a) b
      → Writes m (bs ++ cs) (f >>= g) b
  write-bind m bs cs f a g b hf hg w more at =
      let p = hf w (length cs + more) (
        At-weaken m (length (bs ++ cs) + more) (length bs + (length cs + more)) w
          (omega (arith, length-append bs cs)) at) in
      let q = hg p.after more p.at in
      record {
        after = q.after;
        returns = ap (λ e. and_then e g) p.returns ∙ q.returns;
        file = q.file ∙ ap (λ l. l ++ cs) p.file ∙ append_assoc w.file bs cs;
        at = q.at;
      }

  pub write-pure :
      {A : Type 0} (m : ℕ → ℕ) (f : M (Writer V k query) A) (a : A)
      → ((w : Writer V k query) → f w ≡ returned a w)
      → Writes m [] f a
  write-pure m f a h w more at = record {
    after = w;
    returns = h w;
    file = sym (append-nil w.file);
    at = At-weaken m (length {A = ℕ} [] + more) more w (omega arith) at;
  }

  pub Writes-eq :
      {A : Type 0} (m : ℕ → ℕ) (bs cs : List ℕ) (f : M (Writer V k query) A) (a b : A)
      → bs ≡ cs
      → a ≡ b
      → Writes m bs f a
      → Writes m cs f b
  Writes-eq m bs cs f a b e e' h = subst (λ c. Writes m cs f c) e' (subst (λ l. Writes m l f a) e h)

  -- The last call adds nothing to the file and returns.
  pub write-end :
      {A B : Type 0} (m : ℕ → ℕ) (bs : List ℕ) (f : M (Writer V k query) A) (a : A)
      (g : A → M (Writer V k query) B) (b : B)
      → Writes m bs f a
      → ((w : Writer V k query) → g a w ≡ returned b w)
      → Writes m bs (f >>= g) b
  write-end m bs f a g b hf hg =
      Writes-eq m _ _ _ _ _ (append-nil bs) refl
        (write-bind m bs [] f a g b hf (write-pure m (g a) b hg))

  wrote-end :
      (w : Writer V k query) (bs : List ℕ) (answers : List (Option ℕ))
      → w.pos ≡ length w.file
      → (wrote V k query w bs answers).file ≡ w.file ++ bs
  wrote-end w bs answers end = ap (λ p. overwrite w.file p bs) end ∙ overwrite_end w.file bs

  wrote-pos :
      (w : Writer V k query) (bs : List ℕ) (answers : List (Option ℕ))
      → w.pos ≡ length w.file
      → w.pos + length bs ≡ length (wrote V k query w bs answers).file
  wrote-pos w bs answers end =
      omega (arith, ap length (wrote-end w bs answers end), length-append w.file bs)

  loop_lem :
      (m : ℕ → ℕ) (answers : List (Option ℕ)) (count : ℕ) (bs : List ℕ) (w : Writer V k query)
      (more : ℕ)
      → 0 < length bs
      → w.pos ≡ length w.file
      → ((x : ℕ) → memory V k query w x ≡ m x)
      → ((x : ℕ) → (V.view w.space x).max_prot ≡ tops x)
      → All Takes answers
      → length bs + more ≤ length answers
      → Wrote m more bs (count + length bs) w (write_loop V k query answers count bs w)
  unfolding write_loop
  loop_lem m [] count bs w more some_bytes end same kept takes enough = absurd (omega arith)
  loop_lem m (none ∷ answers) count bs w more some_bytes end same kept takes enough = absurd takes.0
  loop_lem m (some n ∷ answers) count bs w more some_bytes end same kept takes enough =
      let some_written : 0 < n = takes.0 in
      elim (Bool-cases (ltb (min n (length bs)) (length bs))) [
        | inl short ↦
            let j : ℕ = min n (length bs) in
            let few : length (drop j bs) ≡ length bs - j = length-drop j bs in
            let next = wrote V k query w (take j bs) answers in
            let p =
              loop_lem m answers (count + j) (drop j bs) next more (ground arith)
                (wrote-pos w (take j bs) answers end) same kept takes.1 (omega arith) in
            record {
              after = p.after;
              returns = rw short (p.returns ∙ ap (λ c. returned c p.after) (omega arith));
              file =
                  p.file
                  ∙ ap (λ l. l ++ drop j bs) (wrote-end w (take j bs) answers end)
                  ∙ append_assoc w.file (take j bs) (drop j bs)
                  ∙ ap (λ l. w.file ++ l) (take-drop j bs);
              at = p.at;
            }
        | inr whole ↦
            let j : ℕ = min n (length bs) in
            let all : take j bs ≡ bs =
              ap (λ i. take i bs) (min_whole n bs whole) ∙ take-length_self bs in
            record {
              after = wrote V k query w (take j bs) answers;
              returns = rw whole (
                  ap (λ c. returned c (wrote V k query w (take j bs) answers))
                    (ap (λ i. count + i) (min_whole n bs whole)));
              file = wrote-end w (take j bs) answers end ∙ ap (λ l. w.file ++ l) all;
              at = record {
                end = wrote-pos w (take j bs) answers end;
                willing = takes.1;
                enough = omega arith;
                bytes = same;
                limits = kept;
              };
            }
      ]

  writeall-Writes :
      (m : ℕ → ℕ) (bs : List ℕ) → 0 < length bs → Writes m bs (writeall V k query bs) (length bs)
  unfolding writeall
  writeall-Writes m bs h w more at =
      let zero_add : 0 + length bs ≡ length bs = omega arith in
      subst (λ c. Wrote m more bs c w (write_loop V k query w.answers 0 bs w)) zero_add
        (loop_lem m w.answers 0 bs w more h at.end at.bytes at.limits at.willing at.enough)

  pub write_struct-Writes :
      {A : Type 0} (m : ℕ → ℕ) (c : Codec A) (a : A)
      → IsCodec c
      → Writes m (c.bytes a) (write_struct V k query c a) tt
  unfolding write_struct
  write_struct-Writes m c a lawful w more at =
      let sized : length (c.bytes a) ≡ c.size = lawful.sized a in
      let p = writeall-Writes m (c.bytes a) (omega (arith, lawful.positive)) w more at in
      record {
        after = p.after;
        returns = rw (p.returns) (rw sized (rw (==_refl c.size) refl));
        file = p.file;
        at = p.at;
      }

  pub write_memory-Writes :
      (m : ℕ → ℕ) (a n : ℕ) → 0 < n → Writes m (contents m a n) (write_memory V k query a n) n
  unfolding write_memory
  write_memory-Writes m a n h = λ w more at. rw (contents-eq (memory V k query w) m a n at.bytes) (
      subst (λ c. Wrote m more (contents m a n) c w (writeall V k query (contents m a n) w))
        (length-contents m a n)
        (writeall-Writes m (contents m a n) (omega (arith, length-contents m a n)) w more at))
