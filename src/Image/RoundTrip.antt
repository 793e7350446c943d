-- ===== src/Image/RoundTrip.antt =====
-- A checkpoint and the restart from it: xnd_checkpoint of xnd/xnd_lib.c and restart of
-- xnd/xnd_restart_internal.c together.
use ckpt.Prelude.{
  ℕ, ◌≤◌, ◌≡◌, ◌∙◌, sym, refl, ap, ◌+◌, false, Bool, Option, List, [], ◌++◌, All, length, arith,
}
use ckpt.Image.Base.{Region, Header, Context, Machine, IsMachine, returned}
use ckpt.Image.Vm.{Vm, IsLawful}
use ckpt.Image.Format.{image}
use ckpt.Image.Read.{Restart}
use ckpt.Image.Scan.Flat.{Flat}
use ckpt.Image.Write.{Writer, memory, xnd_checkpoint}
use ckpt.Image.Write.Laws.{At, Takes}
use ckpt.Image.Write.Regions.{Writable}
use ckpt.Image.Write.File.{checkpoint-Writes}

-- The maximal protections in the address space.
abbrev pub limits :
    (V : Vm) (k : Machine) (query : ℕ → ℕ → Option (List Bool)) → Writer V k query → ℕ → ℕ
limits V k query w x = (V.view w.space x).max_prot

-- What a process is told to begin the restart from a file.
abbrev pub begin : (V : Vm) (k : Machine) (chunk : ℕ → ℕ) → List ℕ → V.Space → Restart V k chunk
begin V k chunk file s = record { rest = file; space = s; faulted = false }

module _ (V : Vm) (k : Machine) (query : ℕ → ℕ → Option (List Bool)) (laws : IsLawful V)
    (lawful : IsMachine k) (u : Context) (h : Header) (regions : List Region)
    (few : length regions ≤ 1023) (w : Writer V k query) (new : w.file ≡ []) (start : w.pos ≡ 0)
    (takes : All Takes w.answers)
    (enough : length (image k query (memory V k query w) h regions u) ≤ length w.answers)
    (writable : All
      (Writable V k query lawful (limits V k query w) (memory V k query w))
      regions) where
  -- While every call of write takes some bytes, a checkpoint returns and its file is the header, an
  -- entry and an image for each region, in their order, and an entry with the context; the memory of
  -- the process is as before. The file is new, there are as many answers of write as the image has
  -- bytes, and at most 1023 regions; each is made of pages, of which the kernel tells which are
  -- dirty, its protection is within the maximal ones of its cells, these allow to read them, and the
  -- kernel grants a protection that is within them.
  pub checkpoint_image :
      (w' : Writer V k query) × (xnd_checkpoint V k query h regions u w ≡ returned tt w')
      × (w'.file ≡ image k query (memory V k query w) h regions u)
      × ((x : ℕ) → memory V k query w' x ≡ memory V k query w x)
  checkpoint_image =
      let m = memory V k query w in
      let at : At V k query (limits V k query w) m (length (image k query m h regions u) + 0) w =
        record {
          end = start ∙ sym (ap length new);
          willing = takes;
          enough = omega (arith, enough);
          bytes = λ x. refl;
          limits = λ x. refl;
        } in
      let p =
        checkpoint-Writes V k query lawful (limits V k query w) m laws u h regions few writable w 0
          at in
      (p.after, p.returns, p.file ∙ ap (λ l. l ++ image k query m h regions u) new, p.at.bytes)
