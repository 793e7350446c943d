-- ===== src/Image/Write/File.antt =====
-- The whole file that `xnd_checkpoint` of ckpt.Image.Write writes.
use ckpt.Prelude.{
  ℕ, zero, suc, ◌+◌, ◌≤◌, ◌≡◌, refl, ap, ◌∙◌, Bool, false, Option, List, [], ◌∷◌, All, length, take,
  ltb, arith, sym,
}
use ckpt.Image.Base.{Region, Header, Context, Machine, IsMachine, vm_region_entry, ucontext_entry}
use ckpt.Image.Vm.{Vm, IsLawful}
use ckpt.Image.Format.{entries_image, image}
use ckpt.Image.Write.{
  write_context, write_entry, write_entries, write_ckpt, checkpoint_entries, xnd_checkpoint,
}
use ckpt.Image.Write.Laws.{take-length_self, Writes, write-bind, write-end, write_struct-Writes}
use ckpt.Image.Write.Regions.{Writable, region-Writes, attempt-Writes}

length-entries : (n : ℕ) → length (checkpoint_entries n) ≡ n + 1
unfolding checkpoint_entries
length-entries zero = refl
length-entries (suc n) = omega (arith, length-entries n)

module _ (V : Vm) (k : Machine) (query : ℕ → ℕ → Option (List Bool)) (lawful : IsMachine k)
    (tops : ℕ → ℕ) (m : ℕ → ℕ) (laws : IsLawful V) (u : Context) where
  entries-Writes :
      (regions : List Region)
      → All (Writable V k query lawful tops m) regions
      → Writes V k query tops m
          (entries_image k query m regions u)
          (write_entries V k query (checkpoint_entries (length regions)) regions u)
          tt
  unfolding write_entries entries_image checkpoint_entries write_entry write_context
  entries-Writes [] h =
      write-bind V k query tops m _ _ _ _ _ _
        (write_struct-Writes V k query tops m k.entry ucontext_entry lawful.entry)
        (write-end V k query tops m _ _ _ _ _
          (write-end V k query tops m _ _ _ _ _
            (write_struct-Writes V k query tops m k.context u lawful.context) (λ w. refl))
          (λ w. refl))
  entries-Writes (r ∷ rs) h =
      write-bind V k query tops m _ _ _ _ _ _
        (write_struct-Writes V k query tops m k.entry vm_region_entry lawful.entry)
        (write-bind V k query tops m _ _ _ _ _ _
          (write-end V k query tops m _ _ _ _ _ (region-Writes V k query lawful tops m laws r h.0)
            (λ w. refl))
          (entries-Writes rs h.1))

  pub checkpoint-Writes :
      (h : Header) (regions : List Region)
      → length regions ≤ 1023
      → All (Writable V k query lawful tops m) regions
      → Writes V k query tops m
          (image k query m h regions u)
          (xnd_checkpoint V k query h regions u)
          tt
  unfolding xnd_checkpoint write_ckpt image
  checkpoint-Writes h regions few writable =
      let n : ℕ = length regions in
      let bounded : ltb 1023 n ≡ false = ground arith in
      let taken : take (n + 1) (checkpoint_entries n) ≡ checkpoint_entries n =
        ap (λ i. take i (checkpoint_entries n)) (sym (length-entries n))
        ∙ take-length_self (checkpoint_entries n) in
      rw bounded (
        attempt-Writes V k query lawful tops m laws _ _ (
          write-bind V k query tops m _ _ _ _ _ _
            (write_struct-Writes V k query tops m k.header _ lawful.header)
            (rw taken (entries-Writes regions writable))))
