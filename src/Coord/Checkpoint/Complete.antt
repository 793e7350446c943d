-- ===== src/Coord/Checkpoint/Complete.antt =====
-- coord_do_checkpoint of xnd/coordinator/xnd_coord.c, from the first wait to the last.
use ckpt.Prelude.{
  ℕ, ◌+◌, ◌%◌, ◌≡◌, refl, ◌∙◌, sym, ap, subst, true, false, Bool, List, [], ◌∷◌, ◌==◌,
  if◌then◌else◌, length, length-map, map, All, Bool-cases, inl, inr, arith,
}
use ckpt.ProcList.{running, Proc}
use ckpt.Coord.Base.{Msg, Coord, unlinked_dir, returned, World, emit, coord_exit, check}
use ckpt.Coord.Base.Ends
use ckpt.Coord.Base.Ends.{Ends, returns, exits, aborts, waits}
use ckpt.Coord.Barrier.{BarrierType, preckpt, postckpt, coord_release_barrier}
use ckpt.Coord.Barrier.Laws.{advance, release_barrier_done}
use ckpt.Coord.Checkpoint.{
  coord_determine_roots, coord_write_ckpt_manifest, Schedule, complete, failed, finish_epoch,
  take_checkpoint, coord_do_checkpoint,
}
use ckpt.Coord.Checkpoint.Laws.{Keeps, collective_prepare_lem, suspend-Keeps, completions_lem}

-- What a checkpoint that is reported complete has achieved.
pub record IsComplete (epoch : ℕ) (c : Coord) : Type 0 where
  pub resumed : All (λ p. p.state ≡ running) c.procs
  pub counted : length c.procs ≡ c.num_peers
  pub advanced : c.epoch ≡ (epoch + 1) % 18446744073709551616

-- An assertion that is passed holds, and changes nothing.
check_lem : (b : Bool) (c : Coord) → Ends (λ _ c'. (b ≡ true) × (c' ≡ c)) (check b c)
check_lem true c = returns (refl, refl)
check_lem false c = aborts

manifest_lem :
    (written : Bool) (c : Coord)
    → Ends (λ _ c'. (c'.procs ≡ c.procs) × Keeps c c') (coord_write_ckpt_manifest written c)
unfolding coord_write_ckpt_manifest
manifest_lem true c = returns (refl, record { epoch = refl; num_peers = refl })
manifest_lem false c = unfold coord_exit in exits

finish_lem :
    (c : Coord)
    → Ends
        (λ _ c'.
          (c'.procs ≡ c.procs)
          × (c'.num_peers ≡ c.num_peers)
          × (c'.epoch ≡ (c.epoch + 1) % 18446744073709551616))
        (finish_epoch c)
unfolding finish_epoch
finish_lem c = elim (Bool-cases (c.epoch == 0)) [
  | inl first ↦ rw first (returns (refl, refl, refl))
  | inr later ↦ rw later (returns (refl, refl, refl))
]

pub All-advance :
    (type : BarrierType) (ps : List Proc)
    → All (λ p. p.state ≡ ckpt.Coord.Barrier.next_state type) (map (advance type) ps)
All-advance type [] = tt
All-advance type (p ∷ ps) = (refl, All-advance type ps)

roots_lem : (c : Coord) → Ends (λ _. Keeps c) (coord_determine_roots c)
unfolding coord_determine_roots
roots_lem c = returns (record { epoch = refl; num_peers = refl })

-- A release that returns 0 keeps the counters and advances every process.
released :
    (type : BarrierType) (w : World) (garbage : Msg) (c : Coord)
    → Ends
        (λ done c'. done ≡ true → (c'.procs ≡ map (advance type) c.procs) × Keeps c c')
        (coord_release_barrier w garbage type c)
released type w garbage c = Ends.mono (release_barrier_done type w garbage c) (λ done c' post e.
    let (_, same) = post e in
    (
      ap (λ (d : Coord). d.procs) same,
      record {
        epoch = ap (λ (d : Coord). d.epoch) same;
        num_peers = ap (λ (d : Coord). d.num_peers) same;
      },
    ))

-- The state after the last barrier, from what the steps before it leave.
resumed-IsComplete :
    (epoch : ℕ) (c₁ c₂ c₃ c₄ : Coord)
    → c₁.epoch ≡ epoch
    → length c₁.procs ≡ c₁.num_peers
    → (c₂.procs ≡ c₁.procs) × Keeps c₁ c₂
    → (c₃.procs ≡ map (advance postckpt) c₂.procs) × Keeps c₂ c₃
    → (c₄.procs ≡ c₃.procs)
      × (c₄.num_peers ≡ c₃.num_peers)
      × (c₄.epoch ≡ (c₃.epoch + 1) % 18446744073709551616)
    → IsComplete epoch c₄
resumed-IsComplete epoch c₁ c₂ c₃ c₄ e count (p₂, k₂) (p₃, k₃) (p₄, n₄, e₄) = record {
  resumed = subst (All (λ p. p.state ≡ running)) (sym (p₄ ∙ p₃)) (All-advance postckpt c₂.procs);
  counted = omega (
    arith,
    count,
    n₄,
    k₃.num_peers,
    k₂.num_peers,
    ap length (p₄ ∙ p₃),
    ap length p₂,
    length-map (advance postckpt) c₂.procs,
  );
  advanced = e₄ ∙ ap (λ (n : ℕ). (n + 1) % 18446744073709551616) (k₃.epoch ∙ k₂.epoch ∙ e);
}

epoch_of : {a b : Coord} → a ≡ b → a.epoch ≡ b.epoch
epoch_of = ap (λ (d : Coord). d.epoch)

take_checkpoint_lem :
    (s : Schedule) (garbage : Msg) (c : Coord)
    → Ends (λ r c'. (r ≡ complete) × IsComplete c.epoch c') (take_checkpoint s garbage c)
unfolding take_checkpoint
take_checkpoint_lem s garbage c = Ends.bind (roots_lem _) (λ _ a ka.
    Ends.bind (collective_prepare_lem s.before_start a) (λ total b (_, kb).
      Ends.bind (check_lem (total == b.num_peers) b) (λ _ b' (_, same).
        Ends.bind (released preckpt s.starting garbage b') (λ started d post.
          Ends.bind (check_lem started d) (λ _ d' (done, same').
            Ends.bind (completions_lem s.before_done s.finishing d') (λ _ f (_, count, kf).
              Ends.bind (manifest_lem s.manifest_written f) (λ _ g (pg, kg).
                Ends.bind (released postckpt s.resuming garbage g) (λ resumed h post'.
                  Ends.bind (check_lem resumed h) (λ _ h' (done', same'').
                    Ends.bind (finish_lem h') (λ _ l (pl, nl, el).
                      let (ph, kh) = post' done' in
                      let (_, kd) = post done in
                      returns (
                        refl,
                        resumed-IsComplete c.epoch f g h l
                            (kf.epoch
                              ∙ epoch_of same'
                              ∙ kd.epoch
                              ∙ epoch_of same
                              ∙ kb.epoch
                              ∙ ka.epoch)
                            (count ∙ sym kf.num_peers) (pg, kg) (ph, kh)
                            (subst
                              (λ x.
                                (l.procs ≡ x.procs)
                                × (l.num_peers ≡ x.num_peers)
                                × (l.epoch ≡ (x.epoch + 1) % 18446744073709551616))
                              same'' (pl, nl, el)),
                      )))))))))))

-- The two ways to go on, whether or not the directory was made.
made_lem :
    (made : Bool) (s : Schedule) (garbage : Msg) (c : Coord)
    → Ends
        (λ r c'. r ≡ complete → IsComplete c.epoch c')
        ((if made
            then take_checkpoint s garbage
            else (λ c'. returned failed (emit (unlinked_dir c'.xnd_uuid c'.epoch) c')))
          c)
made_lem true s garbage c = Ends.mono (take_checkpoint_lem s garbage c) (λ r c' (_, done) e. done)
made_lem false s garbage c = returns (λ e. absurd cc)

-- Where `coord_do_checkpoint` returns and reports a complete checkpoint, every process runs again,
-- there are as many processes as `num_peers` says, and the epoch is one higher, modulo 2 ^ 64.
pub do_checkpoint_complete :
    (s : Schedule) (garbage : Msg) (c : Coord)
    → Ends (λ r c'. r ≡ complete → IsComplete c.epoch c') (coord_do_checkpoint s garbage c)
unfolding coord_do_checkpoint
do_checkpoint_complete s garbage c =
    Ends.bind (collective_prepare_lem s.before_request c) (λ total b (_, kb).
      elim (Bool-cases (total == 0)) [
        | inl empty ↦ rw empty (returns (λ e. absurd cc))
        | inr others ↦ rw others (
            Ends.bind (suspend-Keeps s.suspending b) (λ _ d kd.
              Ends.mono (made_lem s.dir_created s garbage d)
                (λ r c' done e. subst (λ n. IsComplete n c') (kd.epoch ∙ kb.epoch) (done e))))
      ])
