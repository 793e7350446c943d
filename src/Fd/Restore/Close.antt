-- ===== src/Fd/Restore/Close.antt =====
-- The third loop of `fd_table_restore`, which closes the standard descriptors that are not in use.
use ckpt.Prelude.{
  ℕ, suc, ◌<◌, ◌≡◌, ◌≢◌, inl, inr, refl, sym, ap, subst, ◌∙◌, Option, none, some, List, ◌==◌,
  Bool-cases, ==_iff, ==_false, arith,
}
use ckpt.Fd.Base.{slot}
use ckpt.Fd.Restore.{Kernel, close_null, close_unused}
use ckpt.Fd.Restore.Laws.{IsLawful}
use ckpt.Fd.Restore.Inherit.{earlier}

-- What closing the unused descriptors leaves of the system's state.
pub record Closed (K : Kernel) (slots : List (Option ℕ)) (n : ℕ) (os os' : K.State) : Type 0 where
  pub used :
      (x a : ℕ)
      → slot slots x ≡ some a
      → (K.description os' x ≡ K.description os x)
        × ((e : ℕ) → K.description os x ≡ some e → K.file os' e ≡ K.file os e)
  pub places : (d : ℕ) → K.position os' d ≡ K.position os d
  pub unused : (x : ℕ) → x < n → slot slots x ≡ none → K.description os' x ≡ none

close_step :
    (K : Kernel) (slots : List (Option ℕ))
    → IsLawful K
    → (n : ℕ) (v : Option ℕ) (os os' : K.State) → slot slots n ≡ v
    → Closed K slots n os os'
    → Closed K slots (suc n) os (close_null K n v os')
close_step K slots laws n (some a) os os' e p = record {
  used = p.used;
  places = p.places;
  unused = λ x h absent. elim (Bool-cases (x == n)) [
    | inl is ↦
        let bad : some a ≡ none = sym e ∙ ap (slot slots) (sym ((==_iff x n).0 is)) ∙ absent in cc
    | inr far ↦ p.unused x (earlier x n h (==_false x n far)) absent
  ];
}
close_step K slots laws n none os os' e p =
    let (closed, others, files) = laws.close_lem n os' in
    record {
      used = λ x a at.
          let far : x ≢ n =
            λ is. let bad : some a ≡ none = sym at ∙ ap (slot slots) is ∙ e in ground arith in
          let (same, file) = p.used x a at in
          (others x far ∙ same, λ d found. files x d far (same ∙ found) ∙ file d found);
      places = λ d. laws.close_position n os' d ∙ p.places d;
      unused = λ x h absent. elim (Bool-cases (x == n)) [
        | inl is ↦
            subst (λ z. K.description (K.close n os') z ≡ none) (sym ((==_iff x n).0 is)) closed
        | inr far ↦
            let other = ==_false x n far in others x other ∙ p.unused x (earlier x n h other) absent
      ];
    }

pub close_lem :
    (K : Kernel) (slots : List (Option ℕ)) (os : K.State)
    → IsLawful K
    → Closed K slots 3 os (close_unused K slots os)
unfolding close_unused
close_lem K slots os laws =
    let none_closed : Closed K slots 0 os os = record {
      used = λ x a at. (refl, λ e found. refl);
      places = λ d. refl;
      unused = λ x h. absurd (omega (arith, h));
    } in
    close_step K slots laws 2 _ os _ refl
      (close_step K slots laws 1 _ os _ refl (close_step K slots laws 0 _ os _ refl none_closed))
