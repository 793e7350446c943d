-- ===== src/Pid/Table/Restart.antt =====
-- pid_table_postrestart of xnd/pid/pid_table.cpp.
use ckpt.Prelude.{
  ℕ, ◌≡◌, refl, true, false, Bool, ◌&&◌, ◌||◌, not, Option, none, some, List, [], ◌∷◌, ◌++◌, arith,
  ◌==◌, if◌then◌else◌, minus_one,
}
use ckpt.Pid.Table.{
  Entries, PidInfo, known, update, erase, virtual_id_exists, virtual_to_real, refresh, refresh_all,
  erase_all, pid_table_postrestart,
}
use ckpt.Pid.Table.Laws.{
  virtual_to_real-update, virtual_to_real-erase, exists-update, virtual_to_real-none,
}

has : List ℕ → ℕ → Bool
has [] k = false
has (x ∷ xs) k = x == k || has xs k

has-append_one : (xs : List ℕ) (x k : ℕ) → has (xs ++ (x ∷ [])) k ≡ (has xs k || x == k)
unfolding has
has-append_one [] x k = ground arith
has-append_one (y ∷ xs) x k = ground (arith, has-append_one xs x k)

virtual_to_real-erase_all :
    (xs : List ℕ) (table : Entries) (k : ℕ)
    → virtual_to_real (erase_all xs table) k ≡ (if has xs k then none else virtual_to_real table k)
unfolding has erase_all
virtual_to_real-erase_all [] table k = refl
virtual_to_real-erase_all (x ∷ xs) table k =
    ground (arith, virtual_to_real-erase_all xs (erase table x) k, virtual_to_real-erase table x k)

module _ (ask : ℕ → ℕ) (info : PidInfo) where
  own : ℕ → Bool
  own k = k == info.virt_pid || k == info.virt_ppid

  -- What a loop over `rest` leaves of the table and of the ids to erase.
  refresh_all_table :
      (rest table : Entries) (erased : List ℕ) (k : ℕ)
      → virtual_to_real (refresh_all ask info rest (table, erased)).0 k ≡ (
          if virtual_id_exists rest k && not (own k) && not (ask k == minus_one)
          then some (ask k)
          else virtual_to_real table k)
  unfolding refresh refresh_all own virtual_id_exists
  refresh_all_table [] table erased k = refl
  refresh_all_table ((v, r) ∷ rest) table erased k = ground (
    arith,
    refresh_all_table rest table erased k,
    refresh_all_table rest table (erased ++ (v ∷ [])) k,
    refresh_all_table rest (update table v (ask v)) erased k,
    virtual_to_real-update table v (ask v) k,
  )

  refresh_all_erased :
      (rest table : Entries) (erased : List ℕ) (k : ℕ)
      → has (refresh_all ask info rest (table, erased)).1 k
        ≡ (has erased k || (virtual_id_exists rest k && not (own k) && ask k == minus_one))
  unfolding refresh refresh_all own virtual_id_exists
  refresh_all_erased [] table erased k = ground arith
  refresh_all_erased ((v, r) ∷ rest) table erased k = ground (
    arith,
    refresh_all_erased rest table erased k,
    refresh_all_erased rest table (erased ++ (v ∷ [])) k,
    refresh_all_erased rest (update table v (ask v)) erased k,
    has-append_one erased v k,
  )

-- The translation of `k` that a table should give after a restart.
abbrev pub restarted : (pid ppid : ℕ) (ask : ℕ → ℕ) → PidInfo → Entries → ℕ → Option ℕ
restarted pid ppid ask info table k =
    if k == info.virt_ppid
    then some ppid
    else if k == info.virt_pid
    then some pid
    else if virtual_id_exists table k && not (ask k == minus_one)
    then some (ask k)
    else none

-- After a restart a process with known ids translates its own id and its parent's to what the
-- kernel says now, every other id of its table to what the coordinator says, and none that the
-- coordinator does not know, or that the table did not hold.
pub postrestart_lookup :
    (pid ppid : ℕ) (ask : ℕ → ℕ) (info : PidInfo) (table : Entries)
    → known info ≡ true
    → (table' : Entries) × (pid_table_postrestart pid ppid ask info table
        ≡ some (record info { real_pid = pid; real_ppid = ppid }, table'))
      × ((k : ℕ) → virtual_to_real table' k ≡ restarted pid ppid ask info table k)
unfolding pid_table_postrestart own has
postrestart_lookup pid ppid ask info table h = (erase_all (swept.1) (swept.0), rw h, λ k. lookup k)
  where
    info' : PidInfo
    info' = record info { real_pid = pid; real_ppid = ppid }

    start : Entries
    start = update (update table info.virt_pid pid) info.virt_ppid ppid

    swept : Entries × List ℕ
    swept = refresh_all ask info' start (start, [])

    lookup :
        (k : ℕ)
        → virtual_to_real (erase_all (swept.1) (swept.0)) k ≡ restarted pid ppid ask info table k
    lookup k = ground (
      arith,
      virtual_to_real-erase_all (swept.1) (swept.0) k,
      refresh_all_table ask info' start start [] k,
      refresh_all_erased ask info' start start [] k,
      virtual_to_real-update (update table info.virt_pid pid) info.virt_ppid ppid k,
      virtual_to_real-update table info.virt_pid pid k,
      exists-update (update table info.virt_pid pid) info.virt_ppid ppid k,
      exists-update table info.virt_pid pid k,
      virtual_to_real-none table k,
    )
