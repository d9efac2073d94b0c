-- ===== src/Database/Migrations/Again.antt =====
-- A second run of crates/infra/src/db/migrate.rs.
use mathlib.Core.List.{append-nil}
use kokkeak_api.Effect.{good, bad, Outcome, bind_good}
use kokkeak_api.Database.Migrations.{
  Migration, MigrationDb, MigrateError, apply_pending, run_migrations, read_applied, contains,
}
use kokkeak_api.Database.Migrations.Records.{
  has, pending, written, IsLawful, skipped_step, read_applied-good, run_migrations-Recorded,
  Recorded, AllApart,
}
use kokkeak_api.Prelude.{
  ℕ, String, [], ◌∷◌, refl, true, inl, inr, List, Option, ◌≡◌, Bool-cases, arith, ◌∙◌, eq_refl, ap,
  sym, ◌++◌,
}

has-written :
    (ds : List Migration) (us : List String) (v : String)
    → has us v ≡ true
    → has (written ds us) v ≡ true
has-written [] us v h = h
has-written (d ∷ ds) us v h = has-written ds (d.version ∷ us) v (ground arith)

-- Once what was pending is written down, nothing is.
pending-written :
    (vs : List String) (ms : List Migration) (us : List String)
    → ((v : String) → has vs v ≡ true → has us v ≡ true)
    → pending (written (pending vs ms) us) ms ≡ []
pending-written vs [] us h = refl
pending-written vs (m ∷ ms) us h = elim (Bool-cases (has vs m.version)) [
  | inl k ↦
      ground (
        arith,
        has-written (pending vs ms) us m.version (h m.version k),
        pending-written vs ms us h,
      )
  | inr k ↦ ground (
    arith,
    has-written (pending vs ms) (m.version ∷ us) m.version (ground (arith, eq_refl m.version)),
    pending-written vs ms (m.version ∷ us) (λ v q. ground (arith, h v q)),
  )
]

module _ {M : Type 0} (db : MigrationDb M) (text : String → String → String)
    (versions : M → List String) (lawful : IsLawful db versions) where
  apply_pending_none :
      (vs : List String) (ms : List Migration) (n : ℕ) (w : M) (applied : List (Option String))
      → ((v : String) → contains applied v ≡ has vs v)
      → pending vs ms ≡ []
      → apply_pending db text applied ms n w ≡ (good n, w)
  unfolding apply_pending
  apply_pending_none vs [] n w applied same h = refl
  apply_pending_none vs (m ∷ ms) n w applied same h = elim (Bool-cases (has vs m.version)) [
    | inl k ↦
        skipped_step db text versions lawful vs m ms n w applied same k
        ∙ apply_pending_none vs ms n w applied same (ground arith)
    | inr k ↦ ground arith
  ]

  Recorded-settled :
      (ms : List Migration) (w : M) (k : ℕ) (out : Outcome MigrateError ℕ × M)
      → out.0 ≡ good k
      → Recorded db text versions lawful ms (versions w) 0 w out
      → pending (versions out.1) ms ≡ []
  Recorded-settled ms w k (good j, w') h (done, rest, parts, rows, (none_left, counted)) =
      let all_done : done ≡ pending (versions w) ms =
        sym (parts ∙ ap (done ++◌) none_left ∙ append-nil done) in
      ap (λ us. pending us ms) (rows ∙ ap (λ ds. written ds (versions w)) all_done)
      ∙ pending-written (versions w) ms (versions w) (λ v q. q)
  Recorded-settled ms w k (bad e, w') h recorded = ground arith

  run_settled :
      (ms : List Migration) (w : M) (vs : List (Option String))
      → pending (versions w) ms ≡ []
      → (read_applied db text w).0 ≡ good vs
      → ((run_migrations db text ms w).0 ≡ good 0)
        × (versions (run_migrations db text ms w).1 ≡ versions w)
  unfolding run_migrations
  run_settled [] w vs h r = (refl, refl)
  run_settled (m ∷ ms) w vs h r =
      let (all_rows, same) = read_applied-good db text versions lawful w vs r in
      let onward = λ (us : List (Option String)). apply_pending db text us (m ∷ ms) 0 in
      let step : run_migrations db text (m ∷ ms) w ≡ (good 0, (read_applied db text w).1) =
        bind_good (read_applied db text) onward w vs r
        ∙ apply_pending_none (versions w) (m ∷ ms) 0 (read_applied db text w).1 vs all_rows h in
      (ap (λ out. out.0) step, ap (λ out. versions out.1) step ∙ same)

  -- After a run that ended well, on migrations whose batches leave the table of versions alone, a second
  -- run on the same migrations applies none: if it can read what is written down, it gives 0 and leaves
  -- the rows of the table as they were. (The database has the laws of `IsLawful`: a query gives the rows
  -- in any order, and an insertion that succeeds adds its version, while one that fails adds none.)
  pub run_migrations_again :
      (ms : List Migration) (w : M) (k : ℕ) (vs : List (Option String))
      → AllApart db versions ms
      → (run_migrations db text ms w).0 ≡ good k
      → (read_applied db text (run_migrations db text ms w).1).0 ≡ good vs
      → ((run_migrations db text ms (run_migrations db text ms w).1).0 ≡ good 0)
        × (versions (run_migrations db text ms (run_migrations db text ms w).1).1
            ≡ versions (run_migrations db text ms w).1)
  run_migrations_again ms w k vs apart h r =
      let nothing_left =
        Recorded-settled ms w k (run_migrations db text ms w) h
          (run_migrations-Recorded db text versions lawful ms w apart) in
      run_settled ms (run_migrations db text ms w).1 vs nothing_left r
