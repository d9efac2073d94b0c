-- ===== src/Database/Migrations/Records.antt =====
-- What crates/infra/src/db/migrate.rs writes down, and that it applies a migration once.
use mathlib.Core.Path.{subst}
use kokkeak_api.Effect.{good, bad, Outcome, ◌>>◌, write, Method, Outcome-cases, bind_good, bind_bad}
use kokkeak_api.Database.Migrations.{
  Migration, MigrationDb, MigrateError, apply_batches, apply_migration, apply_pending,
  run_migrations, contains, acquired, tds, split_go_batches, read_applied,
}
use kokkeak_api.Prelude.{
  ℕ, String, [], ◌∷◌, refl, false, if◌then◌else◌, List, Option, ◌≡◌, Bool, str_eq, arith, ◌||◌, inl,
  inr, ◌++◌, Bool-cases, ◌+◌, length, ◌∙◌, ap, true, sym,
}
use kokkeak_api.Text.{trim}

abbrev pub has : List String → String → Bool
has [] v = false
has (w ∷ ws) v = str_eq w v || has ws v

-- The migrations that are not written down.
abbrev pub pending : List String → List Migration → List Migration
pending vs [] = []
pending vs (m ∷ ms) = if has vs m.version then pending vs ms else m ∷ pending vs ms

-- The versions of migrations, the last one first, on top of what is written down.
abbrev pub written : List Migration → List String → List String
written [] vs = vs
written (m ∷ ms) vs = written ms (m.version ∷ vs)

-- What is assumed of the database: `versions` are the rows of its table of versions. A query that is
-- answered gives these versions, in any order; to create the table if it is not there changes none of
-- its rows; an insertion that succeeds adds its version, and one that fails adds none.
pub record IsLawful {M : Type 0} (db : MigrationDb M) (versions : M → List String) : Type 0 where
  pub selected :
      (w : M) (vs : List (Option String))
      → db.select_applied w ≡ good vs
      → (v : String) → contains vs v ≡ has (versions w) v
  pub created : (w : M) → versions (db.create_table w).1 ≡ versions w
  pub inserted :
      (v : String) (w : M)
      → (db.insert_version v w).0 ≡ good tt
      → versions (db.insert_version v w).1 ≡ v ∷ versions w
  pub not_inserted :
      (v e : String) (w : M)
      → (db.insert_version v w).0 ≡ bad e
      → versions (db.insert_version v w).1 ≡ versions w

module _ {M : Type 0} (db : MigrationDb M) (versions : M → List String) where
  -- These batches, whether they succeed or fail, leave the rows of the table of versions alone.
  abbrev pub Apart : List String → Type 0
  Apart [] = Unit {0}
  Apart (b ∷ bs) = ((w : M) → versions (db.execute (trim b) w).1 ≡ versions w) × Apart bs

  abbrev pub AllApart : List Migration → Type 0
  AllApart [] = Unit {0}
  AllApart (m ∷ ms) = Apart (split_go_batches m.sql) × AllApart ms

module _ {M : Type 0} (db : MigrationDb M) (text : String → String → String)
    (versions : M → List String) (lawful : IsLawful db versions) where
  apply_batches-keeps :
      (bs : List String) (w : M)
      → Apart db versions bs
      → versions (apply_batches db text bs w).1 ≡ versions w
  unfolding apply_batches
  apply_batches-keeps [] w apart = refl
  apply_batches-keeps (b ∷ bs) w apart = ground (
    arith,
    apart.0 w,
    apply_batches-keeps bs w apart.1,
    apply_batches-keeps bs (db.execute (trim b) w).1 apart.1,
  )

  abbrev Applied : Migration → M → Outcome MigrateError (Unit {0}) × M → Type 0
  Applied m w (good u, w') = versions w' ≡ m.version ∷ versions w
  Applied m w (bad e, w') = versions w' ≡ versions w

  abbrev write_down : String → Method MigrateError M (Unit {0})
  write_down v = write (λ e. tds (text "insert migration" e)) (db.insert_version v)

  insert_version-Applied :
      (m : Migration) (w v : M) → versions v ≡ versions w → Applied m w (write_down m.version v)
  insert_version-Applied m w v same = elim (Outcome-cases (db.insert_version m.version v).0) [
    | inl (u, k) ↦
        let step : write_down m.version v ≡ (good u, (db.insert_version m.version v).1) =
          ground arith in
        subst (Applied m w) (sym step) (lawful.inserted m.version v k ∙ ap (◌∷◌ m.version) same)
    | inr (e, k) ↦
        let step : write_down m.version v
            ≡ (bad (tds (text "insert migration" e)), (db.insert_version m.version v).1) =
          ground arith in
        subst (Applied m w) (sym step) (lawful.not_inserted m.version e v k ∙ same)
  ]

  -- The batches of a migration, before it is written down.
  abbrev carried_out : Migration → Method MigrateError M (Unit {0})
  carried_out m = acquired db text >> apply_batches db text (split_go_batches m.sql)

  carried_out-keeps :
      (m : Migration) (w : M)
      → Apart db versions (split_go_batches m.sql)
      → versions (carried_out m w).1 ≡ versions w
  carried_out-keeps m w apart = ground (arith, apply_batches-keeps (split_go_batches m.sql) w apart)

  apply_migration-Applied :
      (m : Migration) (w : M)
      → Apart db versions (split_go_batches m.sql)
      → Applied m w (apply_migration db text m w)
  unfolding apply_migration
  apply_migration-Applied m w apart = elim (Outcome-cases (carried_out m w).0) [
    | inl (u, k) ↦
        subst (Applied m w) (sym (bind_good (carried_out m) (λ _. write_down m.version) w u k))
          (insert_version-Applied m w (carried_out m w).1 (carried_out-keeps m w apart))
    | inr (e, k) ↦
        subst (Applied m w) (sym (bind_bad (carried_out m) (λ _. write_down m.version) w e k))
          (carried_out-keeps m w apart)
  ]

  -- What a run leaves: of the migrations that were not written down, the first ones are, in their
  -- order; and all of them, counted, if it gives a number.
  abbrev pub Finished : List Migration → List Migration → ℕ → Outcome MigrateError ℕ → Type 0
  Finished done rest n (bad e) = Unit {0}
  Finished done rest n (good k) = (rest ≡ []) × (k ≡ n + length done)

  abbrev pub Recorded : List Migration → List String → ℕ → M → Outcome MigrateError ℕ × M → Type 0
  Recorded ms applied n w (o, w') =
      (done : List Migration) × (rest : List Migration) × (pending applied ms ≡ done ++ rest)
      × (versions w' ≡ written done (versions w))
      × Finished done rest n o

  Recorded-skipped :
      (vs : List String) (m : Migration) (ms : List Migration) (n : ℕ) (w : M)
      (out : Outcome MigrateError ℕ × M)
      → has vs m.version ≡ true
      → Recorded ms vs n w out
      → Recorded (m ∷ ms) vs n w out
  Recorded-skipped vs m ms n w (o, w') k (done, rest, parts, rows, finished) =
      (done, rest, ground arith, rows, finished)

  Recorded-stopped :
      (vs : List String) (ms : List Migration) (n : ℕ) (w w' : M) (e : MigrateError)
      → versions w' ≡ versions w
      → Recorded ms vs n w (bad e, w')
  Recorded-stopped vs ms n w w' e same = ([], pending vs ms, refl, same, tt)

  -- From a state with the same rows.
  Recorded-moved :
      (ms : List Migration) (vs : List String) (n : ℕ) (w v : M) (out : Outcome MigrateError ℕ × M)
      → versions v ≡ versions w
      → Recorded ms vs n v out
      → Recorded ms vs n w out
  Recorded-moved ms vs n w v (o, w') same (done, rest, parts, rows, finished) =
      (done, rest, parts, rows ∙ ap (written done) same, finished)

  Recorded-applied :
      (vs : List String) (m : Migration) (ms : List Migration) (n : ℕ) (w v : M)
      (out : Outcome MigrateError ℕ × M)
      → has vs m.version ≡ false
      → versions v ≡ m.version ∷ versions w
      → Recorded ms vs (n + 1) v out
      → Recorded (m ∷ ms) vs n w out
  Recorded-applied vs m ms n w v (good j, w') k row
        (done, rest, parts, rows, (none_left, counted)) =
      (m ∷ done, rest, ground arith, rw (sym row) rows, (none_left, omega arith))
  Recorded-applied vs m ms n w v (bad e, w') k row (done, rest, parts, rows, finished) =
      (m ∷ done, rest, ground arith, rw (sym row) rows, tt)

  Applied-good :
      (m : Migration) (w : M) (out : Outcome MigrateError (Unit {0}) × M) (u : Unit {0})
      → out.0 ≡ good u
      → Applied m w out
      → versions out.1 ≡ m.version ∷ versions w
  Applied-good m w (good a, w') u k h = h
  Applied-good m w (bad e, w') u k h = ground arith

  Applied-bad :
      (m : Migration) (w : M) (out : Outcome MigrateError (Unit {0}) × M) (e : MigrateError)
      → out.0 ≡ bad e
      → Applied m w out
      → versions out.1 ≡ versions w
  Applied-bad m w (good a, w') e k h = ground arith
  Applied-bad m w (bad e', w') e k h = h

  pub skipped_step :
      (vs : List String) (m : Migration) (ms : List Migration) (n : ℕ) (w : M)
      (applied : List (Option String))
      → ((v : String) → contains applied v ≡ has vs v)
      → has vs m.version ≡ true
      → apply_pending db text applied (m ∷ ms) n w ≡ apply_pending db text applied ms n w
  unfolding apply_pending
  skipped_step vs m ms n w applied same k = ground (arith, same m.version)

  applied_step :
      (vs : List String) (m : Migration) (ms : List Migration) (n : ℕ) (w : M)
      (applied : List (Option String))
      → ((v : String) → contains applied v ≡ has vs v)
      → has vs m.version ≡ false
      → apply_pending db text applied (m ∷ ms) n w
        ≡ (apply_migration db text m >> apply_pending db text applied ms (n + 1)) w
  unfolding apply_pending
  applied_step vs m ms n w applied same k = ground (arith, same m.version)

  apply_pending-round :
      (vs : List String) (m : Migration) (ms : List Migration) (n : ℕ) (w : M)
      (applied : List (Option String))
      → ((v : String) → contains applied v ≡ has vs v)
      → Apart db versions (split_go_batches m.sql)
      → has vs m.version ≡ false
      → Recorded ms vs
          (n + 1)
          (apply_migration db text m w).1
          (apply_pending db text applied ms (n + 1) (apply_migration db text m w).1)
      → Recorded (m ∷ ms) vs n w (apply_pending db text applied (m ∷ ms) n w)
  apply_pending-round vs m ms n w applied same apart k later =
      let onward = λ (u : Unit {0}). apply_pending db text applied ms (n + 1) in
      let one = apply_migration db text m in
      elim (Outcome-cases (one w).0) [
        | inl (u, g) ↦
            subst (Recorded (m ∷ ms) vs n w)
              (sym (applied_step vs m ms n w applied same k ∙ bind_good one onward w u g))
              (Recorded-applied vs m ms n w (one w).1 _ k
                (Applied-good m w (one w) u g (apply_migration-Applied m w apart)) later)
        | inr (e, g) ↦
            subst (Recorded (m ∷ ms) vs n w)
              (sym (applied_step vs m ms n w applied same k ∙ bind_bad one onward w e g))
              (Recorded-stopped vs (m ∷ ms) n w (one w).1 e
                (Applied-bad m w (one w) e g (apply_migration-Applied m w apart)))
      ]

  apply_pending-Recorded :
      (vs : List String) (ms : List Migration) (n : ℕ) (w : M) (applied : List (Option String))
      → ((v : String) → contains applied v ≡ has vs v)
      → AllApart db versions ms
      → Recorded ms vs n w (apply_pending db text applied ms n w)
  unfolding apply_pending
  apply_pending-Recorded vs [] n w applied same apart = ([], [], refl, refl, (refl, omega arith))
  apply_pending-Recorded vs (m ∷ ms) n w applied same apart = elim (Bool-cases (has vs m.version)) [
    | inl k ↦
        subst (Recorded (m ∷ ms) vs n w) (sym (skipped_step vs m ms n w applied same k))
          (Recorded-skipped vs m ms n w _ k (apply_pending-Recorded vs ms n w applied same apart.1))
    | inr k ↦
        apply_pending-round vs m ms n w applied same apart.0 k (
          apply_pending-Recorded vs ms (n + 1) (apply_migration db text m w).1 applied same apart.1)
  ]

  read_applied-keeps : (w : M) → versions (read_applied db text w).1 ≡ versions w
  read_applied-keeps w = ground (arith, lawful.created w)

  pub read_applied-good :
      (w : M) (vs : List (Option String))
      → (read_applied db text w).0 ≡ good vs
      → ((v : String) → contains vs v ≡ has (versions w) v)
        × (versions (read_applied db text w).1 ≡ versions w)
  read_applied-good w vs k =
      let answer : db.select_applied (db.create_table w).1 ≡ good vs = ground arith in
      (
        λ v.
            lawful.selected (db.create_table w).1 vs answer v
            ∙ ap (λ rows. has rows v) (lawful.created w),
        read_applied-keeps w,
      )

  -- A run on migrations whose batches leave the table of versions alone, whether it ends well or with
  -- an error, writes down the first of those that were not, in their order, each once, and nothing
  -- else; one that gives a number has written down all of them, and the number is theirs. (The database
  -- has the laws of `IsLawful`: a query gives the rows in any order, and an insertion that succeeds adds
  -- its version, while one that fails adds none.)
  pub run_migrations-Recorded :
      (ms : List Migration) (w : M)
      → AllApart db versions ms
      → Recorded ms (versions w) 0 w (run_migrations db text ms w)
  unfolding run_migrations
  run_migrations-Recorded [] w apart = ([], [], refl, refl, (refl, omega arith))
  run_migrations-Recorded (m ∷ ms) w apart =
      let onward = λ (vs : List (Option String)). apply_pending db text vs (m ∷ ms) 0 in
      elim (Outcome-cases (read_applied db text w).0) [
        | inl (vs, g) ↦
            let (all_rows, same) = read_applied-good w vs g in
            subst (Recorded (m ∷ ms) (versions w) 0 w)
              (sym (bind_good (read_applied db text) onward w vs g))
              (Recorded-moved (m ∷ ms) (versions w) 0 w (read_applied db text w).1 _ same (
                apply_pending-Recorded (versions w) (m ∷ ms) 0 (read_applied db text w).1 vs
                  all_rows apart))
        | inr (e, g) ↦
            subst (Recorded (m ∷ ms) (versions w) 0 w)
              (sym (bind_bad (read_applied db text) onward w e g))
              (Recorded-stopped (versions w) (m ∷ ms) 0 w (read_applied db text w).1 e
                (read_applied-keeps w))
      ]
