-- ===== src/Migrations/Again.antt =====
-- A run after a run that has returned no error.
use dodo_payment_gateway.Base.{
  ℕ, suc, ◌≡◌, ◌∙◌, refl, String, true, ◌||◌, not, none, some, List, [], ◌∷◌, ltb, length, find,
  count, Bool-cases, inl, inr, arith, eq_refl,
}
use dodo_payment_gateway.Store.{Outcome}
use dodo_payment_gateway.Migrations.{
  Server, State, DirEntry, done, return, is_named, is_recorded, baseline_all, baseline_unless,
  record_existing_schema, migrate_all, migration_files, run_migrations,
}
use dodo_payment_gateway.Migrations.Works.{
  statement-bind, bind-eq, file-recorded, run_migrations-body,
}
use dodo_payment_gateway.Migrations.Done.{AllRecorded, run-AllRecorded}

length-find :
    (name : String) (names : List String) → length names ≡ 0 → find (is_named name) names ≡ none
unfolding find
length-find name [] h = refl
length-find name (x ∷ names) h = absurd (omega (arith, h))

-- With nothing recorded there is no file.
baseline_all-idle :
    (server : Server) (files : List String) (s : State)
    → AllRecorded files s
    → length s.recorded ≡ 0
    → baseline_all server files s ≡ (done tt, s)
unfolding baseline_all return count
baseline_all-idle server [] s all none_yet = refl
baseline_all-idle server (file ∷ files) s all none_yet =
    absurd (
      ground (arith, all file (ground (arith, eq_refl file)), length-find file s.recorded none_yet))

module _ (server : Server) (works : (n : ℕ) → server.outcome n ≡ Outcome.works) where
  first-recorded :
      (file : String) (files : List String) (s : State)
      → AllRecorded (file ∷ files) s
      → (is_recorded file s ≡ true) × AllRecorded files s
  unfolding count
  first-recorded file files s all =
      (all file (ground (arith, eq_refl file)), λ name some_of. all name (omega (arith, some_of)))

  migrate_all-idle :
      (files : List String) (s : State)
      → AllRecorded files s
      → (n : ℕ) × (migrate_all server files s ≡ (done tt, record s { tick = n }))
  unfolding migrate_all return
  migrate_all-idle [] s all = (s.tick, refl)
  migrate_all-idle (file ∷ files) s all =
      let (there, others) = first-recorded file files s all in
      let (n, rest) = migrate_all-idle files (record s { tick = suc s.tick }) others in
      (n, bind-eq _ _ s (file-recorded server works file s there) ∙ rest)

  record_existing_schema-idle :
      (files : List String) (s : State)
      → AllRecorded files s
      → (n : ℕ) × (record_existing_schema server files s ≡ (done tt, record s { tick = n }))
  unfolding record_existing_schema baseline_unless return
  record_existing_schema-idle files s all = (
    suc (suc s.tick),
    statement-bind server works _ _ _ s
        ∙ statement-bind server works _ _ _ (record s { tick = suc s.tick })
        ∙ elim (Bool-cases (not (server.has_businesses s.scripts) || ltb 0 (length s.recorded))) [
          | inl skip ↦ rw skip refl
          | inr go ↦ rw go (
              baseline_all-idle server files (record s { tick = suc (suc s.tick) }) all
                (ground (arith, go)))
        ],
  )

-- Once a run has returned no error, whatever it did, a run over the same file names while the server
-- works does nothing: it returns no error, and no name is recorded and no script is run.
pub run_migrations-again :
    (server later : Server) (entries : List DirEntry) (s t : State)
    → server.read_dir ≡ some entries
    → run_migrations server s ≡ (done tt, t)
    → ((n : ℕ) → later.outcome n ≡ Outcome.works)
    → later.read_dir ≡ some entries
    → (n : ℕ) × (run_migrations later t ≡ (done tt, record t { tick = n }))
run_migrations-again server later entries s t dir h works same_dir =
    let files = migration_files entries in
    let all = run-AllRecorded server entries s dir h in
    let (m, base) =
      record_existing_schema-idle later works files (record t { tick = suc t.tick }) all in
    let (n, loop) = migrate_all-idle later works files (record t { tick = m }) all in
    (n, run_migrations-body later works entries t {n = m} same_dir base loop)
