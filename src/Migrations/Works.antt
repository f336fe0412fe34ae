-- ===== src/Migrations/Works.antt =====
-- What a run does while the server works.
use dodo_payment_gateway.Base.{
  ℕ, suc, ◌≡◌, ◌∙◌, refl, ap, String, true, ◌||◌, not, some, List, ltb, length,
}
use dodo_payment_gateway.Store.{Outcome}
use dodo_payment_gateway.Migrations.{
  Server, State, MigrateError, DirEntry, Run, done, return, statement, continue, ◌>>=◌, is_recorded,
  baseline_unless, record_existing_schema, apply_pending, migrate_all, migrate_entries,
  migration_files, run_migrations,
}

pub bind-eq :
    {A B : Type 0} (m : Run A) (f : A → Run B) (s : State) {a : A} {t : State}
    → m s ≡ (done a, t)
    → (m >>= f) s ≡ f a t
unfolding ◌>>=◌
bind-eq m f s h = ap (continue f) h

module _ (server : Server) (works : (n : ℕ) → server.outcome n ≡ Outcome.works) where
  -- A statement, then the rest.
  pub statement-bind :
      {A B : Type 0} (e : MigrateError) (q : State → A × State) (f : A → Run B) (s : State)
      → (statement server e q >>= f) s ≡ f (q s).0 (record (q s).1 { tick = suc s.tick })
  unfolding statement ◌>>=◌
  statement-bind e q f s = rw (works s.tick) refl

  -- The loop's body on one file.
  pub file-recorded :
      (name : String) (s : State)
      → is_recorded name s ≡ true
      → (statement server (MigrateError.check name) (λ s. (is_recorded name s, s)) >>= λ applied.
            apply_pending server name applied)
          s
        ≡ (done tt, record s { tick = suc s.tick })
  unfolding apply_pending return
  file-recorded name s there = statement-bind _ _ _ s ∙ rw there refl

  -- The baseline is not taken.
  pub record_existing_schema-skips :
      (files : List String) (s : State)
      → not (server.has_businesses s.scripts) || ltb 0 (length s.recorded) ≡ true
      → record_existing_schema server files s ≡ (done tt, record s { tick = suc (suc s.tick) })
  unfolding record_existing_schema baseline_unless return
  record_existing_schema-skips files s skip =
      statement-bind _ _ _ s ∙ statement-bind _ _ _ (record s { tick = suc s.tick }) ∙ rw skip refl

  -- The whole run, from its two parts.
  pub run_migrations-body :
      (entries : List DirEntry) (s : State) {n : ℕ} {t : State}
      → server.read_dir ≡ some entries
      → record_existing_schema server (migration_files entries) (record s { tick = suc s.tick })
        ≡ (done tt, record s { tick = n })
      → migrate_all server (migration_files entries) (record s { tick = n }) ≡ (done tt, t)
      → run_migrations server s ≡ (done tt, t)
  unfolding run_migrations migrate_entries
  run_migrations-body entries s dir base loop =
      statement-bind _ _ _ s
      ∙ ap (λ o. migrate_entries server o (record s { tick = suc s.tick })) dir
      ∙ bind-eq _ _ (record s { tick = suc s.tick }) base
      ∙ loop
