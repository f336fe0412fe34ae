-- ===== src/Migrations/Loop.antt =====
-- What every statement of a run of the migrations keeps, whatever fails.
use dodo_payment_gateway.Base.{
  ℕ, suc, ◌≡◌, String, Bool, true, false, ◌||◌, not, Option, none, some, List, [], ◌∷◌, ltb,
  if◌then◌else◌, insert, Bool-cases, inl, inr,
}
use dodo_payment_gateway.Store.{Outcome}
use dodo_payment_gateway.Migrations.{
  Server, State, SqlReply, Answer, MigrateError, DirEntry, Run, done, failed, return, raise, settle,
  statement, continue, ◌>>=◌, is_recorded, add_name, is_already_exists, baseline_all,
  baseline_unless, record_existing_schema, commit_new, record_and_commit, after_exec, apply_file,
  read_and_apply, apply_pending, migrate_all, migrate_entries, migration_files, run_migrations,
}

-- Kept as time goes by, when a new name is recorded, and when it is recorded with its script.
pub record Stable (P : State → Type 0) : Type 0 where
  pub later : (s : State) (n : ℕ) → P s → P (record s { tick = n })
  pub named :
      (name : String) (s : State)
      → is_recorded name s ≡ false
      → P s
      → P (record s { recorded = insert name s.recorded })
  pub applied :
      (name sql : String) (s : State)
      → is_recorded name s ≡ false
      → P s
      → P (record s {
        recorded = insert name s.recorded;
        scripts = insert (record { name = name; sql = sql }) s.scripts;
      })

module _ {P : State → Type 0} (stable : Stable P) where
  abbrev Keeps : {A : Type 0} → Run A → Type 0
  Keeps m = (s : State) → P s → P (m s).1

  module _ {A : Type 0} where
    settle-Keeps :
        (o : Outcome) (e : MigrateError) (s : State) (r : A × State)
        → P s
        → P r.1
        → P (settle o e s r).1
    settle-Keeps Outcome.works e s (a, s') h k = stable.later s' (suc s.tick) k
    settle-Keeps Outcome.fails e s (a, s') h k = stable.later s (suc s.tick) h
    settle-Keeps Outcome.unacknowledged e s (a, s') h k = stable.later s' (suc s.tick) k

    statement-Keeps :
        (server : Server) (e : MigrateError) (q : State → A × State)
        → ((s : State) → P s → P (q s).1)
        → Keeps (statement server e q)
    unfolding statement
    statement-Keeps server e q k s h = settle-Keeps (server.outcome s.tick) e s (q s) h (k s h)

    return-Keeps : (a : A) → Keeps (return a)
    unfolding return
    return-Keeps a s h = h

  raise-Keeps : (e : MigrateError) → Keeps (raise {A = Unit {0}} e)
  unfolding raise
  raise-Keeps e s h = h

  module _ {A B : Type 0} where
    continue-Keeps :
        (f : A → Run B) (r : Answer A × State)
        → ((a : A) → Keeps (f a))
        → P r.1
        → P (continue f r).1
    continue-Keeps f (done a, s) k h = k a s h
    continue-Keeps f (failed e, s) k h = h

    bind-Keeps : (m : Run A) (f : A → Run B) → Keeps m → ((a : A) → Keeps (f a)) → Keeps (m >>= f)
    unfolding ◌>>=◌
    bind-Keeps m f h k s p = continue-Keeps f (m s) k (h s p)

  add_name-Keeps : (name : String) (s : State) → P s → P (add_name name s).1
  add_name-Keeps name s h = elim (Bool-cases (is_recorded name s)) [
    | inl there ↦ rw there h
    | inr new ↦ rw new (stable.named name s new h)
  ]

  baseline_all-Keeps : (server : Server) (files : List String) → Keeps (baseline_all server files)
  unfolding baseline_all
  baseline_all-Keeps server [] = return-Keeps tt
  baseline_all-Keeps server (name ∷ files) =
      bind-Keeps _ _ (statement-Keeps server _ (add_name name) (add_name-Keeps name))
        (λ _. baseline_all-Keeps server files)

  baseline_unless-Keeps :
      (server : Server) (files : List String) (exists : Bool) (n : ℕ)
      → Keeps (baseline_unless server files exists n)
  unfolding baseline_unless
  baseline_unless-Keeps server files exists n = elim (Bool-cases (not exists || ltb 0 n)) [
    | inl skip ↦ rw skip (return-Keeps tt)
    | inr go ↦ rw go (baseline_all-Keeps server files)
  ]

  record_existing_schema-Keeps :
      (server : Server) (files : List String) → Keeps (record_existing_schema server files)
  unfolding record_existing_schema
  record_existing_schema-Keeps server files =
      bind-Keeps _ _ (statement-Keeps server _ _ (λ s h. h)) λ exists.
        bind-Keeps _ _ (statement-Keeps server _ _ (λ s h. h))
          λ n. baseline_unless-Keeps server files exists n

  commit_new-Keeps :
      (server : Server) (name sql : String) (s : State)
      → P s
      → P (commit_new server name sql (is_recorded name s) s).1
  unfolding commit_new raise statement
  commit_new-Keeps server name sql s h = elim (Bool-cases (is_recorded name s)) [
    | inl there ↦ rw there h
    | inr new ↦
        rw new
          (settle-Keeps (server.outcome s.tick) _ s (tt, _) h (stable.applied name sql s new h))
  ]

  checked-Keeps :
      (o : Outcome) (e : MigrateError) (server : Server) (name sql : String) (s : State)
      → P s
      → P (continue (commit_new server name sql) (settle o e s (is_recorded name s, s))).1
  checked-Keeps Outcome.works e server name sql s h =
      commit_new-Keeps server name sql (record s { tick = suc s.tick })
        (stable.later s (suc s.tick) h)
  checked-Keeps Outcome.fails e server name sql s h = stable.later s (suc s.tick) h
  checked-Keeps Outcome.unacknowledged e server name sql s h = stable.later s (suc s.tick) h

  record_and_commit-Keeps :
      (server : Server) (name sql : String) → Keeps (record_and_commit server name sql)
  unfolding record_and_commit statement ◌>>=◌
  record_and_commit-Keeps server name sql s h =
      checked-Keeps (server.outcome s.tick) (MigrateError.record_name name) server name sql s h

  after_exec-Keeps :
      (server : Server) (name sql : String) (reply : SqlReply)
      → Keeps (after_exec server name sql reply)
  unfolding after_exec
  after_exec-Keeps server name sql SqlReply.accepted = record_and_commit-Keeps server name sql
  after_exec-Keeps server name sql (SqlReply.rejected code) =
      elim (Bool-cases (is_already_exists code)) [
        | inl known ↦ rw known (statement-Keeps server _ (add_name name) (add_name-Keeps name))
        | inr other ↦ rw other (raise-Keeps (MigrateError.apply name))
      ]

  apply_pending-Keeps :
      (server : Server) (name : String) (o : Option String) (b : Bool)
      → Keeps (if b then return tt else read_and_apply server name o)
  unfolding read_and_apply apply_file
  apply_pending-Keeps server name o true = return-Keeps tt
  apply_pending-Keeps server name none false = raise-Keeps _
  apply_pending-Keeps server name (some sql) false =
      bind-Keeps _ _ (statement-Keeps server _ _ (λ s h. h)) λ _.
        bind-Keeps _ _ (statement-Keeps server _ _ (λ s h. h))
          λ reply. after_exec-Keeps server name sql reply

  pub migrate_all-Keeps : (server : Server) (files : List String) → Keeps (migrate_all server files)
  unfolding migrate_all apply_pending
  migrate_all-Keeps server [] = return-Keeps tt
  migrate_all-Keeps server (name ∷ files) =
      bind-Keeps _ _
        (bind-Keeps _ _ (statement-Keeps server _ _ (λ s h. h))
          (λ b. apply_pending-Keeps server name (server.read_file name) b))
        (λ _. migrate_all-Keeps server files)

  migrate_entries-Keeps :
      (server : Server) (o : Option (List DirEntry)) → Keeps (migrate_entries server o)
  unfolding migrate_entries
  migrate_entries-Keeps server none = raise-Keeps _
  migrate_entries-Keeps server (some entries) =
      bind-Keeps _ _ (record_existing_schema-Keeps server (migration_files entries))
        (λ _. migrate_all-Keeps server (migration_files entries))

  pub run_migrations-Keeps : (server : Server) → Keeps (run_migrations server)
  unfolding run_migrations
  run_migrations-Keeps server =
      bind-Keeps _ _ (statement-Keeps server _ _ (λ s h. h))
        (λ _. migrate_entries-Keeps server server.read_dir)
