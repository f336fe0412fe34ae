-- ===== src/Migrations/Exact.antt =====
-- Which files a run applies.
use mathlib.Core.List.{append_assoc, append-nil}
use dodo_payment_gateway.Base.{
  ℕ, suc, ◌≤◌, ◌≡◌, ◌∙◌, refl, sym, ap, subst, String, true, false, ◌||◌, not, some, List, [], ◌∷◌,
  ◌++◌, map, ltb, length, ◌==◌, find, is_some, count, insert, select, Bool-cases, Option-cases, inl,
  inr, arith, eq_iff, eq_refl, find-insert-some, find-insert-none,
}
use dodo_payment_gateway.Store.{Outcome}
use dodo_payment_gateway.Migrations.{
  Server, State, Script, SqlReply, MigrateError, DirEntry, done, return, statement, ◌>>=◌, is_named,
  is_recorded, commit_new, record_and_commit, after_exec, apply_file, read_and_apply, apply_pending,
  migrate_all, migration_files, run_migrations, str_leb, is_migration,
}
use dodo_payment_gateway.Migrations.Sorted.{is_sorted, names_sorted}
use dodo_payment_gateway.Migrations.Works.{
  statement-bind, bind-eq, file-recorded, record_existing_schema-skips, run_migrations-body,
}

-- The files that are not recorded.
abbrev pub pending : List String → State → List String
pending files s = select (λ name. not (is_recorded name s)) files

abbrev pub script : (String → String) → String → Script
script contents name = record { name = name; sql = contents name }

-- Each file can be read, and the database takes it after those before it.
abbrev pub Accepts : Server → (String → String) → List String → List Script → Type 0
Accepts server contents [] scripts = Unit {0}
Accepts server contents (name ∷ files) scripts =
    (server.read_file name ≡ some (contents name))
    × (server.exec (contents name) scripts ≡ SqlReply.accepted)
    × Accepts server contents files (insert (script contents name) scripts)

-- The state when `files` have been applied.
abbrev pub with_files : (String → String) → List String → ℕ → State → State
with_files contents files n s = record {
  tick = n;
  recorded = s.recorded ++ files;
  scripts = s.scripts ++ map (script contents) files;
}

recorded-insert :
    (name x : String) (s : State)
    → x == name ≡ false
    → is_some (find (is_named x) (insert name s.recorded)) ≡ is_recorded x s
recorded-insert name x s other = elim (Option-cases (find (is_named x) s.recorded)) [
  | inl gone ↦ ground (
    arith,
    gone,
    other,
    eq_iff name x,
    eq_iff x name,
    find-insert-none (is_named x) name s.recorded gone,
  )
  | inr (y, there) ↦ ground (arith, there, find-insert-some (is_named x) name y s.recorded there)
]

-- What is recorded of one file leaves the others pending.
pending-insert :
    (name : String) (files : List String) (s : State) (scripts : List Script) (n : ℕ)
    → count (is_named name) files ≡ 0
    → pending files (record { tick = n; recorded = insert name s.recorded; scripts = scripts })
      ≡ pending files s
unfolding select count
pending-insert name [] s scripts n h = refl
pending-insert name (x ∷ files) s scripts n h =
    let other : (x == name) ≡ false = ground (arith, h) in
    ground (
      arith,
      recorded-insert name x s other,
      pending-insert name files s scripts n (ground (arith, h)),
    )

pending-there :
    (name : String) (files : List String) (s : State)
    → is_recorded name s ≡ true
    → pending (name ∷ files) s ≡ pending files s
unfolding select
pending-there name files s there = rw there refl

pending-new :
    (name : String) (files : List String) (s : State)
    → is_recorded name s ≡ false
    → pending (name ∷ files) s ≡ name ∷ pending files s
unfolding select
pending-new name files s new = rw new refl

one-rest :
    (name : String) (files : List String)
    → ((x : String) → count (is_named x) (name ∷ files) ≤ 1)
    → (x : String) → count (is_named x) files ≤ 1
unfolding count
one-rest name files one x = omega (arith, one x)

one-new :
    (name : String) (files : List String)
    → count (is_named name) (name ∷ files) ≤ 1
    → count (is_named name) files ≡ 0
unfolding count
one-new name files one = ground (arith, one, eq_refl name)

module _ (server : Server) (contents : String → String)
    (works : (n : ℕ) → server.outcome n ≡ Outcome.works) where
  -- One file that is not recorded.
  apply_file-exact :
      (name : String) (s : State)
      → is_recorded name s ≡ false
      → server.exec (contents name) s.scripts ≡ SqlReply.accepted
      → apply_file server name (contents name) s
        ≡ (done tt, with_files contents (name ∷ []) (suc (suc (suc (suc s.tick)))) s)
  unfolding apply_file after_exec record_and_commit commit_new statement ◌>>=◌
  apply_file-exact name s new taken =
      rw
        (
          works s.tick,
          works (suc s.tick),
          taken,
          works (suc (suc s.tick)),
          new,
          works (suc (suc (suc s.tick))),
        )
        refl

  file-applied :
      (name : String) (s : State)
      → is_recorded name s ≡ false
      → server.read_file name ≡ some (contents name)
      → server.exec (contents name) s.scripts ≡ SqlReply.accepted
      → (n : ℕ) × ((statement server (MigrateError.check name) (λ s. (is_recorded name s, s))
              >>= λ applied. apply_pending server name applied)
            s
          ≡ (done tt, with_files contents (name ∷ []) n s))
  unfolding apply_pending read_and_apply
  file-applied name s new read taken = (
    suc (suc (suc (suc (suc s.tick)))),
    statement-bind server works _ _ _ s
        ∙ rw (new, read) (apply_file-exact name (record s { tick = suc s.tick }) new taken),
  )

  with-cons :
      (name : String) (files : List String) (n m : ℕ) (s : State)
      → with_files contents files n (with_files contents (name ∷ []) m s)
        ≡ with_files contents (name ∷ files) n s
  with-cons name files n m s i = record {
    tick = n;
    recorded = append_assoc s.recorded (name ∷ []) files i;
    scripts = append_assoc s.scripts (script contents name ∷ []) (map (script contents) files) i;
  }

  with-nil : (s : State) → with_files contents [] s.tick s ≡ s
  with-nil s i = record {
    tick = s.tick;
    recorded = append-nil s.recorded i;
    scripts = append-nil s.scripts i;
  }

  migrate_all-exact :
      (files : List String) (s : State)
      → ((name : String) → count (is_named name) files ≤ 1)
      → Accepts server contents (pending files s) s.scripts
      → (n : ℕ) × (migrate_all server files s
          ≡ (done tt, with_files contents (pending files s) n s))
  unfolding migrate_all return select count
  migrate_all-exact [] s one taken = (s.tick, ap (λ t. (done tt, t)) (sym (with-nil s)))
  migrate_all-exact (name ∷ files) s one taken = elim (Bool-cases (is_recorded name s)) [
    | inl there ↦
        let (n, rest) =
          migrate_all-exact files (record s { tick = suc s.tick }) (one-rest name files one)
            (subst (λ ps. Accepts server contents ps s.scripts) (pending-there name files s there)
              taken) in
        (
          n,
          bind-eq _ _ s (file-recorded server works name s there)
              ∙ rest
              ∙ ap (λ ps. (done tt, with_files contents ps n s))
                  (sym (pending-there name files s there)),
        )
    | inr new ↦
        let (read, exec, later) =
          subst (λ ps. Accepts server contents ps s.scripts) (pending-new name files s new) taken in
        let (m, done_first) = file-applied name s new read exec in
        let t = with_files contents (name ∷ []) m s in
        let same = pending-insert name files s t.scripts m (one-new name files (one name)) in
        let (n, rest) =
          migrate_all-exact files t (one-rest name files one)
            (subst (λ ps. Accepts server contents ps t.scripts) (sym same) later) in
        (
          n,
          bind-eq _ _ s done_first
              ∙ rest
              ∙ ap (λ ps. (done tt, with_files contents ps n t)) same
              ∙ ap (λ u. (done tt, u)) (with-cons name (pending files s) n m s)
              ∙ ap (λ ps. (done tt, with_files contents ps n s))
                  (sym (pending-new name files s new)),
        )
  ]

  -- While the server works, and unless an existing schema is taken as a baseline, a run applies exactly
  -- the files that are not recorded, each once and in the order of their names, records them, and
  -- returns no error: if their names differ, they can be read and the database accepts them one after
  -- another.
  pub run_migrations-exact :
      (entries : List DirEntry) (s : State)
      → server.read_dir ≡ some entries
      → ((name : String) → count (is_named name) (migration_files entries) ≤ 1)
      → not (server.has_businesses s.scripts) || ltb 0 (length s.recorded) ≡ true
      → Accepts server contents (pending (migration_files entries) s) s.scripts
      → (is_sorted str_leb (migration_files entries) ≡ true)
        × (n : ℕ) × (run_migrations server s
            ≡ (done tt, with_files contents (pending (migration_files entries) s) n s))
  unfolding migration_files
  run_migrations-exact entries s dir one skip taken =
      let files = migration_files entries in
      let begun = record s { tick = suc s.tick } in
      let (n, loop) =
        migrate_all-exact files (record s { tick = suc (suc (suc s.tick)) }) one taken in
      (
        names_sorted (map (λ e. e.name) (select is_migration entries)),
        n,
        run_migrations-body server works entries s {n = suc (suc (suc s.tick))} dir
            (record_existing_schema-skips server works files begun skip) loop,
      )
