-- ===== src/Tests/Migrations.antt =====
-- The migrations on concrete data.
use dodo_payment_gateway.Base.{
  ℕ, ◌≤◌, ◌≡◌, refl, String, true, false, some, List, [], ◌∷◌, find, count, select, order_by,
  insert_by, arith, eq_iff, ◌==◌, Bool-cases, subst, inl, inr,
}
use dodo_payment_gateway.Store.{Outcome}
use dodo_payment_gateway.Migrations.{
  Server, State, DirEntry, SqlReply, done, is_named, migration_files, run_migrations, str_leb,
  has_suffix, ◌>>=◌, statement, return,
}
use dodo_payment_gateway.Migrations.Sorted.{is_sorted}
use dodo_payment_gateway.Migrations.Exact.{with_files, run_migrations-exact}
use dodo_payment_gateway.Migrations.Once.{
  empty, is_of, runs, starts, applied-Once, Extends, empty-Once,
}
use dodo_payment_gateway.Migrations.Again.{run_migrations-again}

abbrev entries : List DirEntry
entries =
    record { name = "002_b.sql"; is_dir = false }
    ∷ record { name = "001_a.sql"; is_dir = false }
    ∷ record { name = "README.md"; is_dir = false }
    ∷ []

-- The text of a file is its name.
abbrev server : Server
server = record {
  dir = "migrations";
  read_dir = some entries;
  read_file = λ name. some name;
  outcome = λ n. Outcome.works;
  exec = λ sql scripts. SqlReply.accepted;
  has_businesses = λ scripts. false;
}

two_names : (name : String) → count (is_named name) ("001_a.sql" ∷ "002_b.sql" ∷ []) ≤ 1
unfolding count
two_names name = elim (Bool-cases ("001_a.sql" == name)) [
  | inl hit ↦
      subst (λ n. count (is_named n) ("001_a.sql" ∷ "002_b.sql" ∷ []) ≤ 1)
        ((eq_iff "001_a.sql" name).0 hit) (omega arith)
  | inr miss ↦ elim (Bool-cases ("002_b.sql" == name)) [
    | inl hit ↦ rw (miss, hit) (omega arith)
    | inr other ↦ rw (miss, other) (omega arith)
  ]
]

run_migrations-exact_example :
    (is_sorted str_leb ("001_a.sql" ∷ "002_b.sql" ∷ []) ≡ true)
    × (n : ℕ) × (run_migrations server empty
        ≡ (done tt, with_files (λ name. name) ("001_a.sql" ∷ "002_b.sql" ∷ []) n empty))
unfolding migration_files has_suffix select order_by insert_by find
run_migrations-exact_example =
    run_migrations-exact server (λ name. name) (λ n. refl) entries empty refl two_names refl
      (refl, refl, (refl, refl, tt))

abbrev migrated : State
migrated = (run_migrations server empty).1

applied-Once_example :
    (count (is_of "001_a.sql") migrated.scripts ≤ count (is_named "001_a.sql") migrated.recorded)
    × (count (is_named "001_a.sql") migrated.recorded ≤ 1)
    × Extends empty migrated
applied-Once_example = applied-Once (runs (starts empty) server) empty-Once "001_a.sql"

run_migrations-again_example :
    (n : ℕ) × (run_migrations server migrated ≡ (done tt, record migrated { tick = n }))
unfolding run_migrations ◌>>=◌ statement return order_by select find
run_migrations-again_example =
    run_migrations-again server server entries empty migrated refl refl (λ n. refl) refl
