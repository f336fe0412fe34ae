-- ===== src/Migrations.antt =====
-- internal/database/migrate.go: the SQL files of a directory, applied in the order of their names.
--
-- The tables of the schema are what the scripts that were committed have made of them, so that the
-- database is the list of those scripts, beside the table schema_migrations; one that is not there yet
-- has no rows. A statement works, fails without effect or loses its acknowledgement, by its tick.
pub mod Sorted
pub mod Loop
pub mod Works
pub mod Exact
pub mod Once
pub mod Done
pub mod Again
use Prim.Native.String
use dodo_payment_gateway.Base.{
  ℕ, suc, String, Bool, true, false, ◌&&◌, ◌||◌, not, Option, none, some, List, [], ◌∷◌, map, ltb,
  length, str_ltb, ◌==◌, if◌then◌else◌, find, is_some, insert, select, order_by,
}
use dodo_payment_gateway.Store.{Outcome}

pub data MigrateError : Type 0 where
  create_table begin commit query : MigrateError
  read_dir read check apply record_name baseline : String → MigrateError

pub data Answer (A : Type 0) : Type 0 where
  done : A → Answer A
  failed : MigrateError → Answer A

pub record DirEntry : Type 0 where
  pub name : String
  pub is_dir : Bool

pub record Script : Type 0 where
  pub name : String
  pub sql : String

-- What the database says to a script: an error has the code of a pgconn.PgError.
pub data SqlReply : Type 0 where
  accepted : SqlReply
  rejected : String → SqlReply

-- The directory and the database server, which are not the program's.
pub record Server : Type 0 where
  pub dir : String
  pub read_dir : Option (List DirEntry)
  pub read_file : String → Option String
  pub outcome : ℕ → Outcome
  pub exec : String → List Script → SqlReply
  pub has_businesses : List Script → Bool

pub record State : Type 0 where
  pub tick : ℕ
  pub recorded : List String
  pub scripts : List Script

abbrev pub Run : Type 0 → Type 0
Run A = State → Answer A × State

module _ {A : Type 0} where
  unfoldable pub return : A → Run A
  return a s = (done a, s)

  unfoldable pub raise : MigrateError → Run A
  raise e s = (failed e, s)

  abbrev pub settle : Outcome → MigrateError → State → A × State → Answer A × State
  settle Outcome.works e s (a, s') = (done a, record s' { tick = suc s.tick })
  settle Outcome.fails e s _ = (failed e, record s { tick = suc s.tick })
  settle Outcome.unacknowledged e s (_, s') = (failed e, record s' { tick = suc s.tick })

  unfoldable pub statement : Server → MigrateError → (State → A × State) → Run A
  statement server e q s = settle (server.outcome s.tick) e s (q s)

abbrev pub continue : {A B : Type 0} → (A → Run B) → Answer A × State → Answer B × State
continue f (done a, s) = f a s
continue f (failed e, s) = (failed e, s)

infixl 5 ◌>>=◌ ◌>>◌
unfoldable pub ◌>>=◌ : {A B : Type 0} → Run A → (A → Run B) → Run B
m >>= f = λ s. continue f (m s)

abbrev pub ◌>>◌ : {A B : Type 0} → Run A → Run B → Run B
m >> k = m >>= λ _. k

-- strings.HasSuffix
unfoldable pub has_suffix : String → String → Bool
has_suffix String.[] suffix = suffix == ""
has_suffix (String.◌∷◌ c text) suffix =
    let rest = has_suffix text suffix in if (String.◌∷◌ c text) == suffix then true else rest

abbrev pub is_migration : DirEntry → Bool
is_migration entry = not (entry.is_dir || not (has_suffix entry.name ".sql"))

-- `sort.Strings` puts texts in the order of their bytes, which is that of their code points.
abbrev pub str_leb : String → String → Bool
str_leb a b = not (str_ltb b a)

unfoldable pub migration_files : List DirEntry → List String
unfolding has_suffix
migration_files entries = order_by str_leb (map (λ e. e.name) (select is_migration entries))

abbrev pub is_named : String → String → Bool
is_named name other = other == name

abbrev pub is_recorded : String → State → Bool
is_recorded name s = is_some (find (is_named name) s.recorded)

-- INSERT INTO schema_migrations … ON CONFLICT DO NOTHING
abbrev pub add_name : String → State → Unit {0} × State
add_name name s =
    (tt, if is_recorded name s then s else record s { recorded = insert name s.recorded })

unfoldable pub is_already_exists : String → Bool
is_already_exists code = code == "42P07" || code == "42710" || code == "42701"

unfoldable pub baseline_all : Server → List String → Run (Unit {0})
baseline_all server [] = return tt
baseline_all server (name ∷ files) =
    let rest = baseline_all server files in
    statement server (MigrateError.baseline name) (add_name name) >> rest

unfoldable pub baseline_unless : Server → List String → Bool → ℕ → Run (Unit {0})
unfolding baseline_all
baseline_unless server files businesses_exists recorded =
    if not businesses_exists || ltb 0 recorded then return tt else baseline_all server files

unfoldable pub record_existing_schema : Server → List String → Run (Unit {0})
unfolding baseline_unless
record_existing_schema server files = do
  businesses_exists ←
      statement server MigrateError.query (λ s. (server.has_businesses s.scripts, s))
  recorded ← statement server MigrateError.query (λ s. (length s.recorded, s))
  baseline_unless server files businesses_exists recorded

-- The INSERT into schema_migrations and the COMMIT of the transaction that has run the script. The
-- primary key of the table is checked; before the COMMIT nothing is changed.
unfoldable pub commit_new : Server → String → String → Bool → Run (Unit {0})
commit_new server name sql true = raise (MigrateError.record_name name)
commit_new server name sql false = statement server MigrateError.commit λ s. (
  tt,
  record s {
    recorded = insert name s.recorded;
    scripts = insert (record { name = name; sql = sql }) s.scripts;
  },
)

unfoldable pub record_and_commit : Server → String → String → Run (Unit {0})
unfolding commit_new
record_and_commit server name sql = do
  duplicate ← statement server (MigrateError.record_name name) (λ s. (is_recorded name s, s))
  commit_new server name sql duplicate

-- After the script: on an error the transaction is rolled back.
unfoldable pub after_exec : Server → String → String → SqlReply → Run (Unit {0})
unfolding record_and_commit is_already_exists
after_exec server name sql SqlReply.accepted = record_and_commit server name sql
after_exec server name sql (SqlReply.rejected code) =
    if is_already_exists code
    then statement server (MigrateError.record_name name) (add_name name)
    else raise (MigrateError.apply name)

unfoldable pub apply_file : Server → String → String → Run (Unit {0})
unfolding after_exec
apply_file server name sql = do
  statement server MigrateError.begin (λ s. (tt, s))
  reply ← statement server (MigrateError.apply name) (λ s. (server.exec sql s.scripts, s))
  after_exec server name sql reply

unfoldable pub read_and_apply : Server → String → Option String → Run (Unit {0})
unfolding apply_file
read_and_apply server name none = raise (MigrateError.read name)
read_and_apply server name (some sql) = apply_file server name sql

unfoldable pub apply_pending : Server → String → Bool → Run (Unit {0})
unfolding read_and_apply
apply_pending server name applied =
    if applied then return tt else read_and_apply server name (server.read_file name)

unfoldable pub migrate_all : Server → List String → Run (Unit {0})
unfolding apply_pending
migrate_all server [] = return tt
migrate_all server (name ∷ files) =
    let rest = migrate_all server files in
    (statement server (MigrateError.check name) (λ s. (is_recorded name s, s)) >>= λ applied.
    apply_pending server name applied)
    >> rest

unfoldable pub migrate_entries : Server → Option (List DirEntry) → Run (Unit {0})
unfolding migration_files record_existing_schema migrate_all
migrate_entries server none = raise (MigrateError.read_dir server.dir)
migrate_entries server (some entries) = do
  record_existing_schema server (migration_files entries)
  migrate_all server (migration_files entries)

unfoldable pub run_migrations : Server → Run (Unit {0})
unfolding migrate_entries
run_migrations server = do
  statement server MigrateError.create_table (λ s. (tt, s))
  migrate_entries server server.read_dir
