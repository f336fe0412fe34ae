-- ===== src/Migrations/Done.antt =====
-- What is recorded once a run has returned no error.
use dodo_payment_gateway.Base.{
  suc, ◌<◌, ◌≡◌, ◌∙◌, refl, sym, ap, subst, String, Bool, true, false, Option, none, some, List, [],
  ◌∷◌, ◌==◌, find, is_some, count, insert, Bool-cases, Option-cases, inl, inr, arith, eq_iff,
  eq_refl, find-insert-some, find-insert-none,
}
use dodo_payment_gateway.Store.{Outcome}
use dodo_payment_gateway.Migrations.{
  Server, State, SqlReply, Answer, MigrateError, DirEntry, Run, done, failed, return, raise, settle,
  statement, continue, ◌>>=◌, is_named, is_recorded, add_name, is_already_exists, commit_new,
  record_and_commit, after_exec, apply_file, read_and_apply, apply_pending, migrate_all,
  migrate_entries, migration_files, run_migrations,
}
use dodo_payment_gateway.Migrations.Loop.{Stable, migrate_all-Keeps}

recorded-grows :
    (name x : String) (s : State)
    → is_recorded x s ≡ true
    → is_some (find (is_named x) (insert name s.recorded)) ≡ true
recorded-grows name x s h = elim (Option-cases (find (is_named x) s.recorded)) [
  | inl gone ↦ absurd (ground (arith, h, gone))
  | inr (y, there) ↦ ground (arith, find-insert-some (is_named x) name y s.recorded there)
]

recorded-new :
    (name : String) (s : State) → is_some (find (is_named name) (insert name s.recorded)) ≡ true
recorded-new name s = elim (Option-cases (find (is_named name) s.recorded)) [
  | inl gone ↦ ground (arith, find-insert-none (is_named name) name s.recorded gone, eq_refl name)
  | inr (y, there) ↦ ground (arith, find-insert-some (is_named name) name y s.recorded there)
]

-- A name that is recorded stays so.
recorded-Stable : (x : String) → Stable (λ s. is_recorded x s ≡ true)
recorded-Stable x = record {
  later = λ s n h. h;
  named = λ name s new h. recorded-grows name x s h;
  applied = λ name sql s new h. recorded-grows name x s h;
}

continue-done :
    {A B : Type 0} (f : A → Run B) (r : Answer A × State) {b : B} {t : State}
    → continue f r ≡ (done b, t)
    → (a : A) × (u : State) × (r ≡ (done a, u)) × (f a u ≡ (done b, t))
continue-done f (done a, u) h = (a, u, refl, h)
continue-done f (failed e, u) h = cc h

bind-done :
    {A B : Type 0} (m : Run A) (f : A → Run B) (s : State) {b : B} {t : State}
    → (m >>= f) s ≡ (done b, t)
    → (a : A) × (u : State) × (m s ≡ (done a, u)) × (f a u ≡ (done b, t))
unfolding ◌>>=◌
bind-done m f s h = continue-done f (m s) h

settle-done :
    {A : Type 0} (o : Outcome) (e : MigrateError) (s : State) (r : A × State) {a : A} {t : State}
    → settle o e s r ≡ (done a, t)
    → (a ≡ r.0) × (t ≡ record r.1 { tick = suc s.tick })
settle-done Outcome.works e s (x, s1) h = (ground (arith, h), ground (arith, h))
settle-done Outcome.fails e s r h = cc h
settle-done Outcome.unacknowledged e s r h = cc h

-- A statement that returns has worked.
statement-done :
    {A : Type 0} (server : Server) (e : MigrateError) (q : State → A × State) (s : State) {a : A}
    {t : State}
    → statement server e q s ≡ (done a, t)
    → (a ≡ (q s).0) × (t ≡ record (q s).1 { tick = suc s.tick })
unfolding statement
statement-done server e q s h = settle-done (server.outcome s.tick) e s (q s) h

add_name-recorded : (name : String) (s : State) → is_recorded name (add_name name s).1 ≡ true
add_name-recorded name s = elim (Bool-cases (is_recorded name s)) [
  | inl there ↦ rw there there
  | inr new ↦ rw new (recorded-new name s)
]

commit_new-done :
    (server : Server) (name sql : String) (b : Bool) (s : State) {t : State}
    → commit_new server name sql b s ≡ (done tt, t)
    → is_recorded name t ≡ true
unfolding commit_new raise
commit_new-done server name sql true s h = cc h
commit_new-done server name sql false s {t} h =
    subst (λ (u : State). is_recorded name u ≡ true) (sym (statement-done server _ _ s h).1)
      (recorded-new name s)

after_exec-done :
    (server : Server) (name sql : String) (reply : SqlReply) (s : State) {t : State}
    → after_exec server name sql reply s ≡ (done tt, t)
    → is_recorded name t ≡ true
unfolding after_exec record_and_commit raise
after_exec-done server name sql SqlReply.accepted s h =
    let (b, u, checked, rest) = bind-done _ _ s h in commit_new-done server name sql b u rest
after_exec-done server name sql (SqlReply.rejected code) s h =
    elim (Bool-cases (is_already_exists code)) [
      | inl known ↦
          subst (λ (u : State). is_recorded name u ≡ true)
            (sym (statement-done server _ (add_name name) s (rw known at h)).1)
            (add_name-recorded name s)
      | inr other ↦ absurd (cc (rw other at h))
    ]

apply_file-done :
    (server : Server) (name : String) (o : Option String) (s : State) {t : State}
    → read_and_apply server name o s ≡ (done tt, t)
    → is_recorded name t ≡ true
unfolding read_and_apply apply_file raise
apply_file-done server name none s h = cc h
apply_file-done server name (some sql) s h =
    let (_, u, begun, rest) = bind-done _ _ s h in
    let (reply, v, run, after) = bind-done _ _ u rest in
    after_exec-done server name sql reply v after

apply_pending-done :
    (server : Server) (name : String) (b : Bool) (s : State) {t : State}
    → (b ≡ true → is_recorded name s ≡ true)
    → apply_pending server name b s ≡ (done tt, t)
    → is_recorded name t ≡ true
unfolding apply_pending return
apply_pending-done server name true s there h =
    subst (λ (u : State). is_recorded name u ≡ true) (ap (λ (r : Answer (Unit {0}) × State). r.1) h)
      (there refl)
apply_pending-done server name false s there h =
    apply_file-done server name (server.read_file name) s h

migrate_all-done :
    (server : Server) (files : List String) (s : State) {t : State}
    → migrate_all server files s ≡ (done tt, t)
    → (name : String) → (0 < count (is_named name) files)
    → is_recorded name t ≡ true
unfolding migrate_all count
migrate_all-done server [] s h name some_of = absurd (omega (arith, some_of))
migrate_all-done server (file ∷ files) s {t} h name some_of =
    let (_, u, first, rest) = bind-done _ _ s h in
    let (b, v, checked, applied) = bind-done _ _ s first in
    let (is, same) = statement-done server _ _ s checked in
    let here =
      apply_pending-done server file b v (λ yes. ap (is_recorded file) same ∙ sym is ∙ yes)
        applied in
    elim (Bool-cases (file == name)) [
      | inl hit ↦
          subst (λ n. is_recorded n t ≡ true) ((eq_iff file name).0 hit)
            (subst (λ (x : State). is_recorded file x ≡ true)
              (ap (λ (r : Answer (Unit {0}) × State). r.1) rest)
              (migrate_all-Keeps (recorded-Stable file) server files u here))
      | inr miss ↦ migrate_all-done server files u rest name (ground (arith, some_of, miss))
    ]

-- All of the files are recorded.
abbrev pub AllRecorded : List String → State → Type 0
AllRecorded files s = (name : String) → 0 < count (is_named name) files → is_recorded name s ≡ true

entries-AllRecorded :
    (server : Server) (o : Option (List DirEntry)) (entries : List DirEntry) (s : State) {t : State}
    → o ≡ some entries
    → migrate_entries server o s ≡ (done tt, t)
    → AllRecorded (migration_files entries) t
unfolding migrate_entries
entries-AllRecorded server none entries s same h = absurd (cc same)
entries-AllRecorded server (some es) entries s {t} same h =
    let (_, v, checked, applied) = bind-done _ _ s h in
    subst (λ (xs : List DirEntry). AllRecorded (migration_files xs) t) (cc same)
      (migrate_all-done server (migration_files es) v applied)

pub run-AllRecorded :
    (server : Server) (entries : List DirEntry) (s : State) {t : State}
    → server.read_dir ≡ some entries
    → run_migrations server s ≡ (done tt, t)
    → AllRecorded (migration_files entries) t
unfolding run_migrations
run-AllRecorded server entries s dir h =
    let (_, u, created, rest) = bind-done _ _ s h in
    entries-AllRecorded server server.read_dir entries u dir rest
