-- ===== src/Migrations/Once.antt =====
-- Across all runs of the migrations on one database.
use mathlib.Core.List.{append_assoc, append-nil}
use dodo_payment_gateway.Base.{
  List, ap, ◌∷◌, ◌∙◌, sym, ◌++◌, ◌≤◌, ◌≡◌, String, Bool, false, [], ◌==◌, find, count, insert,
  arith, eq_iff, eq_refl, count-insert, subst, Bool-cases, count-eq-zero_of_find-none, Option-cases,
  inl, inr,
}
use dodo_payment_gateway.Migrations.{Server, State, Script, is_named, is_recorded, run_migrations}
use dodo_payment_gateway.Migrations.Loop.{Stable, run_migrations-Keeps}

abbrev pub is_of : String → Script → Bool
is_of name script = script.name == name

-- Runs one after another; the directory, the server and what fails may differ in each.
pub data Runs : State → State → Type 0 where
  starts : (s : State) → Runs s s
  runs : {s t : State} → Runs s t → (server : Server) → Runs s (run_migrations server t).1

-- A name is recorded once, and its script committed at most as often.
abbrev pub Once : State → Type 0
Once s =
    (name : String)
    → (count (is_of name) s.scripts ≤ count (is_named name) s.recorded)
      × (count (is_named name) s.recorded ≤ 1)

new-count :
    (name : String) (s : State) → is_recorded name s ≡ false → count (is_named name) s.recorded ≡ 0
new-count name s new =
    count-eq-zero_of_find-none (is_named name) s.recorded
      (elim (Option-cases (find (is_named name) s.recorded)) [
        | inl gone ↦ gone
        | inr (x, there) ↦ absurd (ground (arith, new, there))
      ])

insert-once :
    (name other : String) (s : State)
    → is_recorded name s ≡ false
    → count (is_named other) s.recorded ≤ 1
    → count (is_named other) (insert name s.recorded) ≤ 1
insert-once name other s new h = elim (Bool-cases (name == other)) [
  | inl same ↦
      subst (λ n. count (is_named n) (insert name s.recorded) ≤ 1) ((eq_iff name other).0 same)
        (ground
          (arith, count-insert (is_named name) name s.recorded, new-count name s new, eq_refl name))
  | inr differs ↦ ground (arith, count-insert (is_named other) name s.recorded, h, differs)
]

Once-Stable : Stable Once
Once-Stable = record {
  later = λ s n h. h;
  named = λ name s new h other. (
    omega (arith, (h other).0, count-insert (is_named other) name s.recorded),
    insert-once name other s new (h other).1,
  );
  applied = λ name sql s new h other. (
    omega (
      arith,
      (h other).0,
      count-insert (is_named other) name s.recorded,
      count-insert (is_of other) (record { name = name; sql = sql }) s.scripts,
    ),
    insert-once name other s new (h other).1,
  );
}

Runs-Once : {s t : State} → Runs s t → Once s → Once t
Runs-Once (starts s) h = h
Runs-Once (runs {t = t} before server) h =
    run_migrations-Keeps Once-Stable server t (Runs-Once before h)

-- What was recorded and committed before, with more after it.
abbrev pub Extends : State → State → Type 0
Extends s t =
    ((names : List String) × (t.recorded ≡ s.recorded ++ names))
    × ((scripts : List Script) × (t.scripts ≡ s.scripts ++ scripts))

extend :
    {A : Type 0} (a : A) (xs ys : List A)
    → (more : List A) × (xs ≡ ys ++ more)
    → (more : List A) × (insert a xs ≡ ys ++ more)
extend a xs ys (more, same) = (insert a more, ap (insert a) same ∙ append_assoc ys more (a ∷ []))

Extends-Stable : (s : State) → Stable (Extends s)
Extends-Stable s = record {
  later = λ t n h. h;
  named = λ name t new (names, scripts). (extend name t.recorded s.recorded names, scripts);
  applied = λ name sql t new (names, scripts). (
    extend name t.recorded s.recorded names,
    extend (record { name = name; sql = sql }) t.scripts s.scripts scripts,
  );
}

Runs-Extends : {s t : State} → Runs s t → Extends s t
Runs-Extends (starts s) = (([], sym (append-nil s.recorded)), ([], sym (append-nil s.scripts)))
Runs-Extends {s = s} (runs {t = t} before server) =
    run_migrations-Keeps (Extends-Stable s) server t (Runs-Extends before)

abbrev pub empty : State
empty = record { tick = 0; recorded = []; scripts = [] }

pub empty-Once : Once empty
unfolding count
empty-Once other = (omega arith, omega arith)

-- Runs that come one after another, with whatever directories, whatever fails and however often they
-- are repeated, on a database where each name is recorded once and its script committed at most as
-- often, as when it is empty: a name is still recorded at most once, and a script committed under it at
-- most once and only if it is recorded; and what was recorded and committed before is there as it was.
pub applied-Once :
    {s t : State}
    → Runs s t
    → Once s
    → (name : String)
    → (count (is_of name) t.scripts ≤ count (is_named name) t.recorded)
      × (count (is_named name) t.recorded ≤ 1)
      × Extends s t
applied-Once before once name =
    let (committed, recorded) = Runs-Once before once name in
    (committed, recorded, Runs-Extends before)
