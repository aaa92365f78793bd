-- ===== src/Migrate/Tests.antt =====
-- Runs of the migrations that evaluate.
use learning_garden_server.Prelude.{
  ℕ, ◌+◌, ◌≡◌, refl, true, some, none, List, [], ◌∷◌, Text, codes, text_eq, ◌==◌, text_beq, text_lt,
  if◌then◌else◌,
}
use learning_garden_server.Prelude.Sort.{sort_stable, insert_stable}
use learning_garden_server.Migrate.{Environment, Progress, finished, rejected, main, version_of}
use learning_garden_server.Migrate.Laws.{Reaches, Once, main-Reaches}
use learning_garden_server.Migrate.Runs.{AllApplied, main-again, main-finished}

-- The names of the repository's two migrations, in another order.
abbrev two_files : List Text
two_files = codes "db/migrations/0002_content.sql" ∷ codes "db/migrations/0001_users.sql" ∷ []

-- The schema counts the migrations.
abbrev counting : Environment
counting = record {
  Schema = ℕ;
  files = two_files;
  read = λ file. some file;
  apply = λ sql n. some (n + 1);
  answers = λ request. true;
}

-- A database that rejects the second migration.
abbrev rejecting : Environment
rejecting = record counting {
  apply = λ sql n. if sql == codes "db/migrations/0002_content.sql" then none else some (n + 1);
}

abbrev start : Progress counting
start = record { versions = []; schema = 0; printed = [] }

abbrev start_rejecting : Progress rejecting
start_rejecting = record { versions = []; schema = 0; printed = [] }

version_of_tests :
    (version_of (codes "db/migrations/0001_users.sql") ≡ codes "0001_users")
    × (version_of (codes "a.b/c") ≡ codes "c")
    × (version_of (codes "a/b.c.sql") ≡ codes "b.c")
unfolding version_of text_beq
version_of_tests = (refl, refl, refl)

main_tests :
    ((main counting start).1.versions ≡ codes "0001_users" ∷ codes "0002_content" ∷ [])
    × ((main rejecting start_rejecting).0 ≡ rejected (codes "0002_content"))
    × ((main rejecting start_rejecting).1.versions ≡ codes "0001_users" ∷ [])
unfolding main version_of text_lt text_beq insert_stable
main_tests = (refl, refl, refl)

main-Reaches_example :
    Reaches rejecting
      (sort_stable text_lt two_files)
      start_rejecting
      (main rejecting start_rejecting).1
    × Once rejecting (main rejecting start_rejecting).1.versions
main-Reaches_example = main-Reaches rejecting start_rejecting tt

main-finished_example :
    ((main counting start).0 ≡ finished) × AllApplied counting two_files (main counting start).1
main-finished_example = main-finished counting start (record {
  answered = λ request. refl;
  readable = ((_, refl), ((_, refl), tt));
  accepted = λ sql n. (n + 1, refl);
})

main-again_example :
    AllApplied counting two_files (main counting start).1
    × (main counting (main counting start).1 ≡ (finished, (main counting start).1))
unfolding main version_of text_lt text_beq insert_stable
main-again_example = main-again counting start refl (λ request. refl)
