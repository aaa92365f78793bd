-- ===== src/Migrate/Runs.antt =====
-- Runs of services/api/cmd/migrate/main.go that finish, and the run after one.
use learning_garden_server.Prelude.{
  ◌≡◌, refl, true, some, List, [], ◌∷◌, arith, Text, All, text_lt, text_beq_iff, Bool-cases, inl,
  inr, sym, ◌∙◌,
}
use mathlib.Core.Path.{subst}
use learning_garden_server.Prelude.Sort.{sort_stable, sort_stable-All, sort_stable-All_inv}
use learning_garden_server.Migrate.{
  DbRequest, connect, create_table, check, begin, record_version, commit, Ending, finished, stopped,
  unreadable, rejected, Environment, Progress, applied, migrate_file, next_file, migrate_all, main,
  version_of,
}
use learning_garden_server.Migrate.Laws.{
  Round, migrate_file-Round, migrate_all-Reaches, applied_stays, applied-with_version,
}

module _ (env : Environment) where
  -- The version of every file is recorded.
  abbrev pub AllApplied : List Text → Progress env → Type 0
  AllApplied files p = All (λ file. applied env (version_of file) p ≡ true) files

  Round-applied :
      (file : Text) (p : Progress env) (result : Ending × Progress env)
      → Round env file p result
      → result.0 ≡ finished
      → applied env (version_of file) result.1 ≡ true
  Round-applied file p result (inl (over, already)) h = rw over already
  Round-applied file p result (inr (inl (sql, schema, there, accepted, fresh, done))) h = rw done (
      applied-with_version env (version_of file) (version_of file) schema p
      ∙ ground (arith, text_beq_iff (version_of file) (version_of file)))
  Round-applied file p result (inr (inr (left, early))) h = absurd (early h)

  next_file-AllApplied :
      (file : Text) (files : List Text) (result : Ending × Progress env)
      → (next_file env (migrate_all env files) result).0 ≡ finished
      → (result.0 ≡ finished)
        × ((migrate_all env files result.1).0 ≡ finished)
        × (next_file env (migrate_all env files) result ≡ migrate_all env files result.1)
  next_file-AllApplied file files (finished, q) h = (refl, h, refl)
  next_file-AllApplied file files (stopped request, q) h = cc
  next_file-AllApplied file files (unreadable f, q) h = cc
  next_file-AllApplied file files (rejected v, q) h = cc

  migrate_all-AllApplied :
      (files : List Text) (p : Progress env)
      → (migrate_all env files p).0 ≡ finished
      → AllApplied files (migrate_all env files p).1
  unfolding migrate_all
  migrate_all-AllApplied [] p h = tt
  migrate_all-AllApplied (file ∷ files) p h =
      let (first, rest, same) = next_file-AllApplied file files (migrate_file env file p) h in
      let q = (migrate_file env file p).1 in
      subst (λ r. AllApplied (file ∷ files) r.1) (sym same)
        (
          applied_stays env (migrate_all-Reaches env files q) (version_of file) (
              Round-applied file p (migrate_file env file p) (migrate_file-Round env file p) first),
          migrate_all-AllApplied files q rest,
        )

  main-AllApplied :
      (p : Progress env) → (main env p).0 ≡ finished → AllApplied env.files (main env p).1
  unfolding main
  main-AllApplied p h = elim (Bool-cases (env.answers connect)) [
    | inr refused ↦ ground arith
    | inl connected ↦ elim (Bool-cases (env.answers create_table)) [
      | inr silent ↦ ground arith
      | inl created ↦
          let run : (migrate_all env (sort_stable text_lt env.files) p).0 ≡ finished =
            ground arith in
          rw (connected, created)
            (sort_stable-All_inv text_lt _ env.files
              (migrate_all-AllApplied (sort_stable text_lt env.files) p run))
    ]
  ]

  migrate_all-again :
      (files : List Text) (p : Progress env)
      → ((request : DbRequest) → env.answers request ≡ true)
      → AllApplied files p
      → migrate_all env files p ≡ (finished, p)
  unfolding migrate_all migrate_file
  migrate_all-again [] p answered h = refl
  migrate_all-again (file ∷ files) p answered (already, h) =
      rw (answered (check (version_of file)), already) (migrate_all-again files p answered h)

  main_unchanged :
      (q : Progress env)
      → ((request : DbRequest) → env.answers request ≡ true)
      → AllApplied env.files q
      → main env q ≡ (finished, q)
  unfolding main
  main_unchanged q answered all =
      rw (answered connect, answered create_table)
        (migrate_all-again (sort_stable text_lt env.files) q answered
          (sort_stable-All text_lt _ env.files all))

  -- After a run that finished, every file's version is recorded, and another run changes nothing
  -- and prints nothing, where the database answers it.
  pub main-again :
      (p : Progress env)
      → (main env p).0 ≡ finished
      → ((request : DbRequest) → env.answers request ≡ true)
      → AllApplied env.files (main env p).1 × (main env (main env p).1 ≡ (finished, (main env p).1))
  main-again p h answered =
      let all = main-AllApplied p h in (all, main_unchanged (main env p).1 answered all)

  -- The environment fails no request, every file can be read, and no migration is rejected.
  pub record IsWorking : Type 0 where
    pub answered : (request : DbRequest) → env.answers request ≡ true
    pub readable : All (λ file. (sql : Text) × (env.read file ≡ some sql)) env.files
    pub accepted :
        (sql : Text) (schema : env.Schema)
        → (after : env.Schema) × (env.apply sql schema ≡ some after)

  migrate_file-finished :
      (file sql : Text) (p : Progress env)
      → IsWorking
      → env.read file ≡ some sql
      → (migrate_file env file p).0 ≡ finished
  unfolding migrate_file
  migrate_file-finished file sql p works there =
      elim (Bool-cases (applied env (version_of file) p)) [
        | inl already ↦ rw (works.answered (check (version_of file)), already) refl
        | inr fresh ↦
            let (schema, accepted) = works.accepted sql p.schema in
            rw
              (
                works.answered (check (version_of file)),
                fresh,
                there,
                works.answered (begin (version_of file)),
                accepted,
                works.answered (record_version (version_of file)),
                works.answered (commit (version_of file)),
              )
              refl
      ]

  next_file-finished :
      (files : List Text) (result : Ending × Progress env)
      → result.0 ≡ finished
      → next_file env (migrate_all env files) result ≡ migrate_all env files result.1
  next_file-finished files (finished, q) h = refl
  next_file-finished files (stopped request, q) h = cc
  next_file-finished files (unreadable f, q) h = cc
  next_file-finished files (rejected v, q) h = cc

  migrate_all-finished :
      (files : List Text) (p : Progress env)
      → IsWorking
      → All (λ file. (sql : Text) × (env.read file ≡ some sql)) files
      → (migrate_all env files p).0 ≡ finished
  unfolding migrate_all
  migrate_all-finished [] p works h = refl
  migrate_all-finished (file ∷ files) p works ((sql, there), h) =
      let first = migrate_file-finished file sql p works there in
      rw (next_file-finished files (migrate_file env file p) first)
        (migrate_all-finished files (migrate_file env file p).1 works h)

  main_finishes : (p : Progress env) → IsWorking → (main env p).0 ≡ finished
  unfolding main
  main_finishes p works =
      rw (works.answered connect, works.answered create_table)
        (migrate_all-finished (sort_stable text_lt env.files) p works
          (sort_stable-All text_lt _ env.files works.readable))

  -- Where nothing fails, the program finishes, and every file's version is recorded.
  pub main-finished :
      (p : Progress env)
      → IsWorking
      → ((main env p).0 ≡ finished) × AllApplied env.files (main env p).1
  main-finished p works = let over = main_finishes p works in (over, main-AllApplied p over)
