-- ===== src/Migrate/Laws.antt =====
-- What a run of services/api/cmd/migrate/main.go leaves in the database, whether it finishes or not.
use learning_garden_server.Prelude.{
  ◌≡◌, refl, true, false, ◌||◌, some, List, [], ◌∷◌, ◌++◌, arith, Text, text_eq, ◌==◌, text_beq_iff,
  any, any-append, text_lt, Bool-cases, Option-cases, inl, inr, ◌⊎◌, ◌∙◌,
}
use learning_garden_server.Prelude.Sort.{sort_stable}
use learning_garden_server.Migrate.{
  connect, create_table, check, begin, record_version, commit, Ending, finished, stopped,
  unreadable, rejected, Environment, Progress, applied, committed, transaction, migrate_file,
  next_file, migrate_all, main, version_of,
}

module _ (env : Environment) where
  abbrev pub with_version : Text → env.Schema → Progress env → Progress env
  with_version version schema p = record {
    versions = p.versions ++ version ∷ [];
    schema = schema;
    printed = p.printed ++ version ∷ [];
  }

  -- `q` comes from `p` by transactions that were committed for some of the files, in their order,
  -- each for a version that was not there.
  pub data Reaches : List Text → Progress env → Progress env → Type 0 where
    stays : {files : List Text} {p : Progress env} → Reaches files p p
    passes :
        {file : Text} {files : List Text} {p q : Progress env}
        → Reaches files p q
        → Reaches (file ∷ files) p q
    commits :
        {file : Text} {files : List Text} {p q : Progress env} (sql : Text) (schema : env.Schema)
        → env.read file ≡ some sql
        → env.apply sql p.schema ≡ some schema
        → applied env (version_of file) p ≡ false
        → Reaches files (with_version (version_of file) schema p) q
        → Reaches (file ∷ files) p q

  -- A round of the loop passes over the file, commits it, or stops and leaves everything.
  abbrev pub Round : Text → Progress env → Ending × Progress env → Type 0
  Round file p result =
      ((result ≡ (finished, p)) × (applied env (version_of file) p ≡ true))
      ⊎ (((sql : Text) × (schema : env.Schema) × (env.read file ≡ some sql)
            × (env.apply sql p.schema ≡ some schema)
            × (applied env (version_of file) p ≡ false)
            × (result ≡ (finished, with_version (version_of file) schema p)))
          ⊎ ((result.1 ≡ p) × ((result.0 ≡ finished) → ⊥)))

  committed-Round :
      (file sql : Text) (schema : env.Schema) (p : Progress env)
      → env.read file ≡ some sql
      → env.apply sql p.schema ≡ some schema
      → applied env (version_of file) p ≡ false
      → Round file p (committed env (version_of file) schema p)
  committed-Round file sql schema p there accepted fresh =
      elim (Bool-cases (env.answers (record_version (version_of file)))) [
        | inr silent ↦ rw silent (inr (inr (refl, λ e. cc)))
        | inl recorded ↦ elim (Bool-cases (env.answers (commit (version_of file)))) [
          | inr silent ↦ rw (recorded, silent) (inr (inr (refl, λ e. cc)))
          | inl done ↦ rw (recorded, done) (inr (inl (sql, schema, there, accepted, fresh, refl)))
        ]
      ]

  transaction-Round :
      (file : Text) (p : Progress env)
      → applied env (version_of file) p ≡ false
      → Round file p (transaction env file (version_of file) (env.read file) p)
  transaction-Round file p fresh = elim (Option-cases (env.read file)) [
    | inl missing ↦ rw missing (inr (inr (refl, λ e. cc)))
    | inr (sql, there) ↦ elim (Bool-cases (env.answers (begin (version_of file)))) [
      | inr silent ↦ rw (there, silent) (inr (inr (refl, λ e. cc)))
      | inl begun ↦ elim (Option-cases (env.apply sql p.schema)) [
        | inl refused ↦ rw (there, begun, refused) (inr (inr (refl, λ e. cc)))
        | inr (schema, accepted) ↦
            let same : transaction env file (version_of file) (env.read file) p
                ≡ committed env (version_of file) schema p =
              rw (there, begun, accepted) refl in
            rw same (committed-Round file sql schema p there accepted fresh)
      ]
    ]
  ]

  pub migrate_file-Round : (file : Text) (p : Progress env) → Round file p (migrate_file env file p)
  unfolding migrate_file
  migrate_file-Round file p = elim (Bool-cases (env.answers (check (version_of file)))) [
    | inr silent ↦ rw silent (inr (inr (refl, λ e. cc)))
    | inl answered ↦ elim (Bool-cases (applied env (version_of file) p)) [
      | inl already ↦ rw (answered, already) (inl (refl, refl))
      | inr fresh ↦
          let same : migrate_file env file p
              ≡ transaction env file (version_of file) (env.read file) p =
            rw (answered, fresh) refl in
          rw same (transaction-Round file p fresh)
    ]
  ]

  next_file-Reaches :
      (file : Text) (files : List Text) (p : Progress env) (result : Ending × Progress env)
      → ((q : Progress env) → Reaches files q (migrate_all env files q).1)
      → Round file p result
      → Reaches (file ∷ files) p (next_file env (migrate_all env files) result).1
  next_file-Reaches file files p result rest (inl (over, already)) = rw over (passes (rest p))
  next_file-Reaches file files p result rest
        (inr (inl (sql, schema, there, accepted, fresh, done))) =
      rw done (commits sql schema there accepted fresh (rest _))
  next_file-Reaches file files p (finished, q) rest (inr (inr (left, early))) = absurd (early refl)
  next_file-Reaches file files p (stopped request, q) rest (inr (inr (left, early))) = rw left stays
  next_file-Reaches file files p (unreadable f, q) rest (inr (inr (left, early))) = rw left stays
  next_file-Reaches file files p (rejected v, q) rest (inr (inr (left, early))) = rw left stays

  pub migrate_all-Reaches :
      (files : List Text) (p : Progress env) → Reaches files p (migrate_all env files p).1
  unfolding migrate_all
  migrate_all-Reaches [] p = stays
  migrate_all-Reaches (file ∷ files) p =
      next_file-Reaches file files p (migrate_file env file p) (migrate_all-Reaches files)
        (migrate_file-Round file p)

  main-Reaches_sorted :
      (p : Progress env) → Reaches (sort_stable text_lt env.files) p (main env p).1
  unfolding main
  main-Reaches_sorted p = elim (Bool-cases (env.answers connect)) [
    | inr refused ↦ rw refused stays
    | inl connected ↦ elim (Bool-cases (env.answers create_table)) [
      | inr silent ↦ rw (connected, silent) stays
      | inl created ↦
          rw (connected, created) (migrate_all-Reaches (sort_stable text_lt env.files) p)
    ]
  ]

  pub applied-with_version :
      (v version : Text) (schema : env.Schema) (p : Progress env)
      → applied env v (with_version version schema p) ≡ (applied env v p || (version == v || false))
  applied-with_version v version schema p = any-append (λ u. u == v) p.versions (version ∷ [])

  -- What is applied stays applied.
  pub applied_stays :
      {files : List Text} {p q : Progress env}
      → Reaches files p q
      → (v : Text) → applied env v p ≡ true
      → applied env v q ≡ true
  applied_stays stays v h = h
  applied_stays (passes r) v h = applied_stays r v h
  applied_stays (commits {file} {p} sql schema there accepted fresh r) v h =
      applied_stays r v (applied-with_version v (version_of file) schema p ∙ rw h refl)

  -- Each version stands once.
  abbrev pub Once : List Text → Type 0
  Once [] = Unit
  Once (v ∷ vs) = (any (λ u. u == v) vs ≡ false) × Once vs

  Once-snoc :
      (v : Text) (vs : List Text) → any (λ u. u == v) vs ≡ false → Once vs → Once (vs ++ v ∷ [])
  Once-snoc v [] fresh h = (refl, tt)
  Once-snoc v (u ∷ vs) fresh (once, h) = (
    any-append (λ w. w == u) vs (v ∷ []) ∙ ground (arith, text_beq_iff u v, text_beq_iff v u),
    Once-snoc v vs (ground arith) h,
  )

  Reaches-Once :
      {files : List Text} {p q : Progress env}
      → Reaches files p q
      → Once p.versions
      → Once q.versions
  Reaches-Once stays h = h
  Reaches-Once (passes r) h = Reaches-Once r h
  Reaches-Once (commits {file} {p} sql schema there accepted fresh r) h =
      Reaches-Once r (Once-snoc (version_of file) p.versions fresh h)

  -- From a database that has recorded no version twice: however the program ends, the database is
  -- what transactions have made of it that were committed in the order of the files' names, each
  -- for a version that was not there, and no version is recorded twice.
  pub main-Reaches :
      (p : Progress env)
      → Once p.versions
      → Reaches (sort_stable text_lt env.files) p (main env p).1 × Once (main env p).1.versions
  main-Reaches p once = let run = main-Reaches_sorted p in (run, Reaches-Once run once)
