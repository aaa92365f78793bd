-- ===== src/Migrate.antt =====
-- services/api/cmd/migrate/main.go: the migrations in `db/migrations`, each applied once in a
-- transaction of its own, in the order of the files' names.
pub mod Laws
pub mod Runs
mod Tests
use learning_garden_server.Prelude.{
  Bool, true, false, not, ◌&&◌, Option, none, some, List, [], ◌∷◌, ◌++◌, Text, codes, text_eq,
  nat_eq, ◌==◌, is_empty, any, if◌then◌else◌, text_lt,
}
use learning_garden_server.Prelude.Sort.{sort_stable}

-- `filepath.Base`: what stands after the last slash, slashes at the end left aside.
abbrev strip_slashes : Text → Text
strip_slashes [] = []
strip_slashes (c ∷ s) =
    let rest = strip_slashes s in if c == b'/' && is_empty rest then [] else c ∷ rest

abbrev after_slash : Text → Text
after_slash [] = []
after_slash (c ∷ s) =
    let rest = after_slash s in if any (λ d. d == b'/') (c ∷ s) then rest else c ∷ s

unfoldable pub base : Text → Text
base path =
    if is_empty path
    then codes "."
    else let name = after_slash (strip_slashes path) in if is_empty name then codes "/" else name

-- `filepath.Ext`: from the last dot of the last element on
unfoldable pub ext : Text → Text
ext [] = []
ext (c ∷ s) =
    let rest = ext s in
    if not (is_empty rest)
    then rest
    else if c == b'.' && not (any (λ d. d == b'/') s)
    then c ∷ s
    else []

-- `strings.TrimSuffix`
unfoldable pub trim_suffix : Text → Text → Text
trim_suffix [] suffix = []
trim_suffix (c ∷ s) suffix =
    let rest = trim_suffix s suffix in if (c ∷ s) == suffix then [] else c ∷ rest

unfoldable pub version_of : Text → Text
unfolding base ext trim_suffix
version_of file = trim_suffix (base file) (ext file)

-- What the program asks of the database and of the disk, besides the migrations themselves.
pub data DbRequest : Type 0 where
  connect create_table : DbRequest
  check begin record_version commit : (version : Text) → DbRequest

-- Where the program ends early, by `log.Fatalf`.
pub data Ending : Type 0 where
  finished : Ending
  stopped : DbRequest → Ending
  unreadable : (file : Text) → Ending
  rejected : (version : Text) → Ending

-- What stands outside the program: `files` is what `filepath.Glob` gives, `read` `os.ReadFile`,
-- `apply` the effect of a migration's text on the schema, none where the database rejects it, and
-- `answers` whether a request succeeds. What a transaction did is undone unless it is committed.
pub record Environment : Type 1 where
  pub Schema : Type 0
  pub files : List Text
  pub read : Text → Option Text
  pub apply : Text → Schema → Option Schema
  pub answers : DbRequest → Bool

module _ (env : Environment) where
  -- The versions in `schema_migrations`, the schema, and the versions that the program printed.
  pub record Progress : Type 0 where
    pub versions : List Text
    pub schema : env.Schema
    pub printed : List Text

  abbrev pub applied : Text → Progress → Bool
  applied version p = any (λ v. v == version) p.versions

  abbrev committed : Text → env.Schema → Progress → Ending × Progress
  committed version schema p =
      if not (env.answers (record_version version))
      then (stopped (record_version version), p)
      else if not (env.answers (commit version))
      then (stopped (commit version), p)
      else (
        finished,
        record {
          versions = p.versions ++ version ∷ [];
          schema = schema;
          printed = p.printed ++ version ∷ [];
        },
      )

  abbrev executed : Text → Option env.Schema → Progress → Ending × Progress
  executed version none p = (rejected version, p)
  executed version (some schema) p = committed version schema p

  abbrev transaction : Text → Text → Option Text → Progress → Ending × Progress
  transaction file version none p = (unreadable file, p)
  transaction file version (some sql) p =
      if not (env.answers (begin version))
      then (stopped (begin version), p)
      else executed version (env.apply sql p.schema) p

  -- One round of the loop; a version that is there already is passed over.
  unfoldable pub migrate_file : Text → Progress → Ending × Progress
  migrate_file file p =
      let version = version_of file in
      if not (env.answers (check version))
      then (stopped (check version), p)
      else if applied version p
      then (finished, p)
      else transaction file version (env.read file) p

  abbrev pub next_file : (Progress → Ending × Progress) → Ending × Progress → Ending × Progress
  next_file rest (finished, p) = rest p
  next_file rest (ending, p) = (ending, p)

  unfoldable pub migrate_all : List Text → Progress → Ending × Progress
  unfolding migrate_file
  migrate_all [] p = (finished, p)
  migrate_all (file ∷ files) p = next_file (migrate_all files) (migrate_file file p)

  unfoldable pub main : Progress → Ending × Progress
  unfolding migrate_all sort_stable
  main p =
      if not (env.answers connect)
      then (stopped connect, p)
      else if not (env.answers create_table)
      then (stopped create_table, p)
      else migrate_all (sort_stable text_lt env.files) p
