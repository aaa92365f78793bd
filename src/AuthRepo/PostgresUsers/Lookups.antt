-- ===== src/AuthRepo/PostgresUsers/Lookups.antt =====
-- What `CreateUser` of services/api/internal/authrepo/postgres_users.go stores and refuses.
use learning_garden_server.Prelude.{
  ◌≡◌, refl, Bool, true, false, not, ◌&&◌, ◌||◌, none, some, [], ◌∷◌, ◌++◌, arith, Text, text_eq,
  ◌==◌, text_beq, text_beq_iff, any, if◌then◌else◌, Result, ok, err, email_taken, handle_taken,
  failure, ◌⊎◌, Bool-cases, Option-cases, inl, inr, sym, ap, ◌∙◌,
}
use learning_garden_server.Auth.Types.{Time, User, CreateUserInput}
use learning_garden_server.AuthRepo.PostgresUsers.{
  UserDbError, UserRow, Users, UserStatement, UserDatabase, first_row, same_text, inserted_user,
  insert_user_row, insert_user, create_user, create_user_error, scan_user, find_by_email,
  find_by_handle, find_by_id, select_by_email, select_by_handle, select_by_id,
}
use learning_garden_server.AuthRepo.PostgresUsers.UserDbError.{other}
use learning_garden_server.AuthRepo.PostgresUsers.UserStatement.{
  insert_user_stmt, select_email_stmt, select_handle_stmt, select_id_stmt,
}

-- A row at the end is found where no earlier one passes the test.
first_row-last :
    (p q : UserRow → Bool) (users : Users) (new : UserRow)
    → any q users ≡ false
    → ((r : UserRow) → p r ≡ true → q r ≡ true)
    → p new ≡ true
    → first_row p (users ++ new ∷ []) ≡ some new
first_row-last p q [] new h imp passes = ground arith
first_row-last p q (r ∷ users) new h imp passes =
    ground (arith, first_row-last p q users new, imp r)

module _ (db : UserDatabase) where
  -- What `CreateUser` answers, said of the rows that it finds.
  abbrev pub expected_answer : CreateUserInput → Text → Time → Users → Result User
  expected_answer input id now users =
      if any (λ r. r.id == id) users
      then err failure
      else if any (λ r. same_text db r.email input.email) users
      then err email_taken
      else if any (λ r. same_text db r.handle input.handle) users
      then err handle_taken
      else ok (scan_user db (inserted_user db input id now))

  insert_user-row :
      (input : CreateUserInput) (id : Text) (now : Time) (users : Users)
      → db.fault_of insert_user_stmt users ≡ none
      → db.parse_uuid input.id ≡ some id
      → insert_user db input now users ≡ insert_user_row db (inserted_user db input id now) users
  unfolding insert_user
  insert_user-row input id now users running parsed = rw (running, parsed) refl

  create_user-parsed :
      (input : CreateUserInput) (id : Text) (now : Time) (users : Users)
      → db.fault_of insert_user_stmt users ≡ none
      → db.parse_uuid input.id ≡ some id
      → create_user db input now users ≡ (
        expected_answer input id now users,
        if any (λ r. r.id == id) users
              || any (λ r. same_text db r.email input.email) users
              || any (λ r. same_text db r.handle input.handle) users
            then users
            else users ++ inserted_user db input id now ∷ [],
      )
  unfolding create_user insert_user_row create_user_error text_beq
  create_user-parsed input id now users running parsed =
      rw (insert_user-row input id now users running parsed) (ground arith)

  -- A row, deleted or not, has the email or the handle up to the letters' case, or the id.
  abbrev pub email_taken_by : Users → Text → Bool
  email_taken_by users email = any (λ r. same_text db r.email email) users

  abbrev pub handle_taken_by : Users → Text → Bool
  handle_taken_by users handle = any (λ r. same_text db r.handle handle) users

  abbrev pub id_taken_by : Users → Text → Bool
  id_taken_by users id = any (λ r. r.id == id) users

  -- Why a creation fails other than by a taken email or handle: the database's, the id's.
  abbrev pub IsBroken : CreateUserInput → Users → Type 0
  IsBroken input users =
      ((e : UserDbError) × (db.fault_of insert_user_stmt users ≡ some e))
      ⊎ ((db.parse_uuid input.id ≡ none)
          ⊎ ((id : Text) × (db.parse_uuid input.id ≡ some id) × (id_taken_by users id ≡ true)))

  -- What a creation may answer and leave: each answer with what it says of the table.
  abbrev pub IsAnswer : CreateUserInput → Time → Users → Result User × Users → Type 0
  IsAnswer input now users result =
      ((email_taken_by users input.email ≡ true) × (result ≡ (err email_taken, users)))
      ⊎ (((email_taken_by users input.email ≡ false)
            × (handle_taken_by users input.handle ≡ true)
            × (result ≡ (err handle_taken, users)))
          ⊎ ((IsBroken input users × (result ≡ (err failure, users)))
              ⊎ ((id : Text) × (db.parse_uuid input.id ≡ some id)
                  × (id_taken_by users id ≡ false)
                  × (email_taken_by users input.email ≡ false)
                  × (handle_taken_by users input.handle ≡ false)
                  × (result ≡ (
                    ok (scan_user db (inserted_user db input id now)),
                    users ++ inserted_user db input id now ∷ [],
                  )))))

  create_user-faulty :
      (input : CreateUserInput) (now : Time) (users : Users)
      → db.fault_of insert_user_stmt users ≡ some other
      → create_user db input now users ≡ (err failure, users)
  unfolding create_user insert_user create_user_error
  create_user-faulty input now users faulty = rw faulty refl

  create_user-unparsed :
      (input : CreateUserInput) (now : Time) (users : Users)
      → db.fault_of insert_user_stmt users ≡ none
      → db.parse_uuid input.id ≡ none
      → create_user db input now users ≡ (err failure, users)
  unfolding create_user insert_user create_user_error
  create_user-unparsed input now users running invalid = rw (running, invalid) refl

  answered :
      (input : CreateUserInput) (id : Text) (now : Time) (users : Users)
      → db.parse_uuid input.id ≡ some id
      → IsAnswer input now users (
        expected_answer input id now users,
        if any (λ r. r.id == id) users
              || any (λ r. same_text db r.email input.email) users
              || any (λ r. same_text db r.handle input.handle) users
            then users
            else users ++ inserted_user db input id now ∷ [],
      )
  answered input id now users parsed = elim (Bool-cases (id_taken_by users id)) [
    | inl i ↦ rw i (inr (inr (inl (inr (inr (id, parsed, i)), refl))))
    | inr i ↦ elim (Bool-cases (email_taken_by users input.email)) [
      | inl e ↦ rw (i, e) (inl (refl, refl))
      | inr e ↦ elim (Bool-cases (handle_taken_by users input.handle)) [
        | inl h ↦ rw (i, e, h) (inr (inl (refl, refl, refl)))
        | inr h ↦ rw (i, e, h) (inr (inr (inr (id, parsed, i, refl, refl, refl))))
      ]
    ]
  ]

  -- Where the database reports as taken only what its table has: `CreateUser` answers that the
  -- email is taken only where a row, deleted or not, has it up to the letters' case, and that the
  -- handle is taken only where a row has it and none has the email; it fails only where the
  -- statement fails, the id is no UUID or a row has it; and otherwise, where all three are free,
  -- it stores the user at the end of the table. An error leaves the table as it was.
  pub create_user_lem :
      (input : CreateUserInput) (now : Time) (users : Users)
      → ((e : UserDbError) → db.fault_of insert_user_stmt users ≡ some e → e ≡ other)
      → IsAnswer input now users (create_user db input now users)
  create_user_lem input now users honest =
      elim (Option-cases (db.fault_of insert_user_stmt users)) [
        | inr (e, faulty) ↦ inr (
            inr (
              inl (
                inl (e, faulty),
                create_user-faulty input now users (faulty ∙ ap some (honest e faulty)),
              )))
        | inl running ↦ elim (Option-cases (db.parse_uuid input.id)) [
          | inl invalid ↦
              inr (
                inr (inl (inr (inl invalid), create_user-unparsed input now users running invalid)))
          | inr (id, parsed) ↦
              rw (create_user-parsed input id now users running parsed)
                (answered input id now users parsed)
        ]
      ]

  answer_free :
      (a b c : Bool) (answer user : User)
      → (if a
          then err failure
          else if b
          then err email_taken
          else if c
          then err handle_taken
          else ok answer)
        ≡ ok user
      → (a ≡ false) × (b ≡ false) × (c ≡ false) × (answer ≡ user)
  answer_free a b c answer user h = ground arith

  -- What every search finds in a table with a new row at its end.
  module _ (new : UserRow) (users : Users)
      (healthy : (statement : UserStatement) (table : Users) → db.fault_of statement table ≡ none)
      (live : new.is_deleted ≡ false) where
    abbrev longer : Users
    longer = users ++ new ∷ []

    find_by_email-last :
        (email : Text)
        → any (λ r. same_text db r.email new.email) users ≡ false
        → same_text db new.email email ≡ true
        → (find_by_email db email longer).0 ≡ ok (scan_user db new)
    unfolding find_by_email select_by_email
    find_by_email-last email free same =
        let found =
          first_row-last (λ r. same_text db r.email email && not r.is_deleted)
            (λ r. same_text db r.email new.email) users new free
            (λ r h. ground (
              arith,
              text_beq_iff (db.fold r.email) (db.fold email),
              text_beq_iff (db.fold new.email) (db.fold email),
              text_beq_iff (db.fold r.email) (db.fold new.email),
            ))
            (rw (same, live) refl) in
        rw (healthy select_email_stmt longer, found) refl

    find_by_handle-last :
        (handle : Text)
        → any (λ r. same_text db r.handle new.handle) users ≡ false
        → same_text db new.handle handle ≡ true
        → (find_by_handle db handle longer).0 ≡ ok (scan_user db new)
    unfolding find_by_handle select_by_handle
    find_by_handle-last handle free same =
        let found =
          first_row-last (λ r. same_text db r.handle handle && not r.is_deleted)
            (λ r. same_text db r.handle new.handle) users new free
            (λ r h. ground (
              arith,
              text_beq_iff (db.fold r.handle) (db.fold handle),
              text_beq_iff (db.fold new.handle) (db.fold handle),
              text_beq_iff (db.fold r.handle) (db.fold new.handle),
            ))
            (rw (same, live) refl) in
        rw (healthy select_handle_stmt longer, found) refl

    find_by_id-last :
        (id : Text)
        → any (λ r. r.id == new.id) users ≡ false
        → db.parse_uuid id ≡ some new.id
        → (find_by_id db id longer).0 ≡ ok (scan_user db new)
    unfolding find_by_id select_by_id
    find_by_id-last id free same =
        let found =
          first_row-last (λ r. r.id == new.id && not r.is_deleted) (λ r. r.id == new.id) users new
            free (λ r h. ground arith) (ground (arith, live, text_beq_iff new.id new.id)) in
        rw (healthy select_id_stmt longer, same, found) refl

  -- A user who is stored is found by the email and the handle, whatever the case of their letters,
  -- and by the id, where the searches do not fail for another reason.
  pub find-create_postgres_user :
      (input : CreateUserInput) (user : User) (now : Time) (users : Users)
      → (create_user db input now users).0 ≡ ok user
      → ((statement : UserStatement) → (table : Users) → db.fault_of statement table ≡ none)
      → (email handle id : Text) → same_text db input.email email ≡ true
      → same_text db input.handle handle ≡ true
      → db.parse_uuid id ≡ db.parse_uuid input.id
      → ((find_by_email db email (create_user db input now users).1).0 ≡ ok user)
        × ((find_by_handle db handle (create_user db input now users).1).0 ≡ ok user)
        × ((find_by_id db id (create_user db input now users).1).0 ≡ ok user)
  find-create_postgres_user input user now users h healthy email handle id e d i =
      elim (Option-cases (db.parse_uuid input.id)) [
        | inl invalid ↦
            absurd
              (cc (create_user-unparsed input now users (healthy insert_user_stmt users) invalid))
        | inr (k, parsed) ↦
            let new = inserted_user db input k now in
            let stored =
              create_user-parsed input k now users (healthy insert_user_stmt users) parsed in
            let (by_id, by_email, by_handle, same) =
              answer_free _ _ _ (scan_user db new) user (sym (ap (λ x. x.0) stored) ∙ h) in
            rw (stored, by_id, by_email, by_handle, ← same)
              (
                find_by_email-last new users healthy refl email by_email e,
                find_by_handle-last new users healthy refl handle by_handle d,
                find_by_id-last new users healthy refl id by_id (i ∙ parsed),
              )
      ]
