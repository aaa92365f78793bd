-- ===== src/Auth/UserStore/Invariant.antt =====
-- The two indexes of the user store agree with its users, and creations keep it so.
use learning_garden_server.Prelude.{
  ◌≡◌, refl, ap, none, some, Text, text_eq, ◌==◌, text_beq_iff, if◌then◌else◌, arith, ok, err,
  email_taken, Option-cases, Bool-cases, inl, inr,
}
use learning_garden_server.Prelude.Map.{lookup, lookup-insert}
use learning_garden_server.Strings.{Unicode}
use learning_garden_server.Auth.Types.{
  Time, User, CreateUserInput, normalize_email, normalize_handle,
}
use learning_garden_server.Auth.UserStore.{
  MemoryUserStore, new_memory_user_store, new_user, store_user, create_user, find_by_email,
  find_by_handle, find_by_id,
}

-- Each user stands under its id, and the indexes lead from its email and handle to it; each entry
-- of an index leads to a user with that email or handle.
pub record IsIndexed (s : MemoryUserStore) : Type 0 where
  pub user_id : (id : Text) (x : User) → lookup id s.users ≡ some x → x.id ≡ id
  pub email_of :
      (id : Text) (x : User) → lookup id s.users ≡ some x → lookup x.email s.by_email ≡ some id
  pub handle_of :
      (id : Text) (x : User) → lookup id s.users ≡ some x → lookup x.handle s.by_handle ≡ some id
  pub by_email :
      (e id : Text)
      → lookup e s.by_email ≡ some id
      → (x : User) × (lookup id s.users ≡ some x) × (x.email ≡ e)
  pub by_handle :
      (h id : Text)
      → lookup h s.by_handle ≡ some id
      → (x : User) × (lookup id s.users ≡ some x) × (x.handle ≡ h)

pub new_memory_user_store-IsIndexed : IsIndexed new_memory_user_store
unfolding lookup
new_memory_user_store-IsIndexed = record {
  user_id = λ id x e. cc;
  email_of = λ id x e. cc;
  handle_of = λ id x e. cc;
  by_email = λ k id e. cc;
  by_handle = λ k id e. cc;
}

module _ (u : Unicode) (x : User) {s : MemoryUserStore} (v : IsIndexed s)
    (fresh : lookup x.id s.users ≡ none) (no_email : lookup x.email s.by_email ≡ none)
    (no_handle : lookup x.handle s.by_handle ≡ none) where
  abbrev after : MemoryUserStore
  after = store_user u x s

  user_at_key : (k : Text) → lookup k after.users ≡ (if x.id == k then some x else lookup k s.users)
  user_at_key k = lookup-insert x.id k x s.users

  email_at_key :
      (k : Text)
      → lookup k after.by_email ≡ (if x.email == k then some x.id else lookup k s.by_email)
  email_at_key k = lookup-insert x.email k x.id s.by_email

  handle_at_key :
      (k : Text)
      → lookup k after.by_handle ≡ (if x.handle == k then some x.id else lookup k s.by_handle)
  handle_at_key k = lookup-insert x.handle k x.id s.by_handle

  -- The new user has an id of its own.
  kept_user : (id : Text) (y : User) → lookup id s.users ≡ some y → lookup id after.users ≡ some y
  kept_user id y e =
      ground (
        arith,
        user_at_key id,
        text_beq_iff x.id id,
        ap (λ k. lookup k s.users) {x = x.id} {y = id},
      )

  stored_by_email :
      (k id : Text)
      → lookup k after.by_email ≡ some id
      → (y : User) × (lookup id after.users ≡ some y) × (y.email ≡ k)
  stored_by_email k id e = elim (Bool-cases (x.email == k)) [
    | inl new ↦ (
      x,
      ground (arith, email_at_key k, user_at_key id, text_beq_iff x.id id),
      (text_beq_iff x.email k).0 new,
    )
    | inr old ↦
        let (y, there, at) = v.by_email k id (ground (arith, email_at_key k)) in
        (y, kept_user id y there, at)
  ]

  stored_by_handle :
      (k id : Text)
      → lookup k after.by_handle ≡ some id
      → (y : User) × (lookup id after.users ≡ some y) × (y.handle ≡ k)
  stored_by_handle k id e = elim (Bool-cases (x.handle == k)) [
    | inl new ↦ (
      x,
      ground (arith, handle_at_key k, user_at_key id, text_beq_iff x.id id),
      (text_beq_iff x.handle k).0 new,
    )
    | inr old ↦
        let (y, there, at) = v.by_handle k id (ground (arith, handle_at_key k)) in
        (y, kept_user id y there, at)
  ]

  store_user-IsIndexed : IsIndexed after
  store_user-IsIndexed = record {
    user_id = λ id y e. ground (arith, user_at_key id, text_beq_iff x.id id, v.user_id id y);
    email_of = λ id y e. ground (
      arith,
      user_at_key id,
      text_beq_iff x.id id,
      email_at_key y.email,
      text_beq_iff x.email y.email,
      v.email_of id y,
    );
    handle_of = λ id y e. ground (
      arith,
      user_at_key id,
      text_beq_iff x.id id,
      handle_at_key y.handle,
      text_beq_iff x.handle y.handle,
      v.handle_of id y,
    );
    by_email = stored_by_email;
    by_handle = stored_by_handle;
  }

module _ (u : Unicode) (input : CreateUserInput) (random : Text) (now : Time)
    (s : MemoryUserStore) where
  abbrev created : User
  created = new_user u input random now

  -- A creation keeps users and indexes in agreement, if the new id is not in use.
  pub create_user-IsIndexed :
      IsIndexed s
      → lookup created.id s.users ≡ none
      → IsIndexed (create_user u input random now s).1
  unfolding create_user new_user
  create_user-IsIndexed v fresh = elim (Option-cases (lookup created.email s.by_email)) [
    | inr (id, taken) ↦ rw taken v
    | inl no_email ↦ rw no_email (elim (Option-cases (lookup created.handle s.by_handle)) [
      | inr (id, taken) ↦ rw taken v
      | inl no_handle ↦ rw no_handle (store_user-IsIndexed u created v fresh no_email no_handle)
    ])
  ]

  pub create_user-eq-ok :
      (x : User)
      → (create_user u input random now s).0 ≡ ok x
      → (x ≡ created) × (create_user u input random now s ≡ (ok created, store_user u created s))
  unfolding create_user new_user
  create_user-eq-ok x h = elim (Option-cases (lookup created.email s.by_email)) [
    | inr (id, taken) ↦ cc (rw taken at h)
    | inl no_email ↦ elim (Option-cases (lookup created.handle s.by_handle)) [
      | inr (id, taken) ↦ cc (rw (no_email, taken) at h)
      | inl no_handle ↦ (cc (rw (no_email, no_handle) at h), rw (no_email, no_handle))
    ]
  ]

  -- A user who is created is found by every spelling of the email and of the handle that
  -- normalises alike, and by id.
  pub find-create_user :
      (x : User) (email handle : Text)
      → (create_user u input random now s).0 ≡ ok x
      → normalize_email u email ≡ normalize_email u input.email
      → normalize_handle u handle ≡ normalize_handle u input.handle
      → ((find_by_email u email (create_user u input random now s).1).0 ≡ ok x)
        × ((find_by_handle u handle (create_user u input random now s).1).0 ≡ ok x)
        × ((find_by_id x.id (create_user u input random now s).1).0 ≡ ok x)
  unfolding find_by_email find_by_handle find_by_id new_user
  find-create_user x email handle h e k =
      let (one, same) = create_user-eq-ok x h in
      let user = lookup-insert created.id created.id created s.users in
      let own = (text_beq_iff created.id created.id).1 refl in
      let mail = lookup-insert created.email created.email created.id s.by_email in
      let own_mail = (text_beq_iff created.email created.email).1 refl in
      let name = lookup-insert created.handle created.handle created.id s.by_handle in
      let own_name = (text_beq_iff created.handle created.handle).1 refl in
      (
        rw (same, one, e, mail, own_mail, user, own),
        rw (same, one, k, name, own_name, user, own),
        rw (same, one, user, own),
      )

  -- Once a user is created, a second creation with an email that normalises alike is refused, and
  -- the store is as it was.
  pub create_user_twice :
      (x : User) (again : CreateUserInput) (random' : Text) (now' : Time)
      → (create_user u input random now s).0 ≡ ok x
      → normalize_email u again.email ≡ normalize_email u input.email
      → create_user u again random' now' (create_user u input random now s).1
        ≡ (err email_taken, (create_user u input random now s).1)
  unfolding new_user
  create_user_twice x again random' now' h e =
      let (one, same) = create_user-eq-ok x h in
      let mail = lookup-insert created.email created.email created.id s.by_email in
      let own_mail = (text_beq_iff created.email created.email).1 refl in
      rw same (unfold create_user in rw (e, mail, own_mail))
