-- ===== src/Blog/UseCases/Executes.antt =====
-- CreateUserWithPost.cc: what a call leaves in the database.
use stud_stuff.Base.{
  Bool, true, false, List, Option, none, some, ◌≡◌, ◌≢◌, ◌⊎◌, refl, ◌∙◌, arith, ◌==◌, length, Bytes,
  inl, inr, Bool-cases,
}
use stud_stuff.Blog.Entities.{ℤ, User, IsUser, Post, IsPost, status_to_string}
use stud_stuff.Blog.Repositories.{
  Exception, unit_of_work, Outcome, returned, thrown, PostRow, create_user, create_user-IsUser,
  create_post, create_post-IsPost,
}
use stud_stuff.Blog.UseCases.{
  Database, Request, Response, success, empty_email, empty_title, user_exists, database_error,
  and_then, raise, let_go, begin_work, commit_work, rollback_work, users_create, posts_create,
  destroy, found_user, attempt, handle, execute,
}
use stud_stuff.UnitOfWork.{
  UnitOfWork, Opening, opened, txn_throws, user_throws, post_throws, tag_throws, begin_failed,
  commit_failed, rollback_failed, new, open_all, begin, cleanup, commit, rollback, users, posts,
}

pub outcome_cases :
    {A : Type 0} (o : Outcome A) → ((a : A) × (o ≡ returned a)) ⊎ ((e : Exception) × (o ≡ thrown e))
outcome_cases (returned a) = inl (a, refl)
outcome_cases (thrown e) = inr (e, refl)

module _ {ℓ} {W D : Type ℓ} (db : Database W) (durable : W → D) where
  -- Only a commit changes what the database holds for good.
  pub record Transactional : Type ℓ where
    pub starts : (w : W) → durable (db.start w).0 ≡ durable w
    pub inserts_user : (w : W) (email : Bytes) → durable (db.insert_user w email).0 ≡ durable w
    pub inserts_post :
        (w : W) (title : Bytes) (description : Option Bytes) (status : Bytes) (author : Option ℤ)
        → durable (db.insert_post w title description status author).0 ≡ durable w
    pub selects : (w : W) → durable (db.select_tags w).0 ≡ durable w
    pub aborts : (w : W) → durable (db.abort w).0 ≡ durable w
    pub drops : (w : W) → durable (db.drop w) ≡ durable w

  -- the database after the first query, and its answer
  abbrev pub with_user : W → Request → W × Option (List User)
  with_user w request = db.insert_user (db.start w).0 request.email

  -- after the second
  abbrev pub with_post : W → Request → User → W × Option PostRow
  with_post w request u =
      db.insert_post (with_user w request).0 request.title request.description
        (status_to_string request.status) (some u.id)

  abbrev pub with_commit : W → Request → User → W × Bool
  with_commit w request u = db.make_durable (with_post w request u).0

  -- The fields are filled and the connection is open.
  pub record Ready (w : W) (request : Request) : Type ℓ where
    pub some_email : length request.email ≢ 0
    pub some_title : length request.title ≢ 0
    pub connected : db.is_open w ≡ true

  -- The transaction and the repositories were made as well.
  pub record Begun (w : W) (request : Request) : Type ℓ where
    pub checked : Ready w request
    pub made : (db.start w).1 ≡ opened

  -- The first query told of a new user, too.
  pub record Joined (w : W) (request : Request) (u : User) : Type ℓ where
    pub begun : Begun w request
    pub user_made : create_user (with_user w request).1 ≡ returned (some u)

  -- How a call ends: in which case, what is left in the database, and the response.
  pub data Executed (w : W) (request : Request) : W × Option Response → Type ℓ where
    no_email : length request.email ≡ 0 → Executed w request (w, some empty_email)
    no_title :
        length request.email ≢ 0
        → length request.title ≡ 0
        → Executed w request (w, some empty_title)
    unavailable :
        length request.email ≢ 0
        → length request.title ≢ 0
        → db.is_open w ≡ false
        → Executed w request (w, none)
    not_begun :
        (w' : W)
        → Ready w request
        → (db.start w).1 ≢ opened
        → durable w' ≡ durable w
        → Executed w request (w', some (database_error (unit_of_work begin_failed)))
    user_failed :
        (w' : W) (e : Exception)
        → Begun w request
        → create_user (with_user w request).1 ≡ thrown e
        → durable w' ≡ durable w
        → Executed w request (w', some (database_error e))
    exists :
        (w' : W)
        → Begun w request
        → create_user (with_user w request).1 ≡ returned none
        → (db.abort (with_user w request).0).1 ≡ true
        → durable w' ≡ durable w
        → Executed w request (w', some user_exists)
    not_undone :
        (w' : W)
        → Begun w request
        → create_user (with_user w request).1 ≡ returned none
        → (db.abort (with_user w request).0).1 ≡ false
        → durable w' ≡ durable w
        → Executed w request (w', some (database_error (unit_of_work rollback_failed)))
    post_failed :
        (w' : W) (u : User) (e : Exception)
        → Joined w request u
        → create_post (with_post w request u).1 ≡ thrown e
        → durable w' ≡ durable w
        → Executed w request (w', some (database_error e))
    doubtful :
        (w' : W) (u : User) (p : Post)
        → Joined w request u
        → create_post (with_post w request u).1 ≡ returned p
        → (with_commit w request u).1 ≡ false
        → durable w' ≡ durable (with_commit w request u).0
        → Executed w request (w', some (database_error (unit_of_work commit_failed)))
    saved :
        (w' : W) (u : User) (p : Post)
        → Joined w request u
        → create_post (with_post w request u).1 ≡ returned p
        → IsUser u
        → IsPost p
        → (with_commit w request u).1 ≡ true
        → durable w' ≡ durable (with_commit w request u).0
        → Executed w request (w', some (success u p))

  -- the unit of work after `Begin`
  abbrev pub active : UnitOfWork
  active = record {
    txn = true;
    is_active = true;
    user_repo = true;
    post_repo = true;
    tag_repo = true;
    comment_repo = false;
  }

  module _ (laws : Transactional) where
    pub destroy-keeps : (u : UnitOfWork) (w : W) → durable (destroy db (u, w)) ≡ durable w
    unfolding destroy
    destroy-keeps u w = elim (Bool-cases u.txn) [
      | inl t ↦ elim (Bool-cases u.is_active) [
        | inl a ↦ rw (t, a) (laws.drops (db.abort w).0 ∙ laws.aborts w)
        | inr a ↦ rw (t, a) (laws.drops w)
      ]
      | inr t ↦ elim (Bool-cases u.is_active) [ inl a ↦ rw (t, a) refl | inr a ↦ rw (t, a) refl ]
    ]

    rollback-keeps : (u : UnitOfWork) (w : W) → durable (rollback_work db (u, w)).0.1 ≡ durable w
    unfolding rollback_work rollback let_go cleanup
    rollback-keeps u w = elim (Bool-cases u.txn) [
      | inl t ↦ elim (Bool-cases u.is_active) [
        | inl a ↦ rw (t, a) (laws.drops (db.abort w).0 ∙ laws.aborts w)
        | inr a ↦ rw (t, a) (laws.drops w)
      ]
      | inr t ↦ elim (Bool-cases u.is_active) [ inl a ↦ rw (t, a) refl | inr a ↦ rw (t, a) refl ]
    ]

    undone : (u : UnitOfWork) (w : W) → durable (destroy db (rollback_work db (u, w)).0) ≡ durable w
    undone u w = let s = (rollback_work db (u, w)).0 in destroy-keeps s.0 s.1 ∙ rollback-keeps u w

    module _ (w : W) (request : Request) where
      abbrev Ends : UnitOfWork × W → (UnitOfWork × W → (UnitOfWork × W) × Outcome Response) → Type ℓ
      Ends s m = Executed w request ((handle db (m s)).0, some (handle db (m s)).1)

      started : durable (with_user w request).0 ≡ durable w
      started = laws.inserts_user (db.start w).0 request.email ∙ laws.starts w

      commit_Executed :
          (u : User) (p : Post)
          → Joined w request u
          → create_post (with_post w request u).1 ≡ returned p
          → Ends
              (active, (with_post w request u).0)
              (and_then db (commit_work db) (λ _ s. (s, returned (success u p))))
      unfolding handle and_then commit_work commit let_go cleanup raise destroy rollback_work
          rollback
      commit_Executed u p joined post_eq = elim (Bool-cases (with_commit w request u).1) [
        | inl e ↦ rw e (
            saved _ u p joined post_eq (create_user-IsUser _ u joined.user_made)
              (create_post-IsPost _ p post_eq) e (laws.drops _))
        | inr e ↦ rw e (doubtful _ u p joined post_eq e (laws.drops _))
      ]

      found_Executed :
          (u : User)
          → Joined w request u
          → Ends (active, (with_user w request).0) (found_user db request (some u))
      unfolding found_user and_then posts_create posts handle
      found_Executed u joined = elim (outcome_cases (create_post (with_post w request u).1)) [
        | inl (p, e) ↦ rw e (commit_Executed u p joined e)
        | inr (x, e) ↦ rw e (
            post_failed _ u x joined e
              (undone active (with_post w request u).0 ∙ laws.inserts_post _ _ _ _ _ ∙ started))
      ]

      absent_Executed :
          Begun w request
          → create_user (with_user w request).1 ≡ returned none
          → Ends (active, (with_user w request).0) (found_user db request none)
      unfolding found_user and_then handle rollback_work rollback raise let_go cleanup destroy
      absent_Executed begun user_eq = elim (Bool-cases (db.abort (with_user w request).0).1) [
        | inl e ↦ rw e (exists _ begun user_eq e (laws.drops _ ∙ laws.aborts _ ∙ started))
        | inr e ↦ rw e (not_undone _ begun user_eq e (laws.drops _ ∙ laws.aborts _ ∙ started))
      ]

      users_Executed :
          Begun w request
          → Ends
              (active, (db.start w).0)
              (and_then db (users_create db request.email) (found_user db request))
      unfolding and_then users_create users handle
      users_Executed begun = elim (outcome_cases (create_user (with_user w request).1)) [
        | inl (none, e) ↦ rw e (absent_Executed begun e)
        | inl (some u, e) ↦ rw e (found_Executed u (record { begun = begun; user_made = e }))
        | inr (x, e) ↦
            rw e (user_failed _ x begun e (undone active (with_user w request).0 ∙ started))
      ]

      begin_Executed :
          (o : Opening) → (db.start w).1 ≡ o → Ready w request → Ends (new, w) (attempt db request)
      unfolding attempt and_then begin_work begin open_all raise new handle
      begin_Executed opened e ready = rw e (users_Executed (record { checked = ready; made = e }))
      begin_Executed txn_throws e ready =
          rw e (not_begun _ ready (λ f. cc) (undone _ _ ∙ laws.starts w))
      begin_Executed user_throws e ready =
          rw e (not_begun _ ready (λ f. cc) (undone _ _ ∙ laws.starts w))
      begin_Executed post_throws e ready =
          rw e (not_begun _ ready (λ f. cc) (undone _ _ ∙ laws.starts w))
      begin_Executed tag_throws e ready =
          rw e (not_begun _ ready (λ f. cc) (undone _ _ ∙ laws.starts w))

    -- Where only a commit changes what the database holds for good, `CreateUserWithPost` ends in
    -- one of these ways, each only in its case. The email is empty, or else the title, or else
    -- the factory throws as the connection is closed: the database is left as it is. The
    -- transaction or a repository cannot be made, and the response tells that the unit of work
    -- did not begin. The query for the user throws, or the one for the post behind it, and the
    -- response tells of what was thrown. The query for the user finds that there is one, and the
    -- response tells so, or that the rollback failed where it did. In these cases nothing is
    -- changed for good. Both queries return and the commit throws: what is left for good is what
    -- it left. Or the commit, too, returns: the response is a success, with the user and the post
    -- that the two queries returned, both within the bounds of their fields, and what is left for
    -- good is what the commit left.
    pub execute-Executed : (w : W) (request : Request) → Executed w request (execute db w request)
    unfolding execute
    execute-Executed w request = elim (Bool-cases (length request.email == 0)) [
      | inl e ↦ rw e (no_email (ground (arith, e)))
      | inr e ↦
          let email : length request.email ≢ 0 = ground (arith, e) in
          elim (Bool-cases (length request.title == 0)) [
            | inl t ↦ rw (e, t) (no_title email (ground (arith, t)))
            | inr t ↦
                let title : length request.title ≢ 0 = ground (arith, t) in
                elim (Bool-cases (db.is_open w)) [
                  | inl o ↦
                      rw (e, t, o)
                        (begin_Executed w request (db.start w).1 refl
                          (record { some_email = email; some_title = title; connected = o }))
                  | inr o ↦ rw (e, t, o) (unavailable email title o)
                ]
          ]
    ]
