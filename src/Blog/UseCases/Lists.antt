-- ===== src/Blog/UseCases/Lists.antt =====
-- GetUserTagsFromComments.cc: what a call leaves in the database.
use stud_stuff.Base.{true, false, List, Option, ◌≡◌, ◌≢◌, refl, ◌∙◌, inl, inr, Bool-cases}
use stud_stuff.Blog.Repositories.{
  Exception, unit_of_work, no_connection, returned, thrown, TagsRow, UserTagsResult,
  get_tags_for_all_users,
}
use stud_stuff.Blog.UseCases.Executes.{Transactional, outcome_cases, active, destroy-keeps}
use stud_stuff.Blog.UseCases.{
  Database, TagsResponse, success_tags, tags_error, and_then, raise, let_go, begin_work,
  commit_work, tags_get, destroy, attempt_tags, handle_tags, execute_tags,
}
use stud_stuff.UnitOfWork.{
  Opening, opened, txn_throws, user_throws, post_throws, tag_throws, begin_failed, commit_failed,
  new, open_all, begin, cleanup, commit, tags,
}

module _ {ℓ} {W D : Type ℓ} (db : Database W) (durable : W → D) where
  -- the database after the query, and its answer
  abbrev pub with_tags : W → W × Option (List TagsRow)
  with_tags w = db.select_tags (db.start w).0

  -- The connection is open, and the transaction and the repositories could be made.
  pub record Prepared (w : W) : Type ℓ where
    pub connected : db.is_open w ≡ true
    pub made : (db.start w).1 ≡ opened

  -- How a call ends, and in which case.
  pub data Listed (w : W) : W × TagsResponse → Type ℓ where
    closed : db.is_open w ≡ false → Listed w (w, tags_error no_connection)
    not_begun :
        (w' : W)
        → db.is_open w ≡ true
        → (db.start w).1 ≢ opened
        → durable w' ≡ durable w
        → Listed w (w', tags_error (unit_of_work begin_failed))
    query_failed :
        (w' : W) (e : Exception)
        → Prepared w
        → get_tags_for_all_users (with_tags w).1 ≡ thrown e
        → durable w' ≡ durable w
        → Listed w (w', tags_error e)
    in_doubt :
        (w' : W) (results : List UserTagsResult)
        → Prepared w
        → get_tags_for_all_users (with_tags w).1 ≡ returned results
        → (db.make_durable (with_tags w).0).1 ≡ false
        → durable w' ≡ durable (db.make_durable (with_tags w).0).0
        → Listed w (w', tags_error (unit_of_work commit_failed))
    listed :
        (w' : W) (results : List UserTagsResult)
        → Prepared w
        → get_tags_for_all_users (with_tags w).1 ≡ returned results
        → (db.make_durable (with_tags w).0).1 ≡ true
        → durable w' ≡ durable (db.make_durable (with_tags w).0).0
        → Listed w (w', success_tags results)

  module _ (laws : Transactional db durable) (w : W) where
    commit_Listed :
        (results : List UserTagsResult)
        → Prepared w
        → get_tags_for_all_users (with_tags w).1 ≡ returned results
        → Listed w (
            handle_tags db (
              and_then db
                (commit_work db)
                (λ _ s. (s, returned (success_tags results)))
                (active db durable, (with_tags w).0)))
    unfolding handle_tags and_then commit_work commit let_go cleanup raise destroy
    commit_Listed results prepared tags_eq = elim (Bool-cases (db.make_durable (with_tags w).0).1) [
      | inl e ↦ rw e (listed _ results prepared tags_eq e (laws.drops _))
      | inr e ↦ rw e (in_doubt _ results prepared tags_eq e (laws.drops _))
    ]

    begin_Listed :
        (o : Opening)
        → (db.start w).1 ≡ o
        → db.is_open w ≡ true
        → Listed w (handle_tags db (attempt_tags db (new, w)))
    unfolding attempt_tags and_then begin_work begin open_all raise new handle_tags tags_get tags
    begin_Listed opened e o =
        let prepared : Prepared w = record { connected = o; made = e } in
        elim (outcome_cases (get_tags_for_all_users (with_tags w).1)) [
          | inl (results, g) ↦ rw (e, g) (commit_Listed results prepared g)
          | inr (x, g) ↦
              rw (e, g)
                (query_failed _ x prepared g
                  (destroy-keeps db durable laws _ _ ∙ laws.selects _ ∙ laws.starts w))
        ]
    begin_Listed txn_throws e o =
        rw e (not_begun _ o (λ f. cc) (destroy-keeps db durable laws _ _ ∙ laws.starts w))
    begin_Listed user_throws e o =
        rw e (not_begun _ o (λ f. cc) (destroy-keeps db durable laws _ _ ∙ laws.starts w))
    begin_Listed post_throws e o =
        rw e (not_begun _ o (λ f. cc) (destroy-keeps db durable laws _ _ ∙ laws.starts w))
    begin_Listed tag_throws e o =
        rw e (not_begun _ o (λ f. cc) (destroy-keeps db durable laws _ _ ∙ laws.starts w))

    -- Where only a commit changes what the database holds for good, `GetUserTagsFromComments`
    -- ends in one of these ways, each only in its case. The connection is closed, the response
    -- tells so, and the database is left as it is. The transaction or a repository cannot be
    -- made, and the response tells that the unit of work did not begin, or the query throws, and
    -- the response tells of what was thrown: nothing is changed for good. The query returns and
    -- the commit throws: the response tells that the commit failed, and what is left for good is
    -- what it left. Or the commit, too, returns: the response has the results that the query
    -- returned, and what is left for good is what the commit left.
    pub execute_tags-Listed : Listed w (execute_tags db w)
    unfolding execute_tags
    execute_tags-Listed = elim (Bool-cases (db.is_open w)) [
      | inl e ↦ rw e (begin_Listed (db.start w).1 refl e)
      | inr e ↦ rw e (closed e)
    ]
