-- ===== src/Blog/UseCases.antt =====
-- m7-dbms/cpp-app/src/core/use_cases: the use cases, over the unit of work and the repositories.
pub mod Executes
pub mod Lists
use stud_stuff.Base.{
  ℕ, Bool, true, false, not, ◌||◌, ◌&&◌, List, [], ◌∷◌, Option, none, some, ◌==◌, if◌then◌else◌,
  length, Bytes,
}
use stud_stuff.Blog.Entities.{ℤ, User, Post, Status, status_to_string}
use stud_stuff.Blog.Repositories.{
  Exception, unit_of_work, no_connection, Outcome, returned, thrown, PostRow, create_user,
  create_post, TagsRow, UserTagsResult, get_tags_for_all_users,
}
use stud_stuff.UnitOfWork.{
  UnitOfWork, Thrown, Opening, new, begin, commit, rollback, users, posts, tags,
}

-- What the code calls of the database: its state before and after a call, and the answer. `drop`
-- is the destructor of a transaction.
pub record Database {ℓ} (W : Type ℓ) : Type ℓ where
  pub is_open : W → Bool
  pub start : W → W × Opening
  pub insert_user : W → Bytes → W × Option (List User)
  pub insert_post : W → Bytes → Option Bytes → Bytes → Option ℤ → W × Option PostRow
  pub select_tags : W → W × Option (List TagsRow)
  pub make_durable : W → W × Bool
  pub abort : W → W × Bool
  pub drop : W → W

pub record Request : Type 0 where
  pub title : Bytes
  pub email : Bytes
  pub description : Option Bytes
  pub status : Status

-- the responses, by their messages
pub data Response : Type 0 where
  success : User → Post → Response
  empty_email empty_title user_exists : Response
  database_error : Exception → Response

pub data TagsResponse : Type 0 where
  success_tags : List UserTagsResult → TagsResponse
  tags_error : Exception → TagsResponse

module _ {ℓ} {W : Type ℓ} (db : Database W) where
  -- a call's state: the unit of work and the database
  abbrev pub State : Type ℓ
  State = UnitOfWork × W

  abbrev pub Act : Type 0 → Type ℓ
  Act A = State → State × Outcome A

  follow : {A B : Type 0} → State × Outcome A → (A → Act B) → State × Outcome B
  follow (s, returned a) f = f a s
  follow (s, thrown e) f = (s, thrown e)

  unfoldable pub and_then : {A B : Type 0} → Act A → (A → Act B) → Act B
  unfolding follow
  and_then m f s = follow (m s) f

  unfoldable pub raise : {A : Type 0} → A → Option Thrown → Outcome A
  raise a none = returned a
  raise a (some e) = thrown (unit_of_work e)

  -- a transaction that the unit of work lets go of is destroyed
  unfoldable pub let_go : UnitOfWork → UnitOfWork → W → W
  let_go before after w = if before.txn && not after.txn then db.drop w else w

  unfoldable pub begin_work : Act (Unit {0})
  begin_work (u, w) =
      let r = begin u (db.start w).1 in
      if u.is_active then ((u, w), raise tt r.1) else ((r.0, (db.start w).0), raise tt r.1)

  unfoldable pub commit_work : Act (Unit {0})
  commit_work (u, w) =
      let r = commit u (db.make_durable w).1 in
      if not u.is_active || not u.txn
      then ((u, w), raise tt r.1)
      else ((r.0, let_go u r.0 (db.make_durable w).0), raise tt r.1)

  unfoldable pub rollback_work : Act (Unit {0})
  rollback_work (u, w) =
      let r = rollback u (db.abort w).1 in
      if not u.is_active || not u.txn
      then ((r.0, let_go u r.0 w), raise tt r.1)
      else ((r.0, let_go u r.0 (db.abort w).0), raise tt r.1)

  -- `Users().Create`
  unfoldable pub users_create : Bytes → Act (Option User)
  users_create email (u, w) =
      let r = db.insert_user w email in
      elim (users u) [
        | none ↦ ((u, r.0), create_user r.1)
        | some e ↦ ((u, w), thrown (unit_of_work e))
      ]

  -- `Posts().Create`
  unfoldable pub posts_create : Bytes → Option Bytes → Status → Option ℤ → Act Post
  posts_create title description status author_id (u, w) =
      let r = db.insert_post w title description (status_to_string status) author_id in
      elim (posts u) [
        | none ↦ ((u, r.0), create_post r.1)
        | some e ↦ ((u, w), thrown (unit_of_work e))
      ]

  -- `Tags().GetTagsForAllUsers`
  unfoldable pub tags_get : Act (List UserTagsResult)
  tags_get (u, w) =
      let r = db.select_tags w in
      elim (tags u) [
        | none ↦ ((u, r.0), get_tags_for_all_users r.1)
        | some e ↦ ((u, w), thrown (unit_of_work e))
      ]

  -- the destructor of the unit of work
  unfoldable pub destroy : State → W
  destroy (u, w) =
      if u.is_active && u.txn then db.drop (db.abort w).0 else if u.txn then db.drop w else w

  unfoldable pub found_user : Request → Option User → Act Response
  found_user request none = and_then rollback_work (λ _ s. (s, returned user_exists))
  found_user request (some u) =
      and_then (posts_create request.title request.description request.status (some u.id))
        (λ p. and_then commit_work (λ _ s. (s, returned (success u p))))

  -- the `try` of `CreateUserWithPost::Execute`
  unfoldable pub attempt : Request → Act Response
  attempt request =
      and_then begin_work (λ _. and_then (users_create request.email) (found_user request))

  -- its handler, and the end of the unit of work
  unfoldable pub handle : State × Outcome Response → W × Response
  handle (s, returned r) = (destroy s, r)
  handle (s, thrown e) = (destroy (rollback_work s).0, database_error e)

  -- `CreateUserWithPost::Execute`; `none` where the factory throws
  unfoldable pub execute : W → Request → W × Option Response
  execute w request =
      let r = handle (attempt request (new, w)) in
      if length request.email == 0
      then (w, some empty_email)
      else if length request.title == 0
      then (w, some empty_title)
      else if db.is_open w
      then (r.0, some r.1)
      else (w, none)

  unfoldable pub attempt_tags : Act TagsResponse
  attempt_tags = and_then begin_work (λ _.
      and_then tags_get
        (λ results. and_then commit_work (λ _ s. (s, returned (success_tags results)))))

  unfoldable pub handle_tags : State × Outcome TagsResponse → W × TagsResponse
  handle_tags (s, returned r) = (destroy s, r)
  handle_tags (s, thrown e) = (destroy s, tags_error e)

  -- `GetUserTagsFromComments::Execute`
  unfoldable pub execute_tags : W → W × TagsResponse
  execute_tags w =
      let r = handle_tags (attempt_tags (new, w)) in
      if db.is_open w then r else (w, tags_error no_connection)
