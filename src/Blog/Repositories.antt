-- ===== src/Blog/Repositories.antt =====
-- m7-dbms/cpp-app/src/infrastructure/db: the repositories of users, posts, tags and comments.
-- What the database answers to a query is an argument: `none` where `exec` throws or a field does
-- not convert, and the fields of the rows otherwise.
use stud_stuff.Base.{
  Bool, true, false, ◌||◌, ◌&&◌, List, [], ◌∷◌, ◌++◌, ◌-◌, Option, none, some, leb, ltb, ◌==◌,
  if◌then◌else◌, length, take, drop, Bytes, ◌≡◌, refl, ◌∙◌,
}
use stud_stuff.Blog.Entities.{
  ℤ, Invalid, Result, ok, err, User, user, IsUser, user-IsUser, Post, post, IsPost, post-IsPost,
  Status, string_to_status, Comment,
}
use stud_stuff.UnitOfWork.{Thrown}

-- what is thrown: by the unit of work, by the checks of an entity, by the database, or by the
-- factory where the connection is closed
pub data Exception : Type 0 where
  unit_of_work : Thrown → Exception
  invalid : Invalid → Exception
  database : Exception
  no_connection : Exception

pub data Outcome {ℓ} (A : Type ℓ) : Type ℓ where
  returned : A → Outcome A
  thrown : Exception → Outcome A

-- `PostgresUserRepo::Create`, with `ParseRow`
parse_user : Result User → Outcome (Option User)
parse_user (ok u) = returned (some u)
parse_user (err e) = thrown (invalid e)

unfoldable pub create_user : Option (List User) → Outcome (Option User)
unfolding parse_user
create_user none = thrown database
create_user (some []) = returned none
create_user (some (row ∷ rows)) = parse_user (user row)

parse_user-IsUser :
    (row u : User) (r : Result User) → user row ≡ r → parse_user r ≡ returned (some u) → IsUser u
unfolding parse_user
parse_user-IsUser row u (ok v) e h = user-IsUser row u (e ∙ cc h)
parse_user-IsUser row u (err x) e h = cc h

pub create_user-IsUser :
    (answer : Option (List User)) (u : User) → create_user answer ≡ returned (some u) → IsUser u
unfolding create_user
create_user-IsUser none u h = cc h
create_user-IsUser (some []) u h = cc h
create_user-IsUser (some (row ∷ rows)) u h = parse_user-IsUser row u (user row) refl h

-- the row of a post, whose status is a text
pub record PostRow : Type 0 where
  pub id : ℤ
  pub title : Bytes
  pub description : Option Bytes
  pub date : Bytes
  pub status : Bytes
  pub author_id : Option ℤ

made_post : Result Post → Outcome Post
made_post (ok p) = returned p
made_post (err e) = thrown (invalid e)

row_post : PostRow → Result Status → Outcome Post
unfolding made_post
row_post row (err e) = thrown (invalid e)
row_post row (ok status) = made_post (
    post (record {
      id = row.id;
      title = row.title;
      date = row.date;
      status = status;
      author_id = row.author_id;
      description = row.description;
    }))

-- `PostgresPostRepo::Create`; an `INSERT` with `RETURNING` gives the row that was inserted
unfoldable pub create_post : Option PostRow → Outcome Post
unfolding row_post
create_post none = thrown database
create_post (some row) = row_post row (string_to_status row.status)

made_post-IsPost : (p q : Post) (r : Result Post) → post p ≡ r → made_post r ≡ returned q → IsPost q
unfolding made_post
made_post-IsPost p q (ok v) e h = post-IsPost p q (e ∙ cc h)
made_post-IsPost p q (err x) e h = cc h

row_post-IsPost :
    (row : PostRow) (p : Post) (status : Result Status)
    → row_post row status ≡ returned p
    → IsPost p
unfolding row_post
row_post-IsPost row p (err e) h = cc h
row_post-IsPost row p (ok status) h = made_post-IsPost _ p _ refl h

pub create_post-IsPost :
    (answer : Option PostRow) (p : Post) → create_post answer ≡ returned p → IsPost p
unfolding create_post
create_post-IsPost none p h = cc h
create_post-IsPost (some row) p h = row_post-IsPost row p (string_to_status row.status) h

-- `PostgresCommentRepo::FindByUserId`
unfoldable pub find_by_user_id : ℤ → List Comment
find_by_user_id user_id = []

-- the order of `std::string`
unfoldable pub bytes_less : Bytes → Bytes → Bool
bytes_less s [] = false
bytes_less [] (d ∷ t) = true
bytes_less (c ∷ s) (d ∷ t) = ltb c d || (c == d && bytes_less s t)

-- `std::set::insert`, on the elements in order
unfoldable pub set_insert : Bytes → List Bytes → List Bytes
set_insert s [] = s ∷ []
set_insert s (t ∷ ts) =
    let rest = set_insert s ts in
    if bytes_less s t then s ∷ t ∷ ts else if bytes_less t s then t ∷ rest else t ∷ ts

unfoldable pub add_tag : Bytes → List Bytes → List Bytes
add_tag tag tags = if length tag == 0 then tags else set_insert tag tags

-- The loop over the stream of texts between commas, with what is read of the next one. An empty
-- text behind the last comma is not read by the code and not added here.
unfoldable pub read_tags : Bytes → Bytes → List Bytes → List Bytes
read_tags tag [] tags = add_tag tag tags
read_tags tag (c ∷ s) tags =
    let next = read_tags [] s (add_tag tag tags) in
    let more = read_tags (tag ++ c ∷ []) s tags in if c == b',' then next else more

-- the braces are cut off
unfoldable pub without_braces : Bytes → Bytes
without_braces arr = if leb 2 (length arr) then take (length arr - 2) (drop 1 arr) else arr

-- `ParseTags`, of a field that may be null
unfoldable pub parse_tags : Option Bytes → List Bytes
parse_tags none = []
parse_tags (some arr) = read_tags [] (without_braces arr) []

pub record TagsRow : Type 0 where
  pub user_id : ℤ
  pub email : Bytes
  pub tags : Option Bytes

pub record UserTagsResult : Type 0 where
  pub user_id : ℤ
  pub email : Bytes
  pub tags : List Bytes

unfoldable pub collect : List TagsRow → List UserTagsResult
collect [] = []
collect (row ∷ rows) =
    record { user_id = row.user_id; email = row.email; tags = parse_tags row.tags } ∷ collect rows

-- `GetTagsForAllUsers`
unfoldable pub get_tags_for_all_users : Option (List TagsRow) → Outcome (List UserTagsResult)
get_tags_for_all_users none = thrown database
get_tags_for_all_users (some rows) = returned (collect rows)
