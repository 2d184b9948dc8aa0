-- ===== src/Blog/Tests.antt =====
-- The blog: a small database, and calls on it.
use stud_stuff.Base.{
  ℕ, Bool, true, false, not, ◌&&◌, ◌||◌, List, [], ◌∷◌, ◌++◌, Option, none, some, ◌≡◌, refl,
  if◌then◌else◌, length, Bytes, bytes_eq, codes, All, Lacks,
}
use stud_stuff.Blog.Entities.{
  ℤ, validate_user, post, validate_post, negative, negative_id, too_long, too_long_text, pos, User,
  user, published, string_to_status, status_to_string,
}
use stud_stuff.Blog.Repositories.{
  create_user, create_post, PostRow, set_insert, bytes_less, add_tag, read_tags, without_braces,
  parse_tags,
}
use stud_stuff.Blog.Quotes.{
  ArrayOut, needs_quotes, upper, any_special, is_special, escaped, array_text,
  parse_tags-array_text,
}
use stud_stuff.Blog.Tags.{contains, braced, joined, joined_from}
use stud_stuff.Blog.UseCases.Lists.{Listed, execute_tags-Listed}
use stud_stuff.Blog.UseCases.Executes.{Transactional, Executed, execute-Executed}
use stud_stuff.Blog.UseCases.{
  Database, Request, Response, success, user_exists, execute, execute_tags, execute_tags, handle,
  attempt, and_then, begin_work, users_create, posts_create, found_user, commit_work, rollback_work,
  raise, let_go, destroy,
}
use stud_stuff.UnitOfWork.{opened, new, begin, open_all, commit, rollback, cleanup, users, posts}

null_tag : parse_tags (some (codes "{NULL}")) ≡ codes "NULL" ∷ []
unfolding parse_tags without_braces read_tags add_tag set_insert bytes_less
null_tag = refl

tag_set : parse_tags (some (codes "{web,db,,web}")) ≡ codes "db" ∷ codes "web" ∷ []
unfolding parse_tags without_braces read_tags add_tag set_insert bytes_less
tag_set = refl

element_text : Bytes → Bytes
element_text t = if needs_quotes t then 34 ∷ escaped t ++ 34 ∷ [] else t

element_text-ArrayOut : ArrayOut element_text
unfolding element_text
element_text-ArrayOut = record { bare = λ t e. rw e refl; quoted = λ t e. rw e refl }

tests : Unit {0}
unfolding needs_quotes upper any_special is_special escaped bytes_eq
tests = tt

machine_learning :
    parse_tags (some (array_text element_text (codes "Machine Learning" ∷ codes "db" ∷ [])))
    ≡ codes "\"Machine Learning\"" ∷ codes "db" ∷ []
unfolding tests element_text array_text braced joined joined_from parse_tags without_braces
    read_tags add_tag set_insert bytes_less
machine_learning = refl

abbrev some_tags : List Bytes
some_tags = codes "a b" ∷ codes "db" ∷ []

no_commas : All (Lacks b',') some_tags
no_commas = ((refl, (refl, (refl, tt))), ((refl, (refl, tt)), tt))

parse_tags-array_text_example :
    contains (codes "a b") (parse_tags (some (array_text element_text some_tags)))
    ≡ (contains (codes "a b") some_tags && not (needs_quotes (codes "a b")))
parse_tags-array_text_example =
    parse_tags-array_text element_text element_text-ArrayOut some_tags (codes "a b") no_commas
      (refl, (refl, (refl, tt)))

-- the users that are there for good, and those of the open transaction
abbrev Users : Type 0
Users = List User × List User

known : Bytes → List User → Bool
known email [] = false
known email (u ∷ us) = bytes_eq email u.email || known email us

next_user : Bytes → List User → User
next_user email us = record { id = pos (length us); email = email; date = codes "today" }

put_user : Users → Bytes → Users × Option (List User)
unfolding known next_user
put_user (there, pending) email =
    let u = next_user email (there ++ pending) in
    let found = known email (there ++ pending) in
    ((there, if found then pending else u ∷ pending), some (if found then [] else u ∷ []))

put_post : Users → Bytes → Option Bytes → Bytes → Option ℤ → Users × Option PostRow
put_post w title description status author_id = (
  w,
  some (record {
    id = pos 0;
    title = title;
    description = description;
    date = codes "today";
    status = status;
    author_id = author_id;
  }),
)

abbrev users_base : Database Users
users_base = record {
  is_open = λ w. true;
  start = λ w. ((w.0, []), opened);
  insert_user = put_user;
  insert_post = put_post;
  select_tags = λ w. (w, none);
  make_durable = λ w. ((w.0 ++ w.1, []), true);
  abort = λ w. ((w.0, []), true);
  drop = λ w. (w.0, []);
}

abbrev there_for_good : Users → List User
there_for_good w = w.0

users_laws : Transactional users_base there_for_good
unfolding put_user put_post
users_laws = record {
  starts = λ w. refl;
  inserts_user = λ w email. refl;
  inserts_post = λ w title description status author. refl;
  selects = λ w. refl;
  aborts = λ w. refl;
  drops = λ w. refl;
}

abbrev ask : Request
ask = record { title = codes "first"; email = codes "a@b"; description = none; status = published }

execute-Executed_example :
    Executed users_base there_for_good ([], []) ask (execute users_base ([], []) ask)
execute-Executed_example = execute-Executed users_base there_for_good users_laws ([], []) ask

execute_tags-Listed_example :
    Listed users_base there_for_good ([], []) (execute_tags users_base ([], []))
execute_tags-Listed_example = execute_tags-Listed users_base there_for_good users_laws ([], [])

calls : Unit {0}
unfolding execute handle attempt and_then begin_work users_create posts_create found_user
    commit_work rollback_work raise let_go destroy new begin open_all commit rollback cleanup users
    posts create_user create_post user validate_user post validate_post negative negative_id
    too_long too_long_text string_to_status status_to_string bytes_eq put_user put_post known
    next_user
calls = tt

emails : Users × Option Response → ℕ × Option Response
emails (w, r) = (length w.0, r)

abbrev writer : User
writer = record { id = pos 0; email = codes "a@b"; date = codes "today" }

first_time : emails (execute users_base ([], []) ask) ≡ (
  1,
  some (
      success writer (record {
        id = pos 0;
        title = codes "first";
        date = codes "today";
        status = published;
        author_id = some (pos 0);
        description = none;
      })),
)
unfolding calls emails
first_time = refl

second_time : emails (execute users_base (writer ∷ [], []) ask) ≡ (1, some user_exists)
unfolding calls emails
second_time = refl
