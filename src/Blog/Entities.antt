-- ===== src/Blog/Entities.antt =====
-- m7-dbms/cpp-app/src/core/entities: the users, posts and comments with their checks.
use mathlib.Core.Path.{subst}
use stud_stuff.Base.{
  ℕ, Bool, true, false, ◌||◌, Option, none, some, ◌≡◌, ◌≢◌, refl, arith, ltb, ◌==◌, if◌then◌else◌,
  length, Bytes, bytes_eq, bytes_eq→eq, codes, ◌↔◌,
}

-- an `int`
pub data ℤ : Type 0 where
  pos : ℕ → ℤ
  negsuc : ℕ → ℤ

unfoldable pub negative : ℤ → Bool
negative (pos n) = false
negative (negsuc n) = true

unfoldable pub negative_id : Option ℤ → Bool
negative_id none = false
negative_id (some id) = negative id

-- what the checks throw
pub data Invalid : Type 0 where
  bad_id bad_email bad_date long_content no_content long_title no_title bad_post bad_author :
      Invalid
  long_description long_name no_name bad_status : Invalid

pub data Result {ℓ} (A : Type ℓ) : Type ℓ where
  ok : A → Result A
  err : Invalid → Result A

-- what a constructor gives after `Validate`
checked : {A : Type 0} → Option Invalid → A → Result A
checked none a = ok a
checked (some e) a = err e

abbrev pub max_length : ℕ
max_length = 250

unfoldable pub too_long : Bytes → Bool
too_long s = ltb max_length (length s)

unfoldable pub too_long_text : Option Bytes → Bool
too_long_text none = false
too_long_text (some s) = too_long s

pub record User : Type 0 where
  pub id : ℤ
  pub email : Bytes
  pub date : Bytes

unfoldable pub validate_user : User → Option Invalid
validate_user u =
    if negative u.id
    then some bad_id
    else if too_long u.email || length u.email == 0
    then some bad_email
    else if too_long u.date
    then some bad_date
    else none

-- The constructors take their fields, as a record, and throw where a check fails.
unfoldable pub user : User → Result User
unfolding checked
user u = checked (validate_user u) u

pub data Status : Type 0 where
  draft published archived : Status

unfoldable pub status_to_string : Status → Bytes
status_to_string draft = codes "draft"
status_to_string published = codes "published"
status_to_string archived = codes "archived"

unfoldable pub string_to_status : Bytes → Result Status
string_to_status s =
    if bytes_eq s (codes "published")
    then ok published
    else if bytes_eq s (codes "draft")
    then ok draft
    else if bytes_eq s (codes "archived")
    then ok archived
    else err bad_status

pub record Post : Type 0 where
  pub id : ℤ
  pub title : Bytes
  pub date : Bytes
  pub status : Status
  pub author_id : Option ℤ
  pub description : Option Bytes

unfoldable pub validate_post : Post → Option Invalid
validate_post p =
    if negative p.id
    then some bad_id
    else if too_long p.title
    then some long_title
    else if length p.title == 0
    then some no_title
    else if too_long p.date
    then some bad_date
    else if negative_id p.author_id
    then some bad_author
    else if too_long_text p.description
    then some long_description
    else none

unfoldable pub post : Post → Result Post
unfolding checked
post p = checked (validate_post p) p

pub record Comment : Type 0 where
  pub id : ℤ
  pub content : Bytes
  pub date : Bytes
  pub post_id : ℤ
  pub author_id : Option ℤ

unfoldable pub validate_comment : Comment → Option Invalid
validate_comment c =
    if negative c.id
    then some bad_id
    else if too_long c.content
    then some long_content
    else if length c.content == 0
    then some no_content
    else if too_long c.date
    then some bad_date
    else if negative c.post_id
    then some bad_post
    else if negative_id c.author_id
    then some bad_author
    else none

unfoldable pub comment : Comment → Result Comment
unfolding checked
comment c = checked (validate_comment c) c

pub record Tag : Type 0 where
  pub id : ℤ
  pub name : Bytes

unfoldable pub validate_tag : Tag → Option Invalid
validate_tag t =
    if negative t.id
    then some bad_id
    else if too_long t.name
    then some long_name
    else if length t.name == 0
    then some no_name
    else none

unfoldable pub tag : Tag → Result Tag
unfolding checked
tag t = checked (validate_tag t) t

-- the bounds that the constructors keep
pub record IsUser (u : User) : Type 0 where
  pub id : negative u.id ≡ false
  pub email : too_long u.email ≡ false
  pub some_email : length u.email ≢ 0
  pub date : too_long u.date ≡ false

pub record IsPost (p : Post) : Type 0 where
  pub id : negative p.id ≡ false
  pub title : too_long p.title ≡ false
  pub some_title : length p.title ≢ 0
  pub date : too_long p.date ≡ false
  pub author : negative_id p.author_id ≡ false
  pub description : too_long_text p.description ≡ false

checked-ok : {A : Type 0} (e : Option Invalid) (a b : A) → checked e a ≡ ok b → (e ≡ none) × (a ≡ b)
unfolding checked
checked-ok none a b h = (refl, cc h)
checked-ok (some e) a b h = cc h

validate_user-none : (u : User) → validate_user u ≡ none → IsUser u
unfolding validate_user
validate_user-none u h = record {
  id = ground arith;
  email = ground arith;
  some_email = ground arith;
  date = ground arith;
}

validate_post-none : (p : Post) → validate_post p ≡ none → IsPost p
unfolding validate_post
validate_post-none p h = record {
  id = ground arith;
  title = ground arith;
  some_title = ground arith;
  date = ground arith;
  author = ground arith;
  description = ground arith;
}

pub user-IsUser : (u v : User) → user u ≡ ok v → IsUser v
unfolding user
user-IsUser u v h =
    let (e, same) = checked-ok (validate_user u) u v h in subst IsUser same (validate_user-none u e)

pub post-IsPost : (p q : Post) → post p ≡ ok q → IsPost q
unfolding post
post-IsPost p q h =
    let (e, same) = checked-ok (validate_post p) p q h in subst IsPost same (validate_post-none p e)

-- `StringToStatus` gives a status exactly for the text that `StatusToString` makes of it, and
-- throws on all others.
pub string_to_status_iff :
    (s : Bytes) (status : Status) → (string_to_status s ≡ ok status) ↔ (s ≡ status_to_string status)
unfolding string_to_status status_to_string
string_to_status_iff s status = (back status, λ e. rw e (there status))
  where
    back : (status : Status) → string_to_status s ≡ ok status → s ≡ status_to_string status
    back draft h = ground (arith, h, bytes_eq→eq s (codes "draft"))
    back published h = ground (arith, h, bytes_eq→eq s (codes "published"))
    back archived h = ground (arith, h, bytes_eq→eq s (codes "archived"))

    there : (status : Status) → string_to_status (status_to_string status) ≡ ok status
    there draft = unfold bytes_eq in refl
    there published = unfold bytes_eq in refl
    there archived = unfold bytes_eq in refl
