-- ===== src/UnitOfWork.antt =====
-- m7-dbms/cpp-app/src/infrastructure/db/PostgresUnitOfWork.cc: a transaction and the repositories
-- that work in it. What the database does with a call is an argument: `pqxx` is outside.
pub mod Serves
mod Tests
use stud_stuff.Base.{Bool, true, false, not, ◌&&◌, ◌||◌, Option, none, some, if◌then◌else◌}

-- which of the pointers hold an object, and the flag
pub record UnitOfWork : Type 0 where
  pub txn : Bool
  pub is_active : Bool
  pub user_repo : Bool
  pub post_repo : Bool
  pub tag_repo : Bool
  pub comment_repo : Bool

-- the exceptions, by their messages
pub data Thrown : Type 0 where
  already_active begin_failed no_transaction commit_failed rollback_failed not_started : Thrown

-- what the objects that `Begin` makes throw: nothing, or one of them an exception
pub data Opening : Type 0 where
  opened : Opening
  txn_throws user_throws post_throws tag_throws : Opening

-- a unit of work on a connection
unfoldable pub new : UnitOfWork
new = record {
  txn = false;
  is_active = false;
  user_repo = false;
  post_repo = false;
  tag_repo = false;
  comment_repo = false;
}

-- The `try` of `Begin` and its handler, which leaves what was made before the exception.
unfoldable pub open_all : UnitOfWork → Opening → UnitOfWork × Option Thrown
open_all u txn_throws = (record u { is_active = false }, some begin_failed)
open_all u user_throws = (record u { txn = true; is_active = false }, some begin_failed)
open_all u post_throws =
    (record u { txn = true; is_active = false; user_repo = true }, some begin_failed)
open_all u tag_throws = (
  record u { txn = true; is_active = false; user_repo = true; post_repo = true },
  some begin_failed,
)
open_all u opened = (
  record u { txn = true; is_active = true; user_repo = true; post_repo = true; tag_repo = true },
  none,
)

-- `Begin`
unfoldable pub begin : UnitOfWork → Opening → UnitOfWork × Option Thrown
begin u opening = if u.is_active then (u, some already_active) else open_all u opening

-- `Cleanup`, which leaves `comment_repo_` alone
unfoldable pub cleanup : UnitOfWork → UnitOfWork
cleanup u = record u {
  is_active = false;
  user_repo = false;
  post_repo = false;
  tag_repo = false;
  txn = false;
}

-- `Commit`, where the database commits or throws
unfoldable pub commit : UnitOfWork → Bool → UnitOfWork × Option Thrown
commit u commits =
    if not u.is_active || not u.txn
    then (u, some no_transaction)
    else (cleanup u, if commits then none else some commit_failed)

-- `Rollback`, where the database aborts or throws
unfoldable pub rollback : UnitOfWork → Bool → UnitOfWork × Option Thrown
rollback u aborts =
    if not u.is_active || not u.txn
    then (cleanup u, none)
    else (cleanup u, if aborts then none else some rollback_failed)

-- `Users`, `Posts`, `Tags` and `Comments`: whether they throw
unfoldable pub users : UnitOfWork → Option Thrown
users u = if not u.is_active || not u.user_repo then some not_started else none

unfoldable pub posts : UnitOfWork → Option Thrown
posts u = if not u.is_active || not u.post_repo then some not_started else none

unfoldable pub tags : UnitOfWork → Option Thrown
tags u = if not u.is_active || not u.tag_repo then some not_started else none

unfoldable pub comments : UnitOfWork → Option Thrown
comments u = if not u.is_active || not u.comment_repo then some not_started else none
