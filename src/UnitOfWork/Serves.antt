-- ===== src/UnitOfWork/Serves.antt =====
-- PostgresUnitOfWork.cc: any sequence of calls, against a transaction that is open or not.
use stud_stuff.Base.{Bool, true, false, List, [], ◌∷◌, none, some, ◌≡◌, refl, arith, if◌then◌else◌}
use stud_stuff.UnitOfWork.{
  UnitOfWork, not_started, Opening, opened, txn_throws, user_throws, post_throws, tag_throws, new,
  open_all, begin, cleanup, commit, rollback, users, posts, tags, comments,
}

-- a call that changes the state, with what the database does
pub data Call : Type 0 where
  begins : Opening → Call
  commits : Bool → Call
  rolls_back : Bool → Call

unfoldable pub call : UnitOfWork → Call → UnitOfWork
call u (begins opening) = (begin u opening).0
call u (commits well) = (commit u well).0
call u (rolls_back well) = (rollback u well).0

unfoldable pub run : UnitOfWork → List Call → UnitOfWork
run u [] = u
run u (c ∷ cs) = run (call u c) cs

-- The transaction is open from a `Begin` in which nothing throws to the next `Commit` or
-- `Rollback`, whether the database follows these or throws.
unfoldable pub opens : Bool → Call → Bool
opens was (begins opened) = true
opens was (begins txn_throws) = was
opens was (begins user_throws) = was
opens was (begins post_throws) = was
opens was (begins tag_throws) = was
opens was (commits well) = false
opens was (rolls_back well) = false

unfoldable pub is_open : Bool → List Call → Bool
is_open was [] = was
is_open was (c ∷ cs) = is_open (opens was c) cs

-- The unit of work has what the open transaction needs, and never a repository of comments.
record Agrees (u : UnitOfWork) (was : Bool) : Type 0 where
  active : u.is_active ≡ was
  held :
      was ≡ true
      → (u.txn ≡ true) × (u.user_repo ≡ true) × (u.post_repo ≡ true) × (u.tag_repo ≡ true)
  no_comments : u.comment_repo ≡ false

-- what the calls for the repositories answer
pub record Serves (u : UnitOfWork) (was : Bool) : Type 0 where
  pub serves_users : users u ≡ (if was then none else some not_started)
  pub serves_posts : posts u ≡ (if was then none else some not_started)
  pub serves_tags : tags u ≡ (if was then none else some not_started)
  pub refuses_comments : comments u ≡ some not_started

-- a state without a transaction
closed : (u : UnitOfWork) → u.is_active ≡ false → u.comment_repo ≡ false → Agrees u false
closed u idle empty = record {
  active = idle;
  held = λ e. absurd (ground (arith, e));
  no_comments = empty;
}

-- a state with a transaction
still : (u : UnitOfWork) → Agrees u true → Agrees (record u { is_active = true }) true
still u a = record { active = refl; held = a.held; no_comments = a.no_comments }

call-Agrees :
    (u : UnitOfWork) (was : Bool) (c : Call) → Agrees u was → Agrees (call u c) (opens was c)
unfolding call opens begin open_all commit rollback cleanup
call-Agrees u true (begins opened) a = rw a.active (still u a)
call-Agrees u true (begins txn_throws) a = rw a.active (still u a)
call-Agrees u true (begins user_throws) a = rw a.active (still u a)
call-Agrees u true (begins post_throws) a = rw a.active (still u a)
call-Agrees u true (begins tag_throws) a = rw a.active (still u a)
call-Agrees u false (begins opened) a =
    rw a.active
      (record { active = refl; held = λ e. (refl, refl, refl, refl); no_comments = a.no_comments })
call-Agrees u false (begins txn_throws) a = rw a.active (closed _ refl a.no_comments)
call-Agrees u false (begins user_throws) a = rw a.active (closed _ refl a.no_comments)
call-Agrees u false (begins post_throws) a = rw a.active (closed _ refl a.no_comments)
call-Agrees u false (begins tag_throws) a = rw a.active (closed _ refl a.no_comments)
call-Agrees u true (commits well) a =
    let (txn, _, _, _) = a.held refl in rw (a.active, txn) (closed (cleanup u) refl a.no_comments)
call-Agrees u false (commits well) a = rw a.active (closed _ refl a.no_comments)
call-Agrees u true (rolls_back well) a =
    let (txn, _, _, _) = a.held refl in rw (a.active, txn) (closed (cleanup u) refl a.no_comments)
call-Agrees u false (rolls_back well) a = rw a.active (closed (cleanup u) refl a.no_comments)

run-Agrees :
    (u : UnitOfWork) (was : Bool) (cs : List Call)
    → Agrees u was
    → Agrees (run u cs) (is_open was cs)
unfolding run is_open
run-Agrees u was [] a = a
run-Agrees u was (c ∷ cs) a = run-Agrees (call u c) (opens was c) cs (call-Agrees u was c a)

Agrees-Serves : (u : UnitOfWork) (was : Bool) → Agrees u was → Serves u was
unfolding users posts tags comments
Agrees-Serves u true a =
    let (_, user, post, tag) = a.held refl in
    record {
      serves_users = rw (a.active, user) refl;
      serves_posts = rw (a.active, post) refl;
      serves_tags = rw (a.active, tag) refl;
      refuses_comments = rw (a.active, a.no_comments) refl;
    }
Agrees-Serves u false a = record {
  serves_users = rw a.active refl;
  serves_posts = rw a.active refl;
  serves_tags = rw a.active refl;
  refuses_comments = rw a.active refl;
}

-- After any calls of `Begin`, `Commit` and `Rollback` on a new unit of work, whatever the
-- database does with them, `Users`, `Posts` and `Tags` give their repositories exactly while the
-- transaction is open, and throw otherwise; `Comments` throws at any time, also in an open
-- transaction.
pub run-Serves : (cs : List Call) → Serves (run new cs) (is_open false cs)
unfolding new
run-Serves cs = Agrees-Serves (run new cs) (is_open false cs) (
    run-Agrees new false cs
      (record { active = refl; held = λ e. absurd (ground (arith, e)); no_comments = refl }))
