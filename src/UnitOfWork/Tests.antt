-- ===== src/UnitOfWork/Tests.antt =====
-- PostgresUnitOfWork.cc: a transaction that is begun, and one that could not be.
use stud_stuff.Base.{true, false, List, [], ◌∷◌, none, some, ◌≡◌, refl}
use stud_stuff.UnitOfWork.Serves.{
  Call, begins, commits, rolls_back, call, run, is_open, Serves, run-Serves,
}
use stud_stuff.UnitOfWork.{
  opened, tag_throws, not_started, new, open_all, begin, cleanup, commit, rollback, users, comments,
}

abbrev calls : List Call
calls = begins tag_throws ∷ rolls_back true ∷ begins opened ∷ commits false ∷ begins opened ∷ []

users_open : users (run new calls) ≡ none
unfolding run call new begin open_all commit rollback cleanup users
users_open = refl

comments_open : comments (run new calls) ≡ some not_started
unfolding run call new begin open_all commit rollback cleanup comments
comments_open = refl

run-Serves_example : Serves (run new calls) (is_open false calls)
run-Serves_example = run-Serves calls
