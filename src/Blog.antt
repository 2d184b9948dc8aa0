-- ===== src/Blog.antt =====
-- m7-dbms/cpp-app/src: the entities, the repositories and the use cases of the blog.
pub mod Entities
pub mod Repositories
pub mod UseCases
pub mod Tags
pub mod Quotes
mod Tests
