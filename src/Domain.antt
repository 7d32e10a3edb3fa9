-- ===== src/Domain.antt =====
-- internal/domain: the errors and the results that the components hand to one another.
pub mod Errors
pub mod Result
