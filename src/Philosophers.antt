-- ===== src/Philosophers.antt =====
-- 42_philosophers/philo: the check of the arguments, the table, and the threads as steps that the
-- scheduler orders as it likes.
pub mod Input
pub mod Table
pub mod Step
mod Tests
