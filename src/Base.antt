-- ===== src/Base.antt =====
-- The names that the other modules share: the libraries', passed on, Boolean tests on numbers,
-- lists indexed by numbers, congruence, and what C gives every function: bytes and nullable
-- pointers.
mod Names
mod Tests
mod Lists
mod Memory
mod Congruence
mod Outcome
pub mod Fermat
pub mod Inversion
pub mod Euler
pub mod Options
pub mod Order
pub mod Powers
pub use Names.*
pub use Tests.*
pub use Lists.*
pub use Memory.*
pub use Congruence.*
pub use Outcome.*
