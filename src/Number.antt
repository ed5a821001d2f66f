-- ===== src/Number.antt =====
-- What the program does with a `float` or a `Decimal`. Neither is defined in the repository: a type
-- of numbers is a parameter of every module that computes with one.
mod Laws
mod Sums
mod Fixed
pub use Laws.*
pub use Sums.*
pub use Fixed.*
