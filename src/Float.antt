-- ===== src/Float.antt =====
-- Go's float64, by the operations that the program uses. NaN is the value that is not `<=` itself.
pub mod Order
pub mod Fixed
pub use Order.*
