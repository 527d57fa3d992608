-- ===== src/Go.antt =====
-- What the model takes from Go and its standard library: errors, readers and writers.
pub mod Error
pub mod Result
pub mod Reader
pub mod Writer
pub mod Settled
pub mod Text
pub mod Int
pub mod Yields
pub mod Spends
pub mod Splits
