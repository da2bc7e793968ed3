-- ===== src/Terms.antt =====
-- The expressions of src/expr/common.go, case.go, expr_chain.go, cast.go, funcs.go and
-- funcs_impl.go, and the chain of expr_logical.go; an expression of another type is a parameter.
pub mod Values
pub mod Functions
pub mod Casts
pub mod Data
pub mod Build
pub mod Resolve
pub mod Written
pub mod Matched
pub mod Parts
pub mod Casting
pub mod Fresh
pub mod Copies
pub mod Sound
pub mod Heads
pub mod Resolved
pub mod Overfull
mod Tests
