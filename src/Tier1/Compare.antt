-- ===== src/Tier1/Compare.antt =====
-- The comparisons of src/pg_jit_funcs.c, and that each family of them is a total order.
pub mod Integers
pub mod Scalars
pub mod Order
pub mod Select
pub mod Sorts
pub mod Btree
pub mod ThreeWay
