-- ===== src/Tables/Op.antt =====
-- crates/ubiquisync-tables/src/op.rs: the table operations, over a type `V` of values.
-- Table and column ids are their u16 and u8 bit patterns.
use ubiquisync.Prelude.{ℕ, ◌≡◌, ◌↔◌, List, Bool, true, false}

pub record ColumnSet (V : Type 0) : Type 0 where
  pub column_id : ℕ
  pub value : V

pub record Upsert (V : Type 0) : Type 0 where
  pub table_id : ℕ
  pub primary_key : List V
  pub sets : List (ColumnSet V)
  pub nulls : List ℕ

pub record Delete (V : Type 0) : Type 0 where
  pub table_id : ℕ
  pub primary_key : List V

pub data Op (V : Type 0) : Type 0 where
  upsert : Upsert V → Op V
  delete : Delete V → Op V

-- How the database compares values: `a > b`, equality of values, and the equality of primary keys
-- by which a row conflicts. Only values of one column, and so of one type, are ever compared.
pub record Compare (V : Type 0) : Type 0 where
  pub gt : V → V → Bool
  pub same_key : List V → List V → Bool
  pub gt_irrefl : (a : V) → gt a a ≡ false
  pub gt_trans : (a b c : V) → gt a b ≡ true → gt b c ≡ true → gt a c ≡ true
  pub gt_total : (a b : V) → gt a b ≡ false → gt b a ≡ false → a ≡ b
  pub same_key_iff : (k j : List V) → (same_key k j ≡ true) ↔ (k ≡ j)
