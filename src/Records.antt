-- ===== src/Records.antt =====
-- records.rs: the records that the file service and the replication share.
use rust_api.Prelude.{String, ℕ, ℤ}

pub record FileRecord : Type 0 where
  pub id : String
  pub name : String
  pub mimetype : String
  pub size : ℕ
  pub s3_key : String
  pub owner_sub : String
  pub created_at : ℤ

pub data WalOp : Type 0 where
  policy_add policy_remove : String → WalOp
  policy_rule_add policy_rule_remove : String → String → String → WalOp
  group_add group_remove : String → String → WalOp
  group_delete : String → WalOp
  attach detach : String → String → String → WalOp
  file_create : FileRecord → WalOp
  file_delete : String → WalOp

pub record WalEntry : Type 0 where
  pub seq : ℕ
  pub op : WalOp
  pub ts : ℤ
