-- ===== src/Agent/Comparison.antt =====
-- The typed result of a text comparison, `TextDiffBlockV1` and `TextComparisonV1` of
-- backend/src/domain/main_agent.py.
use oper_mind.Base.{ℕ, String, Option, List}

pub data BlockKind : Type 0 where
  added deleted modified : BlockKind

-- One side of a block: its lines, numbered from 1, both ends included, and the quote.
pub record Side : Type 0 where
  pub start : Option ℕ
  pub finish : Option ℕ
  pub lines : Option (List String)
  pub quote : Option String

pub record TextDiffBlock : Type 0 where
  pub kind : BlockKind
  pub a : Side
  pub b : Side

pub data ComparisonStatus : Type 0 where
  no_difference has_difference : ComparisonStatus

pub record TextComparison : Type 0 where
  pub run_id : ℕ
  pub a_material_id : ℕ
  pub b_material_id : ℕ
  pub capability_id : String
  pub capability_version : ℕ
  pub rule_version : String
  pub status : ComparisonStatus
  pub blocks : List TextDiffBlock
