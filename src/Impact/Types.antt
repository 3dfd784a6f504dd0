-- ===== src/Impact/Types.antt =====
-- The records of src/kernel/intelligence-types.ts that the impact analysis reads and writes. A
-- confidence, a number from 0 to 1 in the source, is in hundredths.
use Prim.Native.String.{String}
use uads.Common.{ℕ, Bool, true, false, Option, none, some}
use uads.Kernel.Types.{ContextRadius, c0, c1, c2, c3, c4, c5}

pub data EdgeType : Type 0 where
  imports requires dynamic_import test_of configures documents interface_reference
        manifest_reference :
      EdgeType

pub data ImpactRelation : Type 0 where
  direct dependency dependent test interface documentation config : ImpactRelation

pub record GraphEdge : Type 0 where
  pub edge_type : EdgeType
  pub source : String
  pub target : String
  pub method : String
  pub confidence : ℕ

pub record ImpactItem : Type 0 where
  pub path : String
  pub relation : ImpactRelation
  pub reason : String
  pub confidence : ℕ
  pub hops : ℕ

-- `CODE_DEP_TYPES`
abbrev pub is_code_dependency : EdgeType → Bool
is_code_dependency imports = true
is_code_dependency requires = true
is_code_dependency dynamic_import = true
is_code_dependency test_of = false
is_code_dependency configures = false
is_code_dependency documents = false
is_code_dependency interface_reference = false
is_code_dependency manifest_reference = false

-- `STRUCTURAL_TYPES`
abbrev pub is_structural : EdgeType → Bool
is_structural imports = false
is_structural requires = false
is_structural dynamic_import = false
is_structural test_of = false
is_structural configures = true
is_structural documents = true
is_structural interface_reference = false
is_structural manifest_reference = true

abbrev pub edge_text : EdgeType → String
edge_text imports = "imports"
edge_text requires = "requires"
edge_text dynamic_import = "dynamic-import"
edge_text test_of = "test-of"
edge_text configures = "configures"
edge_text documents = "documents"
edge_text interface_reference = "interface-reference"
edge_text manifest_reference = "manifest-reference"

-- `hopsForRadius`; no hops at all, `-1` in the source, is `none`.
pub record HopLimits : Type 0 where
  pub dep_hops : Option ℕ
  pub include_local : Bool
  pub include_all : Bool

abbrev limits : Option ℕ → Bool → Bool → HopLimits
limits dep_hops include_local include_all = record {
  dep_hops = dep_hops;
  include_local = include_local;
  include_all = include_all;
}

unfoldable pub hops_for_radius : ContextRadius → HopLimits
hops_for_radius c0 = limits none false false
hops_for_radius c1 = limits (some 0) false false
hops_for_radius c2 = limits (some 0) true false
hops_for_radius c3 = limits (some 1) true false
hops_for_radius c4 = limits (some 2) true false
hops_for_radius c5 = limits (some 99) true true
