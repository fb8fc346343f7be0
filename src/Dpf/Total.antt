-- ===== src/Dpf/Total.antt =====
-- That key generation and evaluation return results, for an object that was set up consistently.
pub mod Generates
pub mod Validates
pub mod Evaluates
use distributed_point_functi.Base.{ℕ, ◌*◌, ◌≤◌, ◌<◌, ◌≡◌, length, some}
use distributed_point_functi.Values.{ElementType}
use distributed_point_functi.Values.Bytes.Enough.{bytes_read}
use distributed_point_functi.Dpf.{Dpf, blocks, find}
use distributed_point_functi.Dpf.Correct.Level.{IsLevel}

-- An object whose hierarchy levels are all set up, level h with outputs of type `types h`.
pub record IsDpf (d : Dpf) (types : ℕ → ElementType) : Type 0 where
  pub some_level : 0 < length d.parameters
  pub same_size : length d.hierarchy_to_tree ≡ length d.parameters
  pub maps_back : (level h : ℕ) → find level d.tree_to_hierarchy ≡ some h → h < length d.parameters
  pub levels : (h : ℕ) → h < length d.parameters → IsLevel d (types h) h
  pub enough_blocks : (h : ℕ) → h < length d.parameters → bytes_read (types h) ≤ 16 * blocks d h
