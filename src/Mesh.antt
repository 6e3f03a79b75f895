-- ===== src/Mesh.antt =====
-- What the components read of a mesh address (components/meshmesh): `espmeshmesh::MeshAddress` is a
-- class of the mesh library, of which only the fields that the source reads or writes stand here.
use esphome_meshmesh.Prelude.{ℕ, List, ◌+◌, ◌-◌, ◌%◌, ◌^◌}

pub record MeshAddress : Type 0 where
  pub port : ℕ
  pub address : ℕ
  pub repeaters : List ℕ
  pub source_protocol : ℕ

-- Subtraction of `uint32_t`.
abbrev pub sub32 : ℕ → ℕ → ℕ
sub32 a b = (a + 2 ^ 32 - b) % 2 ^ 32

-- Addition of `size_t`, 32 bits wide on these targets.
abbrev pub add32 : ℕ → ℕ → ℕ
add32 a b = (a + b) % 2 ^ 32
