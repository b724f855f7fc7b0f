-- ===== src/Json.antt =====
-- The values that `json.loads` returns, as the tool reads them through
-- src/cuda_fractal_state_tool/json_utils.py, with Python's `==` and `<` on them.
pub mod Document
pub mod Equality
pub mod Paths
