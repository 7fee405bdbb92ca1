-- ===== src/NodeHelper.antt =====
-- internal/nodehelper/helper.go: the restricted helper that runs `scontrol`.
pub mod Scontrol
pub mod Inputs
pub mod Safety
