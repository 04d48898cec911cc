-- ===== src/Api.antt =====
-- The objects that the parts of zeropod exchange through the Kubernetes API: the migrations of
-- api/runtime/v1/types.go and the fields of pods and nodes that the code reads.
pub mod Migrations
pub mod Objects
