-- ===== src/Resolver.antt =====
-- pkg/resolver: how a query is evaluated against an object.
pub mod Values
pub mod Unstructured
pub mod Cel
