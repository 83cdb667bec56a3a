-- ===== src/Relations.antt =====
-- The relations of a model's objects: tortoise/fields/relational.py.
pub mod ManyToMany
