-- ===== src/Intent.antt =====
-- The intent service (intent/): the taxonomy, the classifier by keywords, and the one that puts a
-- transformer before it.
pub mod Taxonomy
pub mod Rules
pub mod Classifier
