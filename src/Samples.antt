-- ===== src/Samples.antt =====
-- Concrete objects and concrete functions for the parameters of the model, for the tests.
pub mod Objects
pub mod Parameters
