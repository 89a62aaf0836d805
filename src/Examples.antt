-- ===== src/Examples.antt =====
-- The example results of html/examples, over any type of numbers: one file whole, and two of the
-- four scenarios of the other; and the specifications there.
pub mod Sample
pub mod PublishConsume
pub mod NoAck
pub mod Sizes
pub mod Specifications
