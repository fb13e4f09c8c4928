-- ===== src/PodArray.antt =====
-- utils/PODArray.h: the growable array `PODArray`.
pub mod Sizes
pub mod Storage
pub mod Elements
