-- ===== src/Limiters.antt =====
-- src/limiters.rs and src/limiters/quota_limiter.rs: the limiting algorithms, one to a module.
-- Each has its operations as whole functions of the state, and where threads share atomics, also as
-- moves of one atomic access each.
pub mod Cost
pub mod TokenBucket
pub mod FixedWindow
pub mod SlidingWindow
pub mod Quota
