-- ===== src/Feedback.antt =====
-- The form's service: src/feedback.
pub mod Validator
pub mod Random
pub mod Notify
pub mod Forms
pub mod Service
