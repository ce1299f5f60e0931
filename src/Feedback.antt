-- ===== src/Feedback.antt =====
-- vad/feedback: proposals that change an EIP.
pub mod Proposals
