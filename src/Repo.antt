-- ===== src/Repo.antt =====
-- vad/repo: unified diffs, the files of a workspace, and proposals to change them.
pub mod Patch
pub mod Apply
pub mod Proposal
