-- ===== src/Linux.antt =====
-- The generated code for Linux, messi/c_source/templates/linux.
pub mod Client
pub mod Server
