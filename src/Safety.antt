-- ===== src/Safety.antt =====
-- internal/safety: the statement allowlist that gates every command that reaches a cluster, the
-- error that reports a rejection, and the LIMIT that is added to an unbounded SELECT.
pub mod Mode
pub mod Statement
pub mod Allowlist
pub mod Gate
pub mod Envelope
pub mod Limit
