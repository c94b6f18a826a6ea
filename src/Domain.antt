-- ===== src/Domain.antt =====
-- packages/server/src/domain: the data that the parts of the server exchange.
-- An instant that the sources keep as a text of `toISOString` is a number: texts of that fixed form
-- compare as the instants do.
pub mod Sync
pub mod Membership
pub mod Billing
